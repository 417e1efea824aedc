-- ===== src/Socket/Endpoints.antt =====
-- Opening, binding, moving and closing sockets. `_socket` is the handle that libzmq answered, and
-- `none` is `nullptr`. What libzmq answers is an argument: a handle or an error number from
-- `zmq_socket`, and an error number from the other calls when they fail. The handles that are open
-- in libzmq are a list. The receive buffer is left out.
pub mod Ownership
use zmqpp_pty.Socket.Transfer.{RecvAnswer, arrived, failed, eagain, eintr}
use zmqpp_pty.Base.{
  ℕ, zero, suc, Bool, true, false, List, [], ◌∷◌, Option, none, some, if◌then◌else◌, ◌==◌, Result,
  ok, err, zmq_internal, assertion,
}

abbrev pub Handle : Type 0
Handle = Option ℕ

-- `zmq_socket`, and the constructor: the open handles, and the new object.
pub data Opening : Type 0 where
  opened : ℕ → Opening
  refused : ℕ → Opening

unfoldable pub create : List ℕ → Opening → List ℕ × Result Handle
create handles (opened h) = (h ∷ handles, ok (some h))
create handles (refused e) = (handles, err (zmq_internal e))

-- `bind`, `unbind`, `connect`, `disconnect`, `monitor` and `unmonitor`, by the error of the call.
unfoldable pub call_endpoint : Option ℕ → Result (Unit {0})
call_endpoint none = ok tt
call_endpoint (some e) = err (zmq_internal e)

-- `zmq_close` of a handle.
unfoldable pub remove : ℕ → List ℕ → List ℕ
remove h [] = []
remove h (g ∷ handles) = if h == g then handles else g ∷ remove h handles

abbrev pub enotsock : ℕ
enotsock = 88

-- `close`: the open handles, the object, and how the call ends; closing `nullptr` fails.
unfoldable pub close : List ℕ → Handle → Option ℕ → List ℕ × (Handle × Result (Unit {0}))
unfolding remove
close handles none failure = (handles, (none, err (zmq_internal enotsock)))
close handles (some h) none = (remove h handles, (none, ok tt))
close handles (some h) (some e) = (handles, (some h, err (zmq_internal e)))

-- The destructor, which asserts that the handle could be closed.
unfoldable pub destroy : List ℕ → Handle → Option ℕ → List ℕ × Result (Unit {0})
unfolding remove
destroy handles none failure = (handles, ok tt)
destroy handles (some h) none = (remove h handles, ok tt)
destroy handles (some h) (some e) = (handles, err assertion)

-- The move constructor: the new object and the source; the move assignment: target and source.
unfoldable pub move_construct : Handle → Handle × Handle
move_construct source = (source, none)

unfoldable pub move_assign : Handle → Handle → Handle × Handle
move_assign target source = (source, target)

abbrev pub is_open : Handle → Bool
is_open none = false
is_open (some h) = true

-- `receive_raw`: the bytes that reach a buffer of `n` bytes, or none if nothing is there.
unfoldable pub prefix : ℕ → List ℕ → List ℕ
prefix zero bs = []
prefix (suc n) [] = []
prefix (suc n) (b ∷ bs) = b ∷ prefix n bs

unfoldable pub receive_raw : ℕ → RecvAnswer → Result (Option (List ℕ))
unfolding prefix
receive_raw n (arrived bs more) = ok (some (prefix n bs))
receive_raw n (failed e) =
    if e == eagain then ok none else if e == eintr then ok none else err (zmq_internal e)
