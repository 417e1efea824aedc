-- ===== src/Socket/Transfer.antt =====
-- `send` and `receive` of socket.cpp. libzmq is an argument: what each call of `zmq_msg_send` or
-- `zmq_msg_recv` answers, an error being the `zmq_errno()` that the code then reads.
use Prim.Native.Nat.{bit_or}
use zmqpp_pty.Base.{
  ℕ, zero, suc, ◌-◌, Bool, true, false, ◌&&◌, List, [], ◌∷◌, ◌++◌, Bytes, Option, none, some, ltb,
  ◌==◌, if◌then◌else◌, get_elem?, set, Result, ok, err, zmq_internal, invalid_argument, assertion,
}
use zmqpp_pty.Message.Frames.{Frame, frame}
use zmqpp_pty.Message.{Message, empty, parts, sent}

-- The constants of errno.h and zmq.h.
abbrev pub eagain : ℕ
eagain = 11

abbrev pub eintr : ℕ
eintr = 4

abbrev pub normal : ℕ
normal = 0

abbrev pub dont_wait : ℕ
dont_wait = 1

abbrev pub send_more : ℕ
send_more = 2

pub data SendAnswer : Type 0 where
  accepted : SendAnswer
  refused : ℕ → SendAnswer

-- A part that libzmq took, and the flags that it was sent with.
pub record Transmission : Type 0 where
  pub contents : Bytes
  pub flags : ℕ

pub record SendRun : Type 0 where
  pub result : Result Bool
  pub message : Message
  pub out : List Transmission

-- The flags of part `i` of `n`.
abbrev pub flags_of : Bool → ℕ → ℕ → ℕ
flags_of dw i n =
    bit_or (bit_or normal (if dw then dont_wait else 0)) (if ltb i (n - 1) then send_more else 0)

-- libzmq empties a message that it accepts.
abbrev pub taken : Message → ℕ → Message
taken m i = elim (get_elem? m.frames i) [
  | none ↦ m
  | some f ↦ record m { frames = set m.frames i (record f { contents = [] }) }
]

abbrev pub frame_bytes : Option Frame → Bytes
frame_bytes none = []
frame_bytes (some f) = f.contents

abbrev pub contents_at : Message → ℕ → Bytes
contents_at m i = frame_bytes (get_elem? m.frames i)

unfoldable pub emit : Transmission → SendRun → SendRun
emit t r = record r { out = t ∷ r.out }

stop : Message → Result Bool → SendRun
stop m r = record { result = r; message = m; out = [] }

-- The body of the loop at part `i`, given the run of the parts after it.
after_sent : Result Message → Message → (Message → SendRun) → SendRun
unfolding stop
after_sent (ok m) m₀ rest = rest m
after_sent (err e) m₀ rest = stop m₀ (err e)

on_answer : SendAnswer → ℕ → ℕ → Bool → Message → (Bool → Message → SendRun) → SendRun
unfolding emit stop after_sent sent
on_answer accepted i n dw m rest =
    emit (record { contents = contents_at m i; flags = flags_of dw i n })
      (after_sent (sent (taken m i) i) (taken m i) (rest dw))
on_answer (refused e) i n dw m rest =
    if i == 0 && e == eagain
    then stop m (ok false)
    else if e == eintr
    then (if i == 0 then stop m (ok false) else rest true m)
    else if e == eagain
    then stop m (err assertion)
    else stop m (err (zmq_internal e))

-- The loop over the parts from `i` on, `left` of them; at its end the message is swapped away.
unfoldable pub send_loop : (ℕ → SendAnswer) → ℕ → ℕ → ℕ → Bool → Message → SendRun
unfolding on_answer stop
send_loop net n zero i dw m = stop empty (ok true)
send_loop net n (suc left) i dw m =
    on_answer (net i) i n dw m (λ dw' m'. send_loop net n left (suc i) dw' m')

unfoldable pub send : (ℕ → SendAnswer) → Message → Bool → SendRun
unfolding send_loop stop
send net m dont_block =
    if parts m == 0
    then stop m (err (invalid_argument "sending requires messages have at least one part"))
    else send_loop net (parts m) (parts m) 0 dont_block m

-- A part with what `get(socket_option::receive_more, …)` then answers, or an error.
pub data RecvAnswer : Type 0 where
  arrived : Bytes → Result Bool → RecvAnswer
  failed : ℕ → RecvAnswer

-- A call that has used up the answers is still waiting for libzmq.
pub data Call {ℓ} (A : Type ℓ) : Type ℓ where
  returned : Result A → Call A
  waiting : Call A

pub record RecvRun : Type 0 where
  pub result : Call Bool
  pub message : Message
  pub answers : List RecvAnswer

abbrev received : Message → Bytes → Message
received m bs = record m { frames = m.frames ++ frame bs ∷ [] }

done : Result Bool → Message → List RecvAnswer → RecvRun
done r m later = record { result = returned r; message = m; answers = later }

on_arrival : Result Bool → Message → List RecvAnswer → RecvRun → RecvRun
unfolding done
on_arrival (ok true) m later rest = rest
on_arrival (ok false) m later rest = done (ok true) m later
on_arrival (err e) m later rest = done (err e) m later

on_failure : ℕ → Message → List RecvAnswer → RecvRun → RecvRun
unfolding done
on_failure e m later rest =
    if parts m == 0 && e == eagain
    then done (ok false) m later
    else if e == eintr
    then (if parts m == 0 then done (ok false) m later else rest)
    else if e == eagain
    then done (err assertion) m later
    else done (err (zmq_internal e)) m later

unfoldable pub receive_loop : List RecvAnswer → Message → RecvRun
unfolding on_arrival on_failure
receive_loop [] m = record { result = waiting; message = m; answers = [] }
receive_loop (arrived bs more ∷ later) m =
    on_arrival more (received m bs) later (receive_loop later (received m bs))
receive_loop (failed e ∷ later) m = on_failure e m later (receive_loop later m)

-- An old message with parts is swapped away first.
unfoldable pub receive : List RecvAnswer → Message → RecvRun
unfolding receive_loop
receive later m = receive_loop later (if parts m == 0 then m else empty)

-- `send_raw` and the string overload: one call, with the given flags.
unfoldable pub send_raw : SendAnswer → Result Bool
send_raw accepted = ok true
send_raw (refused e) =
    if e == eagain then ok false else if e == eintr then ok false else err (zmq_internal e)

-- The string overload of `receive`: the string is written only when a part arrived.
unfoldable pub receive_string : RecvAnswer → Bytes → Result Bool × Bytes
receive_string (arrived bs more) old = (ok true, bs)
receive_string (failed e) old =
    if e == eagain
    then (ok false, old)
    else if e == eintr
    then (ok false, old)
    else (err (zmq_internal e), old)
