-- ===== src/Context.antt =====
-- zmqpp/context.hpp and context.cpp: `_context` is libzmq's context, or `nullptr`. What the calls of
-- libzmq answer is an argument: 0, a value or a context for success, or an error number.
pub mod Termination
pub mod Lifetime
use Prim.Native.String.{String}
use zmqpp_pty.Base.{
  ℕ, Bool, true, false, not, List, [], ◌∷◌, Option, none, some, ◌==◌, if◌then◌else◌, Result, ok,
  err, exception, zmq_internal,
}
use zmqpp_pty.Socket.Transfer.{Call, returned, waiting, eintr}

pub record Context : Type 0 where
  pub context : Option ℕ

abbrev pub is_some : Option ℕ → Bool
is_some none = false
is_some (some c) = true

-- `operator bool`.
abbrev pub is_valid : Context → Bool
is_valid c = is_some c.context

abbrev pub null : Context
null = record { context = none }

-- What `zmq_ctx_new` answers, and the constructor.
pub data Created : Type 0 where
  created : ℕ → Created
  refused : ℕ → Created

unfoldable pub construct : Created → Result Context
construct (created c) = ok (record { context = some c })
construct (refused e) = err (zmq_internal e)

-- The move constructor: the new object and the source; the move assignment: target and source.
unfoldable pub move_construct : Context → Context × Context
move_construct source = (record { context = source.context }, null)

unfoldable pub move_assign : Context → Context → Context × Context
move_assign target source =
    (record { context = source.context }, record { context = target.context })

-- `throw invalid_instance("context is invalid")`, which is an `exception`.
abbrev pub invalid : {A : Type 0} → Result A
invalid = err (exception "context is invalid")

-- What `zmq_ctx_destroy` answers, call after call: 0 or an error number.
unfoldable pub terminate : Context → List ℕ → Context × Call (Unit {0}) × List ℕ
terminate c [] = (c, waiting, [])
terminate c (e ∷ later) =
    let retried = terminate c later in
    if e == 0
    then (null, returned (ok tt), later)
    else if e == eintr
    then retried
    else (c, returned (err (zmq_internal e)), later)

-- How a destructor that may not throw ends: an exception of it ends the program.
pub data Destruction : Type 0 where
  destroyed : Destruction
  ends_program : Destruction
  blocked : Destruction

destruction : Call (Unit {0}) → Destruction
destruction (returned (ok done)) = destroyed
destruction (returned (err e)) = ends_program
destruction waiting = blocked

unfoldable pub destroy : Context → List ℕ → Destruction × List ℕ
unfolding terminate destruction
destroy c answers =
    let out = terminate c answers in
    if is_valid c then (destruction out.1, out.2) else (destroyed, answers)

-- `set(option, value)`, by the answer of `zmq_ctx_set`.
unfoldable pub set_option : Context → ℕ → Result (Unit {0})
set_option c answer =
    if not (is_valid c) then invalid else if answer == 0 then ok tt else err (zmq_internal answer)

-- What `zmq_ctx_get` answers: a value that is not negative, or an error.
pub data Got : Type 0 where
  value : ℕ → Got
  failed : ℕ → Got

unfoldable pub get_option : Context → Got → Result ℕ
get_option c (value n) = if not (is_valid c) then invalid else ok n
get_option c (failed e) = if not (is_valid c) then invalid else err (zmq_internal e)
