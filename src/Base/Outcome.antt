-- ===== src/Base/Outcome.antt =====
-- What a call leaves by: a value, a thrown exception, or a failed assertion.
use Prim.Native.Nat.{ℕ}
use Prim.Native.String.{String}
use mathlib.Core.Option.{Option, none, some}

pub data Error : Type 0 where
  -- `throw exception(text)`
  exception : String → Error
  -- `throw std::invalid_argument(text)`
  invalid_argument : String → Error
  -- `throw zmq_internal_exception()`, with the `zmq_errno()` that it reads
  zmq_internal : ℕ → Error
  -- undefined behaviour: an access through an iterator or index past the end
  undefined : Error
  -- a failed `assert`
  assertion : Error

-- The caller sees either the exception or the value.
pub data Result {κ} (V : Type κ) : Type κ where
  err : Error → Result V
  ok : V → Result V

abbrev pub or_throw {κ} : {V : Type κ} → Option V → Error → Result V
or_throw (some value) missing = ok value
or_throw none missing = err missing

-- An exception skips the statements that follow.
infixl 5 ◌>>=◌ ◌>>◌
abbrev pub ◌>>=◌ {κ μ} : {V : Type κ} {W : Type μ} → Result V → (V → Result W) → Result W
err thrown >>= next = err thrown
ok value >>= next = next value

abbrev pub ◌>>◌ {μ} : {W : Type μ} → Result (Unit {0}) → Result W → Result W
err thrown >> next = err thrown
ok done >> next = next
