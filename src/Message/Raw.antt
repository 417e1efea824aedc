-- ===== src/Message/Raw.antt =====
-- message.cpp: the calls that hand parts to libzmq or ask it about them. What `zmq_msg_gets` and
-- `zmq_msg_set_group` answer is an argument.
use zmqpp_pty.Base.{
  ℕ, suc, ◌≡◌, refl, Bool, true, false, List, [], ◌∷◌, ◌++◌, Option, none, some, Bytes, ◌==◌,
  if◌then◌else◌, Result, ok, err, arith,
}
use zmqpp_pty.Message.Frames.{Frame, frame}
use zmqpp_pty.Message.{Message, parts, part_at}

-- `raw_msg(part)`: the part that the reference names.
unfoldable pub raw_msg : Message → ℕ → Result Frame
unfolding part_at
raw_msg m part = part_at m part

-- `raw_new_msg`, without a size and with one; libzmq reserves the bytes, whatever they are.
unfoldable pub raw_new_msg : Message → Message
raw_new_msg m = record m { frames = m.frames ++ frame [] ∷ [] }

unfoldable pub raw_new_msg_sized : Message → Bytes → Message
raw_new_msg_sized m reserved = record m { frames = m.frames ++ frame reserved ∷ [] }

-- The result, and `out`; an empty message and a property that is not there leave it.
property_of : Result Frame → (Frame → Option Bytes) → Bytes → Bool × Bytes
property_of (err e) gets out = (false, out)
property_of (ok f) gets out = elim (gets f) [ none ↦ (false, out) | some value ↦ (true, value) ]

unfoldable pub get_property : Message → (Frame → Option Bytes) → Bytes → Bool × Bytes
unfolding property_of raw_msg
get_property m gets out = property_of (raw_msg m 0) gets out

-- The loop over the parts from `i`, by whether libzmq accepts the group for each: the result, and
-- the number of parts whose group is set.
unfoldable pub set_groups : (ℕ → Bool) → List Frame → ℕ → Bool × ℕ
set_groups accepts [] i = (true, i)
set_groups accepts (f ∷ fs) i =
    let rest = set_groups accepts fs (suc i) in if accepts i then rest else (false, i)

unfoldable pub set_group : (ℕ → Bool) → Message → Bool × ℕ
unfolding set_groups
set_group accepts m = if parts m == 0 then (false, 0) else set_groups accepts m.frames 0

-- Asking an empty message for a property gives `false` and leaves `out`; no exception escapes.
pub get_property-empty :
    (m : Message) (gets : Frame → Option Bytes) (out : Bytes)
    → parts m ≡ 0
    → get_property m gets out ≡ (false, out)
unfolding get_property raw_msg
get_property-empty m gets out e = no_first m.frames e
  where
    no_first :
        (fs : List Frame)
        → parts (record m { frames = fs }) ≡ 0
        → get_property (record m { frames = fs }) gets out ≡ (false, out)
    no_first [] h = refl
    no_first (f ∷ fs) h = absurd (omega arith)
