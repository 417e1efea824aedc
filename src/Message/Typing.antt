-- ===== src/Message/Typing.antt =====
-- The overloads of `get`, against what the bytes of a part mean.
use zmqpp_pty.Base.{
  ℕ, ◌^◌, ◌<◌, ◌≤◌, ◌≡◌, ◌≢◌, ◌⊎◌, ◌==◌, not, inl, inr, refl, sym, ap, ◌∙◌, Bytes, List, [], ◌∷◌,
  some, none, Option, Result, zero, suc, to_signed, length, get_elem?, ok, err, exception,
  assertion, arith,
}
use mathlib.Core.Path.{subst}
use zmqpp_pty.Inet.Memory.{
  Order, big_endian, little_endian, be_bytes, be_value, le_value, be_bytes-be_value, be_value-lt,
  load, AreBytes, htonl, ntohs, ntohl,
}
use zmqpp_pty.Inet.{ntohll, ntohf, ntohd}
use zmqpp_pty.Inet.Wire.{ntohs-load, ntohl-load, htonl-load, ntohll-load}
use zmqpp_pty.Message.Frames.{Frame}
use zmqpp_pty.Message.Values.{Value, Kind, width, from_bytes}
use zmqpp_pty.Message.Stream.{get-part, get-past_end, get-wrong_size}
use zmqpp_pty.Message.{Message, get}

-- The value that bytes stand for, the most significant one first, whatever the host's order is.
unfoldable pub meaning : Kind → Bytes → Value
meaning Kind.int8 bs = Value.int8 (to_signed (2 ^ 8) (be_value bs))
meaning Kind.int16 bs = Value.int16 (to_signed (2 ^ 16) (be_value bs))
meaning Kind.int32 bs = Value.int32 (to_signed (2 ^ 32) (be_value bs))
meaning Kind.int64 bs = Value.int64 (to_signed (2 ^ 64) (be_value bs))
meaning Kind.signal bs = Value.signal (to_signed (2 ^ 64) (be_value bs))
meaning Kind.uint8 bs = Value.uint8 (be_value bs)
meaning Kind.uint16 bs = Value.uint16 (be_value bs)
meaning Kind.uint32 bs = Value.uint32 (be_value bs)
meaning Kind.uint64 bs = Value.uint64 (be_value bs)
meaning Kind.float bs = Value.float (be_value bs)
meaning Kind.double bs = Value.double (be_value bs)
meaning Kind.bool bs = Value.bool (not (be_value bs == 0))
meaning Kind.string bs = Value.string bs

as_network : (w : ℕ) (bs : Bytes) → length bs ≡ w → AreBytes bs → bs ≡ be_bytes w (be_value bs)
as_network w bs e h = rw (← e) (sym (be_bytes-be_value bs h))

in_word : (w : ℕ) (bs : Bytes) → length bs ≡ w → AreBytes bs → be_value bs < 256 ^ w
in_word w bs e h = rw (← e) (be_value-lt bs h)

module _ (o : Order) (bs : Bytes) (h : AreBytes bs) where
  word2 : length bs ≡ 2 → ntohs o (load o bs) ≡ be_value bs
  word2 e =
      ap (λ x. ntohs o (load o x)) (as_network 2 bs e h)
      ∙ ntohs-load o (be_value bs) (in_word 2 bs e h)

  word4 : length bs ≡ 4 → ntohl o (load o bs) ≡ be_value bs
  word4 e =
      ap (λ x. ntohl o (load o x)) (as_network 4 bs e h)
      ∙ ntohl-load o (be_value bs) (in_word 4 bs e h)

  word4' : length bs ≡ 4 → htonl o (load o bs) ≡ be_value bs
  word4' e =
      ap (λ x. htonl o (load o x)) (as_network 4 bs e h)
      ∙ htonl-load o (be_value bs) (in_word 4 bs e h)

  word8 : length bs ≡ 8 → ntohll o (load o bs) ≡ be_value bs
  word8 e =
      ap (λ x. ntohll o (load o x)) (as_network 8 bs e h)
      ∙ ntohll-load o (be_value bs) (in_word 8 bs e h)

-- A single byte has no order.
byte1 : (o : Order) (bs : Bytes) → length bs ≡ 1 → load o bs ≡ be_value bs
unfolding load be_value le_value
byte1 big_endian bs e = refl
byte1 little_endian [] e = cc
byte1 little_endian (b ∷ []) e = refl
byte1 little_endian (b ∷ c ∷ bs) e = absurd (omega arith)

from_bytes-meaning :
    (o : Order) (bs : Bytes) (h : AreBytes bs) (k : Kind)
    → (k ≡ Kind.string) ⊎ (length bs ≡ width k)
    → from_bytes o k bs ≡ meaning k bs
unfolding from_bytes meaning width ntohf ntohd
from_bytes-meaning o bs h Kind.string s = refl
from_bytes-meaning o bs h Kind.bool (inr e) = ap (λ n. Value.bool (not (n == 0))) (byte1 o bs e)
from_bytes-meaning o bs h Kind.int8 (inr e) =
    ap (λ n. Value.int8 (to_signed (2 ^ 8) n)) (byte1 o bs e)
from_bytes-meaning o bs h Kind.uint8 (inr e) = ap Value.uint8 (byte1 o bs e)
from_bytes-meaning o bs h Kind.int16 (inr e) =
    ap (λ n. Value.int16 (to_signed (2 ^ 16) n)) (word2 o bs h e)
from_bytes-meaning o bs h Kind.uint16 (inr e) = ap Value.uint16 (word2 o bs h e)
from_bytes-meaning o bs h Kind.int32 (inr e) =
    ap (λ n. Value.int32 (to_signed (2 ^ 32) n)) (word4' o bs h e)
from_bytes-meaning o bs h Kind.uint32 (inr e) = ap Value.uint32 (word4 o bs h e)
from_bytes-meaning o bs h Kind.float (inr e) = ap Value.float (word4 o bs h e)
from_bytes-meaning o bs h Kind.int64 (inr e) =
    ap (λ n. Value.int64 (to_signed (2 ^ 64) n)) (word8 o bs h e)
from_bytes-meaning o bs h Kind.signal (inr e) =
    ap (λ n. Value.signal (to_signed (2 ^ 64) n)) (word8 o bs h e)
from_bytes-meaning o bs h Kind.uint64 (inr e) = ap Value.uint64 (word8 o bs h e)
from_bytes-meaning o bs h Kind.double (inr e) = ap Value.double (word8 o bs h e)
from_bytes-meaning o bs h _ (inl e) = absurd (cc)

-- The contents of all parts are bytes.
abbrev pub HoldsBytes : List Frame → Type 0
HoldsBytes [] = Unit
HoldsBytes (f ∷ fs) = AreBytes f.contents × HoldsBytes fs

held_bytes :
    (fs : List Frame) (i : ℕ) (f : Frame)
    → HoldsBytes fs
    → get_elem? fs i ≡ some f
    → AreBytes f.contents
held_bytes [] i f h e = cc
held_bytes (g ∷ fs) zero f h e = subst AreBytes (ap contents_of e) h.0
  where
    contents_of : Option Frame → Bytes
    contents_of none = []
    contents_of (some x) = x.contents
held_bytes (g ∷ fs) (suc i) f h e = held_bytes fs i f h.1 e

none-le : (fs : List Frame) (i : ℕ) → get_elem? fs i ≡ none → length fs ≤ i
none-le [] i e = omega arith
none-le (f ∷ fs) zero e = cc
none-le (f ∷ fs) (suc i) e = omega (arith, none-le fs i e)

-- What `get` is to answer for a part, or past the last part.
abbrev pub IsRead : Kind → Option Frame → Result Value → Type 0
IsRead k none r = r ≡ err (exception "attempting to request a message part outside the valid range")
IsRead k (some f) r =
    ((k ≡ Kind.string) ⊎ (length f.contents ≡ width k) → r ≡ ok (meaning k f.contents))
    × (k ≢ Kind.string → length f.contents ≢ width k → r ≡ err assertion)

-- Each overload of `get`, on any host: a part with the size of the type gives the value that its bytes
-- stand for, the most significant one first, and a string has any size; a part of another size fails
-- the assertion; and past the last part the exception is thrown.
pub get-IsRead :
    (o : Order) (k : Kind) (m : Message) (i : ℕ)
    → HoldsBytes m.frames
    → IsRead k (get_elem? m.frames i) (get o k m i)
get-IsRead o k m i h = at (get_elem? m.frames i) refl
  where
    at : (p : Option Frame) → get_elem? m.frames i ≡ p → IsRead k p (get o k m i)
    at none e = get-past_end o k m i (none-le m.frames i e)
    at (some f) e = (
      λ s.
          get-part o k m i f e s
          ∙ ap ok (from_bytes-meaning o f.contents (held_bytes m.frames i f h e) k s),
      λ s w. get-wrong_size o k m i f e s w,
    )
