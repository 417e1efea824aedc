-- ===== src/Message/Codec.antt =====
-- The overloads of message.cpp: what they put on the wire, and reading it back.
use zmqpp_pty.Base.{
  ℕ, ◌^◌, ◌<◌, ◌≡◌, refl, ap, ◌∙◌, true, false, ℤ, to_unsigned, to_unsigned-lt, to_signed,
  to_signed-to_unsigned, length, arith, ◌⊎◌, inl, inr, not, ◌==◌,
}
use zmqpp_pty.Inet.Memory.{
  Order, big_endian, little_endian, le_bytes, le_value, be_bytes, be_value, store, load,
  length-be_bytes,
}
use zmqpp_pty.Inet.Wire.{
  store-htons, store-htonl, store-htonll, ntohs-load, ntohl-load, htonl-load, ntohll-load,
}
use zmqpp_pty.Inet.{htonf, ntohf, htond, ntohd}
use zmqpp_pty.Message.Values.{
  Value, Kind, stream_bytes, front_bytes, width, from_bytes, kind, as_read, IsInRange, wire,
}

-- `operator<<` and `push_front` convert a value in the same way.
pub front_bytes-stream_bytes : (o : Order) (v : Value) → front_bytes o v ≡ stream_bytes o v
unfolding front_bytes stream_bytes
front_bytes-stream_bytes o (Value.int8 z) = refl
front_bytes-stream_bytes o _ = refl

store-one : (o : Order) (n : ℕ) → store o 1 n ≡ be_bytes 1 n
unfolding store be_bytes le_bytes
store-one big_endian n = refl
store-one little_endian n = refl

load-one : (o : Order) (n : ℕ) → n < 256 → load o (be_bytes 1 n) ≡ n
unfolding load be_value be_bytes le_bytes le_value
load-one big_endian n h = omega arith
load-one little_endian n h = omega arith

word-lt : (z : ℤ) → to_unsigned (2 ^ 64) z < 2 ^ 64
word-lt z = to_unsigned-lt (2 ^ 64) z (omega arith)

-- The bytes of a value in range are its wire format, whatever the byte order of the host.
pub stream_bytes-wire : (o : Order) (v : Value) → IsInRange v → stream_bytes o v ≡ wire v
unfolding stream_bytes htonf htond
stream_bytes-wire o (Value.int8 z) h = store-one o _
stream_bytes-wire o (Value.int16 z) h = store-htons o _
stream_bytes-wire o (Value.int32 z) h = store-htonl o _
stream_bytes-wire o (Value.int64 z) h = store-htonll o _ (word-lt z)
stream_bytes-wire o (Value.signal z) h = store-htonll o _ (word-lt z)
stream_bytes-wire o (Value.uint8 n) h = store-one o n
stream_bytes-wire o (Value.uint16 n) h = store-htons o n
stream_bytes-wire o (Value.uint32 n) h = store-htonl o n
stream_bytes-wire o (Value.uint64 n) h = store-htonll o n h
stream_bytes-wire o (Value.float bits) h = store-htonl o bits
stream_bytes-wire o (Value.double bits) h = store-htonll o bits h
stream_bytes-wire o (Value.bool b) h = store-one o _
stream_bytes-wire o (Value.c_string s) h = refl
stream_bytes-wire o (Value.string s) h = refl

-- Reading the wire format of a value in range gives the value.
pub from_bytes-wire :
    (o : Order) (v : Value) → IsInRange v → from_bytes o (kind v) (wire v) ≡ as_read v
unfolding from_bytes as_read ntohf ntohd
from_bytes-wire o (Value.int8 z) h =
    ap (λ n. Value.int8 (to_signed (2 ^ 8) n))
      (load-one o _ (to_unsigned-lt (2 ^ 8) z (omega arith)))
    ∙ ap Value.int8 (to_signed-to_unsigned (2 ^ 8) z h)
from_bytes-wire o (Value.int16 z) h =
    ap (λ n. Value.int16 (to_signed (2 ^ 16) n))
      (ntohs-load o _ (to_unsigned-lt (2 ^ 16) z (omega arith)))
    ∙ ap Value.int16 (to_signed-to_unsigned (2 ^ 16) z h)
from_bytes-wire o (Value.int32 z) h =
    ap (λ n. Value.int32 (to_signed (2 ^ 32) n))
      (htonl-load o _ (to_unsigned-lt (2 ^ 32) z (omega arith)))
    ∙ ap Value.int32 (to_signed-to_unsigned (2 ^ 32) z h)
from_bytes-wire o (Value.int64 z) h =
    ap (λ n. Value.int64 (to_signed (2 ^ 64) n)) (ntohll-load o _ (word-lt z))
    ∙ ap Value.int64 (to_signed-to_unsigned (2 ^ 64) z h)
from_bytes-wire o (Value.signal z) h =
    ap (λ n. Value.signal (to_signed (2 ^ 64) n)) (ntohll-load o _ (word-lt z))
    ∙ ap Value.signal (to_signed-to_unsigned (2 ^ 64) z h)
from_bytes-wire o (Value.uint8 n) h = ap Value.uint8 (load-one o n h)
from_bytes-wire o (Value.uint16 n) h = ap Value.uint16 (ntohs-load o n h)
from_bytes-wire o (Value.uint32 n) h = ap Value.uint32 (ntohl-load o n h)
from_bytes-wire o (Value.uint64 n) h = ap Value.uint64 (ntohll-load o n h)
from_bytes-wire o (Value.float bits) h = ap Value.float (ntohl-load o bits h)
from_bytes-wire o (Value.double bits) h = ap Value.double (ntohll-load o bits h)
from_bytes-wire o (Value.bool true) h =
    ap (λ n. Value.bool (not (n == 0))) (load-one o 1 (omega arith))
from_bytes-wire o (Value.bool false) h =
    ap (λ n. Value.bool (not (n == 0))) (load-one o 0 (omega arith))
from_bytes-wire o (Value.c_string s) h = refl
from_bytes-wire o (Value.string s) h = refl

-- The size that `get` asserts is the size on the wire.
pub length-wire : (v : Value) → (kind v ≡ Kind.string) ⊎ (length (wire v) ≡ width (kind v))
unfolding width
length-wire (Value.int8 z) = inr (length-be_bytes 1 _)
length-wire (Value.int16 z) = inr (length-be_bytes 2 _)
length-wire (Value.int32 z) = inr (length-be_bytes 4 _)
length-wire (Value.int64 z) = inr (length-be_bytes 8 _)
length-wire (Value.signal z) = inr (length-be_bytes 8 _)
length-wire (Value.uint8 n) = inr (length-be_bytes 1 _)
length-wire (Value.uint16 n) = inr (length-be_bytes 2 _)
length-wire (Value.uint32 n) = inr (length-be_bytes 4 _)
length-wire (Value.uint64 n) = inr (length-be_bytes 8 _)
length-wire (Value.float n) = inr (length-be_bytes 4 _)
length-wire (Value.double n) = inr (length-be_bytes 8 _)
length-wire (Value.bool b) = inr (length-be_bytes 1 _)
length-wire (Value.c_string s) = inl refl
length-wire (Value.string s) = inl refl
