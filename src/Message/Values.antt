-- ===== src/Message/Values.antt =====
-- The overloads of `operator<<`, `push_front` and `get`: one constructor for each type, and the
-- conversions written in each overload. Floats and doubles are their bit patterns.
use zmqpp_pty.Base.{
  ℕ, ◌^◌, ◌<◌, Bool, [], ◌∷◌, Bytes, ℤ, to_signed, to_unsigned, Fits, ◌==◌, if◌then◌else◌, not,
}
use zmqpp_pty.Inet.Memory.{Order, store, load, htons, htonl, ntohs, ntohl, be_bytes}
use zmqpp_pty.Inet.{htonll, ntohll, htonf, ntohf, htond, ntohd}

pub data Value : Type 0 where
  int8 int16 int32 int64 signal : ℤ → Value
  uint8 uint16 uint32 uint64 float double : ℕ → Value
  bool : Bool → Value
  -- a pointer is the memory up to a NUL or beyond it
  c_string : Bytes → Value
  string : Bytes → Value

pub data Kind : Type 0 where
  int8 int16 int32 int64 signal uint8 uint16 uint32 uint64 float double bool string : Kind

-- `strlen` reads up to the first NUL.
unfoldable pub until_nul : Bytes → Bytes
until_nul [] = []
until_nul (c ∷ s) = if c == 0 then [] else c ∷ until_nul s

abbrev pub bool_byte : Bool → ℕ
bool_byte b = if b then 1 else 0

-- The bytes that `operator<<` adds.
unfoldable pub stream_bytes : Order → Value → Bytes
unfolding store htons htonl htonll htonf htond until_nul
stream_bytes o (Value.int8 z) = store o 1 (to_unsigned (2 ^ 8) z)
stream_bytes o (Value.int16 z) = store o 2 (htons o (to_unsigned (2 ^ 16) z))
stream_bytes o (Value.int32 z) = store o 4 (htonl o (to_unsigned (2 ^ 32) z))
stream_bytes o (Value.int64 z) = store o 8 (htonll o (to_unsigned (2 ^ 64) z))
stream_bytes o (Value.signal z) = store o 8 (htonll o (to_unsigned (2 ^ 64) z))
stream_bytes o (Value.uint8 n) = store o 1 n
stream_bytes o (Value.uint16 n) = store o 2 (htons o n)
stream_bytes o (Value.uint32 n) = store o 4 (htonl o n)
stream_bytes o (Value.uint64 n) = store o 8 (htonll o n)
stream_bytes o (Value.float bits) = store o 4 (htonf o bits)
stream_bytes o (Value.double bits) = store o 8 (htond o bits)
stream_bytes o (Value.bool b) = store o 1 (bool_byte b)
stream_bytes o (Value.c_string s) = until_nul s
stream_bytes o (Value.string s) = s

-- The bytes that `push_front` adds.
unfoldable pub front_bytes : Order → Value → Bytes
unfolding store htons htonl htonll htonf htond until_nul
front_bytes o (Value.int8 z) = store o 1 (to_unsigned (2 ^ 8) z)
front_bytes o (Value.int16 z) = store o 2 (htons o (to_unsigned (2 ^ 16) z))
front_bytes o (Value.int32 z) = store o 4 (htonl o (to_unsigned (2 ^ 32) z))
front_bytes o (Value.int64 z) = store o 8 (htonll o (to_unsigned (2 ^ 64) z))
front_bytes o (Value.signal z) = store o 8 (htonll o (to_unsigned (2 ^ 64) z))
front_bytes o (Value.uint8 n) = store o 1 n
front_bytes o (Value.uint16 n) = store o 2 (htons o n)
front_bytes o (Value.uint32 n) = store o 4 (htonl o n)
front_bytes o (Value.uint64 n) = store o 8 (htonll o n)
front_bytes o (Value.float bits) = store o 4 (htonf o bits)
front_bytes o (Value.double bits) = store o 8 (htond o bits)
front_bytes o (Value.bool b) = store o 1 (bool_byte b)
front_bytes o (Value.c_string s) = until_nul s
front_bytes o (Value.string s) = s

-- The size that `get` asserts.
unfoldable pub width : Kind → ℕ
width Kind.int8 = 1
width Kind.uint8 = 1
width Kind.bool = 1
width Kind.int16 = 2
width Kind.uint16 = 2
width Kind.int32 = 4
width Kind.uint32 = 4
width Kind.float = 4
width Kind.int64 = 8
width Kind.signal = 8
width Kind.uint64 = 8
width Kind.double = 8
width Kind.string = 0

-- What `get` makes of the bytes of a part; the 32-bit signed overload calls `htonl`.
unfoldable pub from_bytes : Order → Kind → Bytes → Value
unfolding load ntohs ntohl htonl ntohll ntohf ntohd
from_bytes o Kind.int8 bs = Value.int8 (to_signed (2 ^ 8) (load o bs))
from_bytes o Kind.int16 bs = Value.int16 (to_signed (2 ^ 16) (ntohs o (load o bs)))
from_bytes o Kind.int32 bs = Value.int32 (to_signed (2 ^ 32) (htonl o (load o bs)))
from_bytes o Kind.int64 bs = Value.int64 (to_signed (2 ^ 64) (ntohll o (load o bs)))
from_bytes o Kind.signal bs = Value.signal (to_signed (2 ^ 64) (ntohll o (load o bs)))
from_bytes o Kind.uint8 bs = Value.uint8 (load o bs)
from_bytes o Kind.uint16 bs = Value.uint16 (ntohs o (load o bs))
from_bytes o Kind.uint32 bs = Value.uint32 (ntohl o (load o bs))
from_bytes o Kind.uint64 bs = Value.uint64 (ntohll o (load o bs))
from_bytes o Kind.float bs = Value.float (ntohf o (load o bs))
from_bytes o Kind.double bs = Value.double (ntohd o (load o bs))
from_bytes o Kind.bool bs = Value.bool (not (load o bs == 0))
from_bytes o Kind.string bs = Value.string bs

-- The overload of `get` that reads back what a value was written as.
abbrev pub kind : Value → Kind
kind (Value.int8 z) = Kind.int8
kind (Value.int16 z) = Kind.int16
kind (Value.int32 z) = Kind.int32
kind (Value.int64 z) = Kind.int64
kind (Value.signal z) = Kind.signal
kind (Value.uint8 n) = Kind.uint8
kind (Value.uint16 n) = Kind.uint16
kind (Value.uint32 n) = Kind.uint32
kind (Value.uint64 n) = Kind.uint64
kind (Value.float bits) = Kind.float
kind (Value.double bits) = Kind.double
kind (Value.bool b) = Kind.bool
kind (Value.c_string s) = Kind.string
kind (Value.string s) = Kind.string

-- The value of that overload: a C string comes back as a string, cut at its first NUL.
unfoldable pub as_read : Value → Value
unfolding until_nul
as_read (Value.c_string s) = Value.string (until_nul s)
as_read v = v

-- The ranges of the C++ types.
abbrev pub IsInRange : Value → Type 0
IsInRange (Value.int8 z) = Fits (2 ^ 8) z
IsInRange (Value.int16 z) = Fits (2 ^ 16) z
IsInRange (Value.int32 z) = Fits (2 ^ 32) z
IsInRange (Value.int64 z) = Fits (2 ^ 64) z
IsInRange (Value.signal z) = Fits (2 ^ 64) z
IsInRange (Value.uint8 n) = n < 2 ^ 8
IsInRange (Value.uint16 n) = n < 2 ^ 16
IsInRange (Value.uint32 n) = n < 2 ^ 32
IsInRange (Value.uint64 n) = n < 2 ^ 64
IsInRange (Value.float bits) = bits < 2 ^ 32
IsInRange (Value.double bits) = bits < 2 ^ 64
IsInRange (Value.bool b) = Unit
IsInRange (Value.c_string s) = Unit
IsInRange (Value.string s) = Unit

-- The format on the wire: the two's complement pattern, most significant byte first.
abbrev pub wire : Value → Bytes
wire (Value.int8 z) = be_bytes 1 (to_unsigned (2 ^ 8) z)
wire (Value.int16 z) = be_bytes 2 (to_unsigned (2 ^ 16) z)
wire (Value.int32 z) = be_bytes 4 (to_unsigned (2 ^ 32) z)
wire (Value.int64 z) = be_bytes 8 (to_unsigned (2 ^ 64) z)
wire (Value.signal z) = be_bytes 8 (to_unsigned (2 ^ 64) z)
wire (Value.uint8 n) = be_bytes 1 n
wire (Value.uint16 n) = be_bytes 2 n
wire (Value.uint32 n) = be_bytes 4 n
wire (Value.uint64 n) = be_bytes 8 n
wire (Value.float bits) = be_bytes 4 bits
wire (Value.double bits) = be_bytes 8 bits
wire (Value.bool b) = be_bytes 1 (bool_byte b)
wire (Value.c_string s) = until_nul s
wire (Value.string s) = s
