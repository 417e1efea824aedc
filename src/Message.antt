-- ===== src/Message.antt =====
-- zmqpp/message.hpp and message.cpp: a message is a list of frames and a read cursor. Allocation
-- is taken to succeed. The memory of parts that are not copied is in Releases.
pub mod Frames
pub mod Values
pub mod Codec
pub mod Stream
pub mod Signals
pub mod Copies
pub mod Typing
pub mod Extract
pub mod Releases
pub mod Raw
use Prim.Native.String.{String}
use zmqpp_pty.Base.{
  ℕ, zero, suc, ◌+◌, ◌-◌, ◌*◌, ◌/◌, ◌%◌, ◌^◌, Bool, true, false, List, [], ◌∷◌, ◌++◌, map, Bytes,
  Option, none, some, ℤ, pos, negsuc, ltb, ◌==◌, if◌then◌else◌, length, get_elem?, set, pop_back,
  erase_at, Result, ok, err, exception, undefined, assertion, or_throw, ◌>>=◌, ◌>>◌,
}
use zmqpp_pty.Inet.Memory.{Order}
use Frames
use Frames.{Frame, frame, mark_sent}
use Values.{Value, Kind, width, from_bytes, stream_bytes, front_bytes}

pub record Message : Type 0 where
  pub frames : List Frame
  pub read_cursor : ℕ

abbrev pub empty : Message
empty = record { frames = []; read_cursor = 0 }

abbrev pub parts : Message → ℕ
parts m = length m.frames

abbrev pub size_mod : ℕ
size_mod = 2 ^ 64

-- `if(part >= _parts.size()) throw …`, then `_parts[part]`.
unfoldable pub part_at : Message → ℕ → Result Frame
part_at m part =
    or_throw (get_elem? m.frames part)
      (exception "attempting to request a message part outside the valid range")

unfoldable pub size : Message → ℕ → Result ℕ
unfolding part_at
size m part = do f ← part_at m part; ok (length f.contents)

unfoldable pub raw_data : Message → ℕ → Result Bytes
unfolding part_at
raw_data m part = do f ← part_at m part; ok f.contents

-- `std::string get(part)`.
unfoldable pub get_string : Message → ℕ → Result Bytes
unfolding size raw_data
get_string m part = do n ← size m part; raw_data m part

-- The overloads of `get`: the size is asserted, then the part is read. A string has any size.
checked : Result ℕ → ℕ → Result (Unit {0})
checked (ok n) w = if n == w then ok tt else err assertion
checked (err e) w = err e

unfoldable pub get : Order → Kind → Message → ℕ → Result Value
unfolding size raw_data get_string checked width from_bytes
get o Kind.string m part = do bs ← get_string m part; ok (from_bytes o Kind.string bs)
get o k m part = do checked (size m part) (width k); bs ← raw_data m part; ok (from_bytes o k bs)

-- `add_raw`, `push_back` with a size, and the stream writer.
unfoldable pub add_raw : Message → Bytes → Message
add_raw m bs = record m { frames = m.frames ++ frame bs ∷ [] }

unfoldable pub write : Order → Message → Value → Message
unfolding add_raw stream_bytes
write o m v = add_raw m (stream_bytes o v)

-- The variadic `add` and the constructor from values.
unfoldable pub add : Order → Message → List Value → Message
unfolding write
add o m [] = m
add o m (v ∷ vs) = add o (write o m v) vs

unfoldable pub push_front : Order → Message → Value → Message
unfolding front_bytes
push_front o m v = record m { frames = frame (front_bytes o v) ∷ m.frames }

-- Erasing from an empty vector or past its end is undefined.
unfoldable pub pop_front : Message → Result Message
pop_front m = if parts m == 0 then err undefined else ok (record m { frames = erase_at m.frames 0 })

unfoldable pub pop_last : Message → Result Message
pop_last m = if parts m == 0 then err undefined else ok (record m { frames = pop_back m.frames })

unfoldable pub remove : Message → ℕ → Result Message
remove m part =
    if ltb part (parts m) then ok (record m { frames = erase_at m.frames part }) else err undefined

-- `operator>>`: the cursor moves also when `get` throws.
unfoldable pub read : Order → Kind → Message → Result Value × Message
unfolding get
read o k m = (get o k m m.read_cursor, record m { read_cursor = (m.read_cursor + 1) % size_mod })

unfoldable pub reset_read_cursor : Message → Message
reset_read_cursor m = record m { read_cursor = 0 }

unfoldable pub remaining : Message → ℕ
remaining m = (parts m + size_mod - m.read_cursor) % size_mod

unfoldable pub next : Message → Message
next m = record m { read_cursor = (m.read_cursor + 1) % size_mod }

-- `assert(!_parts[part].is_sent())`, then `mark_sent`.
unfoldable pub sent : Message → ℕ → Result Message
unfolding mark_sent
sent m part = elim (get_elem? m.frames part) [
  | none ↦ err undefined
  | some f ↦
      if f.is_sent
      then err assertion
      else ok (record m { frames = set m.frames part (mark_sent f) })
]

-- `header`, and the signals: the header shifted by one byte, and the signal's own byte.
abbrev pub header : ℕ
header = 0x0077665544332211

abbrev pub signal_of : ℕ → ℤ
signal_of b = pos (header * 256 + b)

abbrev pub signal_ok : ℤ
signal_ok = signal_of 0x00

abbrev pub signal_ko : ℤ
signal_ko = signal_of 0x01

abbrev pub signal_stop : ℤ
signal_stop = signal_of 0x02

abbrev pub signal_test : ℤ
signal_test = signal_of 0xff

-- `static_cast<int64_t>(s) >> 8`, then the comparison with the header.
unfoldable pub has_header : Value → Bool
has_header (Value.signal (pos n)) = n / 256 == header
has_header _ = false

unfoldable pub is_signal : Order → Message → Result Bool
unfolding size get has_header
is_signal o m =
    if parts m == 1
    then (do
      n ← size m 0
      if n == 8 then (do s ← get o Kind.signal m 0; ok (has_header s)) else ok false)
    else ok false

-- `message(message&&)`: the new message, and what is left of the source.
unfoldable pub move_construct : Message → Message × Message
move_construct source = (source, empty)

-- `operator=(message&&)`.
unfoldable pub move_assign : Message → Message → Message × Message
move_assign this source = (source, empty)

-- `copy(source)` into a message; its cursor stays.
unfoldable pub copy_from : Message → Message → Message
unfolding Frames.copy
copy_from this source = record this { frames = map Frames.copy source.frames }

-- `copy()`: a new message.
unfoldable pub copy : Message → Message
unfolding copy_from
copy m = copy_from empty m
