-- ===== src/Tests/ZapTests.antt =====
-- A request without its mechanism, and metadata of two pairs.
use zmqpp_pty.Base.{List, [], ◌∷◌, Bytes, some, ◌≡◌, Result, ok, arith}
use zmqpp_pty.Inet.Memory.{little_endian}
use zmqpp_pty.Message.{Message}
use zmqpp_pty.Message.Frames.{frame}
use zmqpp_pty.Zap.{one_zero, serialize_metadata}
use zmqpp_pty.Zap.Metadata.{decode, decode-serialize_metadata}

abbrev cut : Message
cut = record { frames = frame one_zero ∷ frame (49 ∷ []) ∷ []; read_cursor = 0 }

abbrev same_key : Bytes → Result Bytes
same_key s = ok s

abbrev pairs : List (Bytes × Bytes)
pairs = (65 ∷ [], 1 ∷ 2 ∷ []) ∷ (66 ∷ [], []) ∷ []

decode-serialize_metadata_example :
    (bs : Bytes) × (serialize_metadata little_endian pairs ≡ ok bs) × (decode bs ≡ some pairs)
decode-serialize_metadata_example =
    decode-serialize_metadata little_endian pairs
      ((omega arith, omega arith), ((omega arith, omega arith), tt))
