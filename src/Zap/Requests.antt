-- ===== src/Zap/Requests.antt =====
-- Requests with frames missing.
use zmqpp_pty.Base.{ℕ, ◌<◌, ◌≡◌, refl, List, [], ◌∷◌, Bytes, length, Result, err, exception, arith}
use zmqpp_pty.Message.{Message, parts, get_string}
use zmqpp_pty.Message.Frames.{Frame}
use zmqpp_pty.Zap.{ZapRequest, request_of}

abbrev pub out_of_range : Result ZapRequest
out_of_range = err (exception "attempting to request a message part outside the valid range")

by_frames :
    (encode : Bytes → Result Bytes) (fs : List Frame) (c : ℕ)
    → 0 < length fs
    → length fs < 6
    → request_of encode (record { frames = fs; read_cursor = c }) ≡ out_of_range
unfolding request_of get_string
by_frames encode [] c h l = absurd (omega arith)
by_frames encode (a ∷ []) c h l = refl
by_frames encode (a ∷ b ∷ []) c h l = refl
by_frames encode (a ∷ b ∷ d ∷ []) c h l = refl
by_frames encode (a ∷ b ∷ d ∷ e ∷ []) c h l = refl
by_frames encode (a ∷ b ∷ d ∷ e ∷ f ∷ []) c h l = refl
by_frames encode (a ∷ b ∷ d ∷ e ∷ f ∷ g ∷ fs) c h l = absurd (omega arith)

-- A request of fewer than the six standard frames, but at least one, is refused: the constructor
-- throws the exception of `get`, whatever the frames hold and however keys are encoded.
pub request_of-short :
    (encode : Bytes → Result Bytes) (msg : Message)
    → 0 < parts msg
    → parts msg < 6
    → request_of encode msg ≡ out_of_range
request_of-short encode msg h l = by_frames encode msg.frames msg.read_cursor h l
