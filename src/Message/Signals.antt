-- ===== src/Message/Signals.antt =====
-- Which messages are signals.
use native.Mathlib.Decide.{ℕ_discrete}
use zmqpp_pty.Base.{
  ℕ, suc, ◌+◌, ◌*◌, ◌/◌, ◌%◌, ◌^◌, ◌<◌, ◌≡◌, ◌⊎◌, inr, refl, sym, ap, ◌∙◌, ◌↔◌, ◌≢◌, true, false,
  List, [], ◌∷◌, ◌++◌, Bytes, to_signed, length, ok, arith, ◌==◌,
}
use zmqpp_pty.Inet.Memory.{
  Order, AreBytes, le_bytes, be_bytes, be_value, load, be_bytes-be_value, be_value-lt,
  length-be_bytes,
}
use zmqpp_pty.Inet.Wire.{ntohll-load}
use zmqpp_pty.Inet.{ntohll}
use zmqpp_pty.Message.Frames.{Frame, frame}
use zmqpp_pty.Message.Values.{Value, Kind, stream_bytes, as_read}
use zmqpp_pty.Message.Codec.{stream_bytes-wire}
use zmqpp_pty.Message.Stream.{get-write}
use zmqpp_pty.Message.{
  Message, empty, get, add_raw, write, is_signal, has_header, header, signal_of,
}

be_bytes_eight : (n : ℕ) → be_bytes 8 n ≡ be_bytes 7 (n / 256) ++ (n % 256) ∷ []
unfolding be_bytes le_bytes
be_bytes_eight n = refl

-- The sign bit of a word whose upper bytes are the header is clear.
has_header_lem :
    (n : ℕ) → n < 2 ^ 64 → has_header (Value.signal (to_signed (2 ^ 64) n)) ≡ (n / 256 == header)
unfolding has_header
has_header_lem n h = ground arith

module _ (o : Order) (f : Frame) (c : ℕ) where
  abbrev single : Message
  single = record { frames = f ∷ []; read_cursor = c }

  other_size : length f.contents ≢ 8 → is_signal o single ≡ ok false
  unfolding is_signal
  other_size h = ground arith

  eight_bytes :
      (n : ℕ) → n < 2 ^ 64 → f.contents ≡ be_bytes 8 n → is_signal o single ≡ ok (n / 256 == header)
  unfolding is_signal
  eight_bytes n h e =
      let long : length f.contents ≡ 8 = ap length e ∙ length-be_bytes 8 n in
      let value : ntohll o (load o f.contents) ≡ n =
        ap (λ bs. ntohll o (load o bs)) e ∙ ntohll-load o n h in
      rw (long, value) (ap ok (has_header_lem n h))

-- The seven bytes that begin every signal.
abbrev pub header_bytes : Bytes
header_bytes = 0x77 ∷ 0x66 ∷ 0x55 ∷ 0x44 ∷ 0x33 ∷ 0x22 ∷ 0x11 ∷ []

-- One part, of the header's bytes and one byte of the signal's own.
abbrev pub IsSignal : Message → Type 0
IsSignal m =
    (f : Frame) × (b : ℕ) × (m.frames ≡ f ∷ []) × (b < 256) × (f.contents ≡ header_bytes ++ b ∷ [])

header-be_bytes : be_bytes 7 header ≡ header_bytes
unfolding be_bytes le_bytes
header-be_bytes = refl

signal_word : (b : ℕ) → b < 256 → be_bytes 8 (header * 256 + b) ≡ header_bytes ++ b ∷ []
signal_word b h =
    let high : (header * 256 + b) / 256 ≡ header = omega arith in
    let low : (header * 256 + b) % 256 ≡ b = omega arith in
    be_bytes_eight (header * 256 + b) ∙ rw (high, low, header-be_bytes) refl

module _ (o : Order) (f : Frame) (c : ℕ) where
  told :
      (b : ℕ) → b < 256 → f.contents ≡ header_bytes ++ b ∷ [] → is_signal o (single o f c) ≡ ok true
  told b h e =
      let high : (header * 256 + b) / 256 ≡ header = omega arith in
      eight_bytes o f c (header * 256 + b) (omega arith) (e ∙ sym (signal_word b h)) ∙ rw high refl

contents_of : List Frame → Bytes
contents_of [] = []
contents_of (f ∷ fs) = f.contents

abbrev pub AllBytes : List Frame → Type 0
AllBytes [] = Unit
AllBytes (f ∷ fs) = AreBytes f.contents × AllBytes fs

-- The test answers `true` for signals, and `false` otherwise.
abbrev pub Tells : Order → Message → Type 0
Tells o m =
    ((is_signal o m ≡ ok true) ↔ IsSignal m)
    × ((is_signal o m ≡ ok true) ⊎ (is_signal o m ≡ ok false))

module _ (o : Order) (f : Frame) (c : ℕ) (a : AreBytes f.contents) where
  tested :
      length f.contents ≡ 8 → is_signal o (single o f c) ≡ ok (be_value f.contents / 256 == header)
  tested long =
      eight_bytes o f c _ (rw long at (be_value-lt f.contents a))
        (sym (rw long at (be_bytes-be_value f.contents a)))

  -- A word with the header is spelled as a signal's bytes.
  spelled :
      length f.contents ≡ 8
      → be_value f.contents / 256 ≡ header
      → f.contents ≡ header_bytes ++ (be_value f.contents % 256) ∷ []
  spelled long e =
      sym (rw long at (be_bytes-be_value f.contents a))
      ∙ be_bytes_eight (be_value f.contents)
      ∙ rw (e, header-be_bytes) refl

  iff_eight : length f.contents ≡ 8 → Tells o (single o f c)
  unfolding contents_of
  iff_eight long = (
    (
      λ t.
          let e : be_value f.contents / 256 ≡ header = ground (arith, tested long) in
          (f, be_value f.contents % 256, refl, omega arith, spelled long e),
      λ s. told o f c s.1 s.3 (ap (λ fs. contents_of fs) s.2 ∙ s.4),
    ),
    ground (arith, tested long),
  )

  iff_other : length f.contents ≢ 8 → Tells o (single o f c)
  unfolding contents_of
  iff_other wrong = (
    (
      λ t. cc (other_size o f c wrong),
      λ s. absurd (wrong (ap (λ fs. length (contents_of fs)) s.2 ∙ ap length s.4)),
    ),
    inr (other_size o f c wrong),
  )

many :
    (o : Order) (f g : Frame) (fs : List Frame) (c : ℕ)
    → is_signal o (record { frames = f ∷ g ∷ fs; read_cursor = c }) ≡ ok false
unfolding is_signal
many o f g fs c = let two : (suc (suc (length fs)) == 1) ≡ false = ground arith in rw two

iff_frames :
    (o : Order) (fs : List Frame) (c : ℕ)
    → AllBytes fs
    → Tells o (record { frames = fs; read_cursor = c })
unfolding is_signal
iff_frames o [] c h = ((λ t. cc, λ s. cc (s.2)), inr refl)
iff_frames o (f ∷ []) c h = elim (ℕ_discrete (length f.contents) 8) [
  | yes long ↦ iff_eight o f c h.0 long
  | no wrong ↦ iff_other o f c h.0 wrong
]
iff_frames o (f ∷ g ∷ fs) c h = ((λ t. cc (many o f g fs c), λ s. cc (s.2)), inr (many o f g fs c))

-- A message whose parts hold bytes is taken for a signal exactly when it has one part, made of the
-- seven bytes of the header and one more byte. On every other such message the answer is `false`:
-- the test neither throws nor fails an assertion.
pub is_signal_iff : (o : Order) (m : Message) → AllBytes m.frames → Tells o m
is_signal_iff o m h = iff_frames o m.frames m.read_cursor h

write-single : (o : Order) (v : Value) → write o empty v ≡ single o (frame (stream_bytes o v)) 0
unfolding write add_raw
write-single o v = refl

-- A signal with any last byte, written by one host into an empty message, is recognised by any
-- host and read back as the same signal.
pub is_signal-write :
    (o p : Order) (b : ℕ)
    → b < 256
    → let m = write o empty (Value.signal (signal_of b)) in
      (is_signal p m ≡ ok true) × (get p Kind.signal m 0 ≡ ok (Value.signal (signal_of b)))
unfolding as_read
is_signal-write o p b h =
    let same : (header * 256 + b) % 2 ^ 64 ≡ header * 256 + b = omega arith in
    let spelt = stream_bytes-wire o (Value.signal (signal_of b)) (omega arith) in
    (
      ap (is_signal p) (write-single o (Value.signal (signal_of b)))
          ∙ told p _ 0 b h (spelt ∙ ap (be_bytes 8) same ∙ signal_word b h),
      get-write o p empty (Value.signal (signal_of b)) (omega arith),
    )
