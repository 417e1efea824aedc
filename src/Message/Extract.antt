-- ===== src/Message/Extract.antt =====
-- `extract` of message.hpp: several parts from the first on, each as the type of its argument. The
-- values that are stored before an exception are left out.
use mathlib.Core.List.{append_assoc, append-nil}
use zmqpp_pty.Base.{
  ℕ, suc, ◌≡◌, refl, ap, ◌∙◌, true, false, List, [], ◌∷◌, ◌++◌, map, ltb, if◌then◌else◌, length,
  length-append, get_elem?-append_at, Result, ok, err, assertion, ◌>>=◌, ◌>>◌, arith,
}
use zmqpp_pty.Inet.Memory.{Order}
use zmqpp_pty.Message.Frames.{Frame, frame}
use zmqpp_pty.Message.Values.{Value, Kind, stream_bytes, kind, as_read}
use zmqpp_pty.Message.Stream.{AreInRange, as_wire, frames_of, add-frames}
use zmqpp_pty.Message.{Message, empty, parts, get, add}

unfoldable pub extract_from : Order → ℕ → List Kind → Message → Result (List Value)
unfolding get
extract_from o part [] m = ok []
extract_from o part (k ∷ ks) m =
    (if ltb part (parts m) then ok tt else err assertion)
    >> (get o k m part >>= λ v. extract_from o (suc part) ks m >>= λ vs. ok (v ∷ vs))

unfoldable pub extract : Order → List Kind → Message → Result (List Value)
unfolding extract_from
extract o ks m = extract_from o 0 ks m

part_there :
    (pre : List Frame) (f : Frame) (fs : List Frame)
    → ltb (length pre) (length (pre ++ f ∷ fs)) ≡ true
part_there pre f fs = ground (arith, length-append pre (f ∷ fs))

part_missing : (fs : List Frame) → ltb (length fs) (length fs) ≡ false
part_missing fs = ground arith

module _ (o p : Order) (c : ℕ) where
  step :
      (v : Value) (pre fs : List Frame) (ks : List Kind)
      → AreInRange (v ∷ [])
      → extract_from p
          (length pre)
          (kind v ∷ ks)
          (record { frames = pre ++ frame (stream_bytes o v) ∷ fs; read_cursor = c })
        ≡ (extract_from p
              (length (pre ++ frame (stream_bytes o v) ∷ []))
              ks
              (record { frames = (pre ++ frame (stream_bytes o v) ∷ []) ++ fs; read_cursor = c })
            >>= λ vs. ok (as_read v ∷ vs))
  unfolding extract_from
  step v pre fs ks h =
      let f = frame (stream_bytes o v) in
      let first =
        as_wire o p v (record { frames = pre ++ f ∷ fs; read_cursor = c }) (length pre) h.0
          (get_elem?-append_at pre f fs) in
      let next : length (pre ++ f ∷ []) ≡ suc (length pre) =
        omega (arith, length-append pre (f ∷ [])) in
      rw (part_there pre f fs, first, next, append_assoc pre (f ∷ []) fs) refl

  extract_from-frames :
      (vs more : List Value) (pre : List Frame)
      → AreInRange vs
      → extract_from p
          (length pre)
          (map kind vs)
          (record { frames = pre ++ frames_of o (vs ++ more); read_cursor = c })
        ≡ ok (map as_read vs)
  unfolding extract_from frames_of
  extract_from-frames [] more pre h = refl
  extract_from-frames (v ∷ vs) more pre h =
      step v pre (frames_of o (vs ++ more)) (map kind vs) (h.0, tt)
      ∙ ap (λ r. r >>= λ ws. ok (as_read v ∷ ws))
          (extract_from-frames vs more (pre ++ frame (stream_bytes o v) ∷ []) h.1)

  extract_from-short :
      (vs : List Value) (k : Kind) (ks : List Kind) (pre : List Frame)
      → AreInRange vs
      → extract_from p
          (length pre)
          (map kind vs ++ k ∷ ks)
          (record { frames = pre ++ frames_of o vs; read_cursor = c })
        ≡ err assertion
  unfolding extract_from frames_of
  extract_from-short [] k ks pre h = rw (append-nil pre, part_missing pre) refl
  extract_from-short (v ∷ vs) k ks pre h =
      step v pre (frames_of o vs) (map kind vs ++ k ∷ ks) (h.0, tt)
      ∙ ap (λ r. r >>= λ ws. ok (as_read v ∷ ws))
          (extract_from-short vs k ks (pre ++ frame (stream_bytes o v) ∷ []) h.1)

-- From a message of values in range, `extract` with the types of the first of them gives these values
-- on any host, whatever parts come after them; with one type more than there are parts its assertion
-- fails. It does not depend on the read cursor.
pub extract-add :
    (o p : Order) (vs more : List Value) (k : Kind) (ks : List Kind) (c : ℕ)
    → AreInRange vs
    → (extract p (map kind vs) (record (add o empty (vs ++ more)) { read_cursor = c })
        ≡ ok (map as_read vs))
      × (extract p (map kind vs ++ k ∷ ks) (record (add o empty vs) { read_cursor = c })
          ≡ err assertion)
unfolding extract
extract-add o p vs more k ks c h = (
  rw (add-frames o empty (vs ++ more)) (extract_from-frames o p c vs more [] h),
  rw (add-frames o empty vs) (extract_from-short o p c vs k ks [] h),
)
