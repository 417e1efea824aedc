-- ===== src/Socket/Steps.antt =====
-- One round of the loop in `send`, at a message split before its next part.
use zmqpp_pty.Base.{
  ℕ, suc, ◌<◌, ◌≡◌, refl, ap, Bool, true, false, List, [], ◌∷◌, ◌++◌, some, ◌==◌, length, get_elem?,
  set, ok, arith, length-append,
}
use mathlib.Core.List.{append_assoc}
use zmqpp_pty.Message.Frames.{Frame, mark_sent}
use zmqpp_pty.Message.{Message, sent}
use zmqpp_pty.Socket.Transfer.{
  SendAnswer, accepted, refused, eintr, flags_of, send_loop, taken, emit, contents_at, frame_bytes,
}

get_at :
    (pre : List Frame) (f : Frame) (fs : List Frame)
    → get_elem? (pre ++ f ∷ fs) (length pre) ≡ some f
get_at [] f fs = refl
get_at (x ∷ pre) f fs = get_at pre f fs

set_at :
    (pre : List Frame) (f g : Frame) (fs : List Frame)
    → set (pre ++ f ∷ fs) (length pre) g ≡ pre ++ g ∷ fs
set_at [] f g fs = refl
set_at (x ∷ pre) f g fs = ap (◌∷◌ x) (set_at pre f g fs)

abbrev pub spent : Frame
spent = record { contents = []; is_sent = true }

abbrev pub holding : List Frame → ℕ → Message
holding fs c = record { frames = fs; read_cursor = c }

module _ (net : ℕ → SendAnswer) (n : ℕ) (pre : List Frame) (f : Frame) (fs : List Frame)
    (c : ℕ) where
  contents_eq : contents_at (holding (pre ++ f ∷ fs) c) (length pre) ≡ f.contents
  contents_eq = ap frame_bytes (get_at pre f fs)

  taken_at :
      taken (holding (pre ++ f ∷ fs) c) (length pre)
      ≡ holding (pre ++ record f { contents = [] } ∷ fs) c
  taken_at = rw (get_at pre f fs, taken) (ap (λ gs. holding gs c) (set_at pre f _ fs))

  sent_at :
      f.is_sent ≡ false
      → sent (holding (pre ++ record f { contents = [] } ∷ fs) c) (length pre)
        ≡ ok (holding (pre ++ spent ∷ fs) c)
  unfolding sent mark_sent
  sent_at u =
      rw (get_at pre (record f { contents = [] }) fs, sent, u)
        (ap (λ gs. ok (holding gs c)) (set_at pre _ spent fs))

  pub step_accepted :
      (left : ℕ) (dw : Bool)
      → net (length pre) ≡ accepted
      → f.is_sent ≡ false
      → send_loop net n (suc left) (length pre) dw (holding (pre ++ f ∷ fs) c)
        ≡ emit
            (record { contents = f.contents; flags = flags_of dw (length pre) n })
            (send_loop net n left (suc (length pre)) dw (holding (pre ++ spent ∷ fs) c))
  unfolding send_loop
  step_accepted left dw e u = rw (e, contents_eq, taken_at, sent_at u) refl

  pub step_interrupted :
      (left : ℕ) (dw : Bool)
      → net (length pre) ≡ refused eintr
      → 0 < length pre
      → send_loop net n (suc left) (length pre) dw (holding (pre ++ f ∷ fs) c)
        ≡ send_loop net n left (suc (length pre)) true (holding (pre ++ f ∷ fs) c)
  unfolding send_loop
  step_interrupted left dw e h =
      let inner : (length pre == 0) ≡ false = ground arith in rw (e, inner) refl

  pub next_length : length (pre ++ spent ∷ []) ≡ suc (length pre)
  next_length = omega (arith, length-append pre (spent ∷ []))

  pub next_frames : (pre ++ spent ∷ []) ++ fs ≡ pre ++ spent ∷ fs
  next_frames = append_assoc pre (spent ∷ []) fs

  pub kept_length : length (pre ++ f ∷ []) ≡ suc (length pre)
  kept_length = omega (arith, length-append pre (f ∷ []))

  pub kept_frames : (pre ++ f ∷ []) ++ fs ≡ pre ++ f ∷ fs
  kept_frames = append_assoc pre (f ∷ []) fs
