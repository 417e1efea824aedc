-- ===== src/Socket/Delivery.antt =====
-- A message that is sent without a failure, and received at the other end.
use Prim.Native.Nat.{bit_and}
use zmqpp_pty.Base.{
  ℕ, zero, suc, ◌+◌, ◌-◌, ◌<◌, ◌≡◌, refl, ap, ◌∙◌, Bool, true, false, not, List, [], ◌∷◌, ◌++◌, map,
  Bytes, ltb, ◌==◌, if◌then◌else◌, length, ok, arith,
}
use zmqpp_pty.Message.Frames.{Frame, frame}
use zmqpp_pty.Message.{Message, empty, parts}
use zmqpp_pty.Socket.Transfer.{
  SendAnswer, accepted, send_more, Transmission, emit, flags_of, send, send_loop, RecvAnswer,
  arrived, returned, receive,
}
use zmqpp_pty.Socket.Sending.{AllUnsent}
use zmqpp_pty.Socket.Steps.{step_accepted, next_length, next_frames, spent, holding}
use zmqpp_pty.Socket.Receiving.{arriving, frames_for, receive-arriving}

abbrev pub AllAccepted : (ℕ → SendAnswer) → ℕ → ℕ → Type 0
AllAccepted net zero i = Unit
AllAccepted net (suc left) i = (net i ≡ accepted) × AllAccepted net left (suc i)

-- Every part in order; all but the last with SNDMORE (2), each with DONTWAIT (1) if asked for.
abbrev pub plan : Bool → List Frame → List Transmission
plan dw [] = []
plan dw (f ∷ []) = record { contents = f.contents; flags = if dw then 1 else 0 } ∷ []
plan dw (f ∷ g ∷ fs) =
    record { contents = f.contents; flags = if dw then 3 else 2 } ∷ plan dw (g ∷ fs)

flags_last : (dw : Bool) (i n : ℕ) → suc i ≡ n → flags_of dw i n ≡ (if dw then 1 else 0)
flags_last dw i n h = let last : ltb i (n - 1) ≡ false = ground arith in rw last (by dw)
  where
    by : (dw : Bool) → flags_of dw 0 1 ≡ (if dw then 1 else 0)
    by true = refl
    by false = refl

flags_inner : (dw : Bool) (i n : ℕ) → suc i < n → flags_of dw i n ≡ (if dw then 3 else 2)
flags_inner dw i n h = let inner : ltb i (n - 1) ≡ true = ground arith in rw inner (by dw)
  where
    by : (dw : Bool) → flags_of dw 0 2 ≡ (if dw then 3 else 2)
    by true = refl
    by false = refl

emit-plan :
    (dw : Bool) (n : ℕ) (f : Frame) (fs : List Frame) (i : ℕ)
    → i + suc (length fs) ≡ n
    → emit
        (record { contents = f.contents; flags = flags_of dw i n })
        (record { result = ok true; message = empty; out = plan dw fs })
      ≡ record { result = ok true; message = empty; out = plan dw (f ∷ fs) }
unfolding emit
emit-plan dw n f [] i l = rw (flags_last dw i n (omega arith))
emit-plan dw n f (g ∷ fs) i l = rw (flags_inner dw i n (omega arith))

send_loop-plan :
    (net : ℕ → SendAnswer) (n : ℕ) (fs pre : List Frame) (c : ℕ) (dw : Bool)
    → AllUnsent fs
    → AllAccepted net (length fs) (length pre)
    → length pre + length fs ≡ n
    → send_loop net n (length fs) (length pre) dw (holding (pre ++ fs) c)
      ≡ record { result = ok true; message = empty; out = plan dw fs }
unfolding send_loop
send_loop-plan net n [] pre c dw u h l = refl
send_loop-plan net n (f ∷ fs) pre c dw u h l =
    let rest =
      send_loop-plan net n fs (pre ++ spent ∷ []) c dw u.1 (rw (next_length net n pre f fs c) h.1)
        (omega (arith, next_length net n pre f fs c)) in
    step_accepted net n pre f fs c (length fs) dw h.0 u.0
    ∙ ap (emit (record { contents = f.contents; flags = flags_of dw (length pre) n }))
        (rw (next_length net n pre f fs c, next_frames net n pre f fs c) at rest)
    ∙ emit-plan dw n f fs (length pre) l

-- If libzmq accepts every part of a message of at least one part, none of them sent before, `send`
-- returns `true`, clears the message, and each part goes out once, in order: all but the last with the flag for
-- more parts, and each with the flag not to wait if that was asked for.
pub send-plan :
    (net : ℕ → SendAnswer) (m : Message) (dw : Bool)
    → 0 < parts m
    → AllUnsent m.frames
    → AllAccepted net (parts m) 0
    → send net m dw ≡ record { result = ok true; message = empty; out = plan dw m.frames }
unfolding send
send-plan net m dw pos u h =
    let some_part : (parts m == 0) ≡ false = ground arith in
    rw some_part (send_loop-plan net (parts m) m.frames [] m.read_cursor dw u h (omega arith))

-- What the peer's libzmq then answers: each part, and whether its flags announced another.
abbrev pub arrivals : List Transmission → List RecvAnswer → List RecvAnswer
arrivals [] later = later
arrivals (t ∷ ts) later =
    arrived t.contents (ok (not (bit_and t.flags send_more == 0))) ∷ arrivals ts later

abbrev pub later_parts : List Frame → List (ℕ × Bytes)
later_parts fs = map (λ f. (0, f.contents)) fs

arrivals-plan :
    (dw : Bool) (f : Frame) (fs : List Frame) (later : List RecvAnswer)
    → arrivals (plan dw (f ∷ fs)) later ≡ arriving f.contents (later_parts fs) later
arrivals-plan true f [] later = refl
arrivals-plan false f [] later = refl
arrivals-plan true f (g ∷ fs) later =
    ap (◌∷◌ (arrived f.contents (ok true))) (arrivals-plan true g fs later)
arrivals-plan false f (g ∷ fs) later =
    ap (◌∷◌ (arrived f.contents (ok true))) (arrivals-plan false g fs later)

-- A sent copy of the parts: the contents, not yet sent on.
abbrev pub fresh : List Frame → List Frame
fresh fs = map (λ f. frame f.contents) fs

frames_for-fresh :
    (f : Frame) (fs : List Frame) → frames_for f.contents (later_parts fs) ≡ fresh (f ∷ fs)
frames_for-fresh f fs = ap (◌∷◌ (frame f.contents)) (rest fs)
  where
    rest : (fs : List Frame) → map (λ p. frame p.1) (later_parts fs) ≡ fresh fs
    rest [] = refl
    rest (g ∷ gs) = ap (◌∷◌ (frame g.contents)) (rest gs)

receive-plan :
    (dw : Bool) (fs : List Frame) (later : List RecvAnswer) (m : Message)
    → 0 < length fs
    → let r = receive (arrivals (plan dw fs) later) m in
      (r.result ≡ returned (ok true)) × (r.message.frames ≡ fresh fs) × (r.answers ≡ later)
receive-plan dw [] later m h = absurd (omega arith)
receive-plan dw (f ∷ fs) later m h =
    let run : receive (arrivals (plan dw (f ∷ fs)) later) m ≡ _ =
      ap (λ xs. receive xs m) (arrivals-plan dw f fs later)
      ∙ receive-arriving f.contents (later_parts fs) later m in
    (
      ap (λ r. r.result) run,
      ap (λ r. r.message.frames) run ∙ frames_for-fresh f fs,
      ap (λ r. r.answers) run,
    )

-- A message of at least one part, none of them sent before, that libzmq accepts part by part
-- arrives whole: the peer's `receive` returns `true` with the same contents, part by part, none of
-- them marked as sent, and takes nothing that arrives later.
pub receive-send :
    (net : ℕ → SendAnswer) (m target : Message) (dw : Bool) (later : List RecvAnswer)
    → 0 < parts m
    → AllUnsent m.frames
    → AllAccepted net (parts m) 0
    → let r = receive (arrivals (send net m dw).out later) target in
      (r.result ≡ returned (ok true)) × (r.message.frames ≡ fresh m.frames) × (r.answers ≡ later)
receive-send net m target dw later pos u h =
    rw (send-plan net m dw pos u h) (receive-plan dw m.frames later target pos)
