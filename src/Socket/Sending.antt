-- ===== src/Socket/Sending.antt =====
-- What `send` puts on the wire.
use zmqpp_pty.Base.{
  ℕ, zero, suc, ◌+◌, ◌<◌, ◌≤◌, ◌≡◌, ◌⊎◌, refl, ap, ◌∙◌, Bool, true, false, List, [], ◌∷◌, ◌++◌, map,
  Bytes, ◌==◌, if◌then◌else◌, length, ok, inl, inr, arith,
}
use zmqpp_pty.Message.Frames.{Frame}
use zmqpp_pty.Message.{Message, empty, parts}
use zmqpp_pty.Socket.Transfer.{
  SendAnswer, accepted, refused, eintr, Transmission, SendRun, send, send_loop, emit,
}
use zmqpp_pty.Socket.Steps.{
  spent, holding, step_accepted, step_interrupted, next_length, next_frames, kept_length,
  kept_frames,
}

abbrev pub AllUnsent : List Frame → Type 0
AllUnsent [] = Unit
AllUnsent (f ∷ fs) = (f.is_sent ≡ false) × AllUnsent fs

-- libzmq accepts each of `left` parts from `i` on, or an interrupt stops one that is not the first.
abbrev pub Interrupted : (ℕ → SendAnswer) → ℕ → ℕ → Type 0
Interrupted net zero i = Unit
Interrupted net (suc left) i =
    ((net i ≡ accepted) ⊎ ((0 < i) × (net i ≡ refused eintr))) × Interrupted net left (suc i)

abbrev pub is_accepted : SendAnswer → Bool
is_accepted accepted = true
is_accepted (refused e) = false

-- The bytes of the accepted parts, the first of them being part `i`.
abbrev pub accepted_bytes : (ℕ → SendAnswer) → List Frame → ℕ → List Bytes
accepted_bytes net [] i = []
accepted_bytes net (f ∷ fs) i =
    let rest = accepted_bytes net fs (suc i) in
    if is_accepted (net i) then f.contents ∷ rest else rest

abbrev pub bytes_of : List Transmission → List Bytes
bytes_of ts = map (λ t. t.contents) ts

-- The call returned `true`, cleared the message, and sent the accepted parts in order.
pub record Sends (net : ℕ → SendAnswer) (fs : List Frame) (i : ℕ) (r : SendRun) : Type 0 where
  pub returned : r.result ≡ ok true
  pub cleared : r.message ≡ empty
  pub wire : bytes_of r.out ≡ accepted_bytes net fs i

emit-Sends :
    (net : ℕ → SendAnswer) (f : Frame) (fs : List Frame) (i fl : ℕ) (r : SendRun)
    → net i ≡ accepted
    → Sends net fs (suc i) r
    → Sends net (f ∷ fs) i (emit (record { contents = f.contents; flags = fl }) r)
unfolding emit
emit-Sends net f fs i fl r e s = record {
  returned = s.returned;
  cleared = s.cleared;
  wire = rw e (ap (◌∷◌ f.contents) s.wire);
}

skip-Sends :
    (net : ℕ → SendAnswer) (f : Frame) (fs : List Frame) (i : ℕ) (r : SendRun)
    → net i ≡ refused eintr
    → Sends net fs (suc i) r
    → Sends net (f ∷ fs) i r
skip-Sends net f fs i r e s = record {
  returned = s.returned;
  cleared = s.cleared;
  wire = rw e s.wire;
}

send_loop-Sends :
    (net : ℕ → SendAnswer) (n : ℕ) (fs pre : List Frame) (c : ℕ) (dw : Bool)
    → AllUnsent fs
    → Interrupted net (length fs) (length pre)
    → Sends net fs
        (length pre)
        (send_loop net n (length fs) (length pre) dw (holding (pre ++ fs) c))
unfolding send_loop
send_loop-Sends net n [] pre c dw u h = record { returned = refl; cleared = refl; wire = refl }
send_loop-Sends net n (f ∷ fs) pre c dw u (inl e, h) =
    rw (step_accepted net n pre f fs c (length fs) dw e u.0) (
      emit-Sends net f fs (length pre) _ _ e (
        rw (next_length net n pre f fs c, next_frames net n pre f fs c) at
          (send_loop-Sends net n fs (pre ++ spent ∷ []) c dw u.1
            (rw (next_length net n pre f fs c) h))))
send_loop-Sends net n (f ∷ fs) pre c dw u (inr (pos, e), h) =
    rw (step_interrupted net n pre f fs c (length fs) dw e pos) (
      skip-Sends net f fs (length pre) _ e (
        rw (kept_length net n pre f fs c, kept_frames net n pre f fs c) at
          (send_loop-Sends net n fs (pre ++ f ∷ []) c true u.1
            (rw (kept_length net n pre f fs c) h))))

-- Where libzmq accepts the first part of a message with parts not sent before, and accepts or
-- interrupts each later part, `send` returns `true`, clears the message, and has sent exactly the
-- accepted parts, in order: an interrupted part is never sent again.
pub send-Sends :
    (net : ℕ → SendAnswer) (m : Message) (dw : Bool)
    → 0 < parts m
    → AllUnsent m.frames
    → Interrupted net (parts m) 0
    → Sends net m.frames 0 (send net m dw)
unfolding send
send-Sends net m dw pos u h =
    let some_part : (parts m == 0) ≡ false = ground arith in
    rw some_part (send_loop-Sends net (parts m) m.frames [] m.read_cursor dw u h)

accepted_bytes-le :
    (net : ℕ → SendAnswer) (fs : List Frame) (i : ℕ) → length (accepted_bytes net fs i) ≤ length fs
accepted_bytes-le net [] i = omega arith
accepted_bytes-le net (f ∷ fs) i = ground (arith, accepted_bytes-le net fs (suc i))

accepted_bytes-lt :
    (net : ℕ → SendAnswer) (fs : List Frame) (i j e : ℕ)
    → j < length fs
    → net (i + j) ≡ refused e
    → length (accepted_bytes net fs i) < length fs
accepted_bytes-lt net [] i j e h r = absurd (omega arith)
accepted_bytes-lt net (f ∷ fs) i zero e h r =
    let here : net i ≡ refused e = ap net (omega arith) ∙ r in
    rw here (omega (arith, accepted_bytes-le net fs (suc i)))
accepted_bytes-lt net (f ∷ fs) i (suc j) e h r =
    let there : net (suc i + j) ≡ refused e = ap net (omega arith) ∙ r in
    ground (arith, accepted_bytes-lt net fs (suc i) j e (omega arith) there)

-- If an interrupt stops a part other than the first of a message with parts not sent before, and
-- the other parts are accepted or, the first excepted, interrupted too, `send` still returns `true` and clears the message, but fewer parts than the
-- message had are sent.
pub send_loses_part :
    (net : ℕ → SendAnswer) (m : Message) (dw : Bool) (i : ℕ)
    → i < parts m
    → net i ≡ refused eintr
    → AllUnsent m.frames
    → Interrupted net (parts m) 0
    → ((send net m dw).result ≡ ok true)
      × ((send net m dw).message ≡ empty)
      × (length (send net m dw).out < parts m)
send_loses_part net m dw i h e u k =
    let s = send-Sends net m dw (omega arith) u k in
    (
      s.returned,
      s.cleared,
      omega (
        arith,
        length-map (send net m dw).out,
        ap length s.wire,
        accepted_bytes-lt net m.frames 0 i eintr h (ap net (omega arith) ∙ e),
      ),
    )
  where
    length-map : (ts : List Transmission) → length (bytes_of ts) ≡ length ts
    length-map [] = refl
    length-map (t ∷ ts) = ap suc (length-map ts)
