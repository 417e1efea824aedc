-- ===== src/Socket/Receiving.antt =====
-- What `receive` makes of the parts that libzmq delivers.
use mathlib.Core.List.{append_assoc}
use zmqpp_pty.Base.{
  ℕ, zero, suc, ◌≡◌, ◌≢◌, refl, ap, ◌∙◌, true, false, ◌||◌, List, [], ◌∷◌, ◌++◌, map, Bytes, ◌==◌,
  if◌then◌else◌, length, ok, err, zmq_internal, arith, length-append,
}
use zmqpp_pty.Message.Frames.{Frame, frame}
use zmqpp_pty.Message.{Message, empty, parts}
use zmqpp_pty.Socket.Transfer.{
  RecvAnswer, arrived, failed, returned, receive, receive_loop, eagain, eintr,
}

abbrev pub interrupts : ℕ → List RecvAnswer → List RecvAnswer
interrupts zero later = later
interrupts (suc n) later = failed eintr ∷ interrupts n later

-- A message of libzmq: its first part, and the later ones, each after some interrupts.
abbrev pub arriving : Bytes → List (ℕ × Bytes) → List RecvAnswer → List RecvAnswer
arriving bs [] later = arrived bs (ok false) ∷ later
arriving bs ((n, cs) ∷ rest) later = arrived bs (ok true) ∷ interrupts n (arriving cs rest later)

abbrev pub frames_for : Bytes → List (ℕ × Bytes) → List Frame
frames_for bs rest = frame bs ∷ map (λ p. frame p.1) rest

skip_interrupts :
    (n : ℕ) (later : List RecvAnswer) (m : Message)
    → parts m ≢ 0
    → receive_loop (interrupts n later) m ≡ receive_loop later m
unfolding receive_loop
skip_interrupts zero later m h = refl
skip_interrupts (suc n) later m h =
    let some_part : (parts m == 0) ≡ false = ground arith in
    rw some_part (skip_interrupts n later m h)

receive_loop-arriving :
    (bs : Bytes) (rest : List (ℕ × Bytes)) (later : List RecvAnswer) (fs : List Frame) (c : ℕ)
    → receive_loop (arriving bs rest later) (record { frames = fs; read_cursor = c }) ≡ record {
      result = returned (ok true);
      message = record { frames = fs ++ frames_for bs rest; read_cursor = c };
      answers = later;
    }
unfolding receive_loop
receive_loop-arriving bs [] later fs c = refl
receive_loop-arriving bs ((n, cs) ∷ rest) later fs c =
    skip_interrupts n (arriving cs rest later) _ (omega (arith, length-append fs (frame bs ∷ [])))
    ∙ receive_loop-arriving cs rest later (fs ++ frame bs ∷ []) c
    ∙ rw append_assoc refl

-- Receiving a message of one or more parts returns `true` with those parts in order, however many
-- interrupts come between them, and uses up no later answer. Parts that the target had are
-- dropped. The read cursor restarts at 0 if there were any; a target without parts keeps its own.
pub receive-arriving :
    (bs : Bytes) (rest : List (ℕ × Bytes)) (later : List RecvAnswer) (m : Message)
    → receive (arriving bs rest later) m ≡ record {
      result = returned (ok true);
      message = record {
        frames = frames_for bs rest;
        read_cursor = if parts m == 0 then m.read_cursor else 0;
      };
      answers = later;
    }
unfolding receive
receive-arriving bs rest later m = from m.frames m.read_cursor
  where
    from :
        (fs : List Frame) (c : ℕ)
        → receive (arriving bs rest later) (record { frames = fs; read_cursor = c }) ≡ record {
          result = returned (ok true);
          message = record {
            frames = frames_for bs rest;
            read_cursor = if length fs == 0 then c else 0;
          };
          answers = later;
        }
    from [] c = receive_loop-arriving bs rest later [] c
    from (f ∷ fs) c =
        let some_part : (suc (length fs) == 0) ≡ false = ground arith in
        rw some_part (receive_loop-arriving bs rest later [] 0)

loop_failed :
    (e : ℕ) (later : List RecvAnswer) (m : Message)
    → parts m ≡ 0
    → receive_loop (failed e ∷ later) m ≡ record {
      result = returned (if e == eagain || e == eintr then ok false else err (zmq_internal e));
      message = m;
      answers = later;
    }
unfolding receive_loop
loop_failed e later m h = ground arith

emptied : (m : Message) → parts (if parts m == 0 then m else empty) ≡ 0
emptied m = ground arith

-- When the first call of `zmq_msg_recv` fails, an interrupt or EAGAIN gives `false` and any other
-- error is thrown; either way the message is left without parts.
pub receive_first_failed :
    (e : ℕ) (later : List RecvAnswer) (m : Message)
    → let r = receive (failed e ∷ later) m in
      (r.result ≡ returned (if e == eagain || e == eintr then ok false else err (zmq_internal e)))
      × (parts r.message ≡ 0)
      × (r.answers ≡ later)
unfolding receive
receive_first_failed e later m =
    let run = loop_failed e later (if parts m == 0 then m else empty) (emptied m) in
    (ap (λ r. r.result) run, ap (λ r. parts r.message) run ∙ emptied m, ap (λ r. r.answers) run)
