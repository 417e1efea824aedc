-- ===== src/Socket/Refusals.antt =====
-- When `send` sends nothing.
use zmqpp_pty.Base.{
  ℕ, suc, ◌≡◌, ◌≢◌, refl, Bool, false, ◌||◌, [], ◌∷◌, ◌==◌, if◌then◌else◌, ok, err, zmq_internal,
  arith, length, List,
}
use zmqpp_pty.Message.Frames.{Frame}
use zmqpp_pty.Message.{Message, parts}
use zmqpp_pty.Socket.Transfer.{SendAnswer, refused, eagain, eintr, send, send_loop}

loop_refused :
    (net : ℕ → SendAnswer) (m : Message) (dw : Bool) (e n left : ℕ)
    → net 0 ≡ refused e
    → send_loop net n (suc left) 0 dw m ≡ record {
      result = if e == eagain || e == eintr then ok false else err (zmq_internal e);
      message = m;
      out = [];
    }
unfolding send_loop
loop_refused net m dw e n left h = rw h (ground arith)

-- If libzmq refuses the first part of a message, an interrupt or EAGAIN gives `false` and any other error is
-- thrown. Either way nothing is sent and the message is unchanged.
pub send-refused_first :
    (net : ℕ → SendAnswer) (m : Message) (dw : Bool) (e : ℕ)
    → parts m ≢ 0
    → net 0 ≡ refused e
    → send net m dw ≡ record {
      result = if e == eagain || e == eintr then ok false else err (zmq_internal e);
      message = m;
      out = [];
    }
unfolding send
send-refused_first net m dw e = some_parts m.frames m.read_cursor
  where
    some_parts :
        (fs : List Frame) (c : ℕ)
        → length fs ≢ 0
        → net 0 ≡ refused e
        → send net (record { frames = fs; read_cursor = c }) dw ≡ record {
          result = if e == eagain || e == eintr then ok false else err (zmq_internal e);
          message = record { frames = fs; read_cursor = c };
          out = [];
        }
    some_parts [] c h r = absurd (h refl)
    some_parts (f ∷ fs) c h r =
        let some_part : (suc (length fs) == 0) ≡ false = ground arith in
        rw some_part
          (loop_refused net (record { frames = f ∷ fs; read_cursor = c }) dw e _ (length fs) r)
