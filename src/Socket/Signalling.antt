-- ===== src/Socket/Signalling.antt =====
-- The overloads of `send` and `receive` for signals.
use zmqpp_pty.Base.{
  ℕ, ◌<◌, Bool, true, List, [], ◌∷◌, ℤ, ◌≡◌, refl, ap, Result, ok, err, assertion, arith,
}
use zmqpp_pty.Inet.Memory.{Order}
use zmqpp_pty.Message.{Message, empty, add, write, get, is_signal, signal_of}
use zmqpp_pty.Message.Signals.{is_signal-write}
use zmqpp_pty.Message.Values.{Value, Kind}
use zmqpp_pty.Socket.Transfer.{
  SendAnswer, accepted, SendRun, send, RecvAnswer, Call, returned, receive,
}
use zmqpp_pty.Socket.Delivery.{arrivals, receive-send}

unfoldable pub send_signal : Order → (ℕ → SendAnswer) → ℤ → Bool → SendRun
unfolding add
send_signal o net sig dont_block = send net (add o empty (Value.signal sig ∷ [])) dont_block

-- The result, the signal as it was or as it was read, and the answers not used.
pub record SignalRun : Type 0 where
  pub result : Call Bool
  pub signal : ℤ
  pub answers : List RecvAnswer

-- `msg.get(sig, 0)`, after the assertion that the message is a signal.
abbrev pub read_signal : Result Bool → Result Value → ℤ → List RecvAnswer → SignalRun
read_signal (ok true) (ok (Value.signal z)) old later = record {
  result = returned (ok true);
  signal = z;
  answers = later;
}
read_signal (ok true) (err e) old later = record {
  result = returned (err e);
  signal = old;
  answers = later;
}
read_signal (err e) v old later = record {
  result = returned (err e);
  signal = old;
  answers = later;
}
read_signal _ v old later = record {
  result = returned (err assertion);
  signal = old;
  answers = later;
}

abbrev pub on_message : Order → Call Bool → Message → ℤ → List RecvAnswer → SignalRun
on_message o (returned (ok true)) msg old later =
    read_signal (is_signal o msg) (get o Kind.signal msg 0) old later
on_message o r msg old later = record { result = r; signal = old; answers = later }

unfoldable pub receive_signal : Order → List RecvAnswer → ℤ → SignalRun
receive_signal o answers old =
    let r = receive answers empty in on_message o r.result r.message old r.answers

-- The read cursor plays no part in recognising and reading a signal.
recognise :
    (p : Order) (m n : Message)
    → m.frames ≡ n.frames
    → (is_signal p m ≡ is_signal p n) × (get p Kind.signal m 0 ≡ get p Kind.signal n 0)
unfolding is_signal get
recognise p m n e = (
  ap (λ fs. is_signal p (record { frames = fs; read_cursor = 0 })) e,
  ap (λ fs. get p Kind.signal (record { frames = fs; read_cursor = 0 }) 0) e,
)

-- A signal that libzmq accepts arrives: the peer's `receive` returns `true` with the same signal,
-- on any pair of hosts, for any last byte, and takes nothing that arrives later.
pub receive_signal-send_signal :
    (o p : Order) (net : ℕ → SendAnswer) (b : ℕ) (dw : Bool) (later : List RecvAnswer) (old : ℤ)
    → b < 256
    → net 0 ≡ accepted
    → receive_signal p (arrivals (send_signal o net (signal_of b) dw).out later) old
      ≡ record { result = returned (ok true); signal = signal_of b; answers = later }
unfolding receive_signal send_signal write
receive_signal-send_signal o p net b dw later old h acc =
    let sig = write o empty (Value.signal (signal_of b)) in
    let run = receive-send net sig empty dw later (omega arith) (refl, tt) (acc, tt) in
    let same =
      recognise p (receive (arrivals (send net sig dw).out later) empty).message sig run.1 in
    let known = is_signal-write o p b h in rw (run.0, run.2, same.0, same.1, known.0, known.1) refl
