-- ===== src/Tests/SocketTests.antt =====
-- Three parts, sent to a libzmq that accepts all, interrupts the second, or refuses.
use zmqpp_pty.Base.{some, none, ℕ, zero, suc, true, false, [], ◌∷◌, ◌≡◌, refl, ok, arith, inl, inr}
use zmqpp_pty.Message.Frames.{frame}
use zmqpp_pty.Message.{Message, signal_of, signal_stop}
use zmqpp_pty.Socket.Endpoints.{create, move_construct}
use zmqpp_pty.Socket.Endpoints.Ownership.{
  sockets, count, creates, moves, Steps, stays, then_step, IsOwned, steps-IsOwned,
}
use zmqpp_pty.Socket.Transfer.{
  SendAnswer, accepted, refused, failed, returned, eintr, eagain, send, receive,
}
use zmqpp_pty.Socket.Sending.{Sends, send-Sends}
use zmqpp_pty.Inet.Memory.{big_endian, little_endian}
use zmqpp_pty.Socket.Signalling.{send_signal, receive_signal, receive_signal-send_signal}
use zmqpp_pty.Socket.Delivery.{arrivals, fresh, receive-send}

abbrev letter : Message
letter = record {
  frames = frame (97 ∷ []) ∷ frame (98 ∷ []) ∷ frame (99 ∷ []) ∷ [];
  read_cursor = 2;
}

abbrev willing : ℕ → SendAnswer
willing i = accepted

abbrev interrupting : ℕ → SendAnswer
interrupting zero = accepted
interrupting (suc zero) = refused eintr
interrupting (suc (suc i)) = accepted

abbrev busy : ℕ → SendAnswer
busy i = refused eagain

send-Sends_example : Sends interrupting letter.frames 0 (send interrupting letter false)
send-Sends_example =
    send-Sends interrupting letter false (omega arith) (refl, (refl, (refl, tt)))
      (inl refl, (inr (omega arith, refl), (inl refl, tt)))

receive-send_example :
    let r = receive (arrivals (send willing letter true).out (failed eagain ∷ [])) letter in
    (r.result ≡ returned (ok true))
    × (r.message.frames ≡ fresh letter.frames)
    × (r.answers ≡ failed eagain ∷ [])
receive-send_example =
    receive-send willing letter letter true (failed eagain ∷ []) (omega arith)
      (refl, (refl, (refl, tt))) (refl, (refl, (refl, tt)))

receive_signal-send_signal_example :
    receive_signal little_endian
      (arrivals (send_signal big_endian willing (signal_of 1) false).out [])
      signal_stop
    ≡ record { result = returned (ok true); signal = signal_of 1; answers = [] }
receive_signal-send_signal_example =
    receive_signal-send_signal big_endian little_endian willing 1 false [] signal_stop (omega arith)
      refl

-- A socket is created, moved, and both objects are destroyed.
moved : Steps (sockets [] []) (sockets (some 7 ∷ none ∷ []) (7 ∷ []))
unfolding create move_construct count
moved =
    then_step _ (sockets (some 7 ∷ []) (7 ∷ [])) _
      (then_step _ (sockets [] []) _ (stays (sockets [] [])) (creates [] [] 7 refl))
      (moves [] [] (some 7) (7 ∷ []))

steps-IsOwned_example : IsOwned (sockets (some 7 ∷ none ∷ []) (7 ∷ []))
steps-IsOwned_example = steps-IsOwned (sockets (some 7 ∷ none ∷ []) (7 ∷ [])) moved
