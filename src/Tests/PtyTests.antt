-- ===== src/Tests/PtyTests.antt =====
-- The programs of the pty client and server: one client with a message, and one with input on
-- descriptor 1.
use zmqpp_pty.Base.{
  ℕ, ◌≡◌, ◌≢◌, refl, true, false, [], ◌∷◌, Bytes, none, inl, inr, err, undefined, zmq_internal,
  arith,
}
use zmqpp_pty.Inet.Memory.{little_endian}
use zmqpp_pty.Message
use zmqpp_pty.Poller.{failed, polled}
use zmqpp_pty.Socket.Transfer
use zmqpp_pty.Socket.Transfer.{accepted, refused, eagain}
use zmqpp_pty.Socket.Receiving.{arriving}
use zmqpp_pty.Pty.{leaves, blocks, Round, length_to_null, length_to_lf, poll_messages}
use zmqpp_pty.Pty.Lengths.{IsFirst, length_to-IsFirst}
use zmqpp_pty.Pty.Listening.{Passes, start, quiet, blank}
use zmqpp_pty.Pty.Messages.{
  with_message, missing_part, poll_messages-first, poll_messages-no_message,
}
use zmqpp_pty.Pty.Main.{World, main, no_messages, Talker, Line, talk}
use zmqpp_pty.Client.{push_name}
use zmqpp_pty.Pty.Main.Outcomes.{NeverTalks, main-NeverTalks}
use zmqpp_pty.Pty.Main.Lines.{Talks, talk-Talks}
use zmqpp_pty.Pty.Server
use zmqpp_pty.Pty.Server.{Exchange, serve, serve-Answered}

-- "a\nb", a NUL and "c"
abbrev text : Bytes
text = 97 ∷ 10 ∷ 98 ∷ 0 ∷ 99 ∷ []

length_to-IsFirst_example :
    IsFirst 0 text (length_to_null text) × IsFirst b'\n' text (length_to_lf text)
length_to-IsFirst_example = length_to-IsFirst text

lengths : (length_to_null text ≡ 3) × (length_to_lf text ≡ 1) × (length_to_lf (97 ∷ []) ≡ 1)
unfolding length_to_null length_to_lf
lengths = (refl, refl, refl)

real : ◌≢◌ {A = ℕ} 7 0
real e = absurd (omega arith)

-- An interrupt, a message without text, and a message.
abbrev interrupt : Round
interrupt = record { answer = failed 4; arrivals = [] }

abbrev silent : Round
silent = record { answer = polled (1 ∷ 0 ∷ []) 1; arrivals = arriving (0 ∷ 5 ∷ []) [] [] }

abbrev message : Round
message = record { answer = polled (1 ∷ 0 ∷ []) 1; arrivals = arriving text ((2, 4 ∷ []) ∷ []) [] }

abbrev terminal : Round
terminal = record { answer = polled (0 ∷ 1 ∷ []) 1; arrivals = Transfer.failed eagain ∷ [] }

before : Passes (interrupt ∷ silent ∷ []) ((0, 0 ∷ 5 ∷ []) ∷ [])
unfolding length_to_null
before = quiet interrupt refl (blank silent (0 ∷ 5 ∷ []) [] [] (1 ∷ 0 ∷ []) 0 refl refl refl start)

poll_messages-first_example :
    let out =
      poll_messages little_endian 7 true
        (interrupt ∷ silent ∷ message ∷ message ∷ [])
        no_messages in
    (out.0.shared ≡ with_message text no_messages)
    × (out.0.printed ≡ (0, 0 ∷ 5 ∷ []) ∷ (length_to_null text, text) ∷ [])
    × (out.1 ≡ leaves (err undefined))
unfolding length_to_null
poll_messages-first_example =
    poll_messages-first little_endian real before message (message ∷ []) (1 ∷ 0 ∷ []) 0 refl
      no_messages text ((2, 4 ∷ []) ∷ []) [] refl (λ e. absurd (omega arith)) refl

poll_messages-no_message_example :
    let out = poll_messages little_endian 7 true (interrupt ∷ silent ∷ terminal ∷ []) no_messages in
    (out.0.shared ≡ no_messages)
    × (out.0.printed ≡ (0, 0 ∷ 5 ∷ []) ∷ [])
    × (out.1 ≡ leaves missing_part)
poll_messages-no_message_example =
    poll_messages-no_message little_endian real before terminal [] (0 ∷ 1 ∷ []) 0 refl no_messages
      eagain [] refl refl

abbrev world : World
world = record {
  socket = 7;
  failure = λ c. none;
  rounds = message ∷ [];
  lines = record { text = text; net = λ i. accepted } ∷ [];
}

main-NeverTalks_example : NeverTalks (main little_endian world (push_name ∷ []))
main-NeverTalks_example = main-NeverTalks little_endian world (push_name ∷ []) real

-- A line that waits, and one that is then sent with it.
abbrev waits : Line
waits = record { text = text; net = λ i. refused eagain }

abbrev goes : Line
goes = record { text = 98 ∷ []; net = λ i. accepted }

abbrev talker : Talker
talker = record {
  shared = record { buff = (1 ∷ []) ∷ (2 ∷ []) ∷ (3 ∷ []) ∷ []; new_msg = 3; locked = false };
  tx_msg = Message.empty;
  shown = [];
  sent = [];
}

talk-Talks_example :
    (t' : Talker) × (talk little_endian (waits ∷ goes ∷ []) talker ≡ (t', blocks))
    × Talks talker (text ∷ (98 ∷ []) ∷ []) t'
talk-Talks_example =
    talk-Talks little_endian (waits ∷ goes ∷ []) talker (record { counted = refl; unsent = tt })
      (inr (eagain, refl, refl), (inl (λ i. refl), tt))

-- The replies of a server whose first reply is accepted and whose second is not supported.
abbrev answered : Exchange
answered = record { arrivals = arriving text [] []; reply = accepted }

abbrev unsupported : Exchange
unsupported = record { arrivals = arriving (98 ∷ []) [] []; reply = refused 95 }

serve-Answered_example :
    serve little_endian (answered ∷ unsupported ∷ answered ∷ [])
    ≡ (text ∷ (98 ∷ []) ∷ [], leaves (err (zmq_internal 95)))
unfolding Transfer.send_raw
serve-Answered_example =
    serve-Answered little_endian (Server.round answered text ([], [], refl) true refl Server.start)
      unsupported (98 ∷ []) 95 (answered ∷ []) ([], [], refl) refl refl
