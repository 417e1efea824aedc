-- ===== src/Tests/ClientTests.antt =====
-- A client with a socket of type reply.
use zmqpp_pty.Base.{ℕ, true, false, [], ◌∷◌, some, none, if◌then◌else◌, ◌=ˢ◌, ◌≡◌, refl, ok}
use zmqpp_pty.Poller
use zmqpp_pty.Poller.{PollItem, poll_in, flagged, polled}
use zmqpp_pty.Poller.Index.{Key, sock, file, find, IsIndexed}
use zmqpp_pty.Poller.Operations.{add-IsIndexed}
use zmqpp_pty.Client.Polling.{IsHonest}
use zmqpp_pty.Client.Asserting.{asked, aborts, turn_asserts}
use zmqpp_pty.Socket.Endpoints.{opened}
use zmqpp_pty.Client.Opening.{
  Surroundings, endpoint_failed, first_failing, main, Explains, main-Explains,
}
use zmqpp_pty.Client.{Variables, no_variables, process_command_line, start, modes, rep_name}
use zmqpp_pty.Client.Reading.{parts_of}
use zmqpp_pty.Client.Starting.{is_alternating}
use zmqpp_pty.Client.Framing.{Line, all_lines, all_parts, parts_of-lines}
use zmqpp_pty.Client.Turns.{Client, World, Event, run, turn}
use zmqpp_pty.Client.Toggling.{client_of, run_alternates}

abbrev line : Line
line = record { first = 97; more = 98 ∷ []; end = 10 }

parts_of-lines_example :
    (parts_of false (all_lines (line ∷ line ∷ []) ((10 ∷ []) ∷ []))
      ≡ ok (all_parts (line ∷ line ∷ []), []))
    × (parts_of false (all_lines (line ∷ line ∷ []) []) ≡ ok (all_parts (line ∷ line ∷ []), []))
parts_of-lines_example = parts_of-lines (line ∷ line ∷ []) 10 []

abbrev world : World
world = record { socket = 7; singlepart = false; send = λ sent parts now. ok true }

-- The poller after `zmq_poll` returned a message on the socket, and nothing on the standard input.
abbrev replier : Client
replier = record {
  modes = modes false true true;
  has_stdin = true;
  lines = [];
  poller =
      (Poller.poll (Poller.add_fd (Poller.add_socket Poller.empty 7 poll_in) 0 0)
        (polled (1 ∷ 0 ∷ []) 1)).0;
  received = [];
  sent = [];
}

input : flagged poll_in (Poller.events_socket replier.poller 7) ≡ ok true
unfolding Poller.events_socket Poller.poll Poller.add_fd Poller.add_socket
input = refl

no_input : flagged poll_in (Poller.events_fd replier.poller 0) ≡ ok false
unfolding Poller.events_fd Poller.poll Poller.add_fd Poller.add_socket
no_input = refl

abbrev event : Event
event = record { answer = polled (1 ∷ 0 ∷ []) 1; arriving = (97 ∷ []) ∷ [] }

run_alternates_example :
    is_alternating (client_of (run world (event ∷ event ∷ []) replier)).modes ≡ true
run_alternates_example = run_alternates world (event ∷ event ∷ []) replier refl

abbrev item : ℕ → PollItem
item s = record { socket = s; fd = 0; events = poll_in; revents = 0 }

empty-IsIndexed : IsIndexed Poller.empty
empty-IsIndexed = record { slots = λ k i e. absurd (no_key k i e); listed = λ i x e. cc }
  where
    no_key : (k : Key) (i : ℕ) → find Poller.empty k ≡ some i → ⊥
    no_key (sock s) i e = cc
    no_key (file d) i e = cc

abbrev waiting : Client
waiting = record replier { poller = Poller.add (Poller.add Poller.empty (item 7)) (item 0) }

waiting-IsIndexed : IsIndexed waiting.poller
unfolding Poller.add
waiting-IsIndexed =
    (add-IsIndexed (Poller.add Poller.empty (item 7)) (item 0)
      (add-IsIndexed Poller.empty (item 7) empty-IsIndexed refl).0 refl).0

honest : IsHonest (asked waiting 7).items (1 ∷ 0 ∷ [])
unfolding Poller.add Poller.check_for_fd Poller.check_for_socket
honest = (refl, (refl, tt))

turn_asserts_example :
    aborts
      (turn world (record { answer = polled (1 ∷ 0 ∷ []) 1; arriving = (97 ∷ []) ∷ [] }) waiting)
    ≡ false
unfolding Poller.add
turn_asserts_example =
    turn_asserts world waiting (item 7) (item 0) (1 ∷ 0 ∷ []) 1 ((97 ∷ []) ∷ []) refl
      waiting-IsIndexed refl refl honest

-- A client of type reply whose second endpoint is refused.
abbrev surroundings : Surroundings
surroundings = record {
  stdin = true;
  opening = opened 7;
  subscribing = none;
  binding = λ e. if e =ˢ 98 ∷ [] then some 98 else none;
  connecting = λ e. none;
  send = λ sent parts now. ok true;
  lines = [];
  events = event ∷ [];
}

abbrev reply_options : Variables
reply_options = record no_variables {
  type_name = some rep_name;
  bind = some ((97 ∷ []) ∷ (98 ∷ []) ∷ []);
}

main_stops : main surroundings (some reply_options) ≡ endpoint_failed (98 ∷ [])
unfolding main first_failing process_command_line start ◌=ˢ◌
main_stops = refl

main-Explains_example :
    Explains surroundings
      (process_command_line (some reply_options))
      (main surroundings (some reply_options))
main-Explains_example = main-Explains surroundings (some reply_options)
