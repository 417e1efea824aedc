-- ===== src/Client/Turns.antt =====
-- The loop of `main`. The poller is the one of Poller, with the socket and the standard input, whose
-- descriptor is 0. What `zmq_poll` answers and what the calls of the socket return is an argument.
use zmqpp_pty.Base.{
  ℕ, Bool, true, false, not, ◌&&◌, List, [], ◌∷◌, ◌++◌, if◌then◌else◌, Bytes, Result, ok, err,
  Error,
}
use zmqpp_pty.Poller
use zmqpp_pty.Poller.{Poller, Run, Answer, poll_in, poll, flagged}
use zmqpp_pty.Client.{Modes, modes}
use zmqpp_pty.Client.Reading.{parts_of}

pub record Client : Type 0 where
  pub modes : Modes
  -- whether the standard input is read, and its lines
  pub has_stdin : Bool
  pub lines : List Bytes
  pub poller : Poller
  -- the messages that were printed, and those that were sent, the last one last
  pub received : List (List Bytes)
  pub sent : List (List Bytes)

-- The socket, the option `singlepart`, and `send`: its answer, given the messages sent so far, the
-- message and whether it may not block.
pub record World : Type 0 where
  pub socket : ℕ
  pub singlepart : Bool
  pub send : List (List Bytes) → List Bytes → Bool → Result Bool

-- What a turn is given: the answer of `zmq_poll`, and the parts of the message that is received if
-- there is one.
pub record Event : Type 0 where
  pub answer : Answer
  pub arriving : List Bytes

-- How a turn ends: the loop goes on, leaves, `main` returns EXIT_FAILURE, one of its assertions fails,
-- or a call throws.
pub data Turn : Type 0 where
  again : Client → Turn
  left : Client → Turn
  failure : Client → Turn
  aborted : Client → Turn
  thrown : Client → Error → Turn

abbrev pub flag : Bool → ℕ
flag b = if b then poll_in else 0

-- A call of the poller, and what follows unless it throws.
abbrev pub with_poller : {A : Type 0} → Client → Run A → (Client → A → Turn) → Turn
with_poller c (p, ok x) next = next (record c { poller = p }) x
with_poller c (p, err e) next = thrown (record c { poller = p }) e

abbrev pub reading : {A : Type 0} → Client → Result A → (A → Turn) → Turn
reading c (ok x) next = next x
reading c (err e) next = thrown c e

-- `if (toggles)`.
unfoldable pub toggle : Bool → Bool → Modes → Modes
toggle s r m = if m.toggles then modes s r true else m

unfoldable pub receiving : List Bytes → Client → Client
unfolding toggle
receiving parts c = record c {
  received = c.received ++ parts ∷ [];
  modes = toggle true false c.modes;
}

unfoldable pub after_send : List Bytes → Client → Bool → Client
unfolding toggle
after_send parts c b = record c {
  sent = if b then c.sent ++ parts ∷ [] else c.sent;
  modes = toggle false true c.modes;
}

-- The first `send` does not block; if it returns false the message is sent again, and dropped if
-- that returns false too.
unfoldable pub sending : World → List Bytes → Client → Turn
unfolding after_send
sending w parts c = reading c (w.send c.sent parts true) (λ first.
    if first
    then again (after_send parts c true)
    else reading c (w.send c.sent parts false) (λ second. again (after_send parts c second)))

unfoldable pub with_parts : World → Client → List Bytes × List Bytes → Turn
unfolding sending
with_parts w c ([], rest) = again (record c { lines = rest })
with_parts w c (p ∷ ps, rest) = sending w (p ∷ ps) (record c { lines = rest })

-- Data on the standard input.
unfoldable pub on_stdin : World → Client → List Bytes → Turn
unfolding parts_of with_parts
on_stdin w c [] = if c.modes.can_send then failure c else aborted c
on_stdin w c (l ∷ lines) =
    if c.modes.can_send
    then reading c (parts_of w.singlepart (l ∷ lines)) (λ r. with_parts w c r)
    else aborted c

unfoldable pub without_stdin : Client → Turn
without_stdin c =
    if c.has_stdin && (c.modes.can_send && not c.modes.can_recv) then left c else again c

-- After the socket: the test of the standard input.
unfoldable pub after_socket : World → Client → Turn
unfolding on_stdin without_stdin
after_socket w c =
    if c.has_stdin
    then reading c (flagged poll_in (Poller.events_fd c.poller 0))
        (λ b. if b then on_stdin w c c.lines else without_stdin c)
    else without_stdin c

-- `poller.poll()` returned true.
unfoldable pub handle : World → List Bytes → Client → Turn
unfolding receiving after_socket
handle w arriving c = reading c (flagged poll_in (Poller.events_socket c.poller w.socket)) (λ b.
    if b
    then (if c.modes.can_recv then after_socket w (receiving arriving c) else aborted c)
    else after_socket w c)

unfoldable pub after_poll : World → List Bytes → Client → Bool → Turn
unfolding handle
after_poll w arriving c b = if b then handle w arriving c else again c

unfoldable pub checked : World → Event → Client → Turn
unfolding after_poll
checked w e c = with_poller c (poll c.poller e.answer) (λ c' b. after_poll w e.arriving c' b)

-- The body of `while(true)`.
unfoldable pub turn : World → Event → Client → Turn
unfolding checked
turn w e c =
    with_poller c (Poller.check_for_socket c.poller w.socket (flag c.modes.can_recv)) (λ c' u.
      if c'.has_stdin
      then with_poller c' (Poller.check_for_fd c'.poller 0 (flag c'.modes.can_send))
          (λ c'' v. checked w e c'')
      else checked w e c')

-- `while(true)`, for the events that come; `again` when they are used up.
abbrev pub go_on : Turn → (Client → Turn) → Turn
go_on (again c) next = next c
go_on (left c) next = left c
go_on (failure c) next = failure c
go_on (aborted c) next = aborted c
go_on (thrown c e) next = thrown c e

unfoldable pub run : World → List Event → Client → Turn
unfolding turn
run w [] c = again c
run w (e ∷ es) c = go_on (turn w e c) (λ c'. run w es c')
