-- ===== src/Client/Toggling.antt =====
-- Sending and receiving in turns.
use zmqpp_pty.Base.{
  ◌≡◌, refl, Bool, true, false, not, List, [], ◌∷◌, if◌then◌else◌, Bool-cases, inl, inr, Bytes,
  Result, ok, err,
}
use zmqpp_pty.Poller
use zmqpp_pty.Poller.{Run, Poller, poll_in, flagged, poll}
use zmqpp_pty.Client.{Modes}
use zmqpp_pty.Client.Starting.{is_alternating}
use zmqpp_pty.Client.Reading.{parts_of}
use zmqpp_pty.Client.Turns.{
  Client, World, Event, Turn, again, left, failure, aborted, thrown, with_poller, reading, toggle,
  receiving, after_send, sending, with_parts, on_stdin, without_stdin, after_socket, handle,
  after_poll, checked, turn, go_on, run, flag,
}

-- The client at the end of a turn.
abbrev pub client_of : Turn → Client
client_of (again c) = c
client_of (left c) = c
client_of (failure c) = c
client_of (aborted c) = c
client_of (thrown c e) = c

abbrev Alternates : Turn → Type 0
Alternates t = is_alternating (client_of t).modes ≡ true

toggle-is_alternating :
    (s : Bool) (m : Modes) → is_alternating m ≡ true → is_alternating (toggle s (not s) m) ≡ true
unfolding toggle
toggle-is_alternating true m h = elim (Bool-cases m.toggles) [
  | inl e ↦ rw e refl
  | inr e ↦ rw (e, toggle) (rw e at h)
]
toggle-is_alternating false m h = elim (Bool-cases m.toggles) [
  | inl e ↦ rw e refl
  | inr e ↦ rw (e, toggle) (rw e at h)
]

with_poller-Alternates :
    {A : Type 0} (c : Client) (ran : Run A) (next : Client → A → Turn)
    → is_alternating c.modes ≡ true
    → ((c' : Client) (x : A) → is_alternating c'.modes ≡ true → Alternates (next c' x))
    → Alternates (with_poller c ran next)
with_poller-Alternates c (p, ok x) next h n = n (record c { poller = p }) x h
with_poller-Alternates c (p, err e) next h n = h

reading-Alternates :
    {A : Type 0} (c : Client) (result : Result A) (next : A → Turn)
    → is_alternating c.modes ≡ true
    → ((x : A) → Alternates (next x))
    → Alternates (reading c result next)
reading-Alternates c (ok x) next h n = n x
reading-Alternates c (err e) next h n = h

if-Alternates :
    (b : Bool) (t u : Turn) → Alternates t → Alternates u → Alternates (if b then t else u)
if-Alternates true t u h k = h
if-Alternates false t u h k = k

after_send-is_alternating :
    (parts : List Bytes) (c : Client) (b : Bool)
    → is_alternating c.modes ≡ true
    → is_alternating (after_send parts c b).modes ≡ true
unfolding after_send
after_send-is_alternating parts c b h = toggle-is_alternating false c.modes h

sending-Alternates :
    (w : World) (parts : List Bytes) (c : Client)
    → is_alternating c.modes ≡ true
    → Alternates (sending w parts c)
unfolding sending
sending-Alternates w parts c h = reading-Alternates c (w.send c.sent parts true) _ h (λ first.
    if-Alternates first _ _ (after_send-is_alternating parts c true h) (
      reading-Alternates c (w.send c.sent parts false) _ h
        (λ second. after_send-is_alternating parts c second h)))

with_parts-Alternates :
    (w : World) (c : Client) (r : List Bytes × List Bytes)
    → is_alternating c.modes ≡ true
    → Alternates (with_parts w c r)
unfolding with_parts
with_parts-Alternates w c ([], rest) h = h
with_parts-Alternates w c (p ∷ ps, rest) h =
    sending-Alternates w (p ∷ ps) (record c { lines = rest }) h

on_stdin-Alternates :
    (w : World) (c : Client) (lines : List Bytes)
    → is_alternating c.modes ≡ true
    → Alternates (on_stdin w c lines)
unfolding on_stdin
on_stdin-Alternates w c [] h = if-Alternates c.modes.can_send (failure c) (aborted c) h h
on_stdin-Alternates w c (l ∷ lines) h =
    if-Alternates c.modes.can_send _ (aborted c)
      (reading-Alternates c (parts_of w.singlepart (l ∷ lines)) _ h
        (λ r. with_parts-Alternates w c r h))
      h

without_stdin-Alternates :
    (c : Client) → is_alternating c.modes ≡ true → Alternates (without_stdin c)
unfolding without_stdin
without_stdin-Alternates c h = if-Alternates _ (left c) (again c) h h

after_socket-Alternates :
    (w : World) (c : Client) → is_alternating c.modes ≡ true → Alternates (after_socket w c)
unfolding after_socket
after_socket-Alternates w c h =
    if-Alternates c.has_stdin _ _
      (reading-Alternates c (flagged poll_in (Poller.events_fd c.poller 0)) _ h (λ b.
        if-Alternates b _ _ (on_stdin-Alternates w c c.lines h) (without_stdin-Alternates c h)))
      (without_stdin-Alternates c h)

receiving-is_alternating :
    (parts : List Bytes) (c : Client)
    → is_alternating c.modes ≡ true
    → is_alternating (receiving parts c).modes ≡ true
unfolding receiving
receiving-is_alternating parts c h = toggle-is_alternating true c.modes h

handle-Alternates :
    (w : World) (arriving : List Bytes) (c : Client)
    → is_alternating c.modes ≡ true
    → Alternates (handle w arriving c)
unfolding handle
handle-Alternates w arriving c h =
    reading-Alternates c (flagged poll_in (Poller.events_socket c.poller w.socket)) _ h (λ b.
      if-Alternates b _ _
        (if-Alternates c.modes.can_recv _ (aborted c)
          (after_socket-Alternates w (receiving arriving c) (receiving-is_alternating arriving c h))
          h)
        (after_socket-Alternates w c h))

checked-Alternates :
    (w : World) (e : Event) (c : Client)
    → is_alternating c.modes ≡ true
    → Alternates (checked w e c)
unfolding checked after_poll
checked-Alternates w e c h =
    with_poller-Alternates c (poll c.poller e.answer) _ h
      (λ c' b k. if-Alternates b _ (again c') (handle-Alternates w e.arriving c' k) k)

turn-Alternates :
    (w : World) (e : Event) (c : Client) → is_alternating c.modes ≡ true → Alternates (turn w e c)
unfolding turn
turn-Alternates w e c h =
    with_poller-Alternates c (Poller.check_for_socket c.poller w.socket (flag c.modes.can_recv)) _ h
      (λ c' u k.
        if-Alternates c'.has_stdin _ _
          (with_poller-Alternates c' (Poller.check_for_fd c'.poller 0 (flag c'.modes.can_send)) _ k
            (λ c'' v m. checked-Alternates w e c'' m))
          (checked-Alternates w e c' k))

go_on-Alternates :
    (t : Turn) (next : Client → Turn)
    → Alternates t
    → ((c : Client) → is_alternating c.modes ≡ true → Alternates (next c))
    → Alternates (go_on t next)
go_on-Alternates (again c) next h n = n c h
go_on-Alternates (left c) next h n = h
go_on-Alternates (failure c) next h n = h
go_on-Alternates (aborted c) next h n = h
go_on-Alternates (thrown c e) next h n = h

-- However long the client runs, whatever it reads and whatever its poller and its socket answer, and
-- also when it ends, fails or throws: a client that changes between sending and receiving is in
-- exactly one of the two modes if it was so at the start.
pub run_alternates :
    (w : World) (es : List Event) (c : Client)
    → is_alternating c.modes ≡ true
    → is_alternating (client_of (run w es c)).modes ≡ true
unfolding run
run_alternates w [] c h = h
run_alternates w (e ∷ es) c h =
    go_on-Alternates (turn w e c) (λ c'. run w es c') (turn-Alternates w e c h)
      (λ c' k. run_alternates w es c' k)

-- A client that changes between sending and receiving, and reads the standard input, leaves its loop
-- as soon as it has received a message, if there is no data on the standard input at that moment.
pub handle-leaves :
    (w : World) (arriving : List Bytes) (c : Client)
    → c.has_stdin ≡ true
    → c.modes.toggles ≡ true
    → c.modes.can_recv ≡ true
    → flagged poll_in (Poller.events_socket c.poller w.socket) ≡ ok true
    → flagged poll_in (Poller.events_fd c.poller 0) ≡ ok false
    → handle w arriving c ≡ left (receiving arriving c)
unfolding handle after_socket without_stdin receiving toggle
handle-leaves w arriving c has t r input no_input = rw (input, r, has, no_input, t) refl
