-- ===== src/Client/Asserting.antt =====
-- The assertions of the loop, and what `zmq_poll` is asked for.
use mathlib.Core.Path.{subst}
use zmqpp_pty.Base.{
  ℕ, ◌≡◌, refl, ap, ◌∙◌, Bool, true, false, not, ◌&&◌, List, [], ◌∷◌, some, if◌then◌else◌,
  Bool-cases, inl, inr, Bytes, Result, ok, err, arith, ◌==◌, ltb,
}
use zmqpp_pty.Poller
use zmqpp_pty.Poller.{Run, Poller, PollItem, Answer, polled, poll_in, flagged, poll}
use zmqpp_pty.Poller.Index.{sock, file, same_refl, IsIndexed, view}
use zmqpp_pty.Poller.Updates.{check_for-registered}
use zmqpp_pty.Client.Reading.{parts_of}
use zmqpp_pty.Client.Turns.{
  Client, World, Event, Turn, again, left, failure, aborted, with_poller, reading, toggle,
  receiving, sending, with_parts, on_stdin, without_stdin, after_socket, handle, after_poll,
  checked, turn, flag,
}
use zmqpp_pty.Client.Polling.{IsHonest, input_at}

abbrev pub aborts : Turn → Bool
aborts (aborted c) = true
aborts _ = false

if_fine :
    (b : Bool) (t u : Turn)
    → aborts t ≡ false
    → aborts u ≡ false
    → aborts (if b then t else u) ≡ false
if_fine true t u h k = h
if_fine false t u h k = k

reading_fine :
    {A : Type 0} (c : Client) (result : Result A) (next : A → Turn)
    → ((x : A) → aborts (next x) ≡ false)
    → aborts (reading c result next) ≡ false
reading_fine c (ok x) next h = h x
reading_fine c (err e) next h = refl

if_true :
    (b : Bool) (t u : Turn) → b ≡ true → aborts t ≡ false → aborts (if b then t else u) ≡ false
if_true true t u e h = h
if_true false t u e h = cc

reading_ok :
    {A : Type 0} (c : Client) (result : Result A) (next : A → Turn) (x : A)
    → result ≡ ok x
    → aborts (next x) ≡ false
    → aborts (reading c result next) ≡ false
reading_ok c result next x e h = ap (λ r. aborts (reading c r next)) e ∙ h

sending_fine : (w : World) (parts : List Bytes) (c : Client) → aborts (sending w parts c) ≡ false
unfolding sending
sending_fine w parts c = reading_fine c (w.send c.sent parts true) _ (λ first.
    if_fine first _ _ refl (reading_fine c (w.send c.sent parts false) _ (λ second. refl)))

with_parts_fine :
    (w : World) (c : Client) (r : List Bytes × List Bytes) → aborts (with_parts w c r) ≡ false
unfolding with_parts
with_parts_fine w c ([], rest) = refl
with_parts_fine w c (p ∷ ps, rest) = sending_fine w (p ∷ ps) (record c { lines = rest })

on_stdin_fine :
    (w : World) (c : Client) (lines : List Bytes)
    → c.modes.can_send ≡ true
    → aborts (on_stdin w c lines) ≡ false
unfolding on_stdin
on_stdin_fine w c [] s = if_true c.modes.can_send (failure c) (aborted c) s refl
on_stdin_fine w c (l ∷ lines) s =
    if_true c.modes.can_send _ (aborted c) s
      (reading_fine c (parts_of w.singlepart (l ∷ lines)) _ (λ r. with_parts_fine w c r))

after_socket_fine :
    (w : World) (c : Client) (b : Bool)
    → c.has_stdin ≡ true
    → flagged poll_in (Poller.events_fd c.poller 0) ≡ ok b
    → (b && not c.modes.can_send) ≡ false
    → aborts (after_socket w c) ≡ false
unfolding after_socket without_stdin
after_socket_fine w c b has e s =
    if_true c.has_stdin _ _ has
      (reading_ok c (flagged poll_in (Poller.events_fd c.poller 0)) _ b e (by_input b s))
  where
    by_input :
        (b : Bool)
        → (b && not c.modes.can_send) ≡ false
        → aborts (if b then on_stdin w c c.lines else without_stdin c) ≡ false
    by_input true s = on_stdin_fine w c c.lines (ground arith)
    by_input false s = if_fine _ (left c) (again c) refl refl

-- Receiving makes the client send, if it changes its modes at all.
receiving_sends :
    (parts : List Bytes) (c : Client) (b : Bool)
    → (b && not c.modes.can_send) ≡ false
    → (b && not (receiving parts c).modes.can_send) ≡ false
unfolding receiving toggle
receiving_sends parts c false s = refl
receiving_sends parts c true s = elim (Bool-cases c.modes.toggles) [
  | inl t ↦ rw t refl
  | inr t ↦ rw t s
]

receiving_keeps :
    (parts : List Bytes) (c : Client)
    → ((receiving parts c).has_stdin ≡ c.has_stdin) × ((receiving parts c).poller ≡ c.poller)
unfolding receiving
receiving_keeps parts c = (refl, refl)

handle_fine :
    (w : World) (parts : List Bytes) (c : Client) (a b : Bool)
    → c.has_stdin ≡ true
    → flagged poll_in (Poller.events_socket c.poller w.socket) ≡ ok a
    → flagged poll_in (Poller.events_fd c.poller 0) ≡ ok b
    → (a && not c.modes.can_recv) ≡ false
    → (b && not c.modes.can_send) ≡ false
    → aborts (handle w parts c) ≡ false
unfolding handle receiving
handle_fine w parts c a b has ea eb r s =
    reading_ok c (flagged poll_in (Poller.events_socket c.poller w.socket)) _ a ea (by_input a r)
  where
    by_input :
        (a : Bool)
        → (a && not c.modes.can_recv) ≡ false
        → aborts (
            if a
            then if c.modes.can_recv then after_socket w (receiving parts c) else aborted c
            else after_socket w c)
          ≡ false
    by_input true r =
        if_true c.modes.can_recv _ (aborted c) (ground arith)
          (after_socket_fine w (receiving parts c) b has eb (receiving_sends parts c b s))
    by_input false r = after_socket_fine w c b has eb s

-- What was asked for: input only in the mode.
asked_for : (a m : Bool) → (a && (flag m == 0)) ≡ false → (a && not m) ≡ false
asked_for true true h = refl
asked_for true false h = ground arith
asked_for false m h = refl

-- The poller that is polled, with what it is asked for.
abbrev pub asked : Client → ℕ → Poller
asked c s =
    (Poller.check_for_fd (Poller.check_for_socket c.poller s (flag c.modes.can_recv)).0 0
      (flag c.modes.can_send)).0

-- In a turn of a client that reads the standard input, when the poller's index is sound and holds the
-- socket and the standard input, and `zmq_poll` returns the events of all items and input only for
-- items that were asked for it, neither of the assertions `can_recv` and `can_send` fails.
pub turn_asserts :
    (w : World) (c : Client) (x y : PollItem) (rs : List ℕ) (n : ℕ) (parts : List Bytes)
    → c.has_stdin ≡ true
    → IsIndexed c.poller
    → view c.poller (sock w.socket) ≡ some x
    → view c.poller (file 0) ≡ some y
    → IsHonest (asked c w.socket).items rs
    → aborts (turn w (record { answer = polled rs n; arriving = parts }) c) ≡ false
unfolding turn checked after_poll poll
turn_asserts w c x y rs n parts has ix vs vf honest =
    let r = flag c.modes.can_recv in
    let t = flag c.modes.can_send in
    let (q1, run1, ix1, view1) = check_for-registered c.poller (sock w.socket) ix r x vs in
    let vf1 : view q1 (file 0) ≡ some y = view1 (file 0) ∙ vf in
    let (q2, run2, ix2, view2) = check_for-registered q1 (file 0) ix1 t y vf1 in
    let vs2 : view q2 (sock w.socket) ≡ some (record x { events = r }) =
      view2 (sock w.socket) ∙ view1 (sock w.socket) ∙ rw (same_refl (sock w.socket)) refl in
    let vf2 : view q2 (file 0) ≡ some (record y { events = t }) = view2 (file 0) in
    let polled_q2 : asked c w.socket ≡ q2 =
      ap (λ ran. (Poller.check_for_fd ran.0 0 t).0) run1 ∙ ap (λ ran. ran.0) run2 in
    let honest2 : IsHonest q2.items rs = subst (λ q. IsHonest q.items rs) polled_q2 honest in
    let (a, ea, ra) = input_at q2 rs n (sock w.socket) (record x { events = r }) ix2 vs2 honest2 in
    let (b, eb, rb) = input_at q2 rs n (file 0) (record y { events = t }) ix2 vf2 honest2 in
    let e : Event = record { answer = polled rs n; arriving = parts } in
    let c3 = record c { poller = (poll q2 (polled rs n)).0 } in
    let ran : turn w e c ≡ after_poll w parts c3 (ltb 0 n) =
      ap
        (λ u. with_poller c u (λ c' v.
          if c'.has_stdin
          then with_poller c' (Poller.check_for_fd c'.poller 0 (flag c'.modes.can_send))
              (λ c'' v'. checked w e c'')
          else checked w e c'))
        run1
      ∙ ap
          (λ h.
            if h
            then with_poller (record c { poller = q1 }) (Poller.check_for_fd q1 0 t)
                (λ c'' v'. checked w e c'')
            else checked w e (record c { poller = q1 }))
          has
      ∙ ap (λ u. with_poller (record c { poller = q1 }) u (λ c'' v'. checked w e c'')) run2 in
    ap aborts ran
    ∙ if_fine (ltb 0 n) (handle w parts c3) (again c3)
        (handle_fine w parts c3 a b has ea eb (asked_for a c.modes.can_recv ra)
          (asked_for b c.modes.can_send rb))
        refl
