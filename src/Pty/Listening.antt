-- ===== src/Pty/Listening.antt =====
-- What `poll_messages` of zmq_pty_client.cpp does with the messages that come in.
use zmqpp_pty.Base.{
  ℕ, suc, ◌≡◌, ◌≢◌, refl, sym, ap, ◌∙◌, true, false, List, [], ◌∷◌, ◌++◌, Bytes, ◌==◌,
  if◌then◌else◌, Result, ok, arith,
}
use mathlib.Core.List.{append_assoc, append-nil}
use zmqpp_pty.Inet.Memory.{Order}
use zmqpp_pty.Message
use zmqpp_pty.Message.{Message, parts}
use zmqpp_pty.Poller
use zmqpp_pty.Poller.{Poller, Run, Answer, failed, polled, PollItem, eintr, set_revents, poll_in}
use zmqpp_pty.Socket.Transfer.{RecvAnswer}
use zmqpp_pty.Socket.Receiving.{arriving, frames_for, receive-arriving}
use zmqpp_pty.Pty.{
  Listener, Round, goes_on, leaves, show, on_text, on_received, on_look, turn, go_on, listen,
  length_to_null,
}
use zmqpp_pty.Pty.Watching.{Watches, look-poll, polled-Watches, IsQuiet, poll_quiet, poll_some}

-- A message that lost its parts starts to be read at the first again.
abbrev pub IsFresh : Message → Type 0
IsFresh m = (parts m ≡ 0) → m.read_cursor ≡ 0

-- The message that `receive` leaves, once its first part was read.
abbrev pub read_message : Bytes → List (ℕ × Bytes) → Message
read_message t rest = record { frames = frames_for t rest; read_cursor = 1 }

on_look_message :
    (o : Order) (q : Poller) (t : Bytes) (rest : List (ℕ × Bytes)) (later : List RecvAnswer)
    (l : Listener)
    → IsFresh l.message
    → on_look o (q, ok true) (arriving t rest later) l
      ≡ show t (record l { poller = q; message = read_message t rest })
unfolding on_look on_received on_text Message.read
on_look_message o q t rest later l fresh =
    let first : (if parts l.message == 0 then l.message.read_cursor else 0) ≡ 0 = ground arith in
    rw (receive-arriving t rest later l.message, on_look, first) refl

module _ (o : Order) (s : ℕ) where
  turn_quiet :
      (r : Round) (l : Listener)
      → Watches s l.poller
      → IsQuiet r.answer
      → (q : Poller) × (turn o s true r l ≡ (record l { poller = q }, goes_on)) × Watches s q
  unfolding turn
  turn_quiet r l w quiet =
      let (p, same, w') = look-poll s l.poller r.answer w in
      let (q, answered, w'') = poll_quiet p r.answer w' quiet in
      (q, ap (λ run. on_look o run r.arrivals l) (same ∙ answered), w'')

  pub turn_message :
      (r : Round) (l : Listener) (t : Bytes) (rest : List (ℕ × Bytes)) (later : List RecvAnswer)
      (rs : List ℕ) (n : ℕ)
      → Watches s l.poller
      → IsFresh l.message
      → r.answer ≡ polled rs (suc n)
      → r.arrivals ≡ arriving t rest later
      → (q : Poller) × Watches s q
        × (turn o s true r l ≡ show t (record l { poller = q; message = read_message t rest }))
  unfolding turn
  turn_message r l t rest later rs n w fresh a e =
      let (p, same, w') = look-poll s l.poller r.answer w in
      let q = record p { items = set_revents p.items rs } in
      let answered : Poller.poll p (polled rs (suc n)) ≡ (q, ok true) = poll_some p rs n in
      (
        q,
        polled-Watches p rs w',
        ap (λ run. on_look o run r.arrivals l) (same ∙ ap (Poller.poll p) a ∙ answered)
            ∙ ap (λ as'. on_look o (q, ok true) as' l) e
            ∙ on_look_message o q t rest later l fresh,
      )

-- Rounds that bring nothing to keep, and what is printed in them: nothing is reported, or a message
-- comes whose text is empty up to its first NUL.
pub data Passes : List Round → List (ℕ × Bytes) → Type 0 where
  start : Passes [] []
  quiet :
      {rounds : List Round} {shown : List (ℕ × Bytes)} (r : Round)
      → IsQuiet r.answer
      → Passes rounds shown
      → Passes (r ∷ rounds) shown
  blank :
      {rounds : List Round} {shown : List (ℕ × Bytes)} (r : Round) (t : Bytes)
      (rest : List (ℕ × Bytes)) (later : List RecvAnswer) (rs : List ℕ) (n : ℕ)
      → r.answer ≡ polled rs (suc n)
      → r.arrivals ≡ arriving t rest later
      → length_to_null t ≡ 0
      → Passes rounds shown
      → Passes (r ∷ rounds) ((0, t) ∷ shown)

pub record IsListening (s : ℕ) (l : Listener) : Type 0 where
  pub watches : Watches s l.poller
  pub fresh : IsFresh l.message

show_blank :
    (t : Bytes) (l : Listener)
    → length_to_null t ≡ 0
    → show t l ≡ (record l { printed = l.printed ++ (0, t) ∷ [] }, goes_on)
unfolding show
show_blank t l e = rw e refl

pub open_socket : (s : ℕ) → s ≢ 0 → (s == 0) ≡ false
open_socket s h = ground arith

module _ (o : Order) (s : ℕ) (real : s ≢ 0) where
  next_round :
      (r : Round) (rounds : List Round) (l l' : Listener)
      → turn o s true r l ≡ (l', goes_on)
      → listen o s true (r ∷ rounds) l ≡ listen o s true rounds l'
  unfolding listen go_on
  next_round r rounds l l' e = rw (open_socket s real, e) refl

  pub last_round :
      (r : Round) (rounds : List Round) (l l' : Listener) (x : Result (Unit {0}))
      → turn o s true r l ≡ (l', leaves x)
      → listen o s true (r ∷ rounds) l ≡ (l', leaves x)
  unfolding listen go_on
  last_round r rounds l l' x e = rw (open_socket s real, e) refl

  pub listen_passing :
      {pre : List Round} {shown : List (ℕ × Bytes)} (p : Passes pre shown) (rounds : List Round)
      (l : Listener)
      → IsListening s l
      → (l' : Listener) × (listen o s true (pre ++ rounds) l ≡ listen o s true rounds l')
        × (l'.shared ≡ l.shared)
        × (l'.printed ≡ l.printed ++ shown)
        × IsListening s l'
  listen_passing start rounds l i = (l, refl, refl, sym (append-nil l.printed), i)
  listen_passing (quiet {rounds = pre} r h p) rounds l i =
      let (q, e, w) = turn_quiet o s r l i.watches h in
      let l₁ = record l { poller = q } in
      let (l', run, same, printed, i') =
        listen_passing p rounds l₁ (record { watches = w; fresh = i.fresh }) in
      (l', next_round r (pre ++ rounds) l l₁ e ∙ run, same, printed, i')
  listen_passing (blank {rounds = pre} {shown} r t rest later rs n a e z p) rounds l i =
      let (q, w, now) = turn_message o s r l t rest later rs n i.watches i.fresh a e in
      let l₁ = record l {
        poller = q;
        message = read_message t rest;
        printed = l.printed ++ (0, t) ∷ [];
      } in
      let (l', run, same, printed, i') =
        listen_passing p rounds l₁
          (record { watches = w; fresh = λ none_left. absurd (omega arith) }) in
      (
        l',
        next_round r (pre ++ rounds) l l₁ (now ∙ show_blank t _ z) ∙ run,
        same,
        printed ∙ append_assoc l.printed ((0, t) ∷ []) shown,
        i',
      )
