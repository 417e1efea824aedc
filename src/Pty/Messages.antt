-- ===== src/Pty/Messages.antt =====
-- The first message that `poll_messages` of zmq_pty_client.cpp keeps, and input without a message.
use zmqpp_pty.Base.{
  ℕ, suc, ◌+◌, ◌≡◌, ◌≢◌, refl, ap, ◌∙◌, true, false, List, [], ◌∷◌, ◌++◌, Bytes, ◌==◌, ◌||◌,
  if◌then◌else◌, get_elem?-none, zmq_internal, Result, ok, err, undefined, exception, arith,
}
use zmqpp_pty.Inet.Memory.{Order}
use zmqpp_pty.Message
use zmqpp_pty.Message.{Message, parts}
use zmqpp_pty.Message.Values.{Kind}
use zmqpp_pty.Poller
use zmqpp_pty.Poller.{Poller, Run, polled, set_revents}
use zmqpp_pty.Socket.Transfer.{RecvAnswer, returned, receive, failed, eagain, eintr}
use zmqpp_pty.Socket.Receiving.{arriving, receive_first_failed}
use zmqpp_pty.Pty.{
  Shared, Listener, Round, leaves, on_text, on_received, on_look, turn, poll_messages,
  length_to_null, watching,
}
use zmqpp_pty.Pty.Watching.{Watches, watching-Watches, look-poll, poll_some}
use zmqpp_pty.Pty.Listening.{
  turn_message, last_round, listen_passing, Passes, read_message, IsListening,
}
use zmqpp_pty.Pty.Keeping.{show_kept}

-- What the shared data become with a message that is kept.
abbrev pub with_message : Bytes → Shared → Shared
with_message t shared = record {
  buff = shared.buff ++ t ∷ [];
  new_msg = shared.new_msg + 1;
  locked = true;
}

abbrev starting : ℕ → Shared → Listener
starting s shared = record {
  poller = watching s true;
  message = Message.empty;
  shared = shared;
  printed = [];
}

starting-IsListening : (s : ℕ) (shared : Shared) → s ≢ 0 → IsListening s (starting s shared)
starting-IsListening s shared real = record {
  watches = watching-Watches s real;
  fresh = λ none_left. refl;
}

abbrev pub missing_part : Result (Unit {0})
missing_part = err (exception "attempting to request a message part outside the valid range")

-- A read that finds no part.
no_parts :
    (o : Order) (m : Message) (l : Listener)
    → parts m ≡ 0
    → (m' : Message) × (on_text (Message.read o Kind.string m) l
        ≡ (record l { message = m' }, leaves missing_part))
unfolding on_text Message.read
no_parts o m l e = (
  (Message.read o Kind.string m).1,
  rw (get_elem?-none m.frames m.read_cursor (omega arith)) refl,
)

on_look_empty :
    (o : Order) (q : Poller) (e : ℕ) (later : List RecvAnswer) (l : Listener)
    → (e == eagain || e == eintr) ≡ true
    → (m' : Message) × (on_look o (q, ok true) (failed e ∷ later) l
        ≡ (record l { poller = q; message = m' }, leaves missing_part))
unfolding on_look on_received
on_look_empty o q e later l h =
    let run = receive (failed e ∷ later) l.message in
    let (answer, gone, used) = receive_first_failed e later l.message in
    let (m', thrown) = no_parts o run.message (record l { poller = q }) gone in
    (
      m',
      ap (λ r. on_received o r run.message (record l { poller = q }))
            (answer ∙ ap (λ b. returned (if b then ok false else err (zmq_internal e))) h)
          ∙ thrown,
    )

turn_empty :
    (o : Order) (s : ℕ) (r : Round) (l : Listener) (rs : List ℕ) (n e : ℕ) (later : List RecvAnswer)
    → Watches s l.poller
    → r.answer ≡ polled rs (suc n)
    → r.arrivals ≡ failed e ∷ later
    → (e == eagain || e == eintr) ≡ true
    → (q : Poller) × (m' : Message) × (turn o s true r l
        ≡ (record l { poller = q; message = m' }, leaves missing_part))
unfolding turn
turn_empty o s r l rs n e later w a b h =
    let (p, same, w') = look-poll s l.poller r.answer w in
    let q = record p { items = set_revents p.items rs } in
    let (m', thrown) = on_look_empty o q e later l h in
    (
      q,
      m',
      ap (λ run. on_look o run r.arrivals l) (same ∙ ap (Poller.poll p) a ∙ poll_some p rs n)
          ∙ ap (λ later'. on_look o (q, ok true) later' l) b
          ∙ thrown,
    )

module _ (o : Order) {s : ℕ} (real : s ≢ 0) {pre : List Round} {shown : List (ℕ × Bytes)}
    (passing : Passes pre shown) (r : Round) (rounds : List Round) (rs : List ℕ) (n : ℕ)
    (answered : r.answer ≡ polled rs (suc n)) (shared : Shared) where
  -- After rounds that bring nothing to keep, a message whose first part has a text is printed with its
  -- size and kept, and the call ends in undefined behaviour, the mutex being held; what would come
  -- later is not looked at.
  pub poll_messages-first :
      (t : Bytes) (rest : List (ℕ × Bytes)) (later : List RecvAnswer)
      → r.arrivals ≡ arriving t rest later
      → length_to_null t ≢ 0
      → shared.locked ≡ false
      → let out = poll_messages o s true (pre ++ r ∷ rounds) shared in
        (out.0.shared ≡ with_message t shared)
        × (out.0.printed ≡ shown ++ (length_to_null t, t) ∷ [])
        × (out.1 ≡ leaves (err undefined))
  unfolding poll_messages
  poll_messages-first t rest later e size free =
      let (l, run, same, printed, i) =
        listen_passing o s real passing (r ∷ rounds) (starting s shared)
          (starting-IsListening s shared real) in
      let (q, w, now) = turn_message o s r l t rest later rs n i.watches i.fresh answered e in
      let kept =
        show_kept t (record l { poller = q; message = read_message t rest }) size
          (ap (λ x. x.locked) same ∙ free) in
      let whole = run ∙ last_round o s real r rounds l _ (err undefined) (now ∙ kept) in
      (
        ap (λ out. out.0.shared) whole ∙ ap (with_message t) same,
        ap (λ out. out.0.printed) whole ∙ ap (λ ps. ps ++ (length_to_null t, t) ∷ []) printed,
        ap (λ out. out.1) whole,
      )

  -- After such rounds, one in which `zmq_poll` reports something but the socket has no message ends
  -- the call with the exception of a read past the end, with nothing printed or kept in it.
  pub poll_messages-no_message :
      (e : ℕ) (later : List RecvAnswer)
      → r.arrivals ≡ failed e ∷ later
      → (e == eagain || e == eintr) ≡ true
      → let out = poll_messages o s true (pre ++ r ∷ rounds) shared in
        (out.0.shared ≡ shared) × (out.0.printed ≡ shown) × (out.1 ≡ leaves missing_part)
  unfolding poll_messages
  poll_messages-no_message e later a empty_handed =
      let (l, run, same, printed, i) =
        listen_passing o s real passing (r ∷ rounds) (starting s shared)
          (starting-IsListening s shared real) in
      let (q, m', now) = turn_empty o s r l rs n e later i.watches answered a empty_handed in
      let whole = run ∙ last_round o s real r rounds l _ missing_part now in
      (
        ap (λ out. out.0.shared) whole ∙ same,
        ap (λ out. out.0.printed) whole ∙ printed,
        ap (λ out. out.1) whole,
      )
