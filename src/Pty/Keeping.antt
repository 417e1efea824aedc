-- ===== src/Pty/Keeping.antt =====
-- How many messages `poll_messages` of zmq_pty_client.cpp keeps.
use zmqpp_pty.Base.{
  ℕ, ◌+◌, ◌≡◌, ◌≢◌, ◌⊎◌, inl, inr, refl, Bool, true, false, List, [], ◌∷◌, ◌++◌, Bytes, ◌==◌,
  Bool-cases, Result, ok, err, undefined, arith,
}
use mathlib.Core.Path.{subst}
use zmqpp_pty.Inet.Memory.{Order}
use zmqpp_pty.Message
use zmqpp_pty.Message.{Message, parts}
use zmqpp_pty.Message.Values.{Value, Kind}
use zmqpp_pty.Poller.{Run}
use zmqpp_pty.Socket.Transfer.{RecvAnswer, Call, returned, waiting, receive}
use zmqpp_pty.Pty.{
  Shared, keep, Listener, Round, Flow, goes_on, leaves, blocks, show, on_text, on_received, on_look,
  look, turn, go_on, listen, poll_messages, length_to_null, text_of,
}
use zmqpp_pty.Pty.Listening.{open_socket}

-- The buffer is as before, or one message longer and then the call has ended in undefined behaviour;
-- the call did not return.
abbrev pub KeepsOne : List Bytes → Listener × Flow → Type 0
KeepsOne buff out =
    ((out.0.shared.buff ≡ buff)
      ⊎ ((t : Bytes) × (out.0.shared.buff ≡ buff ++ t ∷ []) × (out.1 ≡ leaves (err undefined))))
    × (out.1 ≢ leaves (ok tt))

keep_held :
    (t : Bytes) (s : Shared)
    → s.locked ≡ true
    → ((keep t s).0.buff ≡ s.buff) × ((keep t s).1 ≡ err undefined)
unfolding keep
keep_held t s h = (rw (h, keep) refl, rw (h, keep) refl)

-- The buffer has grown and the mutex is held, when the second guard locks it.
keep_free :
    (t : Bytes) (s : Shared)
    → s.locked ≡ false
    → keep t s
      ≡ (record { buff = s.buff ++ t ∷ []; new_msg = s.new_msg + 1; locked = true }, err undefined)
unfolding keep
keep_free t s h = rw (h, keep) refl

pub show_kept :
    (t : Bytes) (l : Listener)
    → length_to_null t ≢ 0
    → l.shared.locked ≡ false
    → show t l ≡ (
      record l {
        printed = l.printed ++ (length_to_null t, t) ∷ [];
        shared = record {
          buff = l.shared.buff ++ t ∷ [];
          new_msg = l.shared.new_msg + 1;
          locked = true;
        };
      },
      leaves (err undefined),
    )
unfolding show
show_kept t l size free =
    let some_text : (length_to_null t == 0) ≡ false = ground arith in
    rw (some_text, keep_free t l.shared free) refl

show-KeepsOne : (t : Bytes) (l : Listener) → KeepsOne l.shared.buff (show t l)
unfolding show
show-KeepsOne t l = elim (Bool-cases (length_to_null t == 0)) [
  | inl none_left ↦ rw (none_left, show) (inl refl, λ q. cc)
  | inr some_left ↦
      rw (some_left, show)
        (elim (Bool-cases l.shared.locked) [
          | inl h ↦ let (same, fails) = keep_held t l.shared h in rw fails (inl same, λ q. cc)
          | inr h ↦ rw (keep_free t l.shared h) (inr (t, refl, refl), λ q. cc)
        ])
]

on_text-KeepsOne :
    (r : Result Value × Message) (l : Listener) → KeepsOne l.shared.buff (on_text r l)
unfolding on_text
on_text-KeepsOne (err e, m) l = (inl refl, λ q. cc)
on_text-KeepsOne (ok v, m) l = show-KeepsOne (text_of v) (record l { message = m })

on_received-KeepsOne :
    (o : Order) (c : Call Bool) (m : Message) (l : Listener)
    → KeepsOne l.shared.buff (on_received o c m l)
unfolding on_received
on_received-KeepsOne o waiting m l = (inl refl, λ q. cc)
on_received-KeepsOne o (returned (err e)) m l = (inl refl, λ q. cc)
on_received-KeepsOne o (returned (ok b)) m l = on_text-KeepsOne (Message.read o Kind.string m) l

on_look-KeepsOne :
    (o : Order) (r : Run Bool) (arrivals : List RecvAnswer) (l : Listener)
    → KeepsOne l.shared.buff (on_look o r arrivals l)
unfolding on_look
on_look-KeepsOne o (p, err e) arrivals l = (inl refl, λ q. cc)
on_look-KeepsOne o (p, ok false) arrivals l = (inl refl, λ q. cc)
on_look-KeepsOne o (p, ok true) arrivals l =
    let run = receive arrivals l.message in
    on_received-KeepsOne o run.result run.message (record l { poller = p })

go-KeepsOne :
    (buff : List Bytes) (out : Listener × Flow) (next : Listener → Listener × Flow)
    → KeepsOne buff out
    → ((l : Listener) → KeepsOne l.shared.buff (next l))
    → KeepsOne buff (go_on out next)
unfolding go_on
go-KeepsOne buff (l, goes_on) next (inl same, n) ih = subst (λ b. KeepsOne b (next l)) same (ih l)
go-KeepsOne buff (l, goes_on) next (inr (t, grown, e), n) ih = cc
go-KeepsOne buff (l, leaves r) next k ih = k
go-KeepsOne buff (l, blocks) next k ih = k

module _ (o : Order) (s : ℕ) (real : s ≢ 0) (stdin : Bool) where
  listen-KeepsOne :
      (rounds : List Round) (l : Listener) → KeepsOne l.shared.buff (listen o s stdin rounds l)
  unfolding listen turn
  listen-KeepsOne [] l = rw (open_socket s real) (inl refl, λ q. cc)
  listen-KeepsOne (r ∷ rounds) l = rw (open_socket s real) (
      go-KeepsOne l.shared.buff (turn o s stdin r l) (listen o s stdin rounds)
        (on_look-KeepsOne o (look s stdin l.poller r.answer) r.arrivals l) (listen-KeepsOne rounds))

  -- While the socket is open, `poll_messages` never returns, whatever libzmq answers, and keeps one
  -- message at most: the second guard of the first message that it keeps locks the mutex again.
  pub poll_messages-KeepsOne :
      (rounds : List Round) (shared : Shared)
      → KeepsOne shared.buff (poll_messages o s stdin rounds shared)
  unfolding poll_messages
  poll_messages-KeepsOne rounds shared = listen-KeepsOne rounds _
