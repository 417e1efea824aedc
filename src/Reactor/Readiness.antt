-- ===== src/Reactor/Readiness.antt =====
-- Which items have events.
use Prim.Native.Nat.{bit_and}
use zmqpp_pty.Base.{
  ℕ, ◌≡◌, refl, ap, ◌∙◌, Bool, not, ◌||◌, List, [], ◌∷◌, Option, none, some, ◌==◌, if◌then◌else◌,
  Bool-cases, inl, inr, ok, arith, or_throw,
}
use zmqpp_pty.Poller
use zmqpp_pty.Poller.{PollItem, Poller, polled, events, flagged, poll_in, poll_out, poll_error}
use zmqpp_pty.Poller.Index.{key, IsIndexed, view}
use zmqpp_pty.Poller.Updates.{events-view, events_key, missing, revents_of}
use zmqpp_pty.Loop.{Entry}
use zmqpp_pty.Loop.Passes.{is_ready}
use zmqpp_pty.Reactor.Wellformed.{Holds}

-- Input, output or an error was returned.
unfoldable pub is_flagged : ℕ → Bool
is_flagged e =
    not (bit_and e poll_in == 0)
    || (not (bit_and e poll_error == 0) || not (bit_and e poll_out == 0))

abbrev pub revents_at : Option PollItem → ℕ
revents_at none = 0
revents_at (some x) = x.revents

-- The callables of the items whose keys read returned events.
unfoldable pub flagged_callables : Poller → List Entry → List ℕ
unfolding is_flagged
flagged_callables p [] = []
flagged_callables p (e ∷ es) =
    if is_flagged (revents_at (view p (key e.item)))
    then e.callable ∷ flagged_callables p es
    else flagged_callables p es

events_of_key : (p : Poller) (item : PollItem) → events p item ≡ events_key p (key item)
unfolding events
events_of_key p item = elim (Bool-cases (item.socket == 0)) [
  | inl e ↦ rw e refl
  | inr e ↦ rw e refl
]

pub is_ready-flags :
    (p : Poller) (item : PollItem)
    → IsIndexed p
    → Holds p (key item)
    → is_ready p item ≡ ok (is_flagged (revents_at (view p (key item))))
unfolding is_ready Poller.has_input Poller.has_output Poller.has_error is_flagged
is_ready-flags p item ix h =
    let read : events p item ≡ ok (h.0.revents) =
      events_of_key p item
      ∙ events-view p (key item) ix
      ∙ ap (λ o. or_throw (revents_of o) (missing (key item))) h.1 in
    rw (read, h.1) (ground arith)
