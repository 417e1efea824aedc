-- ===== src/Client/Polling.antt =====
-- Polling an honest `zmq_poll`.
use Prim.Native.Nat.{bit_and}
use zmqpp_pty.Base.{
  ℕ, zero, suc, ◌≡◌, refl, sym, ap, ◌∙◌, Bool, false, not, ◌&&◌, List, [], ◌∷◌, Option, none, some,
  ok, get_elem?, ◌==◌, or_throw,
}
use zmqpp_pty.Poller.{Poller, PollItem, polled, poll_in, flagged, poll}
use zmqpp_pty.Poller.Index.{Key, key, find, IsIndexed, view}
use zmqpp_pty.Poller.Updates.{
  events-view, events_key, missing, revents_of, poll-polled, slot_of-some,
}

-- `zmq_poll` returns the events of each item, and input only where it was asked for.
abbrev pub IsHonest : List PollItem → List ℕ → Type 0
IsHonest [] rs = Unit
IsHonest (x ∷ xs) [] = ⊥
IsHonest (x ∷ xs) (r ∷ rs) =
    ((not (bit_and r poll_in == 0) && (x.events == 0)) ≡ false) × IsHonest xs rs

honest_at :
    (xs : List PollItem) (rs : List ℕ) (i : ℕ) (x : PollItem)
    → IsHonest xs rs
    → get_elem? xs i ≡ some x
    → (r : ℕ) × (get_elem? rs i ≡ some r)
      × ((not (bit_and r poll_in == 0) && (x.events == 0)) ≡ false)
honest_at [] rs i x h e = cc
honest_at (y ∷ ys) [] i x h e = absurd h
honest_at (y ∷ ys) (r ∷ rs) zero x h e =
    (r, refl, ap (λ o. not (bit_and r poll_in == 0) && (events_of o == 0)) (sym e) ∙ h.0)
  where
    events_of : Option PollItem → ℕ
    events_of none = 1
    events_of (some z) = z.events
honest_at (y ∷ ys) (r ∷ rs) (suc i) x h e = honest_at ys rs i x h.1 e

-- After an honest poll, there is input under a key only if it was asked for.
pub input_at :
    (p : Poller) (rs : List ℕ) (n : ℕ) (k : Key) (x : PollItem)
    → IsIndexed p
    → view p k ≡ some x
    → IsHonest p.items rs
    → (b : Bool) × (flagged poll_in (events_key (poll p (polled rs n)).0 k) ≡ ok b)
      × ((b && (x.events == 0)) ≡ false)
input_at p rs n k x ix v h =
    let (i, f, at) = slot_of-some p.items (find p k) x v in
    let (r, there, asked) = honest_at p.items rs i x h at in
    let (y, at', same_key) = ix.slots k i f in
    let here : key x ≡ k = ap key_of (sym at ∙ at') ∙ same_key in
    let (ix', answer, seen) = poll-polled p rs n i x r ix at there in
    let events : events_key (poll p (polled rs n)).0 k ≡ ok r =
      events-view (poll p (polled rs n)).0 k ix'
      ∙ ap (λ o. or_throw (revents_of o) (missing k))
          (ap (view (poll p (polled rs n)).0) (sym here) ∙ seen) in
    (not (bit_and r poll_in == 0), ap (flagged poll_in) events, asked)
  where
    key_of : Option PollItem → Key
    key_of none = k
    key_of (some z) = key z
