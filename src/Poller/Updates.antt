-- ===== src/Poller/Updates.antt =====
-- `check_for`, `events` and `poll`: calls that change items in place.
use zmqpp_pty.Base.{
  ℕ, or_throw, zero, suc, ◌≡◌, refl, sym, ap, ◌∙◌, false, List, [], ◌∷◌, Option, none, some, ltb,
  if◌then◌else◌, get_elem?, set, arith, Bool-cases, inl, inr, Error, ok, err, exception,
  get_elem?-some-lt, get_elem?-set_self, get_elem?-set_ne, Result,
}
use mathlib.Core.Path.{fun_ext}
use native.Mathlib.Decide.{ℕ_discrete}
use zmqpp_pty.Poller.{
  PollItem, Poller, Run, check_for_socket, check_for_fd, events_socket, events_fd, polled,
  set_revents, poll,
}
use zmqpp_pty.Poller.Removal.{slot_unique}
use zmqpp_pty.Poller.Index.{
  Key, sock, file, same, same-eq, key, find, Indexed, IsIndexed, slot_of, view,
}

-- Replacing items by items of the same keys keeps the index sound.
key_slot : Option PollItem → Option Key
key_slot none = none
key_slot (some x) = some (key x)

key_slot-some :
    (o : Option PollItem) (k : Key)
    → key_slot o ≡ some k
    → (x : PollItem) × (o ≡ some x) × (key x ≡ k)
unfolding key_slot
key_slot-some none k e = cc
key_slot-some (some x) k e = (x, refl, cc)

abbrev SameKeys : List PollItem → List PollItem → Type 0
SameKeys xs ys = (i : ℕ) → key_slot (get_elem? ys i) ≡ key_slot (get_elem? xs i)

SameKeys-Indexed :
    (xs ys : List PollItem) (f : Key → Option ℕ) → SameKeys xs ys → Indexed xs f → Indexed ys f
unfolding key_slot
SameKeys-Indexed xs ys f s ix = record {
  slots = λ k i e.
      let (x, at, kx) = ix.slots k i e in
      key_slot-some (get_elem? ys i) k (s i ∙ ap key_slot at ∙ ap some kx);
  listed = λ i y e.
      let (x, at, kx) = key_slot-some (get_elem? xs i) (key y) (sym (s i) ∙ ap key_slot e) in
      ap f (sym kx) ∙ ix.listed i x at;
}

set-SameKeys :
    (xs : List PollItem) (i : ℕ) (x y : PollItem)
    → get_elem? xs i ≡ some x
    → key y ≡ key x
    → SameKeys xs (set xs i y)
unfolding key_slot
set-SameKeys xs i x y e k j = elim (ℕ_discrete i j) [
  | yes h ↦
      ap (λ n. key_slot (get_elem? (set xs i y) n)) (sym h)
      ∙ ap key_slot (get_elem?-set_self xs i y (get_elem?-some-lt xs i e))
      ∙ ap some k
      ∙ sym (ap key_slot e)
      ∙ ap (λ n. key_slot (get_elem? xs n)) h
  | no n ↦ ap key_slot (get_elem?-set_ne xs i j y n)
]

set_revents-SameKeys : (xs : List PollItem) (rs : List ℕ) → SameKeys xs (set_revents xs rs)
unfolding set_revents key_slot
set_revents-SameKeys [] rs i = refl
set_revents-SameKeys (x ∷ xs) [] i = refl
set_revents-SameKeys (x ∷ xs) (r ∷ rs) zero = refl
set_revents-SameKeys (x ∷ xs) (r ∷ rs) (suc i) = set_revents-SameKeys xs rs i

-- The overloads at a key, and the exceptions that they throw.
abbrev pub check_for_key : Poller → Key → ℕ → Run (Unit {0})
check_for_key p (sock s) e = check_for_socket p s e
check_for_key p (file d) e = check_for_fd p d e

abbrev pub events_key : Poller → Key → Result ℕ
events_key p (sock s) = events_socket p s
events_key p (file d) = events_fd p d

abbrev pub missing : Key → Error
missing (sock s) = exception "this socket is not represented within this poller"
missing (file d) = exception "this standard socket is not represented within this poller"

abbrev pub with_items : Poller → List PollItem → Poller
with_items p xs = record p { items = xs }

find-with_items : (p : Poller) (xs : List PollItem) (j : Key) → find (with_items p xs) j ≡ find p j
find-with_items p xs (sock s) = refl
find-with_items p xs (file d) = refl

pub slot_of-some :
    (xs : List PollItem) (o : Option ℕ) (x : PollItem)
    → slot_of xs o ≡ some x
    → (i : ℕ) × (o ≡ some i) × (get_elem? xs i ≡ some x)
slot_of-some xs none x e = cc
slot_of-some xs (some i) x e = (i, refl, e)

check_found :
    (p : Poller) (k : Key) (e i : ℕ) (x : PollItem)
    → find p k ≡ some i
    → get_elem? p.items i ≡ some x
    → check_for_key p k e ≡ (with_items p (set p.items i (record x { events = e })), ok tt)
unfolding check_for_socket check_for_fd
check_found p (sock s) e i x f at = ground arith
check_found p (file d) e i x f at = ground arith

check_missing :
    (p : Poller) (k : Key) (e : ℕ) → find p k ≡ none → check_for_key p k e ≡ (p, err (missing k))
unfolding check_for_socket check_for_fd
check_missing p (sock s) e f = ground arith
check_missing p (file d) e f = ground arith

events_found :
    (p : Poller) (k : Key) (i : ℕ) (x : PollItem)
    → find p k ≡ some i
    → get_elem? p.items i ≡ some x
    → events_key p k ≡ ok x.revents
unfolding events_socket events_fd
events_found p (sock s) i x f at = ground arith
events_found p (file d) i x f at = ground arith

events_missing : (p : Poller) (k : Key) → find p k ≡ none → events_key p k ≡ err (missing k)
unfolding events_socket events_fd
events_missing p (sock s) f = ground arith
events_missing p (file d) f = ground arith

abbrev pub revents_of : Option PollItem → Option ℕ
revents_of none = none
revents_of (some x) = some x.revents

-- Under a sound index a key that reads no item is not in the index.
unregistered :
    (p : Poller) (k : Key)
    → IsIndexed p
    → (o : Option ℕ) → find p k ≡ o
    → view p k ≡ none
    → find p k ≡ none
unregistered p k ix none f v = f
unregistered p k ix (some i) f v = let (x, at, _) = ix.slots k i f in cc (ap (slot_of p.items) f)

set_view :
    (xs : List PollItem) (f : Key → Option ℕ) (ix : Indexed xs f) (k : Key) (i : ℕ) (x y : PollItem)
    → f k ≡ some i
    → get_elem? xs i ≡ some x
    → (j : Key) → slot_of (set xs i y) (f j) ≡ (if same j k then some y else slot_of xs (f j))
set_view xs f ix k i x y e at j = elim (Bool-cases (same j k)) [
  | inl m ↦ rw m (
      ap (λ q. slot_of (set xs i y) (f q)) (same-eq j k m)
      ∙ ap (slot_of (set xs i y)) e
      ∙ get_elem?-set_self xs i y (get_elem?-some-lt xs i at))
  | inr d ↦ rw d (kept (f j) refl d)
]
  where
    kept : (o : Option ℕ) → f j ≡ o → same j k ≡ false → slot_of (set xs i y) o ≡ slot_of xs o
    kept none h d = refl
    kept (some l) h d = get_elem?-set_ne xs i l y (λ q. slot_unique xs f ix k i e j l h d (sym q))

module _ (p : Poller) (k : Key) (ix : IsIndexed p) where
  -- With a sound index, `check_for` of a registered key returns without an exception. The index
  -- stays sound, the requested events of that one item are the new ones, and every other key reads
  -- the item that it read before.
  pub check_for-registered :
      (e : ℕ) (x : PollItem)
      → view p k ≡ some x
      → (q : Poller) × (check_for_key p k e ≡ (q, ok tt))
        × IsIndexed q
        × ((j : Key) → view q j ≡ (if same j k then some (record x { events = e }) else view p j))
  check_for-registered e x v =
      let (i, f, at) = slot_of-some p.items (find p k) x v in
      let ys = set p.items i (record x { events = e }) in
      (
        with_items p ys,
        check_found p k e i x f at,
        rw (fun_ext (find-with_items p ys))
            (SameKeys-Indexed p.items ys (find p) (set-SameKeys p.items i x _ at refl) ix),
        λ j. rw (find-with_items p ys j) (set_view p.items (find p) ix k i x _ f at j),
      )

  -- With a sound index, `check_for` of a key that is not registered throws, and changes nothing.
  pub check_for-missing : (e : ℕ) → view p k ≡ none → check_for_key p k e ≡ (p, err (missing k))
  check_for-missing e v = check_missing p k e (unregistered p k ix (find p k) refl v)

  -- With a sound index, `events` returns the events that were returned for the item under the key,
  -- and throws if the key is not registered.
  pub events-view : events_key p k ≡ or_throw (revents_of (view p k)) (missing k)
  events-view = by_view (view p k) refl
    where
      by_view :
          (o : Option PollItem)
          → view p k ≡ o
          → events_key p k ≡ or_throw (revents_of o) (missing k)
      by_view none v = events_missing p k (unregistered p k ix (find p k) refl v)
      by_view (some x) v =
          let (i, f, at) = slot_of-some p.items (find p k) x v in events_found p k i x f at

get-set_revents :
    (xs : List PollItem) (rs : List ℕ) (i : ℕ) (x : PollItem) (r : ℕ)
    → get_elem? xs i ≡ some x
    → get_elem? rs i ≡ some r
    → get_elem? (set_revents xs rs) i ≡ some (record x { revents = r })
unfolding set_revents
get-set_revents [] rs i x r e h = cc
get-set_revents (y ∷ xs) [] i x r e h = cc
get-set_revents (y ∷ xs) (s ∷ rs) zero x r e h = ground arith
get-set_revents (y ∷ xs) (s ∷ rs) (suc i) x r e h = get-set_revents xs rs i x r e h

-- When `zmq_poll` succeeds, the index stays sound, the answer is whether an item had events, and
-- the key of the item at a slot reads that item with the events that `zmq_poll` returned for the
-- slot.
pub poll-polled :
    (p : Poller) (rs : List ℕ) (n i : ℕ) (x : PollItem) (r : ℕ)
    → IsIndexed p
    → get_elem? p.items i ≡ some x
    → get_elem? rs i ≡ some r
    → IsIndexed (poll p (polled rs n)).0
      × ((poll p (polled rs n)).1 ≡ ok (ltb 0 n))
      × (view (poll p (polled rs n)).0 (key x) ≡ some (record x { revents = r }))
unfolding poll
poll-polled p rs n i x r ix at h =
    let ys = set_revents p.items rs in
    (
      rw (fun_ext (find-with_items p ys))
          (SameKeys-Indexed p.items ys (find p) (set_revents-SameKeys p.items rs) ix),
      refl,
      ap (slot_of ys) (find-with_items p ys (key x) ∙ ix.listed i x at)
          ∙ get-set_revents p.items rs i x r at h,
    )

-- Polling keeps the index sound, and the keys that are registered.
pub poll-keeps :
    (p : Poller) (rs : List ℕ) (n : ℕ)
    → IsIndexed p
    → IsIndexed (poll p (polled rs n)).0
      × ((k : Key) (x : PollItem)
          → view p k ≡ some x
          → (y : PollItem) × (view (poll p (polled rs n)).0 k ≡ some y))
unfolding poll key_slot
poll-keeps p rs n ix =
    let ys = set_revents p.items rs in
    (
      rw (fun_ext (find-with_items p ys))
          (SameKeys-Indexed p.items ys (find p) (set_revents-SameKeys p.items rs) ix),
      λ k x v.
          let (i, f, at) = slot_of-some p.items (find p k) x v in
          let (y, there, same_key) =
            key_slot-some (get_elem? ys i) (key x)
              (set_revents-SameKeys p.items rs i ∙ ap key_slot at) in
          (y, ap (slot_of ys) (find-with_items p ys k ∙ f) ∙ there),
    )
