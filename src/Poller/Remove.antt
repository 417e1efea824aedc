-- ===== src/Poller/Remove.antt =====
-- `remove` against a finite map from keys to items.
use mathlib.Core.Path.{fun_ext}
use zmqpp_pty.Base.{
  ℕ, suc, ◌<◌, ◌≡◌, ◌⊎◌, refl, ap, ◌∙◌, true, false, List, Option, none, some, ◌==◌, if◌then◌else◌,
  length, get_elem?, pop_back, arith, Bool-cases, inl, inr, ok, get_elem?-lt,
}
use zmqpp_pty.Poller.{
  PollItem, Poller, Run, last_slot, swap_back, assign, erase, reindex, remove_fd, remove_socket,
}
use zmqpp_pty.Poller.Index.{
  Key, sock, file, same, same-eq, key, find, Indexed, IsIndexed, slot_of, lookup, view,
}
use zmqpp_pty.Poller.Removal.{
  dropped, moved, last_slot-length, get_swapped_self, key_back, home_back, pop-Indexed, pop-lookup,
  swap-Indexed, swap-lookup, slot_lt,
}

-- The two overloads of `remove`, at a key.
abbrev pub remove_key : Poller → Key → Run (Unit {0})
remove_key p (sock s) = remove_socket p s
remove_key p (file d) = remove_fd p d

-- The call returned, the index is sound, and the items are those of before less the one under `k`.
pub record Removed (p : Poller) (k : Key) (r : Run (Unit {0})) : Type 0 where
  pub returned : r.1 ≡ ok tt
  pub indexed : IsIndexed r.0
  pub reads : (j : Key) → view r.0 j ≡ (if same j k then none else view p j)

-- A poller whose index reads as `f`.
abbrev pub Reads : Poller → List PollItem → (Key → Option ℕ) → Type 0
Reads q xs f = (q.items ≡ xs) × ((j : Key) → find q j ≡ f j)

pub as_index :
    (q : Poller) (xs : List PollItem) (f : Key → Option ℕ)
    → Reads q xs f
    → Indexed xs f
    → IsIndexed q
as_index q xs f (e, h) ix = rw (e, fun_ext h) ix

pub as_view :
    (q : Poller) (xs : List PollItem) (f : Key → Option ℕ) (j : Key)
    → Reads q xs f
    → view q j ≡ lookup xs f j
as_view q xs f j (e, h) = ap (λ ys. slot_of ys (find q j)) e ∙ ap (slot_of xs) (h j)

-- `reindex` finds the entry of the item at `i`, and points it there.
reindex-Reads :
    (p : Poller) (i l : ℕ) (y : PollItem)
    → get_elem? p.items i ≡ some y
    → find p (key y) ≡ some l
    → (q : Poller) × (reindex p i ≡ (q, ok tt))
      × Reads q p.items (λ j. if same j (key y) then some i else find p j)
unfolding reindex
reindex-Reads p i l y e h = elim (Bool-cases (y.socket == 0)) [
  | inl s ↦ (
    record p { fdindex = assign y.fd i p.fdindex },
    ground arith,
    (refl, λ j. rw s (cases_file j)),
  )
  | inr s ↦ (
    record p { index = assign y.socket i p.index },
    ground arith,
    (refl, λ j. rw s (cases_sock j)),
  )
]
  where
    cases_file :
        (j : Key)
        → find (record p { fdindex = assign y.fd i p.fdindex }) j
          ≡ (if same j (file y.fd) then some i else find p j)
    cases_file (sock s) = refl
    cases_file (file d) = refl

    cases_sock :
        (j : Key)
        → find (record p { index = assign y.socket i p.index }) j
          ≡ (if same j (sock y.socket) then some i else find p j)
    cases_sock (sock s) = refl
    cases_sock (file d) = refl

-- The poller without a key, over given items.
abbrev pub without : Poller → Key → List PollItem → Poller
without p (sock s) xs = record p { items = xs; index = erase s p.index }
without p (file d) xs = record p { items = xs; fdindex = erase d p.fdindex }

pub find-without :
    (p : Poller) (k : Key) (xs : List PollItem) (j : Key)
    → find (without p k xs) j ≡ (if same j k then none else find p j)
find-without p (sock s) xs (sock t) = refl
find-without p (sock s) xs (file d) = refl
find-without p (file d) xs (sock t) = refl
find-without p (file d) xs (file e) = refl

pub items-without : (p : Poller) (k : Key) (xs : List PollItem) → (without p k xs).items ≡ xs
items-without p (sock s) xs = refl
items-without p (file d) xs = refl

-- `remove`, by what the index answers.
unfoldable pub removal : Poller → Key → Option ℕ → Run (Unit {0})
removal p k none = (p, ok tt)
removal p k (some i) =
    if last_slot p.items == i
    then (without p k (pop_back p.items), ok tt)
    else reindex (without p k (pop_back (swap_back p.items i))) i

pub remove_key_lem : (p : Poller) (k : Key) → remove_key p k ≡ removal p k (find p k)
unfolding remove_socket remove_fd removal
remove_key_lem p (sock s) = ground arith
remove_key_lem p (file d) = ground arith

module _ (p : Poller) (k : Key) (ix : IsIndexed p) (i : ℕ) (found : find p k ≡ some i) where
  Removed-last : (last_slot p.items == i) ≡ true → Removed p k (removal p k (some i))
  unfolding removal
  Removed-last e =
      let pos : 0 < length p.items = omega (arith, slot_lt p.items (find p) ix k i found) in
      let last : suc i ≡ length p.items = ground (arith, last_slot-length p.items pos) in
      let q = without p k (pop_back p.items) in
      let r : Reads q (pop_back p.items) (dropped p.items (find p) ix k i found) =
        (items-without p k _, find-without p k _) in
      rw e (record {
        returned = refl;
        indexed = as_index q _ _ r (pop-Indexed p.items (find p) ix k i found last);
        reads = λ j. as_view q _ _ j r ∙ pop-lookup p.items (find p) ix k i found last j;
      })

  Removed-inner : (last_slot p.items == i) ≡ false → Removed p k (removal p k (some i))
  unfolding removal
  Removed-inner e =
      let pos : 0 < length p.items = omega (arith, slot_lt p.items (find p) ix k i found) in
      let short : suc i < length p.items =
        ground (arith, last_slot-length p.items pos, slot_lt p.items (find p) ix k i found) in
      let (y, back) =
        get_elem?-lt p.items (last_slot p.items) (omega (arith, last_slot-length p.items pos)) in
      let q = without p k (pop_back (swap_back p.items i)) in
      let here : get_elem? q.items i ≡ some y =
        ap (λ xs. get_elem? xs i) (items-without p k _)
        ∙ get_swapped_self p.items (find p) ix k i found short y back in
      let there : find q (key y) ≡ some (last_slot p.items) =
        find-without p k _ (key y)
        ∙ rw (key_back p.items (find p) ix k i found short y back)
            (home_back p.items (find p) ix k i found short y back) in
      let (u, run, (ui, uf)) = reindex-Reads q i (last_slot p.items) y here there in
      let r : Reads u (pop_back (swap_back p.items i))
          (moved p.items (find p) ix k i found short y back) =
        (
          ui ∙ items-without p k _,
          λ j. uf j ∙ ap (λ o. if same j (key y) then some i else o) (find-without p k _ j),
        ) in
      rw (e, run)
        (record {
          returned = refl;
          indexed = as_index u _ _ r (swap-Indexed p.items (find p) ix k i found short y back);
          reads = λ j. as_view u _ _ j r ∙ swap-lookup p.items (find p) ix k i found short y back j;
        })

removed :
    (p : Poller) (k : Key)
    → IsIndexed p
    → (o : Option ℕ) → find p k ≡ o
    → Removed p k (removal p k o)
unfolding removal
removed p k ix none e = record {
  returned = refl;
  indexed = ix;
  reads = λ j. absent j (Bool-cases (same j k));
}
  where
    absent :
        (j : Key)
        → (same j k ≡ true) ⊎ (same j k ≡ false)
        → view p j ≡ (if same j k then none else view p j)
    absent j (inr d) = rw d
    absent j (inl m) =
        rw m (ap (λ q. slot_of p.items (find p q)) (same-eq j k m) ∙ ap (slot_of p.items) e)
removed p k ix (some i) e = elim (Bool-cases (last_slot p.items == i)) [
  | inl l ↦ Removed-last p k ix i e l
  | inr l ↦ Removed-inner p k ix i e l
]

-- On a poller with a sound index, removing a socket or a descriptor returns without an exception.
-- The index stays sound, the key is gone, and every other key reads the item that it read before,
-- although the last item may have moved.
pub remove-Removed : (p : Poller) (k : Key) → IsIndexed p → Removed p k (remove_key p k)
remove-Removed p k ix = rw (remove_key_lem p k) (removed p k ix (find p k) refl)
