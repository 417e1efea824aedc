-- ===== src/Poller/Removal.antt =====
-- Taking an item out of the vector: from its end, or by swapping the last item into its place.
use zmqpp_pty.Base.{
  ℕ, suc, ◌<◌, ◌≡◌, ◌≢◌, ◌⊎◌, refl, sym, ap, ◌∙◌, true, false, List, [], ◌∷◌, Option, none, some,
  if◌then◌else◌, length, get_elem?, set, pop_back, arith, Bool-cases, inl, inr, get_elem?-pop_back,
  get_elem?-some-lt, get_elem?-set_self, get_elem?-set_ne, length-set, length-pop_back,
}
use native.Mathlib.Decide.{ℕ_discrete}
use zmqpp_pty.Poller.{PollItem, last_slot, swap_back}
use zmqpp_pty.Poller.Index.{Key, same, same-eq, same_refl, key, Indexed, slot_of, lookup}

pub last_slot-length : (xs : List PollItem) → 0 < length xs → suc (last_slot xs) ≡ length xs
last_slot-length [] h = absurd (omega arith)
last_slot-length (x ∷ xs) h = refl

module _ (xs : List PollItem) (f : Key → Option ℕ) (ix : Indexed xs f) (k : Key) (i : ℕ)
    (found : f k ≡ some i) where
  pub slot_lt : i < length xs
  slot_lt = let (item, e, _) = ix.slots k i found in get_elem?-some-lt xs i e

  -- Two keys never share a slot.
  pub slot_unique : (j : Key) (l : ℕ) → f j ≡ some l → same j k ≡ false → l ≢ i
  slot_unique j l e d h =
      let (a, at, ka) = ix.slots j l e in
      let (b, bt, kb) = ix.slots k i found in
      let ab : a ≡ b = cc in
      let jk : j ≡ k = sym ka ∙ ap (λ x. key x) ab ∙ kb in cc (same_refl k, ap (λ x. same x k) jk)

  -- An item in another slot has another key.
  key_other :
      (l : ℕ) (item : PollItem) → get_elem? xs l ≡ some item → l ≢ i → same (key item) k ≡ false
  key_other l item e n = elim (Bool-cases (same (key item) k)) [
    | inr differs ↦ differs
    | inl equal ↦
        let here : f k ≡ some l = ap f (sym (same-eq _ _ equal)) ∙ ix.listed l item e in
        absurd (n (ground arith))
  ]

  abbrev pub dropped : Key → Option ℕ
  dropped j = if same j k then none else f j

  dropped_inv : (j : Key) (l : ℕ) → dropped j ≡ some l → (same j k ≡ false) × (f j ≡ some l)
  dropped_inv j l e = ground arith

  module _ (last : suc i ≡ length xs) where
    get_popped :
        (l : ℕ) (item : PollItem)
        → get_elem? (pop_back xs) l ≡ some item
        → (l < i) × (get_elem? xs l ≡ some item)
    get_popped l item e =
        let short : l < i =
          omega (arith, get_elem?-some-lt (pop_back xs) l e, length-pop_back xs) in
        (short, sym (get_elem?-pop_back xs l (omega arith)) ∙ e)

    pop_in_place :
        (j : Key) (l : ℕ)
        → f j ≡ some l
        → same j k ≡ false
        → get_elem? (pop_back xs) l ≡ get_elem? xs l
    pop_in_place j l e d =
        let (item, at, _) = ix.slots j l e in
        let below : l < length xs = get_elem?-some-lt xs l at in
        let apart = slot_unique j l e d in get_elem?-pop_back xs l (omega arith)

    pub pop-Indexed : Indexed (pop_back xs) dropped
    pop-Indexed = record {
      slots = λ j l e.
          let (d, ej) = dropped_inv j l e in
          let (item, at, kj) = ix.slots j l ej in (item, pop_in_place j l ej d ∙ at, kj);
      listed = λ l item e.
          let (short, at) = get_popped l item e in
          rw (key_other l item at (omega arith)) (ix.listed l item at);
    }

    pub pop-lookup :
        (j : Key) → lookup (pop_back xs) dropped j ≡ (if same j k then none else lookup xs f j)
    pop-lookup j = elim (Bool-cases (same j k)) [
      | inl equal ↦ rw equal
      | inr differs ↦ rw differs (kept (f j) refl differs)
    ]
      where
        kept : (o : Option ℕ) → f j ≡ o → same j k ≡ false → slot_of (pop_back xs) o ≡ slot_of xs o
        kept none e d = refl
        kept (some l) e d = pop_in_place j l e d

  module _ (short : suc i < length xs) (y : PollItem)
      (back : get_elem? xs (last_slot xs) ≡ some y) where
    last_lt : suc (last_slot xs) ≡ length xs
    last_lt = last_slot-length xs (omega arith)

    abbrev pub swapped : List PollItem
    swapped = pop_back (swap_back xs i)

    abbrev pub moved : Key → Option ℕ
    moved j = if same j (key y) then some i else if same j k then none else f j

    evicted : (x : PollItem) × (swap_back xs i ≡ set (set xs i y) (last_slot xs) x)
    evicted = let (x, at, _) = ix.slots k i found in (x, ground arith)

    length-swapped : suc (length swapped) ≡ length xs
    length-swapped =
        let (x, e) = evicted in
        rw e (
          omega (
            arith,
            length-pop_back (set (set xs i y) (last_slot xs) x),
            length-set (set xs i y) (last_slot xs) x,
            length-set xs i y,
          ))

    get_swapped :
        (x : PollItem) (l : ℕ)
        → swap_back xs i ≡ set (set xs i y) (last_slot xs) x
        → suc l < length xs
        → get_elem? swapped l ≡ get_elem? (set xs i y) l
    get_swapped x l e h = rw e (
        get_elem?-pop_back (set (set xs i y) (last_slot xs) x) l
          (omega (arith, length-set (set xs i y) (last_slot xs) x, length-set xs i y))
        ∙ get_elem?-set_ne (set xs i y) (last_slot xs) l x (omega (arith, last_lt)))

    -- The last item stands in the place that came free, and the others where they were.
    pub get_swapped_self : get_elem? swapped i ≡ some y
    get_swapped_self =
        let (x, e) = evicted in get_swapped x i e short ∙ get_elem?-set_self xs i y slot_lt

    get_swapped_ne : (l : ℕ) → l ≢ i → suc l < length xs → get_elem? swapped l ≡ get_elem? xs l
    get_swapped_ne l n h =
        let (x, e) = evicted in get_swapped x l e h ∙ get_elem?-set_ne xs i l y (λ q. n (sym q))

    pub key_back : same (key y) k ≡ false
    key_back = key_other (last_slot xs) y back (omega (arith, last_lt))

    pub home_back : f (key y) ≡ some (last_slot xs)
    home_back = ix.listed (last_slot xs) y back

    -- An entry that is neither removed nor moved keeps its place.
    in_place :
        (j : Key) (l : ℕ)
        → f j ≡ some l
        → same j (key y) ≡ false
        → same j k ≡ false
        → get_elem? swapped l ≡ get_elem? xs l
    in_place j l e a d =
        let (item, at, kj) = ix.slots j l e in
        let below : l < length xs = get_elem?-some-lt xs l at in
        let apart = slot_unique j l e d in
        let not_last : l ≢ last_slot xs = λ q.
          cc (
            same_refl j,
            ap (λ g. same j (key g)) (same_item item l q at),
            ap (λ g. same j g) kj,
          ) in
        get_swapped_ne l apart (omega (arith, last_lt))
      where
        same_item :
            (item : PollItem) (l : ℕ) → l ≡ last_slot xs → get_elem? xs l ≡ some item → item ≡ y
        same_item item l q at = cc (ap (get_elem? xs) q)

    moved_inv :
        (j : Key) (l : ℕ)
        → moved j ≡ some l
        → ((same j (key y) ≡ true) × (l ≡ i))
          ⊎ ((same j (key y) ≡ false) × (same j k ≡ false) × (f j ≡ some l))
    moved_inv j l e = ground arith

    moved_ne :
        (l : ℕ) (item : PollItem)
        → get_elem? xs l ≡ some item
        → l ≢ i
        → suc l < length xs
        → moved (key item) ≡ some l
    moved_ne l item e n h =
        let from_k = key_other l item e n in
        let at_home = ix.listed l item e in
        elim (Bool-cases (same (key item) (key y))) [
          | inr a ↦ rw (a, from_k) at_home
          | inl m ↦
              let clash : some l ≡ some (last_slot xs) =
                sym at_home ∙ ap f (same-eq (key item) (key y) m) ∙ home_back in
              absurd (ground (arith, last_lt))
        ]

    moved_listed :
        (l : ℕ) (item : PollItem) → get_elem? swapped l ≡ some item → moved (key item) ≡ some l
    moved_listed l item e =
        let bound = get_elem?-some-lt swapped l e in
        elim (ℕ_discrete l i) [
          | yes here ↦
              let it : item ≡ y = cc (ap (get_elem? swapped) here, get_swapped_self) in
              rw (it, same_refl (key y)) (ap some (sym here))
          | no n ↦
              let h : suc l < length xs = omega (arith, length-swapped) in
              moved_ne l item (sym (get_swapped_ne l n h) ∙ e) n h
        ]

    pub swap-Indexed : Indexed swapped moved
    swap-Indexed = record {
      slots = λ j l e. elim (moved_inv j l e) [
        | inl (m, li) ↦ (y, ap (get_elem? swapped) li ∙ get_swapped_self, sym (same-eq j (key y) m))
        | inr (a, d, ej) ↦
            let (item, at, kj) = ix.slots j l ej in (item, in_place j l ej a d ∙ at, kj)
      ];
      listed = moved_listed;
    }

    pub swap-lookup :
        (j : Key) → lookup swapped moved j ≡ (if same j k then none else lookup xs f j)
    swap-lookup j = elim (Bool-cases (same j (key y))) [
      | inl m ↦
          let jy = same-eq j (key y) m in
          let d : same j k ≡ false = ap (λ q. same q k) jy ∙ key_back in
          rw (m, d)
            (get_swapped_self
              ∙ sym (ap (λ q. slot_of xs (f q)) jy ∙ ap (slot_of xs) home_back ∙ back))
      | inr a ↦ elim (Bool-cases (same j k)) [
        | inl d ↦ rw (a, d)
        | inr d ↦ rw (a, d) (rest (f j) refl a d)
      ]
    ]
      where
        rest :
            (o : Option ℕ)
            → f j ≡ o
            → same j (key y) ≡ false
            → same j k ≡ false
            → slot_of swapped o ≡ slot_of xs o
        rest none e a d = refl
        rest (some l) e a d = in_place j l e a d
