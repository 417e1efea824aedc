-- ===== src/Poller/Operations.antt =====
-- `add` against a finite map from keys to items.
use zmqpp_pty.Base.{
  ℕ, ◌<◌, ◌≡◌, ◌⊎◌, refl, sym, ap, ◌∙◌, true, List, [], ◌∷◌, ◌++◌, Option, none, some, ◌==◌,
  if◌then◌else◌, length, get_elem?, arith, Bool-cases, inl, inr, get_elem?-some-lt,
  get_elem?-append_left, get_elem?-append_at, length-append,
}
use native.Mathlib.Decide.{ℕ_discrete}
use zmqpp_pty.Poller.{PollItem, Poller, assign, add}
use zmqpp_pty.Poller.Index.{
  Key, sock, file, same, same-eq, same_refl, key, find, Indexed, IsIndexed, slot_of, lookup, view,
}
use zmqpp_pty.Poller.Remove.{Reads, as_index, as_view}

module _ (xs : List PollItem) (f : Key → Option ℕ) (ix : Indexed xs f) (item : PollItem) where
  abbrev added : Key → Option ℕ
  added j = if same j (key item) then some (length xs) else f j

  added_inv :
      (k : Key) (i : ℕ)
      → added k ≡ some i
      → ((same k (key item) ≡ true) × (i ≡ length xs)) ⊎ (f k ≡ some i)
  added_inv k i e = ground arith

  append_at :
      (i : ℕ) (x : PollItem)
      → get_elem? (xs ++ item ∷ []) i ≡ some x
      → ((i ≡ length xs) × (x ≡ item)) ⊎ (get_elem? xs i ≡ some x)
  append_at i x e = elim (ℕ_discrete i (length xs)) [
    | yes last ↦
        inl (last, cc (ap (get_elem? (xs ++ item ∷ [])) last, get_elem?-append_at xs item []))
    | no n ↦
        let short : i < length xs =
          omega (arith, get_elem?-some-lt (xs ++ item ∷ []) i e, length-append xs (item ∷ [])) in
        inr (sym (get_elem?-append_left xs (item ∷ []) i short) ∙ e)
  ]

  append-Indexed : f (key item) ≡ none → Indexed (xs ++ item ∷ []) added
  append-Indexed absent = record {
    slots = λ k i e. elim (added_inv k i e) [
      | inl (m, last) ↦ (
        item,
        ap (get_elem? (xs ++ item ∷ [])) last ∙ get_elem?-append_at xs item [],
        sym (same-eq k (key item) m),
      )
      | inr old ↦
          let (x, at, kx) = ix.slots k i old in
          (x, get_elem?-append_left xs (item ∷ []) i (get_elem?-some-lt xs i at) ∙ at, kx)
    ];
    listed = λ i x e. elim (append_at i x e) [
      | inl (last, new) ↦ rw (new, same_refl (key item)) (ap some (sym last))
      | inr at ↦ elim (Bool-cases (same (key x) (key item))) [
        | inr a ↦ rw a (ix.listed i x at)
        | inl m ↦ cc (ap f (same-eq (key x) (key item) m), ix.listed i x at, absent)
      ]
    ];
  }

  append-lookup :
      (j : Key)
      → lookup (xs ++ item ∷ []) added j ≡ (if same j (key item) then some item else lookup xs f j)
  append-lookup j = elim (Bool-cases (same j (key item))) [
    | inl m ↦ rw m (get_elem?-append_at xs item [])
    | inr a ↦ rw a (kept (f j) refl)
  ]
    where
      kept : (o : Option ℕ) → f j ≡ o → slot_of (xs ++ item ∷ []) o ≡ slot_of xs o
      kept none e = refl
      kept (some l) e =
          let (x, at, _) = ix.slots j l e in
          get_elem?-append_left xs (item ∷ []) l (get_elem?-some-lt xs l at)

pub add-Reads :
    (p : Poller) (item : PollItem)
    → Reads
        (add p item)
        (p.items ++ item ∷ [])
        (λ j. if same j (key item) then some (length p.items) else find p j)
unfolding add
add-Reads p item = elim (Bool-cases (item.socket == 0)) [
  | inl s ↦ (ground arith, λ j. rw s (by_file j))
  | inr s ↦ (ground arith, λ j. rw s (by_sock j))
]
  where
    by_file :
        (j : Key)
        → find
            (record p {
              items = p.items ++ item ∷ [];
              fdindex = assign item.fd (length p.items) p.fdindex;
            })
            j
          ≡ (if same j (file item.fd) then some (length p.items) else find p j)
    by_file (sock s) = refl
    by_file (file d) = refl

    by_sock :
        (j : Key)
        → find
            (record p {
              items = p.items ++ item ∷ [];
              index = assign item.socket (length p.items) p.index;
            })
            j
          ≡ (if same j (sock item.socket) then some (length p.items) else find p j)
    by_sock (sock s) = refl
    by_sock (file d) = refl

-- Adding an item whose key is not registered keeps the index sound; the key reads the new item
-- and every other key what it read before.
pub add-IsIndexed :
    (p : Poller) (item : PollItem)
    → IsIndexed p
    → find p (key item) ≡ none
    → IsIndexed (add p item)
      × ((j : Key) → view (add p item) j ≡ (if same j (key item) then some item else view p j))
add-IsIndexed p item ix absent = (
  as_index _ _ _ (add-Reads p item) (append-Indexed p.items (find p) ix item absent),
  λ j. as_view _ _ _ j (add-Reads p item) ∙ append-lookup p.items (find p) ix item j,
)
