-- ===== src/Poller/Duplicates.antt =====
-- Adding one socket or descriptor twice.
use zmqpp_pty.Base.{
  ℕ, ◌≡◌, refl, ap, ◌∙◌, true, false, Bool, List, [], ◌∷◌, ◌++◌, none, some, ◌==◌, length,
  get_elem?, set, pop_back, arith, ==_refl, Error, ok, err, exception, length-append,
  get_elem?-append_at, if◌then◌else◌,
}
use zmqpp_pty.Poller.{PollItem, Poller, add, reindex, last_slot, swap_back}
use zmqpp_pty.Poller.Index.{Key, sock, file, same, same_refl, key, find, IsIndexed}
use zmqpp_pty.Poller.Operations.{add-Reads}
use zmqpp_pty.Poller.Remove.{
  remove_key, removal, remove_key_lem, without, find-without, items-without,
}

pop_back-append : (xs : List PollItem) (x : PollItem) → pop_back (xs ++ x ∷ []) ≡ xs
pop_back-append [] x = refl
pop_back-append (y ∷ []) x = refl
pop_back-append (y ∷ z ∷ xs) x = ap (◌∷◌ y) (pop_back-append (z ∷ xs) x)

last_slot-append : (xs : List PollItem) (x : PollItem) → last_slot (xs ++ x ∷ []) ≡ length xs
last_slot-append [] x = refl
last_slot-append (y ∷ xs) x = omega (arith, length-append xs (x ∷ []))

-- The poller after an item is added twice under one key and the key is removed once.
abbrev pub add_twice_remove : Poller → PollItem → PollItem → Poller
add_twice_remove p a b = (remove_key (add (add p a) b) (key b)).0

module _ (p : Poller) (a b : PollItem) where
  twice_items : (add (add p a) b).items ≡ (p.items ++ a ∷ []) ++ b ∷ []
  twice_items = (add-Reads (add p a) b).0 ∙ ap (λ xs. xs ++ b ∷ []) (add-Reads p a).0

  twice_last : last_slot (add (add p a) b).items ≡ length (add p a).items
  twice_last = ap last_slot (add-Reads (add p a) b).0 ∙ last_slot-append (add p a).items b

  twice_find : find (add (add p a) b) (key b) ≡ some (length (add p a).items)
  twice_find = (add-Reads (add p a) b).1 (key b) ∙ rw (same_refl (key b)) refl

  remove_once :
      remove_key (add (add p a) b) (key b)
      ≡ (without (add (add p a) b) (key b) (pop_back (add (add p a) b).items), ok tt)
  unfolding removal
  remove_once =
      remove_key_lem _ (key b) ∙ rw (twice_find, twice_last, ==_refl (length (add p a).items)) refl

  once_items : (add_twice_remove p a b).items ≡ p.items ++ a ∷ []
  once_items =
      ap (λ r. r.0.items) remove_once
      ∙ items-without (add (add p a) b) (key b) (pop_back (add (add p a) b).items)
      ∙ ap pop_back twice_items
      ∙ pop_back-append (p.items ++ a ∷ []) b

  once_find :
      (j : Key)
      → find (add_twice_remove p a b) j
        ≡ (if same j (key b) then none else find (add (add p a) b) j)
  once_find j =
      ap (λ r. find r.0 j) remove_once
      ∙ find-without (add (add p a) b) (key b) (pop_back (add (add p a) b).items) j

  -- If an item is added twice under one key, removing the key once returns without an exception,
  -- and the key is no longer found; yet the first item still stands among the polled items, so the
  -- index is not sound.
  pub add_twice_stale :
      key a ≡ key b
      → let q = add_twice_remove p a b in
        ((remove_key (add (add p a) b) (key b)).1 ≡ ok tt)
        × (find q (key b) ≡ none)
        × (get_elem? q.items (length p.items) ≡ some a)
        × (¬ IsIndexed q)
  add_twice_stale e =
      let gone : find (add_twice_remove p a b) (key b) ≡ none =
        once_find (key b) ∙ rw (same_refl (key b)) refl in
      let stays : get_elem? (add_twice_remove p a b).items (length p.items) ≡ some a =
        ap (λ xs. get_elem? xs (length p.items)) once_items ∙ get_elem?-append_at p.items a [] in
      (
        ap (λ r. r.1) remove_once,
        gone,
        stays,
        λ ix. cc (ix.listed (length p.items) a stays, ap (find (add_twice_remove p a b)) e, gone),
      )

abbrev pub unable : Key → Error
unable (sock s) = exception "unable to reindex socket in poller"
unable (file d) = exception "unable to reindex file descriptor in poller"

reindex_missing :
    (p : Poller) (i : ℕ) (y : PollItem)
    → get_elem? p.items i ≡ some y
    → find p (key y) ≡ none
    → reindex p i ≡ (p, err (unable (key y)))
unfolding reindex
reindex_missing p i y e h = ground arith

set_last : (xs : List PollItem) (x v : PollItem) → set (xs ++ x ∷ []) (length xs) v ≡ xs ++ v ∷ []
set_last [] x v = refl
set_last (z ∷ xs) x v = ap (◌∷◌ z) (set_last xs x v)

set_before :
    (xs : List PollItem) (x y v : PollItem)
    → set ((xs ++ x ∷ []) ++ y ∷ []) (length xs) v ≡ (xs ++ v ∷ []) ++ y ∷ []
set_before [] x y v = refl
set_before (z ∷ xs) x y v = ap (◌∷◌ z) (set_before xs x y v)

get_before :
    (xs : List PollItem) (x y : PollItem)
    → get_elem? ((xs ++ x ∷ []) ++ y ∷ []) (length xs) ≡ some x
get_before [] x y = refl
get_before (z ∷ xs) x y = get_before xs x y

length-snoc : (xs : List PollItem) (x y : PollItem) → length (xs ++ x ∷ []) ≡ length (xs ++ y ∷ [])
length-snoc xs x y = omega (arith, length-append xs (x ∷ []), length-append xs (y ∷ []))

-- Swapping the last item into the place before it.
swap_tail :
    (xs : List PollItem) (x y : PollItem)
    → pop_back (swap_back ((xs ++ x ∷ []) ++ y ∷ []) (length xs)) ≡ xs ++ y ∷ []
swap_tail xs x y =
    let ys = (xs ++ x ∷ []) ++ y ∷ [] in
    let first = get_before xs x y in
    let end : last_slot ys ≡ length (xs ++ x ∷ []) = last_slot-append (xs ++ x ∷ []) y in
    let back : get_elem? ys (last_slot ys) ≡ some y =
      ap (get_elem? ys) end ∙ get_elem?-append_at (xs ++ x ∷ []) y [] in
    let swapped : swap_back ys (length xs) ≡ set (set ys (length xs) y) (last_slot ys) x =
      ground arith in
    ap pop_back (
      swapped
      ∙ ap (λ zs. set zs (last_slot ys) x) (set_before xs x y y)
      ∙ ap (λ n. set ((xs ++ y ∷ []) ++ y ∷ []) n x) (end ∙ length-snoc xs x y)
      ∙ set_last (xs ++ y ∷ []) y x)
    ∙ pop_back-append (xs ++ y ∷ []) x

module _ (p : Poller) (c a b : PollItem) (e : key a ≡ key b)
    (d : same (key c) (key b) ≡ false) where
  before : Poller
  before = add_twice_remove (add p c) a b

  before_items : before.items ≡ (p.items ++ c ∷ []) ++ a ∷ []
  unfolding before
  before_items = once_items (add p c) a b ∙ ap (λ xs. xs ++ a ∷ []) (add-Reads p c).0

  before-find : find before (key c) ≡ some (length p.items)
  unfolding before
  before-find =
      let d' : same (key c) (key a) ≡ false = ap (same (key c)) e ∙ d in
      once_find (add p c) a b (key c)
      ∙ rw d (
          (add-Reads (add (add p c) a) b).1 (key c)
          ∙ rw d (
              (add-Reads (add p c) a).1 (key c)
              ∙ rw d' ((add-Reads p c).1 (key c) ∙ rw (same_refl (key c)) refl)))

  before_gone : find before (key a) ≡ none
  unfolding before
  before_gone = once_find (add p c) a b (key a) ∙ rw (e, same_refl (key b)) refl

  before_last : (last_slot before.items == length p.items) ≡ false
  before_last = ground (
    arith,
    ap last_slot before_items,
    last_slot-append (p.items ++ c ∷ []) a,
    length-append p.items (c ∷ []),
  )

  after : Poller
  after = without before (key c) (pop_back (swap_back before.items (length p.items)))

  after_item : get_elem? after.items (length p.items) ≡ some a
  unfolding after
  after_item =
      ap (λ xs. get_elem? xs (length p.items))
        (items-without before (key c) (pop_back (swap_back before.items (length p.items)))
          ∙ ap (λ xs. pop_back (swap_back xs (length p.items))) before_items
          ∙ swap_tail p.items c a)
      ∙ get_elem?-append_at p.items a []

  after-find : find after (key a) ≡ none
  unfolding after
  after-find =
      find-without before (key c) (pop_back (swap_back before.items (length p.items))) (key a)
      ∙ none_anyway (same (key a) (key c))
    where
      none_anyway : (t : Bool) → (if t then none else find before (key a)) ≡ none
      none_anyway true = refl
      none_anyway false = before_gone

  throwing : remove_key before (key c) ≡ (after, err (unable (key a)))
  unfolding removal after
  throwing =
      remove_key_lem before (key c)
      ∙ rw (before-find, before_last)
          (reindex_missing after (length p.items) a after_item after-find)

  -- Once an item was added twice under one key and that key removed once, removing the item that
  -- stands before it in the vector throws the exception of `reindex`, although it was registered
  -- under another key.
  pub add_twice_throws :
      (remove_key (add_twice_remove (add p c) a b) (key c)).1 ≡ err (unable (key a))
  unfolding before
  add_twice_throws = ap (λ r. r.1) throwing
