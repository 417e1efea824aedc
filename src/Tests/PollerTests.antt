-- ===== src/Tests/PollerTests.antt =====
-- A poller with two sockets and a descriptor.
use zmqpp_pty.Base.{ℕ, none, some, ◌≡◌, refl, ok, get_elem?, if◌then◌else◌}
use zmqpp_pty.Poller.{PollItem, Poller, empty, add, poll_in}
use zmqpp_pty.Poller.Index.{Key, sock, file, same, find, IsIndexed, view}
use zmqpp_pty.Poller.Remove.{remove_key, Removed, remove-Removed}
use zmqpp_pty.Poller.Operations.{add-IsIndexed}
use zmqpp_pty.Poller.Duplicates.{add_twice_remove, add_twice_stale}

abbrev item : ℕ → ℕ → PollItem
item s d = record { socket = s; fd = d; events = poll_in; revents = 0 }

abbrev pair : Poller
pair = add (add empty (item 7 0)) (item 9 0)

abbrev three : Poller
three = add pair (item 0 3)

empty-IsIndexed : IsIndexed empty
empty-IsIndexed = record { slots = λ k i e. absurd (no_key k i e); listed = λ i x e. cc }
  where
    no_key : (k : Key) (i : ℕ) → find empty k ≡ some i → ⊥
    no_key (sock s) i e = cc
    no_key (file d) i e = cc

pair-IsIndexed : IsIndexed pair
unfolding add
pair-IsIndexed =
    (add-IsIndexed (add empty (item 7 0)) (item 9 0)
      (add-IsIndexed empty (item 7 0) empty-IsIndexed refl).0 refl).0

three-IsIndexed : IsIndexed three
unfolding add
three-IsIndexed = (add-IsIndexed pair (item 0 3) pair-IsIndexed refl).0

add-IsIndexed_example :
    IsIndexed three
    × ((j : Key) → view three j ≡ (if same j (file 3) then some (item 0 3) else view pair j))
unfolding add
add-IsIndexed_example = add-IsIndexed pair (item 0 3) pair-IsIndexed refl

remove-Removed_example : Removed three (sock 7) (remove_key three (sock 7))
remove-Removed_example = remove-Removed three (sock 7) three-IsIndexed

add_twice_stale_example :
    let q = add_twice_remove pair (item 5 0) (item 5 1) in
    ((remove_key (add (add pair (item 5 0)) (item 5 1)) (sock 5)).1 ≡ ok tt)
    × (find q (sock 5) ≡ none)
    × (get_elem? q.items 2 ≡ some (item 5 0))
    × (¬ IsIndexed q)
unfolding add
add_twice_stale_example = add_twice_stale pair (item 5 0) (item 5 1) refl
