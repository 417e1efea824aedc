-- ===== src/Poller.antt =====
-- zmqpp/poller.hpp and poller.cpp: the vector of poll items, and its two indexes. A socket is its
-- `void*`, and 0 is `nullptr`; a descriptor is its bit pattern. The state after an exception is
-- returned too. `zmq_poll` is an argument: what it answers, with the `revents` that it sets.
pub mod Index
pub mod Removal
pub mod Remove
pub mod Operations
pub mod Updates
pub mod Duplicates
use Prim.Native.Nat.{bit_and}
use zmqpp_pty.Base.{
  ℕ, zero, suc, ◌+◌, ◌-◌, ◌^◌, Bool, true, false, not, List, [], ◌∷◌, ◌++◌, Option, none, some, ltb,
  ◌==◌, if◌then◌else◌, length, get_elem?, set, pop_back, Result, ok, err, exception, zmq_internal,
  undefined,
}

-- `zmq_pollitem_t`.
pub record PollItem : Type 0 where
  pub socket : ℕ
  pub fd : ℕ
  pub events : ℕ
  pub revents : ℕ

-- `std::unordered_map` to vector indexes.
abbrev pub Map : Type 0
Map = ℕ → Option ℕ

abbrev pub assign : ℕ → ℕ → Map → Map
assign k v m j = if j == k then some v else m j

abbrev pub erase : ℕ → Map → Map
erase k m j = if j == k then none else m j

pub record Poller : Type 0 where
  pub items : List PollItem
  pub index : Map
  pub fdindex : Map

-- The exception, or the value, and the poller that the call leaves.
abbrev pub Run : Type 0 → Type 0
Run A = Poller × Result A

abbrev pub empty : Poller
empty = record { items = []; index = λ k. none; fdindex = λ k. none }

-- The constants of zmq.h.
abbrev pub poll_in : ℕ
poll_in = 1

abbrev pub poll_out : ℕ
poll_out = 2

abbrev pub poll_error : ℕ
poll_error = 4

abbrev pub eintr : ℕ
eintr = 4

unfoldable pub add : Poller → PollItem → Poller
add p item =
    let n = length p.items in
    let grown = p.items ++ item ∷ [] in
    if item.socket == 0
    then record p { items = grown; fdindex = assign item.fd n p.fdindex }
    else record p { items = grown; index = assign item.socket n p.index }

unfoldable pub add_socket : Poller → ℕ → ℕ → Poller
unfolding add
add_socket p socket event = add p (record { socket = socket; fd = 0; events = event; revents = 0 })

unfoldable pub add_fd : Poller → ℕ → ℕ → Poller
unfolding add
add_fd p descriptor event =
    add p (record { socket = 0; fd = descriptor; events = event; revents = 0 })

abbrev is_some : Option ℕ → Bool
is_some none = false
is_some (some i) = true

unfoldable pub has_socket : Poller → ℕ → Bool
has_socket p socket = is_some (p.index socket)

unfoldable pub has_fd : Poller → ℕ → Bool
has_fd p descriptor = is_some (p.fdindex descriptor)

unfoldable pub has : Poller → PollItem → Bool
unfolding has_socket has_fd
has p item = if item.socket == 0 then has_fd p item.fd else has_socket p item.socket

reindex_item : Poller → ℕ → PollItem → Run (Unit {0})
reindex_item p i item =
    if item.socket == 0
    then elim (p.fdindex item.fd) [
      | none ↦ (p, err (exception "unable to reindex file descriptor in poller"))
      | some found ↦ (record p { fdindex = assign item.fd i p.fdindex }, ok tt)
    ]
    else elim (p.index item.socket) [
      | none ↦ (p, err (exception "unable to reindex socket in poller"))
      | some found ↦ (record p { index = assign item.socket i p.index }, ok tt)
    ]

unfoldable pub reindex : Poller → ℕ → Run (Unit {0})
unfolding reindex_item
reindex p i = elim (get_elem? p.items i) [
  | none ↦ (p, err undefined)
  | some item ↦ reindex_item p i item
]

-- `_items.size() - 1`, which wraps on an empty vector.
abbrev pub last_slot : List PollItem → ℕ
last_slot [] = 2 ^ 64 - 1
last_slot (x ∷ xs) = length xs

-- `std::swap(_items[i], _items.back())`.
abbrev pub swap_back : List PollItem → ℕ → List PollItem
swap_back xs i = elim (get_elem? xs i) [
  | none ↦ xs
  | some x ↦ elim (get_elem? xs (last_slot xs)) [
    | none ↦ xs
    | some y ↦ set (set xs i y) (last_slot xs) x
  ]
]

unfoldable pub remove_fd : Poller → ℕ → Run (Unit {0})
unfolding reindex
remove_fd p descriptor = elim (p.fdindex descriptor) [
  | none ↦ (p, ok tt)
  | some found ↦
      if last_slot p.items == found
      then (record p { items = pop_back p.items; fdindex = erase descriptor p.fdindex }, ok tt)
      else reindex
          (record p {
            items = pop_back (swap_back p.items found);
            fdindex = erase descriptor p.fdindex;
          })
          found
]

unfoldable pub remove_socket : Poller → ℕ → Run (Unit {0})
unfolding reindex
remove_socket p socket = elim (p.index socket) [
  | none ↦ (p, ok tt)
  | some found ↦
      if last_slot p.items == found
      then (record p { items = pop_back p.items; index = erase socket p.index }, ok tt)
      else reindex
          (record p { items = pop_back (swap_back p.items found); index = erase socket p.index })
          found
]

unfoldable pub remove : Poller → PollItem → Run (Unit {0})
unfolding remove_fd remove_socket
remove p item = if item.socket == 0 then remove_fd p item.fd else remove_socket p item.socket

-- `_items[i].events = event`.
set_events : Poller → ℕ → ℕ → Run (Unit {0})
set_events p i event = elim (get_elem? p.items i) [
  | none ↦ (p, err undefined)
  | some item ↦ (record p { items = set p.items i (record item { events = event }) }, ok tt)
]

unfoldable pub check_for_socket : Poller → ℕ → ℕ → Run (Unit {0})
unfolding set_events
check_for_socket p socket event = elim (p.index socket) [
  | none ↦ (p, err (exception "this socket is not represented within this poller"))
  | some found ↦ set_events p found event
]

unfoldable pub check_for_fd : Poller → ℕ → ℕ → Run (Unit {0})
unfolding set_events
check_for_fd p descriptor event = elim (p.fdindex descriptor) [
  | none ↦ (p, err (exception "this standard socket is not represented within this poller"))
  | some found ↦ set_events p found event
]

unfoldable pub check_for : Poller → PollItem → ℕ → Run (Unit {0})
unfolding check_for_fd check_for_socket
check_for p item event =
    if item.socket == 0 then check_for_fd p item.fd event else check_for_socket p item.socket event

-- What `zmq_poll` answers: an error number, or the `revents` of the items and their count.
pub data Answer : Type 0 where
  failed : ℕ → Answer
  polled : List ℕ → ℕ → Answer

unfoldable pub set_revents : List PollItem → List ℕ → List PollItem
set_revents [] rs = []
set_revents (x ∷ xs) [] = x ∷ xs
set_revents (x ∷ xs) (r ∷ rs) = record x { revents = r } ∷ set_revents xs rs

unfoldable pub poll : Poller → Answer → Run Bool
unfolding set_revents
poll p (failed e) = if e == eintr then (p, ok false) else (p, err (zmq_internal e))
poll p (polled rs n) = (record p { items = set_revents p.items rs }, ok (ltb 0 n))

read_events : Poller → ℕ → Result ℕ
read_events p i = elim (get_elem? p.items i) [ none ↦ err undefined | some item ↦ ok item.revents ]

unfoldable pub events_socket : Poller → ℕ → Result ℕ
unfolding read_events
events_socket p socket = elim (p.index socket) [
  | none ↦ err (exception "this socket is not represented within this poller")
  | some found ↦ read_events p found
]

unfoldable pub events_fd : Poller → ℕ → Result ℕ
unfolding read_events
events_fd p descriptor = elim (p.fdindex descriptor) [
  | none ↦ err (exception "this standard socket is not represented within this poller")
  | some found ↦ read_events p found
]

unfoldable pub events : Poller → PollItem → Result ℕ
unfolding events_fd events_socket
events p item = if item.socket == 0 then events_fd p item.fd else events_socket p item.socket

-- The flag test of `has_input`, `has_output` and `has_error`.
abbrev pub flagged : ℕ → Result ℕ → Result Bool
flagged flag (ok e) = ok (not (bit_and e flag == 0))
flagged flag (err x) = err x

unfoldable pub has_input : Poller → PollItem → Result Bool
unfolding events
has_input p item = flagged poll_in (events p item)

unfoldable pub has_output : Poller → PollItem → Result Bool
unfolding events
has_output p item = flagged poll_out (events p item)

unfoldable pub has_error : Poller → PollItem → Result Bool
unfolding events
has_error p item = flagged poll_error (events p item)
