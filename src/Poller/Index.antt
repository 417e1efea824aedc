-- ===== src/Poller/Index.antt =====
-- The index of a poller: what its two maps say about the items, under one key type.
use zmqpp_pty.Base.{
  ℕ, ◌≡◌, Bool, true, false, List, Option, none, some, ◌==◌, if◌then◌else◌, get_elem?, arith,
}
use zmqpp_pty.Poller.{PollItem, Poller}

pub data Key : Type 0 where
  sock file : ℕ → Key

abbrev pub same : Key → Key → Bool
same (sock a) (sock b) = a == b
same (sock a) (file b) = false
same (file a) (sock b) = false
same (file a) (file b) = a == b

pub same-eq : (j k : Key) → same j k ≡ true → j ≡ k
same-eq (sock a) (sock b) h = ground arith
same-eq (sock a) (file b) h = cc
same-eq (file a) (sock b) h = cc
same-eq (file a) (file b) h = ground arith

pub same_refl : (k : Key) → same k k ≡ true
same_refl (sock a) = ground arith
same_refl (file a) = ground arith

-- An item with a null socket is a file descriptor.
abbrev pub key : PollItem → Key
key item = if item.socket == 0 then file item.fd else sock item.socket

abbrev pub find : Poller → Key → Option ℕ
find p (sock s) = p.index s
find p (file d) = p.fdindex d

-- The index and the items say the same.
pub record Indexed (xs : List PollItem) (f : Key → Option ℕ) : Type 0 where
  pub slots :
      (k : Key) (i : ℕ)
      → f k ≡ some i
      → (item : PollItem) × (get_elem? xs i ≡ some item) × (key item ≡ k)
  pub listed : (i : ℕ) (item : PollItem) → get_elem? xs i ≡ some item → f (key item) ≡ some i

abbrev pub IsIndexed : Poller → Type 0
IsIndexed p = Indexed p.items (find p)

-- What a client sees: the item that stands under a key.
abbrev pub slot_of : List PollItem → Option ℕ → Option PollItem
slot_of xs none = none
slot_of xs (some i) = get_elem? xs i

abbrev pub lookup : List PollItem → (Key → Option ℕ) → Key → Option PollItem
lookup xs f k = slot_of xs (f k)

abbrev pub view : Poller → Key → Option PollItem
view p k = lookup p.items (find p) k
