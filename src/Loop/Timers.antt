-- ===== src/Loop/Timers.antt =====
-- The list of timers: `std::list::sort` with the comparison of `when`, and the timer's methods.
use zmqpp_pty.Base.{ℕ, ◌+◌, List, [], ◌∷◌, Option, none, some, ltb, ◌==◌, if◌then◌else◌}

pub record Timer : Type 0 where
  pub id : ℕ
  pub times : ℕ
  pub delay : ℕ
  pub when : ℕ
  pub callable : ℕ

-- The sort is stable: a timer goes before those that are due no sooner.
unfoldable pub insert : Timer → List Timer → List Timer
insert t [] = t ∷ []
insert t (u ∷ us) = if ltb u.when t.when then u ∷ insert t us else t ∷ u ∷ us

unfoldable pub sort : List Timer → List Timer
unfolding insert
sort [] = []
sort (t ∷ ts) = insert t (sort ts)

-- `timer_t::reset` and `timer_t::update`.
unfoldable pub reset_timer : ℕ → Timer → Timer
reset_timer now t = record t { when = now + t.delay }

unfoldable pub update : Timer → Timer
update t = record t { when = t.when + t.delay }

-- The node of a timer, by its address.
unfoldable pub find_timer : ℕ → List Timer → Option Timer
find_timer id [] = none
find_timer id (t ∷ ts) = if t.id == id then some t else find_timer id ts

unfoldable pub modify : ℕ → (Timer → Timer) → List Timer → List Timer
modify id f [] = []
modify id f (t ∷ ts) = if t.id == id then f t ∷ ts else t ∷ modify id f ts

-- `remove_if` on the address.
unfoldable pub erase_timer : ℕ → List Timer → List Timer
erase_timer id [] = []
erase_timer id (t ∷ ts) = if t.id == id then erase_timer id ts else t ∷ erase_timer id ts

-- The address of the first node, and of the node after one.
unfoldable pub first_id : List Timer → Option ℕ
first_id [] = none
first_id (t ∷ ts) = some t.id

unfoldable pub next_id : ℕ → List Timer → Option ℕ
unfolding first_id
next_id id [] = none
next_id id (t ∷ ts) = if t.id == id then first_id ts else next_id id ts
