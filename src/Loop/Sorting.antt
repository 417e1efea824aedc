-- ===== src/Loop/Sorting.antt =====
-- The timers in the order in which they are due, and the time to poll for.
use zmqpp_pty.Base.{
  ℕ, ◌+◌, ◌-◌, ◌/◌, ◌≤◌, ◌≡◌, refl, ap, ◌∙◌, false, List, [], ◌∷◌, ltb, Bool-cases, inl, inr, arith,
}
use zmqpp_pty.Loop.{Loop, Clock, ms, hour, tick_at, tickless}
use zmqpp_pty.Loop.Timers.{Timer, insert, sort}

-- No timer is due before `n`.
abbrev pub NoneBefore : ℕ → List Timer → Type 0
NoneBefore n [] = Unit
NoneBefore n (t ∷ ts) = (n ≤ t.when) × NoneBefore n ts

abbrev pub IsSorted : List Timer → Type 0
IsSorted [] = Unit
IsSorted (t ∷ ts) = NoneBefore t.when ts × IsSorted ts

pub NoneBefore-le : (m n : ℕ) (ts : List Timer) → m ≤ n → NoneBefore n ts → NoneBefore m ts
NoneBefore-le m n [] h b = tt
NoneBefore-le m n (t ∷ ts) h b = (omega arith, NoneBefore-le m n ts h b.1)

insert-NoneBefore :
    (n : ℕ) (t : Timer) (ts : List Timer)
    → n ≤ t.when
    → NoneBefore n ts
    → NoneBefore n (insert t ts)
unfolding insert
insert-NoneBefore n t [] h b = (h, tt)
insert-NoneBefore n t (u ∷ us) h b = elim (Bool-cases (ltb u.when t.when)) [
  | inl e ↦ rw e (b.0, insert-NoneBefore n t us h b.1)
  | inr e ↦ rw e (h, b)
]

insert-IsSorted : (t : Timer) (ts : List Timer) → IsSorted ts → IsSorted (insert t ts)
unfolding insert
insert-IsSorted t [] s = (tt, tt)
insert-IsSorted t (u ∷ us) s = elim (Bool-cases (ltb u.when t.when)) [
  | inl e ↦ rw e (insert-NoneBefore u.when t us (ground arith) s.0, insert-IsSorted t us s.1)
  | inr e ↦
      let le : t.when ≤ u.when = ground arith in
      rw e ((le, NoneBefore-le t.when u.when us le s.0), s)
]

-- Sorting leaves the timers in the order in which they are due.
pub sort-IsSorted : (ts : List Timer) → IsSorted (sort ts)
unfolding sort
sort-IsSorted [] = tt
sort-IsSorted (t ∷ ts) = insert-IsSorted t (sort ts) (sort-IsSorted ts)

insert_first : (t : Timer) (ts : List Timer) → NoneBefore t.when ts → insert t ts ≡ t ∷ ts
unfolding insert
insert_first t [] b = refl
insert_first t (u ∷ us) b = let e : ltb u.when t.when ≡ false = ground arith in rw e refl

-- Sorting changes nothing in a sorted list.
pub sort-of_sorted : (ts : List Timer) → IsSorted ts → sort ts ≡ ts
unfolding sort
sort-of_sorted [] s = refl
sort-of_sorted (t ∷ ts) s = ap (insert t) (sort-of_sorted ts s.1) ∙ insert_first t ts s.0

-- Every timer waits for at least `n` more after `from`.
abbrev pub AllWait : ℕ → ℕ → List Timer → Type 0
AllWait n from [] = Unit
AllWait n from (t ∷ ts) = (n ≤ t.when - from) × AllWait n from ts

wait_all : (n from w : ℕ) (ts : List Timer) → n ≤ w - from → NoneBefore w ts → AllWait n from ts
wait_all n from w [] h b = tt
wait_all n from w (t ∷ ts) h b = (omega arith, wait_all n from w ts h b.1)

by_timers :
    (at from : ℕ) (ts : List Timer)
    → IsSorted ts
    → AllWait (ms ((tick_at ts at - from) / 1000000)) from ts
unfolding tick_at
by_timers at from [] s = tt
by_timers at from (t ∷ ts) s =
    let soon : ms ((tick_at (t ∷ ts) at - from) / 1000000) ≤ t.when - from = ground arith in
    (soon, wait_all _ from t.when ts soon s.0)

tick_at-le : (at : ℕ) (ts : List Timer) → tick_at ts at ≤ at
unfolding tick_at
tick_at-le at [] = omega arith
tick_at-le at (t ∷ ts) = ground arith

-- When the timers are in order and the clock does not run backwards, the loop polls for at most an
-- hour and never past the time at which a timer is due.
pub tickless_bounds :
    (now : Clock) (l : Loop)
    → IsSorted l.timers
    → now l.reads ≤ now (l.reads + 1)
    → let wait = (tickless now l).1 in
      (ms wait ≤ hour) × AllWait (ms wait) (now (l.reads + 1)) l.timers
unfolding tickless
tickless_bounds now l s h = (
  omega (arith, tick_at-le (now l.reads + hour) l.timers),
  by_timers (now l.reads + hour) (now (l.reads + 1)) l.timers s,
)
