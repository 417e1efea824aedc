-- ===== src/Loop/Nodes.antt =====
-- The nodes of the list of timers, found by their addresses.
use zmqpp_pty.Base.{
  ℕ, ◌≡◌, refl, ◌+◌, ◌-◌, ap, ◌∙◌, true, false, List, [], ◌∷◌, ◌++◌, some, ◌==◌, if◌then◌else◌,
  Bool-cases, inl, inr, arith,
}
use zmqpp_pty.Loop.{Loop}
use zmqpp_pty.Loop.Passes.{spend, is_last, after_call}
use zmqpp_pty.Loop.Timers.{Timer, update, find_timer, modify, erase_timer, first_id, next_id}

-- Addresses are unique.
abbrev pub Absent : ℕ → List Timer → Type 0
Absent id [] = Unit
Absent id (t ∷ ts) = ((t.id == id) ≡ false) × Absent id ts

abbrev pub AreDistinct : List Timer → Type 0
AreDistinct [] = Unit
AreDistinct (t ∷ ts) = Absent t.id ts × AreDistinct ts

-- A timer after its callable ran: it is gone if its count was 1. Otherwise it is due one delay later,
-- with a count that is one less, or 0 as before for a timer without a count.
abbrev pub advance : Timer → List Timer
advance t =
    if t.times == 1
    then []
    else record {
      id = t.id;
      times = if t.times == 0 then 0 else t.times - 1;
      delay = t.delay;
      when = t.when + t.delay;
      callable = t.callable;
    }
      ∷ []

-- The code's way to it.
pub advance-update : (t : Timer) → advance t ≡ (if is_last t then [] else update (spend t) ∷ [])
unfolding update
advance-update t = elim (Bool-cases (t.times == 0)) [
  | inl z ↦ rw z (ap rebuilt (ground arith))
  | inr n ↦ rw n refl
]
  where
    rebuilt : ℕ → List Timer
    rebuilt n =
        if t.times == 1
        then []
        else record {
          id = t.id;
          times = n;
          delay = t.delay;
          when = t.when + t.delay;
          callable = t.callable;
        }
          ∷ []

-- The node of a timer in the middle of the list.
module _ (t : Timer) (rest : List Timer) where
  pub find_middle :
      (done : List Timer) → Absent t.id done → find_timer t.id (done ++ t ∷ rest) ≡ some t
  unfolding find_timer
  find_middle [] a = ground arith
  find_middle (u ∷ done) a = rw (a.0) (find_middle done a.1)

  pub next_middle :
      (done : List Timer) → Absent t.id done → next_id t.id (done ++ t ∷ rest) ≡ first_id rest
  unfolding next_id
  next_middle [] a = ground arith
  next_middle (u ∷ done) a = rw (a.0) (next_middle done a.1)

  pub modify_middle :
      (done : List Timer) (f : Timer → Timer)
      → Absent t.id done
      → modify t.id f (done ++ t ∷ rest) ≡ done ++ f t ∷ rest
  unfolding modify
  modify_middle [] f a = ground arith
  modify_middle (u ∷ done) f a = rw (a.0) (ap (◌∷◌ u) (modify_middle done f a.1))

pub erase-Absent : (id : ℕ) (ts : List Timer) → Absent id ts → erase_timer id ts ≡ ts
unfolding erase_timer
erase-Absent id [] a = refl
erase-Absent id (t ∷ ts) a = rw (a.0) (ap (◌∷◌ t) (erase-Absent id ts a.1))

pub erase_middle :
    (t : Timer) (rest done : List Timer)
    → Absent t.id done
    → Absent t.id rest
    → erase_timer t.id (done ++ t ∷ rest) ≡ done ++ rest
unfolding erase_timer
erase_middle t rest [] a b =
    let same : (t.id == t.id) ≡ true = ground arith in rw same (erase-Absent t.id rest b)
erase_middle t rest (u ∷ done) a b = rw (a.0) (ap (◌∷◌ u) (erase_middle t rest done a.1 b))

-- The addresses in `rest` are unique, and none stands in `done`.
abbrev pub Apart : List Timer → List Timer → Type 0
Apart done [] = Unit
Apart done (t ∷ ts) = Absent t.id done × Absent t.id ts × Apart done ts

pub Apart-nil : (ts : List Timer) → AreDistinct ts → Apart [] ts
Apart-nil [] d = tt
Apart-nil (t ∷ ts) d = (tt, d.0, Apart-nil ts d.1)

Absent-append : (id : ℕ) (xs ys : List Timer) → Absent id xs → Absent id ys → Absent id (xs ++ ys)
Absent-append id [] ys a b = b
Absent-append id (x ∷ xs) ys a b = (a.0, Absent-append id xs ys a.1 b)

Absent-advance : (id : ℕ) (t : Timer) → (t.id == id) ≡ false → Absent id (advance t)
unfolding update
Absent-advance id t h = elim (Bool-cases (t.times == 1)) [ inl e ↦ rw e tt | inr e ↦ rw e (h, tt) ]

pub Apart-advance :
    (done : List Timer) (t : Timer) (ts : List Timer)
    → Absent t.id ts
    → Apart done ts
    → Apart (done ++ advance t) ts
Apart-advance done t [] a p = tt
Apart-advance done t (u ∷ us) a p =
    let other : (t.id == u.id) ≡ false = ground arith in
    (
      Absent-append u.id done (advance t) p.0 (Absent-advance u.id t other),
      p.1,
      Apart-advance done t us a.1 p.2,
    )

append_one : (xs : List Timer) (x : Timer) (ys : List Timer) → xs ++ x ∷ ys ≡ (xs ++ x ∷ []) ++ ys
append_one [] x ys = refl
append_one (y ∷ xs) x ys = ap (◌∷◌ y) (append_one xs x ys)

append_nil : (xs : List Timer) → xs ≡ xs ++ []
append_nil [] = refl
append_nil (y ∷ xs) = ap (◌∷◌ y) (append_nil xs)

-- The state after a call, when the timers are `done`, the timer called and `rest`.
pub after_call-middle :
    (l : Loop) (done : List Timer) (t : Timer) (rest : List Timer)
    → l.timers ≡ done ++ t ∷ rest
    → Absent t.id done
    → Absent t.id rest
    → after_call t.id l ≡ (record l { timers = (done ++ advance t) ++ rest }, first_id rest)
unfolding after_call
after_call-middle l done t rest e a b =
    let found : find_timer t.id l.timers ≡ some t =
      ap (find_timer t.id) e ∙ find_middle t rest done a in
    let next : next_id t.id l.timers ≡ first_id rest =
      ap (next_id t.id) e ∙ next_middle t rest done a in
    let erased : erase_timer t.id l.timers ≡ (done ++ []) ++ rest =
      ap (erase_timer t.id) e
      ∙ erase_middle t rest done a b
      ∙ ap (λ ts. ts ++ rest) (append_nil done) in
    let changed : modify t.id (λ t. update (spend t)) l.timers
        ≡ (done ++ update (spend t) ∷ []) ++ rest =
      ap (modify t.id (λ t. update (spend t))) e
      ∙ modify_middle t rest done (λ t. update (spend t)) a
      ∙ append_one done (update (spend t)) rest in
    rw (found, next, advance-update t, after_call)
      (elim (Bool-cases (is_last t)) [
        | inl last ↦ rw (last, erased) refl
        | inr more ↦ rw (more, changed) refl
      ])
