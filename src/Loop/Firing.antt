-- ===== src/Loop/Firing.antt =====
-- What a pass over the timers calls and leaves.
use mathlib.Core.List.{append_assoc}
use zmqpp_pty.Base.{
  ℕ, zero, suc, ◌<◌, ◌≡◌, refl, ap, ◌∙◌, Bool, true, false, List, [], ◌∷◌, ◌++◌, some, ltb,
  if◌then◌else◌, length, Bool-cases, inl, inr, Result, ok, err, arith,
}
use zmqpp_pty.Loop.{Loop, Clock, followed_by}
use zmqpp_pty.Loop.Timers.{Timer, sort, find_timer, first_id}
use zmqpp_pty.Loop.Nodes.{Absent, advance, Apart, Apart-advance, find_middle, after_call-middle}
use zmqpp_pty.Loop.Passes.{
  Action, adds_item, adds_timer, resets, removes_timer, removes_socket, removes_fd, Program,
  perform, perform_all, returning, call, on_return, at_timer, round, timers_from, moved, go_on,
}

-- Calls of the loop that leave its timers alone while it dispatches; a removal is put off.
abbrev pub is_quiet : Action → Bool
is_quiet (adds_timer id delay times callable) = false
is_quiet (resets id) = false
is_quiet _ = true

abbrev pub AreQuiet : List Action → Type 0
AreQuiet [] = Unit
AreQuiet (a ∷ more) = (is_quiet a ≡ true) × AreQuiet more

-- The timers after a pass at time `at`, and the callables that it calls.
unfoldable pub fire : ℕ → List Timer → List Timer
fire at [] = []
fire at (t ∷ ts) = if ltb t.when at then advance t ++ fire at ts else t ∷ ts

unfoldable pub fired : ℕ → List Timer → List ℕ
fired at [] = []
fired at (t ∷ ts) = if ltb t.when at then t.callable ∷ fired at ts else []

-- Called later stands first.
abbrev pub logged : List ℕ → List ℕ → List ℕ
logged [] calls = calls
logged (c ∷ cs) calls = logged cs (c ∷ calls)

-- The callables always return `true`, and leave the timers alone.
abbrev pub IsQuiet : Program → Type 0
IsQuiet program =
    (calls : List ℕ) (c : ℕ) → AreQuiet (program calls c).0 × ((program calls c).1 ≡ ok true)

-- What a quiet call keeps of the loop `l`.
abbrev Keeps : Loop → Loop → Type 0
Keeps l l' = (l'.timers ≡ l.timers) × (l'.dispatching ≡ true) × (l'.calls ≡ l.calls)

perform_quiet :
    (now : Clock) (a : Action) (l : Loop)
    → l.dispatching ≡ true
    → is_quiet a ≡ true
    → ((perform now a l).1 ≡ ok tt) × Keeps l (perform now a l).0
unfolding perform
perform_quiet now (adds_item item c) l d q = (refl, (refl, d, refl))
perform_quiet now (adds_timer id delay times c) l d q = cc
perform_quiet now (resets id) l d q = cc
perform_quiet now (removes_timer id) l d q = rw d (refl, (refl, refl, refl))
perform_quiet now (removes_socket s) l d q = rw d (refl, (refl, refl, refl))
perform_quiet now (removes_fd s) l d q = rw d (refl, (refl, refl, refl))

followed_ok :
    (r : Loop × Result (Unit {0})) (next : Loop → Loop × Result (Unit {0}))
    → r.1 ≡ ok tt
    → followed_by r next ≡ next r.0
followed_ok (l, ok u) next h = refl
followed_ok (l, err e) next h = cc

pub perform_all_quiet :
    (now : Clock) (actions : List Action) (l : Loop)
    → l.dispatching ≡ true
    → AreQuiet actions
    → ((perform_all now actions l).1 ≡ ok tt) × Keeps l (perform_all now actions l).0
unfolding perform_all
perform_all_quiet now [] l d q = (refl, (refl, d, refl))
perform_all_quiet now (a ∷ more) l d q =
    let one = perform_quiet now a l d q.0 in
    let rest = perform_all_quiet now more (perform now a l).0 one.1.1 q.1 in
    let keep = one.1 in
    rw (followed_ok (perform now a l) (λ l'. perform_all now more l') one.0)
      (rest.0, (rest.1.0 ∙ keep.0, rest.1.1, rest.1.2 ∙ keep.2))

pub returning_ok :
    (r : Loop × Result (Unit {0})) (b : Result Bool) → r.1 ≡ ok tt → returning r b ≡ (r.0, b)
returning_ok (l, ok u) b h = refl
returning_ok (l, err e) b h = cc

-- The loop that a quiet call leaves.
unfoldable pub called_loop : Clock → Program → ℕ → Loop → Loop
called_loop now program c l =
    (perform_all now (program l.calls c).0 (record l { calls = c ∷ l.calls })).0

call_quiet :
    (now : Clock) (program : Program) (c : ℕ) (l : Loop)
    → IsQuiet program
    → l.dispatching ≡ true
    → (call now program c l ≡ (called_loop now program c l, ok true))
      × ((called_loop now program c l).timers ≡ l.timers)
      × ((called_loop now program c l).dispatching ≡ true)
      × ((called_loop now program c l).calls ≡ c ∷ l.calls)
unfolding call called_loop
call_quiet now program c l q d =
    let (ok_all, keep) =
      perform_all_quiet now (program l.calls c).0 (record l { calls = c ∷ l.calls }) d
        (q l.calls c).0 in
    (
      returning_ok (perform_all now (program l.calls c).0 (record l { calls = c ∷ l.calls })) _
            ok_all
          ∙ ap (λ b. (called_loop now program c l, b)) (q l.calls c).1,
      keep.0,
      keep.1,
      keep.2,
    )

-- The loop after the timer `t` was called, when the timers are `done`, `t` and `rest`.
abbrev after_one : Clock → Program → List Timer → Timer → List Timer → Loop → Loop
after_one now program done t ts l = record (called_loop now program t.callable l) {
  timers = (done ++ advance t) ++ ts;
}

round_due :
    (now : Clock) (program : Program) (at : ℕ) (done : List Timer) (t : Timer) (ts : List Timer)
    (l : Loop)
    → IsQuiet program
    → l.dispatching ≡ true
    → l.timers ≡ done ++ t ∷ ts
    → Absent t.id done
    → Absent t.id ts
    → ltb t.when at ≡ true
    → round now program at (some t.id) l ≡ moved (after_one now program done t ts l) (first_id ts)
unfolding round at_timer
round_due now program at done t ts l q d e a b due =
    let (called, keep, kept, calls) = call_quiet now program t.callable l q d in
    ap (λ o. at_timer now program at o l) (ap (find_timer t.id) e ∙ find_middle t ts done a)
    ∙ rw due (
        ap (on_return t.id) called
        ∙ ap (λ r. moved r.0 r.1)
            (after_call-middle (called_loop now program t.callable l) done t ts (keep ∙ e) a b))

-- The rest of a pass, when the timers before the iterator are `done`.
pub pass_from :
    (fuel : ℕ) (now : Clock) (program : Program) (at : ℕ) (done rest : List Timer) (l : Loop)
    → IsQuiet program
    → l.dispatching ≡ true
    → l.timers ≡ done ++ rest
    → Apart done rest
    → length rest < fuel
    → (l' : Loop) × (timers_from fuel now program at (first_id rest) l ≡ some (l', ok true))
      × (l'.timers ≡ sort (done ++ fire at rest))
      × (l'.calls ≡ logged (fired at rest) l.calls)
unfolding timers_from round at_timer first_id fire fired
pass_from zero now program at done rest l q d e a f = absurd (omega arith)
pass_from (suc fuel) now program at done [] l q d e a f =
    (record l { timers = sort l.timers }, refl, ap sort e, refl)
pass_from (suc fuel) now program at done (t ∷ ts) l q d e a f = elim (Bool-cases (ltb t.when at)) [
  | inl due ↦
      let (l', run, timers, calls) =
        pass_from fuel now program at (done ++ advance t) ts (after_one now program done t ts l) q
          (call_quiet now program t.callable l q d).2 refl (Apart-advance done t ts a.1 a.2)
          (omega arith) in
      (
        l',
        ap (λ r. go_on r (λ l'' at'. timers_from fuel now program at at' l''))
              (round_due now program at done t ts l q d e a.0 a.1 due)
            ∙ run,
        timers
            ∙ ap sort (append_assoc done (advance t) (fire at ts) ∙ ap (◌++◌ done) (rw due refl)),
        rw due (calls ∙ ap (logged (fired at ts)) (call_quiet now program t.callable l q d).3),
      )
  | inr early ↦
      let found : find_timer t.id l.timers ≡ some t =
        ap (find_timer t.id) e ∙ find_middle t ts done a.0 in
      rw (found, early) (record l { timers = sort l.timers }, refl, ap sort e, refl)
]
