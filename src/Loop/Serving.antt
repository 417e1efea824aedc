-- ===== src/Loop/Serving.antt =====
-- A whole pass over the timers.
use zmqpp_pty.Base.{
  ℕ, ◌≤◌, ◌<◌, ◌≡◌, refl, sym, ap, ◌∙◌, true, false, List, [], ◌∷◌, ◌++◌, some, ltb, if◌then◌else◌,
  length, Bool-cases, inl, inr, ok, arith,
}
use zmqpp_pty.Loop.{Loop, Clock, tick}
use zmqpp_pty.Loop.Timers.{Timer, sort}
use zmqpp_pty.Loop.Firing.{IsQuiet, fire, fired, logged, pass_from}
use zmqpp_pty.Loop.Nodes.{AreDistinct, advance, Apart-nil}
use zmqpp_pty.Loop.Sorting.{NoneBefore, IsSorted}
use zmqpp_pty.Loop.Passes.{Program, start_handle_timers}

-- The timers that are due at `at`, wherever they stand: their callables, and what is left of all.
unfoldable pub due : ℕ → List Timer → List ℕ
due at [] = []
due at (t ∷ ts) = if ltb t.when at then t.callable ∷ due at ts else due at ts

unfoldable pub served : ℕ → List Timer → List Timer
served at [] = []
served at (t ∷ ts) = if ltb t.when at then advance t ++ served at ts else t ∷ served at ts

none_due :
    (at n : ℕ) (ts : List Timer) → at ≤ n → NoneBefore n ts → (due at ts ≡ []) × (served at ts ≡ ts)
unfolding due served
none_due at n [] h b = (refl, refl)
none_due at n (t ∷ ts) h b =
    let early : ltb t.when at ≡ false = ground arith in
    rw early ((none_due at n ts h b.1).0, ap (◌∷◌ t) (none_due at n ts h b.1).1)

fire-sorted :
    (at : ℕ) (ts : List Timer)
    → IsSorted ts
    → (fired at ts ≡ due at ts) × (fire at ts ≡ served at ts)
unfolding fire fired due served
fire-sorted at [] s = (refl, refl)
fire-sorted at (t ∷ ts) s = elim (Bool-cases (ltb t.when at)) [
  | inl e ↦ rw e (
    ap (◌∷◌ t.callable) (fire-sorted at ts s.1).0,
    ap (◌++◌ (advance t)) (fire-sorted at ts s.1).1,
  )
  | inr e ↦
      let later = none_due at t.when ts (ground arith) s.0 in
      rw e (sym later.0, ap (◌∷◌ t) (sym later.1))
]

-- While the loop dispatches, when its timers have different addresses and are in order, and no
-- callable throws, returns `false` or changes the timers, then fuel for one round more than there
-- are timers is enough for the pass over the timers: it returns `true`, it has called the callable
-- of each timer that was due before the reading of the clock, once each and in the order of the list,
-- and no other, and it leaves, in order, the timers that were not due as they were and those that
-- were due with their time and count moved on, without those whose count was used up.
pub timers_served :
    (fuel : ℕ) (now : Clock) (program : Program) (l : Loop)
    → IsQuiet program
    → l.dispatching ≡ true
    → AreDistinct l.timers
    → IsSorted l.timers
    → length l.timers < fuel
    → (l' : Loop) × (start_handle_timers fuel now program l ≡ some (l', ok true))
      × (l'.timers ≡ sort (served (now l.reads) l.timers))
      × (l'.calls ≡ logged (due (now l.reads) l.timers) l.calls)
unfolding start_handle_timers
timers_served fuel now program l q d distinct s f =
    let at = now l.reads in
    let (l', run, timers, calls) =
      pass_from fuel now program at [] l.timers (tick l) q d refl (Apart-nil l.timers distinct) f in
    (
      l',
      run,
      timers ∙ ap sort (fire-sorted at l.timers s).1,
      calls ∙ ap (λ cs. logged cs l.calls) (fire-sorted at l.timers s).0,
    )
