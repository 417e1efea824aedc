-- ===== src/Loop/Stopping.antt =====
-- A callable that returns `false` ends the pass over the timers before they are sorted again.
use mathlib.Core.Path.{subst}
use zmqpp_pty.Base.{
  ℕ, suc, ◌+◌, ◌<◌, ◌≡◌, refl, ap, ◌∙◌, true, false, List, [], ◌∷◌, ◌++◌, some, ltb, ok, arith,
}
use zmqpp_pty.Loop.{Loop, Clock, tick}
use zmqpp_pty.Loop.Timers.{Timer, find_timer, first_id, update}
use zmqpp_pty.Loop.Nodes.{AreDistinct, after_call-middle, advance, advance-update, find_middle}
use zmqpp_pty.Loop.Sorting.{IsSorted}
use zmqpp_pty.Loop.Firing.{AreQuiet, called_loop, perform_all_quiet, returning_ok}
use zmqpp_pty.Loop.Passes.{
  Program, call, start_handle_timers, timers_from, round, at_timer, on_return, go_on, finished,
  is_last, spend,
}

-- While the loop dispatches and its timers have different addresses: when the first timer is due and
-- not used up, its callable returns `false` without changing the timers, and the timer after it is
-- due before the first one's next time, then the pass ends and leaves the first timer, moved on, in
-- front, so that the timers are not in order.
pub stop-unsorted :
    (fuel : ℕ) (now : Clock) (program : Program) (l : Loop) (t u : Timer) (ts : List Timer)
    → l.timers ≡ t ∷ u ∷ ts
    → l.dispatching ≡ true
    → AreDistinct (t ∷ u ∷ ts)
    → ltb t.when (now l.reads) ≡ true
    → is_last t ≡ false
    → AreQuiet (program l.calls t.callable).0
    → (program l.calls t.callable).1 ≡ ok false
    → u.when < t.when + t.delay
    → (l' : Loop) × (start_handle_timers (suc fuel) now program l ≡ some (l', ok false))
      × (l'.timers ≡ update (spend t) ∷ u ∷ ts)
      × (¬ IsSorted l'.timers)
unfolding start_handle_timers timers_from round at_timer call called_loop first_id update
stop-unsorted fuel now program l t u ts e d a due more quiet stops before =
    let l1 = called_loop now program t.callable (tick l) in
    let (ran, keep) =
      perform_all_quiet now (program l.calls t.callable).0
        (record (tick l) { calls = t.callable ∷ l.calls }) d quiet in
    let called : call now program t.callable (tick l) ≡ (l1, ok false) =
      returning_ok _ (program l.calls t.callable).1 ran ∙ ap (λ b. (l1, b)) stops in
    let next = after_call-middle l1 [] t (u ∷ ts) (keep.0 ∙ e) tt a.0 in
    let l2 = record l1 { timers = advance t ++ u ∷ ts } in
    let left : l2.timers ≡ update (spend t) ∷ u ∷ ts =
      ap (λ xs. xs ++ u ∷ ts) (advance-update t) ∙ rw more refl in
    let round_ends : round now program (now l.reads) (first_id l.timers) (tick l)
        ≡ finished l2 (ok false) =
      ap (λ x. round now program (now l.reads) (first_id x) (tick l)) e
      ∙ ap (λ o. at_timer now program (now l.reads) o (tick l))
          (ap (find_timer t.id) e ∙ find_middle t (u ∷ ts) [] tt)
      ∙ rw due (ap (on_return t.id) called ∙ ap (λ r. finished r.0 (ok false)) next) in
    (
      l2,
      ap (λ r. go_on r (λ m at. timers_from fuel now program (now l.reads) at m)) round_ends,
      left,
      λ sorted.
          let s : IsSorted (update (spend t) ∷ u ∷ ts) = subst IsSorted left sorted in
          omega (arith, s.0.0),
    )
