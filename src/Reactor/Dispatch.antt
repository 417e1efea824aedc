-- ===== src/Reactor/Dispatch.antt =====
-- What `poll` calls, and what it leaves.
use mathlib.Core.Path.{subst}
use zmqpp_pty.Base.{
  ℕ, ◌<◌, ◌≡◌, refl, sym, ap, ◌∙◌, Bool, true, false, List, [], ◌||◌, ok, err, arith, none,
  if◌then◌else◌,
}
use zmqpp_pty.Poller
use zmqpp_pty.Poller.{PollItem, Poller, polled, events, flagged, poll_in, poll_out, poll_error}
use zmqpp_pty.Poller.Index.{Key, key, IsIndexed, view}
use zmqpp_pty.Poller.Updates.{poll-keeps}
use zmqpp_pty.Loop.Firing.{logged}
use zmqpp_pty.Reactor.{
  Reactor, Ran, Program, items_from, poll, flush_remove_later, giving_true, after_poll,
}
use zmqpp_pty.Reactor.Wellformed.{IsSound, AllHeld, AllHeld-keeps, followed_ok, flush-Quietly}
use zmqpp_pty.Loop.Removal.{without, without-same}
use zmqpp_pty.Reactor.Flushing.{put_off, flush-Took}
use zmqpp_pty.Reactor.Readiness.{flagged_callables}
use zmqpp_pty.Reactor.Noting.{OnlyRemoves, asked, actions_of, items_from-Noted}

answered : (p : Poller) (rs : List ℕ) (n : ℕ) → 0 < n → (Poller.poll p (polled rs n)).1 ≡ ok true
unfolding Poller.poll
answered p rs n h = ground arith

giving_ok : (ran : Ran (Unit {0})) → ran.1 ≡ ok tt → giving_true ran ≡ (ran.0, ok true)
giving_ok (r, ok u) h = refl
giving_ok (r, err e) h = cc

-- On a sound reactor whose callables return and do nothing to it but remove sockets and descriptors,
-- when `zmq_poll` returned that some items had events, `poll` returns `true`. It has called the
-- callable of each item with input, output or error events, once for each item and in the order of
-- the items, whatever was removed on the way, and no other. The sockets and descriptors that these
-- calls removed, or whose removal was put off before, are gone from the items and from the poller;
-- all other items stay in order, and are in the poller as after `zmq_poll`. No removal is left to do,
-- and the reactor is sound.
pub poll_dispatches :
    (program : Program) (r : Reactor) (rs : List ℕ) (n : ℕ)
    → OnlyRemoves program
    → IsSound r
    → 0 < n
    → let after = (poll program (polled rs n) r).0 in
      let p = (Poller.poll r.poller (polled rs n)).0 in
      let called = flagged_callables p r.items in
      let gone : Key → Bool = λ k. put_off r k || asked (actions_of program r.calls called) k in
      ((poll program (polled rs n) r).1 ≡ ok true)
      × (after.calls ≡ logged called r.calls)
      × (after.items ≡ without (λ e. gone (key e.item)) r.items)
      × ((k : Key) → view after.poller k ≡ (if gone k then none else view p k))
      × IsSound after
      × (after.fd_later ≡ [])
      × (after.socket_later ≡ [])
unfolding poll after_poll
poll_dispatches program r rs n q i some_events =
    let p = (Poller.poll r.poller (polled rs n)).0 in
    let (ix, keep) = poll-keeps r.poller rs n i.indexed in
    let held = AllHeld-keeps r.poller p r.items keep i.held in
    let start = record r { poller = p; dispatching = true } in
    let pass = items_from-Noted program r.items start q refl ix held in
    let middle = record (items_from program r.items start).0 { dispatching = false } in
    let sound : IsSound middle = record {
      indexed = subst IsIndexed (sym pass.poller_kept) ix;
      held =
          subst (AllHeld middle.poller) (sym pass.items_kept)
            (subst (λ o. AllHeld o r.items) (sym pass.poller_kept) held);
      idle = refl;
    } in
    let flushed = flush-Quietly middle sound in
    let took = flush-Took middle sound in
    let actions = actions_of program r.calls (flagged_callables p r.items) in
    let run : poll program (polled rs n) r ≡ ((flush_remove_later middle).0, ok true) =
      ap (λ b. after_poll program (record r { poller = p }, b)) (answered r.poller rs n some_events)
      ∙ ap giving_true (followed_ok (items_from program r.items start) _ pass.returned)
      ∙ giving_ok (flush_remove_later middle) flushed.0.0 in
    rw run (
      refl,
      flushed.0.2 ∙ pass.called,
      took.items
          ∙ without-same _ _ middle.items (λ e. pass.noted (key e.item))
          ∙ ap (without _) pass.items_kept,
      λ k.
          took.views k
          ∙ ap (λ b. if b then none else view middle.poller k) (pass.noted k)
          ∙ ap (λ o. if put_off r k || asked actions k then none else view o k) pass.poller_kept,
      flushed.0.1,
      flushed.1,
      flushed.2,
    )
