-- ===== src/Reactor/Noting.antt =====
-- What callables do during a dispatch that only remove sockets and descriptors.
use mathlib.Core.Path.{subst}
use zmqpp_pty.Base.{
  ℕ, ◌≡◌, refl, sym, ap, ◌∙◌, Bool, true, false, List, [], ◌∷◌, ◌++◌, ◌||◌, Bool-cases, inl, inr,
  ok, arith,
}
use zmqpp_pty.Poller.Index.{Key, sock, file, same, key, IsIndexed, view}
use zmqpp_pty.Loop.{Entry, followed_by}
use zmqpp_pty.Loop.Firing.{logged}
use zmqpp_pty.Reactor.{
  Reactor, Ran, Action, adds_item, removes_socket, removes_fd, checks_socket, checks_fd, Program,
  perform, perform_all, call, items_from,
}
use zmqpp_pty.Reactor.Wellformed.{AllHeld, followed_ok}
use zmqpp_pty.Loop.Removal.{any_of}
use zmqpp_pty.Reactor.Flushing.{put_off}
use zmqpp_pty.Reactor.Readiness.{is_flagged, revents_at, flagged_callables, is_ready-flags}

-- A callable that only removes sockets and descriptors, and does not throw.
abbrev pub is_removal : Action → Bool
is_removal (removes_socket s) = true
is_removal (removes_fd d) = true
is_removal _ = false

abbrev pub AreRemovals : List Action → Type 0
AreRemovals [] = Unit
AreRemovals (a ∷ more) = (is_removal a ≡ true) × AreRemovals more

abbrev pub OnlyRemoves : Program → Type 0
OnlyRemoves program =
    (calls : List ℕ) (c : ℕ) → AreRemovals (program calls c).0 × ((program calls c).1 ≡ ok tt)

-- The keys that actions ask to remove, and the actions of callables that are called in turn.
abbrev pub asks : Action → Key → Bool
asks (removes_socket s) k = same k (sock s)
asks (removes_fd d) k = same k (file d)
asks _ k = false

unfoldable pub asked : List Action → Key → Bool
asked [] k = false
asked (a ∷ more) k = asks a k || asked more k

unfoldable pub actions_of : Program → List ℕ → List ℕ → List Action
actions_of program calls [] = []
actions_of program calls (c ∷ cs) = (program calls c).0 ++ actions_of program (c ∷ calls) cs

asked-append : (xs ys : List Action) (k : Key) → asked (xs ++ ys) k ≡ (asked xs k || asked ys k)
unfolding asked
asked-append [] ys k = refl
asked-append (x ∷ xs) ys k =
    ap (λ b. asks x k || b) (asked-append xs ys k) ∙ or_assoc (asks x k) (asked xs k) (asked ys k)
  where
    or_assoc : (a b c : Bool) → (a || (b || c)) ≡ ((a || b) || c)
    or_assoc true b c = refl
    or_assoc false b c = refl

any_of-append :
    (t : ℕ → Bool) (xs : List ℕ) (x : ℕ) → any_of t (xs ++ x ∷ []) ≡ (any_of t xs || t x)
unfolding any_of
any_of-append t [] x = ground arith
any_of-append t (y ∷ xs) x = rw (any_of-append t xs x) (ground arith)

-- A call that returned during a dispatch: removals are only noted.
pub record Noted (r : Reactor) (calls : List ℕ) (actions : List Action) (ran : Ran (Unit {0}))
    : Type 0 where
  pub returned : ran.1 ≡ ok tt
  pub poller_kept : ran.0.poller ≡ r.poller
  pub items_kept : ran.0.items ≡ r.items
  pub busy : ran.0.dispatching ≡ true
  pub called : ran.0.calls ≡ calls
  pub noted : (k : Key) → put_off ran.0 k ≡ (put_off r k || asked actions k)

Noted-then :
    (r : Reactor) (calls later : List ℕ) (xs ys : List Action) (ran : Ran (Unit {0}))
    → (next : Reactor → Ran (Unit {0})) → Noted r calls xs ran
    → Noted ran.0 later ys (next ran.0)
    → Noted r later (xs ++ ys) (followed_by ran next)
Noted-then r calls later xs ys ran next a b = rw (followed_ok ran next a.returned) (record {
  returned = b.returned;
  poller_kept = b.poller_kept ∙ a.poller_kept;
  items_kept = b.items_kept ∙ a.items_kept;
  busy = b.busy;
  called = b.called;
  noted = λ k. b.noted k ∙ rw (a.noted k, asked-append xs ys k) (ground arith);
})

perform-Noted :
    (a : Action) (r : Reactor)
    → r.dispatching ≡ true
    → is_removal a ≡ true
    → Noted r r.calls (a ∷ []) (perform a r)
unfolding perform asked
perform-Noted (removes_socket s) r d q = rw d (record {
  returned = refl;
  poller_kept = refl;
  items_kept = refl;
  busy = refl;
  called = refl;
  noted = λ k. rw (any_of-append (λ x. same k (sock x)) r.socket_later s) (ground arith);
})
perform-Noted (removes_fd d') r d q = rw d (record {
  returned = refl;
  poller_kept = refl;
  items_kept = refl;
  busy = refl;
  called = refl;
  noted = λ k. rw (any_of-append (λ x. same k (file x)) r.fd_later d') (ground arith);
})
perform-Noted (adds_item item c) r d q = cc
perform-Noted (checks_socket s e) r d q = cc
perform-Noted (checks_fd s e) r d q = cc

nothing-Noted : (r : Reactor) → r.dispatching ≡ true → Noted r r.calls [] (r, ok tt)
unfolding asked
nothing-Noted r d = record {
  returned = refl;
  poller_kept = refl;
  items_kept = refl;
  busy = d;
  called = refl;
  noted = λ k. ground arith;
}

perform_all-Noted :
    (actions : List Action) (r : Reactor)
    → r.dispatching ≡ true
    → AreRemovals actions
    → Noted r r.calls actions (perform_all actions r)
unfolding perform_all
perform_all-Noted [] r d q = nothing-Noted r d
perform_all-Noted (a ∷ more) r d q =
    let one = perform-Noted a r d q.0 in
    let rest = perform_all-Noted more (perform a r).0 one.busy q.1 in
    Noted-then r r.calls r.calls (a ∷ []) more (perform a r) _ one (record {
      returned = rest.returned;
      poller_kept = rest.poller_kept;
      items_kept = rest.items_kept;
      busy = rest.busy;
      called = rest.called ∙ one.called;
      noted = rest.noted;
    })

call-Noted :
    (program : Program) (c : ℕ) (r : Reactor)
    → OnlyRemoves program
    → r.dispatching ≡ true
    → Noted r (c ∷ r.calls) (program r.calls c).0 (call program c r)
unfolding call
call-Noted program c r q d =
    let noted =
      perform_all-Noted (program r.calls c).0 (record r { calls = c ∷ r.calls }) d
        (q r.calls c).0 in
    rw
      (followed_ok (perform_all (program r.calls c).0 (record r { calls = c ∷ r.calls }))
        (λ r'. (r', (program r.calls c).1)) noted.returned)
      (record {
        returned = (q r.calls c).1;
        poller_kept = noted.poller_kept;
        items_kept = noted.items_kept;
        busy = noted.busy;
        called = noted.called;
        noted = noted.noted;
      })

pub items_from-Noted :
    (program : Program) (es : List Entry) (r : Reactor)
    → OnlyRemoves program
    → r.dispatching ≡ true
    → IsIndexed r.poller
    → AllHeld r.poller es
    → Noted r
        (logged (flagged_callables r.poller es) r.calls)
        (actions_of program r.calls (flagged_callables r.poller es))
        (items_from program es r)
unfolding items_from flagged_callables actions_of
items_from-Noted program [] r q d ix a = nothing-Noted r d
items_from-Noted program (e ∷ es) r q d ix a =
    rw (is_ready-flags r.poller e.item ix a.0)
      (elim (Bool-cases (is_flagged (revents_at (view r.poller (key e.item))))) [
        | inl ready ↦
            let one = call-Noted program e.callable r q d in
            let after = (call program e.callable r).0 in
            let rest =
              items_from-Noted program es after q one.busy
                (subst IsIndexed (sym one.poller_kept) ix)
                (subst (λ p. AllHeld p es) (sym one.poller_kept) a.1) in
            let flagged : flagged_callables after.poller es ≡ flagged_callables r.poller es =
              ap (λ p. flagged_callables p es) one.poller_kept in
            rw ready (
              Noted-then r (e.callable ∷ r.calls) _ _ _ (call program e.callable r) _ one (record {
                returned = rest.returned;
                poller_kept = rest.poller_kept;
                items_kept = rest.items_kept;
                busy = rest.busy;
                called =
                    rest.called
                    ∙ ap (λ cs. logged cs after.calls) flagged
                    ∙ ap (logged (flagged_callables r.poller es)) one.called;
                noted = λ k.
                    rest.noted k
                    ∙ ap (λ cs. put_off after k || asked (actions_of program after.calls cs) k)
                        flagged
                    ∙ ap
                        (λ cs.
                          put_off after k
                          || asked (actions_of program cs (flagged_callables r.poller es)) k)
                        one.called;
              }))
        | inr idle ↦ rw idle (items_from-Noted program es r q d ix a.1)
      ])
