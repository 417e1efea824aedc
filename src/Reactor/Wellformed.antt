-- ===== src/Reactor/Wellformed.antt =====
-- The items of a reactor and its poller: every item stays registered.
use zmqpp_pty.Base.{
  ℕ, ◌≡◌, refl, ◌∙◌, Bool, false, List, [], ◌∷◌, ◌++◌, none, some, if◌then◌else◌, Bool-cases, inl,
  inr, Result, ok, err, arith,
}
use zmqpp_pty.Poller
use zmqpp_pty.Poller.{PollItem, Poller}
use zmqpp_pty.Poller.Index.{Key, sock, file, same, same_refl, key, find, IsIndexed, view}
use zmqpp_pty.Poller.Operations.{add-IsIndexed}
use zmqpp_pty.Poller.Remove.{remove-Removed}
use zmqpp_pty.Loop.{Entry, erase_if, is_socket, is_fd, followed_by, each}
use zmqpp_pty.Reactor.{Reactor, Ran, add, remove_socket, remove_fd, flush_remove_later}

-- The poller holds an item under the key of each entry.
abbrev pub Holds : Poller → Key → Type 0
Holds p k = (x : PollItem) × (view p k ≡ some x)

abbrev pub AllHeld : Poller → List Entry → Type 0
AllHeld p [] = Unit
AllHeld p (e ∷ es) = Holds p (key e.item) × AllHeld p es

-- A reactor outside of a dispatch, whose items are those of its poller.
pub record IsSound (r : Reactor) : Type 0 where
  pub indexed : IsIndexed r.poller
  pub held : AllHeld r.poller r.items
  pub idle : r.dispatching ≡ false

pub AllHeld-keeps :
    (p q : Poller) (es : List Entry)
    → ((k : Key) (x : PollItem) → view p k ≡ some x → Holds q k)
    → AllHeld p es
    → AllHeld q es
AllHeld-keeps p q [] h a = tt
AllHeld-keeps p q (e ∷ es) h a = (h (key e.item) a.0.0 a.0.1, AllHeld-keeps p q es h a.1)

AllHeld-erase :
    (p q : Poller) (test : PollItem → Bool) (k : Key) (es : List Entry)
    → ((item : PollItem) → test item ≡ false → same (key item) k ≡ false)
    → ((j : Key) → view q j ≡ (if same j k then none else view p j))
    → AllHeld p es
    → AllHeld q (erase_if test es)
unfolding erase_if
AllHeld-erase p q test k [] other v a = tt
AllHeld-erase p q test k (e ∷ es) other v a =
    let rest = AllHeld-erase p q test k es other v a.1 in
    elim (Bool-cases (test e.item)) [
      | inl gone ↦ rw gone rest
      | inr stays ↦
          let still : view q (key e.item) ≡ view p (key e.item) =
            v (key e.item) ∙ rw (other e.item stays) refl in
          rw stays ((a.0.0, still ∙ a.0.1), rest)
    ]

AllHeld-append :
    (p : Poller) (es : List Entry) (e : Entry)
    → AllHeld p es
    → Holds p (key e.item)
    → AllHeld p (es ++ e ∷ [])
AllHeld-append p [] e a h = (h, tt)
AllHeld-append p (x ∷ es) e a h = (a.0, AllHeld-append p es e a.1 h)

other_socket :
    (s : ℕ) (item : PollItem) → is_socket s item ≡ false → same (key item) (sock s) ≡ false
other_socket s item h = ground arith

other_fd : (d : ℕ) (item : PollItem) → is_fd d item ≡ false → same (key item) (file d) ≡ false
other_fd d item h = ground arith

-- A call that returned, left the reactor sound and called nothing.
abbrev pub Quietly : Reactor → Ran (Unit {0}) → Type 0
Quietly r ran = (ran.1 ≡ ok tt) × IsSound ran.0 × (ran.0.calls ≡ r.calls)

pub remove_socket-IsSound : (r : Reactor) (s : ℕ) → IsSound r → Quietly r (remove_socket r s)
unfolding remove_socket
remove_socket-IsSound r s i =
    let gone = remove-Removed r.poller (sock s) i.indexed in
    rw (i.idle) (
      gone.returned,
      record {
        indexed = gone.indexed;
        held =
            AllHeld-erase r.poller _ (is_socket s) (sock s) r.items (other_socket s) gone.reads
              i.held;
        idle = refl;
      },
      refl,
    )

pub remove_fd-IsSound : (r : Reactor) (d : ℕ) → IsSound r → Quietly r (remove_fd r d)
unfolding remove_fd
remove_fd-IsSound r d i =
    let gone = remove-Removed r.poller (file d) i.indexed in
    rw (i.idle) (
      gone.returned,
      record {
        indexed = gone.indexed;
        held = AllHeld-erase r.poller _ (is_fd d) (file d) r.items (other_fd d) gone.reads i.held;
        idle = refl;
      },
      refl,
    )

pub followed_ok :
    {S : Type 0}
    → (r : S × Result (Unit {0})) (next : S → S × Result (Unit {0})) → r.1 ≡ ok tt
    → followed_by r next ≡ next r.0
followed_ok (l, ok u) next h = refl
followed_ok (l, err e) next h = cc

pub each-Quietly :
    (f : Reactor → ℕ → Ran (Unit {0}))
    → ((r : Reactor) (x : ℕ) → IsSound r → Quietly r (f r x))
    → (xs : List ℕ) (r : Reactor) → IsSound r
    → Quietly r (each f xs r)
unfolding each
each-Quietly f quiet [] r i = (refl, i, refl)
each-Quietly f quiet (x ∷ xs) r i =
    let one = quiet r x i in
    let rest = each-Quietly f quiet xs (f r x).0 one.1 in
    rw (followed_ok (f r x) (λ r'. each f xs r') one.0) (rest.0, rest.1, rest.2 ∙ one.2)

-- Adding an item whose key is not registered, and removing a socket or a descriptor, keep the
-- reactor sound outside of a dispatch: the poller's index is sound and it holds every item of the
-- reactor. The removals return without an exception.
pub changes-IsSound :
    (r : Reactor) (item : PollItem) (callable s d : ℕ)
    → IsSound r
    → find r.poller (key item) ≡ none
    → IsSound (add r item callable) × Quietly r (remove_socket r s) × Quietly r (remove_fd r d)
unfolding add
changes-IsSound r item callable s d i absent =
    let (indexed, reads) = add-IsIndexed r.poller item i.indexed absent in
    let here : view (Poller.add r.poller item) (key item) ≡ some item =
      reads (key item) ∙ rw (same_refl (key item)) refl in
    (
      record {
        indexed = indexed;
        held =
            AllHeld-append _ r.items _
              (AllHeld-keeps r.poller _ r.items
                (λ k x v. elim (Bool-cases (same k (key item))) [
                  | inl m ↦ (item, reads k ∙ rw m refl)
                  | inr o ↦ (x, reads k ∙ rw o v)
                ])
                i.held)
              (item, here);
        idle = i.idle;
      },
      remove_socket-IsSound r s i,
      remove_fd-IsSound r d i,
    )

-- The removals that were put off are done, and none is left.
pub flush-Quietly :
    (r : Reactor)
    → IsSound r
    → Quietly r (flush_remove_later r)
      × ((flush_remove_later r).0.fd_later ≡ [])
      × ((flush_remove_later r).0.socket_later ≡ [])
unfolding flush_remove_later
flush-Quietly r i =
    let fds = each-Quietly remove_fd remove_fd-IsSound r.fd_later r i in
    let after = (each remove_fd r.fd_later r).0 in
    let sockets = each-Quietly remove_socket remove_socket-IsSound r.socket_later after fds.1 in
    rw
      (
        followed_ok (each remove_fd r.fd_later r) _ fds.0,
        followed_ok (each remove_socket r.socket_later after) _ sockets.0,
      )
      (
        (
          refl,
          record { indexed = sockets.1.indexed; held = sockets.1.held; idle = sockets.1.idle },
          sockets.2 ∙ fds.2,
        ),
        refl,
        refl,
      )
