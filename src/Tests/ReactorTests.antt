-- ===== src/Tests/ReactorTests.antt =====
-- A reactor with two sockets and a descriptor.
use zmqpp_pty.Base.{ℕ, true, [], ◌∷◌, none, some, Bool, ◌||◌, if◌then◌else◌, ◌≡◌, refl, ok, arith}
use zmqpp_pty.Poller
use zmqpp_pty.Poller.{PollItem, poll_in, polled}
use zmqpp_pty.Poller.Index.{Key, sock, file, find, key, view}
use zmqpp_pty.Loop.Firing.{logged}
use zmqpp_pty.Reactor.{Reactor, empty, add, remove_socket, remove_fd, poll, Program, removes_socket}
use zmqpp_pty.Reactor.Wellformed.{IsSound, Quietly, changes-IsSound}
use zmqpp_pty.Reactor.Readiness.{flagged_callables}
use zmqpp_pty.Loop.Removal.{without}
use zmqpp_pty.Reactor.Flushing.{put_off}
use zmqpp_pty.Reactor.Noting.{OnlyRemoves, asked, actions_of}
use zmqpp_pty.Reactor.Dispatch.{poll_dispatches}

abbrev item : ℕ → ℕ → PollItem
item s d = record { socket = s; fd = d; events = poll_in; revents = 0 }

abbrev one : Reactor
one = add empty (item 7 0) 70

abbrev two : Reactor
two = add one (item 9 0) 90

empty-IsSound : IsSound empty
empty-IsSound = record {
  indexed = record { slots = λ k i e. absurd (no_key k i e); listed = λ i x e. cc };
  held = tt;
  idle = refl;
}
  where
    no_key : (k : Key) (i : ℕ) → find Poller.empty k ≡ some i → ⊥
    no_key (sock s) i e = cc
    no_key (file d) i e = cc

two-IsSound : IsSound two
unfolding add Poller.add
two-IsSound =
    (changes-IsSound one (item 9 0) 90 0 0
      (changes-IsSound empty (item 7 0) 70 0 0 empty-IsSound refl).0 refl).0

changes-IsSound_example :
    IsSound (add two (item 0 3) 30)
    × Quietly two (remove_socket two 7)
    × Quietly two (remove_fd two 5)
unfolding add Poller.add
changes-IsSound_example = changes-IsSound two (item 0 3) 30 7 5 two-IsSound refl

-- Each callable removes both sockets.
abbrev rivals : Program
rivals calls c = (removes_socket 9 ∷ removes_socket 7 ∷ [], ok tt)

rivals-OnlyRemoves : OnlyRemoves rivals
rivals-OnlyRemoves calls c = ((refl, (refl, tt)), refl)

poll_dispatches_example :
    let after = (poll rivals (polled (1 ∷ 1 ∷ []) 2) two).0 in
    let p = (Poller.poll two.poller (polled (1 ∷ 1 ∷ []) 2)).0 in
    let called = flagged_callables p two.items in
    let gone : Key → Bool = λ k. put_off two k || asked (actions_of rivals two.calls called) k in
    ((poll rivals (polled (1 ∷ 1 ∷ []) 2) two).1 ≡ ok true)
    × (after.calls ≡ logged called two.calls)
    × (after.items ≡ without (λ e. gone (key e.item)) two.items)
    × ((k : Key) → view after.poller k ≡ (if gone k then none else view p k))
    × IsSound after
    × (after.fd_later ≡ [])
    × (after.socket_later ≡ [])
poll_dispatches_example =
    poll_dispatches rivals two (1 ∷ 1 ∷ []) 2 rivals-OnlyRemoves two-IsSound (omega arith)
