-- ===== src/Reactor.antt =====
-- zmqpp/reactor.hpp and reactor.cpp: a poller, the callables of its items, and the removals that are
-- put off while callables run. A callable is a number; what it does is the argument `program`: given
-- the callables called so far and its number, the calls of the reactor that it makes and then whether
-- it returns or throws. What `zmq_poll` answers is an argument too.
pub mod Wellformed
pub mod Readiness
pub mod Flushing
pub mod Noting
pub mod Dispatch
use zmqpp_pty.Base.{
  ℕ, Bool, true, false, ◌&&◌, ◌||◌, not, List, [], ◌∷◌, ◌++◌, length, ◌==◌, if◌then◌else◌, Result,
  ok, err, undefined,
}
use zmqpp_pty.Poller
use zmqpp_pty.Poller.{PollItem, Poller, Run, Answer}
use zmqpp_pty.Loop.{Entry, erase_if, is_socket, is_fd, followed_by, each}
use zmqpp_pty.Loop.Passes.{is_ready}

pub record Reactor : Type 0 where
  pub items : List Entry
  pub socket_later : List ℕ
  pub fd_later : List ℕ
  pub poller : Poller
  pub dispatching : Bool
  -- the callables called so far, the last one first
  pub calls : List ℕ

abbrev pub empty : Reactor
empty = record {
  items = [];
  socket_later = [];
  fd_later = [];
  poller = Poller.empty;
  dispatching = false;
  calls = [];
}

-- What a call leaves of a reactor, or of its poller.
abbrev pub Ran : Type 0 → Type 0
Ran A = Reactor × Result A

abbrev pub after_poller : {A : Type 0} → Reactor → Run A → Ran A
after_poller r (p, result) = (record r { poller = p }, result)

unfoldable pub add : Reactor → PollItem → ℕ → Reactor
add r item callable = record r {
  poller = Poller.add r.poller item;
  items = r.items ++ record { item = item; callable = callable } ∷ [];
}

unfoldable pub add_socket : Reactor → ℕ → ℕ → ℕ → Reactor
unfolding add
add_socket r socket callable event =
    add r (record { socket = socket; fd = 0; events = event; revents = 0 }) callable

unfoldable pub add_fd : Reactor → ℕ → ℕ → ℕ → Reactor
unfolding add
add_fd r descriptor callable event =
    add r (record { socket = 0; fd = descriptor; events = event; revents = 0 }) callable

unfoldable pub has_socket : Reactor → ℕ → Bool
has_socket r socket = Poller.has_socket r.poller socket

unfoldable pub has_fd : Reactor → ℕ → Bool
has_fd r descriptor = Poller.has_fd r.poller descriptor

unfoldable pub remove_socket : Reactor → ℕ → Ran (Unit {0})
unfolding erase_if
remove_socket r socket =
    if r.dispatching
    then (record r { socket_later = r.socket_later ++ socket ∷ [] }, ok tt)
    else after_poller (record r { items = erase_if (is_socket socket) r.items })
        (Poller.remove_socket r.poller socket)

unfoldable pub remove_fd : Reactor → ℕ → Ran (Unit {0})
unfolding erase_if
remove_fd r descriptor =
    if r.dispatching
    then (record r { fd_later = r.fd_later ++ descriptor ∷ [] }, ok tt)
    else after_poller (record r { items = erase_if (is_fd descriptor) r.items })
        (Poller.remove_fd r.poller descriptor)

unfoldable pub check_for_socket : Reactor → ℕ → ℕ → Ran (Unit {0})
check_for_socket r socket event = after_poller r (Poller.check_for_socket r.poller socket event)

unfoldable pub check_for_fd : Reactor → ℕ → ℕ → Ran (Unit {0})
check_for_fd r descriptor event = after_poller r (Poller.check_for_fd r.poller descriptor event)

unfoldable pub events_socket : Reactor → ℕ → Result ℕ
events_socket r socket = Poller.events_socket r.poller socket

unfoldable pub events_fd : Reactor → ℕ → Result ℕ
events_fd r descriptor = Poller.events_fd r.poller descriptor

-- `flush_remove_later`, which `poll` calls outside of a dispatch.
unfoldable pub flush_remove_later : Reactor → Ran (Unit {0})
unfolding each remove_fd remove_socket
flush_remove_later r = followed_by (each remove_fd r.fd_later r) (λ fds.
    followed_by (each remove_socket r.socket_later fds)
      (λ sockets. (record sockets { fd_later = []; socket_later = [] }, ok tt)))

-- The calls that a callable can make of its reactor.
pub data Action : Type 0 where
  adds_item : PollItem → ℕ → Action
  removes_socket removes_fd : ℕ → Action
  checks_socket checks_fd : ℕ → ℕ → Action

abbrev pub Program : Type 0
Program = List ℕ → ℕ → List Action × Result (Unit {0})

-- A callable runs while `items_` is traversed: an item added to the vector leaves the traversal's
-- iterators invalid.
unfoldable pub perform : Action → Reactor → Ran (Unit {0})
unfolding add remove_socket remove_fd check_for_socket check_for_fd
perform (adds_item item callable) r = (add r item callable, err undefined)
perform (removes_socket s) r = remove_socket r s
perform (removes_fd d) r = remove_fd r d
perform (checks_socket s e) r = check_for_socket r s e
perform (checks_fd d e) r = check_for_fd r d e

unfoldable pub perform_all : List Action → Reactor → Ran (Unit {0})
unfolding perform
perform_all [] r = (r, ok tt)
perform_all (a ∷ more) r = followed_by (perform a r) (λ r'. perform_all more r')

unfoldable pub call : Program → ℕ → Reactor → Ran (Unit {0})
unfolding perform_all
call program callable r =
    followed_by (perform_all (program r.calls callable).0 (record r { calls = callable ∷ r.calls }))
      (λ r'. (r', (program r.calls callable).1))

abbrev pub call_if : Program → ℕ → Reactor → Result Bool → Ran (Unit {0})
call_if program callable r (ok true) = call program callable r
call_if program callable r (ok false) = (r, ok tt)
call_if program callable r (err e) = (r, err e)

unfoldable pub items_from : Program → List Entry → Reactor → Ran (Unit {0})
unfolding call is_ready
items_from program [] r = (r, ok tt)
items_from program (e ∷ es) r =
    followed_by (call_if program e.callable r (is_ready r.poller e.item))
      (λ r'. items_from program es r')

abbrev pub giving_true : Ran (Unit {0}) → Ran Bool
giving_true (r, ok u) = (r, ok true)
giving_true (r, err e) = (r, err e)

-- `poll` after `poller_.poll(timeout)`.
unfoldable pub after_poll : Program → Ran Bool → Ran Bool
unfolding items_from flush_remove_later
after_poll program (r, err e) = (r, err e)
after_poll program (r, ok false) = (r, ok false)
after_poll program (r, ok true) = giving_true (
    followed_by (items_from program r.items (record r { dispatching = true }))
      (λ r'. flush_remove_later (record r' { dispatching = false })))

unfoldable pub poll : Program → Answer → Reactor → Ran Bool
unfolding after_poll
poll program answer r = after_poll program (after_poller r (Poller.poll r.poller answer))
