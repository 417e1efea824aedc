-- ===== src/Loop.antt =====
-- zmqpp/loop.hpp and loop.cpp: the event loop's items and timers, and the removals that it puts off.
-- Time is counted in the nanoseconds of the steady clock, whose readings are an argument. A timer's
-- id is its address, which the allocator chooses: an argument of `add_timer`. A timer and its
-- callable are one record, and a callable is a number.
pub mod Timers
pub mod Passes
pub mod Sorting
pub mod Nodes
pub mod Firing
pub mod Serving
pub mod Settled
pub mod Returning
pub mod Deferral
pub mod Stopping
pub mod Removal
use zmqpp_pty.Base.{
  ℕ, zero, suc, ◌+◌, ◌-◌, ◌*◌, ◌/◌, Bool, true, false, ◌&&◌, List, [], ◌∷◌, ◌++◌, Option, none,
  some, ltb, ◌==◌, if◌then◌else◌, Result, ok, err, undefined, length, not,
}
use zmqpp_pty.Poller
use zmqpp_pty.Poller.{PollItem, Poller, Run}
use Timers.{Timer, sort, reset_timer, erase_timer, find_timer, modify}

-- A descriptor or socket, and its callable.
pub record Entry : Type 0 where
  pub item : PollItem
  pub callable : ℕ

pub record Loop : Type 0 where
  pub items : List Entry
  pub timers : List Timer
  pub socket_later : List ℕ
  pub fd_later : List ℕ
  pub timer_later : List ℕ
  pub poller : Poller
  pub dispatching : Bool
  pub rebuild : Bool
  -- how often the clock was read, and the callables called so far, the last one first
  pub reads : ℕ
  pub calls : List ℕ

abbrev pub Clock : Type 0
Clock = ℕ → ℕ

abbrev pub empty : Loop
empty = record {
  items = [];
  timers = [];
  socket_later = [];
  fd_later = [];
  timer_later = [];
  poller = Poller.empty;
  dispatching = false;
  rebuild = false;
  reads = 0;
  calls = [];
}

-- Milliseconds in nanoseconds, and an hour.
abbrev pub ms : ℕ → ℕ
ms n = n * 1000000

abbrev pub hour : ℕ
hour = ms 3600000

-- `steady_clock::now()`.
abbrev pub tick : Loop → Loop
tick l = record l { reads = l.reads + 1 }

unfoldable pub add_item : Loop → PollItem → ℕ → Loop
add_item l item callable = record l {
  poller = Poller.add l.poller item;
  rebuild = true;
  items = l.items ++ record { item = item; callable = callable } ∷ [];
}

unfoldable pub add_socket : Loop → ℕ → ℕ → ℕ → Loop
unfolding add_item
add_socket l socket callable event =
    add_item l (record { socket = socket; fd = 0; events = event; revents = 0 }) callable

unfoldable pub add_fd : Loop → ℕ → ℕ → ℕ → Loop
unfolding add_item
add_fd l descriptor callable event =
    add_item l (record { socket = 0; fd = descriptor; events = event; revents = 0 }) callable

-- `add(delay, times, callable)` with the address of the new timer.
unfoldable pub add_timer : Clock → Loop → ℕ → ℕ → ℕ → ℕ → Loop
unfolding sort
add_timer now l id delay times callable = tick (record l {
  timers = sort (
      l.timers
      ++ record {
        id = id;
        times = times;
        delay = ms delay;
        when = now l.reads + ms delay;
        callable = callable;
      }
        ∷ []);
})

-- The clock is read only if the timer is there.
unfoldable pub reset : Clock → Loop → ℕ → Loop
unfolding sort find_timer modify reset_timer
reset now l id = elim (find_timer id l.timers) [
  | none ↦ l
  | some t ↦ tick (record l { timers = sort (modify id (reset_timer (now l.reads)) l.timers) })
]

unfoldable pub remove_timer : Loop → ℕ → Loop
unfolding erase_timer
remove_timer l id =
    if l.dispatching
    then record l { timer_later = l.timer_later ++ id ∷ [] }
    else record l { timers = erase_timer id l.timers }

-- `items_.erase(std::remove_if(…), items_.end())`, for a socket and for a descriptor.
abbrev pub is_socket : ℕ → PollItem → Bool
is_socket s item = if item.socket == 0 then false else item.socket == s

abbrev pub is_fd : ℕ → PollItem → Bool
is_fd d item = if item.socket == 0 then item.fd == d else false

unfoldable pub erase_if : (PollItem → Bool) → List Entry → List Entry
erase_if t [] = []
erase_if t (e ∷ es) = if t e.item then erase_if t es else e ∷ erase_if t es

-- The loop with the poller that a call left.
abbrev pub after_poller : Loop → Run (Unit {0}) → Loop × Result (Unit {0})
after_poller l r = (record l { poller = r.0 }, r.1)

unfoldable pub remove_socket : Loop → ℕ → Loop × Result (Unit {0})
unfolding erase_if
remove_socket l socket =
    if l.dispatching
    then (record l { rebuild = true; socket_later = l.socket_later ++ socket ∷ [] }, ok tt)
    else after_poller (record l { items = erase_if (is_socket socket) l.items })
        (Poller.remove_socket l.poller socket)

unfoldable pub remove_fd : Loop → ℕ → Loop × Result (Unit {0})
unfolding erase_if
remove_fd l descriptor =
    if l.dispatching
    then (record l { rebuild = true; fd_later = l.fd_later ++ descriptor ∷ [] }, ok tt)
    else after_poller (record l { items = erase_if (is_fd descriptor) l.items })
        (Poller.remove_fd l.poller descriptor)

-- A statement and what follows it, unless it throws.
abbrev pub followed_by :
    {S : Type 0} → S × Result (Unit {0}) → (S → S × Result (Unit {0})) → S × Result (Unit {0})
followed_by (l, ok u) next = next l
followed_by (l, err e) next = (l, err e)

unfoldable pub each :
    {S : Type 0} → (S → ℕ → S × Result (Unit {0})) → List ℕ → S → S × Result (Unit {0})
each f [] s = (s, ok tt)
each f (x ∷ xs) s = followed_by (f s x) (λ s'. each f xs s')

unfoldable pub each_timer : List ℕ → Loop → Loop
unfolding remove_timer
each_timer [] l = l
each_timer (id ∷ ids) l = each_timer ids (remove_timer l id)

unfoldable pub is_nothing_later : Loop → Bool
is_nothing_later l =
    (length l.fd_later == 0) && (length l.socket_later == 0) && (length l.timer_later == 0)

-- The removals that were put off, outside of a dispatch.
unfoldable pub remove_later : Loop → Loop × Result (Unit {0})
unfolding each each_timer remove_fd remove_socket
remove_later l = followed_by (each remove_fd l.fd_later l) (λ fds.
    followed_by (each remove_socket l.socket_later fds) (λ sockets. (
      record (each_timer l.timer_later sockets) {
        fd_later = [];
        socket_later = [];
        timer_later = [];
      },
      ok tt,
    )))

-- While the loop dispatches, `remove` would append to the vector that is traversed.
unfoldable pub flush_remove_later : Loop → Loop × Result (Unit {0})
unfolding is_nothing_later remove_later
flush_remove_later l =
    if l.dispatching && not (is_nothing_later l) then (l, err undefined) else remove_later l

-- `tickless()`: the milliseconds to poll for, at most an hour; the clock is read twice.
unfoldable pub tick_at : List Timer → ℕ → ℕ
tick_at [] at = at
tick_at (t ∷ ts) at = if ltb t.when at then t.when else at

unfoldable pub tickless : Clock → Loop → Loop × ℕ
unfolding tick_at
tickless now l =
    let at = tick_at l.timers (now l.reads + hour) in
    (tick (tick l), (at - now (l.reads + 1)) / 1000000)
