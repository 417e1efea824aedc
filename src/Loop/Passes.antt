-- ===== src/Loop/Passes.antt =====
-- `start` and the two passes of the loop. What a callable does is an argument, `program`: given the
-- callables called so far and its number, the calls of the loop that it makes and then the value that
-- it returns or the exception that it throws. What `zmq_poll` answers, call after call, is an argument too.
use zmqpp_pty.Base.{
  ℕ, zero, suc, ◌-◌, Bool, true, false, ◌||◌, List, [], ◌∷◌, Option, none, some, ltb, ◌==◌,
  if◌then◌else◌, Result, ok, err, Error, undefined,
}
use zmqpp_pty.Poller
use zmqpp_pty.Poller.{PollItem, Poller, Run, Answer, poll}
use zmqpp_pty.Loop.{
  Loop, Entry, Clock, tick, tickless, flush_remove_later, followed_by, add_item, add_timer, reset,
  remove_timer, remove_socket, remove_fd,
}
use zmqpp_pty.Loop.Timers.{Timer, sort, update, find_timer, modify, erase_timer, first_id, next_id}

-- The calls that a callable can make of the loop it runs in.
pub data Action : Type 0 where
  adds_item : PollItem → ℕ → Action
  adds_timer : ℕ → ℕ → ℕ → ℕ → Action
  resets removes_timer removes_socket removes_fd : ℕ → Action

abbrev pub Program : Type 0
Program = List ℕ → ℕ → List Action × Result Bool

unfoldable pub perform : Clock → Action → Loop → Loop × Result (Unit {0})
unfolding add_item add_timer reset remove_timer remove_socket remove_fd
perform now (adds_item item callable) l = (add_item l item callable, ok tt)
perform now (adds_timer id delay times callable) l =
    (add_timer now l id delay times callable, ok tt)
perform now (resets id) l = (reset now l id, ok tt)
perform now (removes_timer id) l = (remove_timer l id, ok tt)
perform now (removes_socket s) l = remove_socket l s
perform now (removes_fd d) l = remove_fd l d

unfoldable pub perform_all : Clock → List Action → Loop → Loop × Result (Unit {0})
unfolding perform
perform_all now [] l = (l, ok tt)
perform_all now (a ∷ more) l = followed_by (perform now a l) (λ l'. perform_all now more l')

abbrev pub returning : Loop × Result (Unit {0}) → Result Bool → Loop × Result Bool
returning (l, ok u) b = (l, b)
returning (l, err e) b = (l, err e)

-- A call of a callable: the loop it leaves, and what it returns.
unfoldable pub call : Clock → Program → ℕ → Loop → Loop × Result Bool
unfolding perform_all
call now program callable l =
    returning
      (perform_all now (program l.calls callable).0 (record l { calls = callable ∷ l.calls }))
      (program l.calls callable).1

-- `if(times && --times == 0)`: the timer has run as often as it should.
abbrev pub is_last : Timer → Bool
is_last t = t.times == 1

abbrev pub spend : Timer → Timer
spend t = record t { times = t.times - 1 }

-- The state after the callable of the timer at `id` returned, and the iterator moved on.
unfoldable pub after_call : ℕ → Loop → Loop × Option ℕ
unfolding find_timer modify erase_timer next_id update
after_call id l = elim (find_timer id l.timers) [
  | none ↦ (l, none)
  | some t ↦ (
    if is_last t
        then record l { timers = erase_timer id l.timers }
        else record l { timers = modify id (λ t. update (spend t)) l.timers },
    next_id id l.timers,
  )
]

-- One round of the loop over the timers: it ends, or goes on at the next node.
pub data Round : Type 0 where
  finished : Loop → Result Bool → Round
  moved : Loop → Option ℕ → Round

-- `timers_.sort(…)`, and the end of the pass.
abbrev pub sorted : Loop → Round
sorted l = finished (record l { timers = sort l.timers }) (ok true)

abbrev pub on_return : ℕ → Loop × Result Bool → Round
on_return id (l, err e) = finished l (err e)
on_return id (l, ok true) = moved (after_call id l).0 (after_call id l).1
on_return id (l, ok false) = finished (after_call id l).0 (ok false)

unfoldable pub at_timer : Clock → Program → ℕ → Option Timer → Loop → Round
unfolding call after_call sort
at_timer now program time_now none l = finished l (err undefined)
at_timer now program time_now (some t) l =
    if ltb t.when time_now then on_return t.id (call now program t.callable l) else sorted l

unfoldable pub round : Clock → Program → ℕ → Option ℕ → Loop → Round
unfolding at_timer find_timer sort
round now program time_now none l = sorted l
round now program time_now (some id) l = at_timer now program time_now (find_timer id l.timers) l

abbrev pub go_on :
    Round → (Loop → Option ℕ → Option (Loop × Result Bool)) → Option (Loop × Result Bool)
go_on (finished l r) next = some (l, r)
go_on (moved l at) next = next l at

-- The loop from the iterator on; `none` means that the fuel ran out.
unfoldable pub timers_from : ℕ → Clock → Program → ℕ → Option ℕ → Loop → Option (Loop × Result Bool)
unfolding round
timers_from zero now program time_now at l = none
timers_from (suc fuel) now program time_now at l =
    go_on (round now program time_now at l) (λ l' at'. timers_from fuel now program time_now at' l')

unfoldable pub start_handle_timers : ℕ → Clock → Program → Loop → Option (Loop × Result Bool)
unfolding timers_from first_id
start_handle_timers fuel now program l =
    timers_from fuel now program (now l.reads) (first_id l.timers) (tick l)

-- `has_input(item) || has_error(item) || has_output(item)`, where an exception goes through.
abbrev pub or_else : Result Bool → Result Bool → Result Bool
or_else (ok true) later = ok true
or_else (ok false) later = later
or_else (err e) later = err e

unfoldable pub is_ready : Poller → PollItem → Result Bool
is_ready p item =
    or_else (Poller.has_input p item) (or_else (Poller.has_error p item) (Poller.has_output p item))

abbrev pub adds : Action → Bool
adds (adds_item item callable) = true
adds _ = false

unfoldable pub any_adds : List Action → Bool
any_adds [] = false
any_adds (a ∷ more) = adds a || any_adds more

-- A call while `items_` is traversed: an item added to the vector leaves the traversal's iterators
-- invalid.
unfoldable pub call_in_traversal : Clock → Program → ℕ → Loop → Loop × Result Bool
unfolding call any_adds
call_in_traversal now program callable l =
    if any_adds (program l.calls callable).0
    then ((call now program callable l).0, err undefined)
    else call now program callable l

abbrev pub while_true : Loop × Result Bool → (Loop → Loop × Result Bool) → Loop × Result Bool
while_true (l, ok true) next = next l
while_true (l, ok false) next = (l, ok false)
while_true (l, err e) next = (l, err e)

abbrev pub call_if : Clock → Program → ℕ → Loop → Result Bool → Loop × Result Bool
call_if now program callable l (ok true) = call_in_traversal now program callable l
call_if now program callable l (ok false) = (l, ok true)
call_if now program callable l (err e) = (l, err e)

unfoldable pub items_from : Clock → Program → List Entry → Loop → Loop × Result Bool
unfolding call_in_traversal is_ready
items_from now program [] l = (l, ok true)
items_from now program (e ∷ es) l =
    while_true (call_if now program e.callable l (is_ready l.poller e.item))
      (λ l'. items_from now program es l')

unfoldable pub start_handle_poller : Clock → Program → Loop → Loop × Result Bool
unfolding items_from
start_handle_poller now program l = items_from now program l.items l

-- How a turn of `start` ends: the loop goes on or leaves, an exception is thrown, or the pass over
-- the timers did not end within the fuel.
pub data Turn : Type 0 where
  again : Loop → Turn
  left : Loop → Turn
  threw : Loop → Error → Turn
  unfinished : Turn

abbrev pub undispatched : Loop → Loop
undispatched l = record l { dispatching = false }

abbrev pub after_items : Loop × Result Bool → Turn
after_items (l, ok true) = again (undispatched l)
after_items (l, ok false) = left (undispatched l)
after_items (l, err e) = threw l e

-- After the timers: `poll_rc` tells whether there were events.
unfoldable pub after_timers : Clock → Program → Bool → Option (Loop × Result Bool) → Turn
unfolding start_handle_poller
after_timers now program rc none = unfinished
after_timers now program rc (some (l, err e)) = threw l e
after_timers now program rc (some (l, ok false)) = left (undispatched l)
after_timers now program rc (some (l, ok true)) =
    if l.rebuild
    then again (undispatched l)
    else if rc
    then after_items (start_handle_poller now program (record l { dispatching = true }))
    else again (undispatched l)

unfoldable pub after_poll : ℕ → Clock → Program → Loop → Run Bool → Turn
unfolding start_handle_timers after_timers
after_poll fuel now program l (p, err e) = threw (record l { poller = p }) e
after_poll fuel now program l (p, ok rc) =
    after_timers now program rc
      (start_handle_timers fuel now program (record l { poller = p; dispatching = true }))

unfoldable pub after_flush : ℕ → Clock → Program → Answer → Loop × Result (Unit {0}) → Turn
unfolding after_poll tickless poll
after_flush fuel now program answer (l, err e) = threw l e
after_flush fuel now program answer (l, ok u) =
    after_poll fuel now program (tickless now l).0 (poll l.poller answer)

-- The body of `while(1)` in `start`.
unfoldable pub turn : ℕ → Clock → Program → Answer → Loop → Turn
unfolding after_flush flush_remove_later
turn fuel now program answer l =
    after_flush fuel now program answer (flush_remove_later (record l { rebuild = false }))

-- How `start` ends; `polling` when the answers are used up.
pub data Ending : Type 0 where
  returned : Loop → Ending
  thrown : Loop → Error → Ending
  polling : Loop → Ending
  unfinished : Ending

abbrev pub at_end : Loop × Result (Unit {0}) → Ending
at_end (l, ok u) = returned l
at_end (l, err e) = thrown l e

abbrev pub next_turn : Turn → (Loop → Ending) → Ending
next_turn (again l) next = next l
next_turn (left l) next = at_end (flush_remove_later l)
next_turn (threw l e) next = thrown l e
next_turn Turn.unfinished next = Ending.unfinished

unfoldable pub start : ℕ → Clock → Program → List Answer → Loop → Ending
unfolding turn flush_remove_later
start fuel now program [] l = polling l
start fuel now program (answer ∷ later) l =
    next_turn (turn fuel now program answer l) (λ l'. start fuel now program later l')
