-- ===== src/Tests/LoopTests.antt =====
-- A loop with three timers, a socket and a descriptor.
use zmqpp_pty.Base.{ℕ, true, false, [], ◌∷◌, some, ◌≡◌, ◌≤◌, refl, ok, err, arith, ◌+◌, exception}
use zmqpp_pty.Poller
use zmqpp_pty.Poller.{PollItem, poll_in, Answer, failed, polled}
use zmqpp_pty.Loop.{
  Loop, Clock, empty, ms, hour, tickless, remove_socket, remove_fd, remove_timer,
  flush_remove_later,
}
use zmqpp_pty.Loop.Timers.{Timer, sort, update}
use zmqpp_pty.Loop.Passes.{
  removes_socket, removes_timer, Program, start_handle_timers, start, returned, undispatched,
}
use zmqpp_pty.Loop.Sorting.{AllWait, tickless_bounds}
use zmqpp_pty.Loop.Firing.{logged, IsQuiet}
use zmqpp_pty.Loop.Serving.{due, served, timers_served}
use zmqpp_pty.Loop.Returning.{IsSettled, LastLeft, start-IsSettled}
use zmqpp_pty.Loop.Deferral.{at_rest, at_work, put_off-remove}

abbrev timer : ℕ → ℕ → ℕ → ℕ → Timer
timer id times delay when = record {
  id = id;
  times = times;
  delay = delay;
  when = when;
  callable = id;
}

-- Timer 1 runs once, timer 2 for ever, and timer 3 is not due.
abbrev three : Loop
three = record empty {
  timers = timer 1 1 30 10 ∷ timer 2 0 50 20 ∷ timer 3 2 50 90 ∷ [];
  dispatching = true;
}

-- A clock that moves on by one at each reading.
abbrev clock : Clock
clock n = 60 + n

-- Every callable removes a socket and its timer, and returns `true`.
abbrev quiet : Program
quiet calls c = (removes_socket 7 ∷ removes_timer c ∷ [], ok true)

quiet-IsQuiet : IsQuiet quiet
quiet-IsQuiet calls c = ((refl, (refl, tt)), refl)

tickless_bounds_example :
    (ms (tickless clock three).1 ≤ hour) × AllWait (ms (tickless clock three).1) 61 three.timers
tickless_bounds_example =
    tickless_bounds clock three ((omega arith, (omega arith, tt)), ((omega arith, tt), (tt, tt)))
      (omega arith)

timers_served_example :
    (l' : Loop) × (start_handle_timers 4 clock quiet three ≡ some (l', ok true))
    × (l'.timers ≡ sort (served 60 three.timers))
    × (l'.calls ≡ logged (due 60 three.timers) [])
timers_served_example =
    timers_served 4 clock quiet three quiet-IsQuiet refl
      ((refl, (refl, tt)), ((refl, tt), (tt, tt)))
      ((omega arith, (omega arith, tt)), ((omega arith, tt), (tt, tt))) (omega arith)

-- Both due timers run; the second is due next at 70.
served_timers : sort (served 60 three.timers) ≡ timer 2 0 50 70 ∷ timer 3 2 50 90 ∷ []
unfolding served sort update
served_timers = refl

abbrev stopping_now : Program
stopping_now calls c = ([], ok false)

abbrev throwing : Program
throwing calls c = ([], err (exception "stop"))

-- The loop whose first timer's callable threw.
abbrev after_throw : Loop
after_throw = record three { reads = 1; calls = 1 ∷ [] }

throws : start_handle_timers 4 clock throwing three ≡ some (after_throw, err (exception "stop"))
unfolding start_handle_timers
throws = refl

abbrev waiting : Loop
waiting = record three { dispatching = false }

-- The loop after its first timer's callable returned `false`.
abbrev stopped : Loop
stopped = record waiting {
  timers = timer 2 0 50 20 ∷ timer 3 2 50 90 ∷ [];
  reads = 3;
  calls = 1 ∷ [];
}

stops : start 4 clock stopping_now (polled [] 0 ∷ []) waiting ≡ returned stopped
unfolding start
stops = refl

-- The first timer's callable removes the socket and timer 3, and then stops the loop.
abbrev removing : Program
removing calls c = (removes_socket 7 ∷ removes_timer 3 ∷ [], ok false)

removed : (l : Loop) × (start 4 clock removing (polled [] 0 ∷ []) waiting ≡ returned l)
unfolding start Poller.remove_socket
removed = (_, refl)

start-IsSettled_example :
    (m : Loop) × LastLeft 4 clock removing (polled [] 0 ∷ []) waiting m × IsSettled m (removed.0)
start-IsSettled_example =
    start-IsSettled 4 clock removing (polled [] 0 ∷ []) waiting (removed.0) (removed.1)

put_off-remove_example :
    (flush_remove_later (undispatched (remove_socket (at_work three) 7).0)
      ≡ remove_socket (at_rest three) 7)
    × (flush_remove_later (undispatched (remove_fd (at_work three) 4).0)
        ≡ remove_fd (at_rest three) 4)
    × (flush_remove_later (undispatched (remove_timer (at_work three) 2))
        ≡ (remove_timer (at_rest three) 2, ok tt))
    × ((remove_socket (at_work three) 7).0.items ≡ three.items)
    × ((remove_fd (at_work three) 4).0.items ≡ three.items)
    × ((remove_timer (at_work three) 2).timers ≡ three.timers)
unfolding Poller.remove_socket Poller.remove_fd
put_off-remove_example = put_off-remove three 7 4 2 refl refl
