-- ===== src/Loop/Returning.antt =====
-- What `start` leaves when it returns.
use zmqpp_pty.Base.{
  ℕ, ◌≡◌, refl, sym, ap, ◌∙◌, Bool, true, false, not, ◌&&◌, ◌||◌, ◌==◌, Bool-cases, inl, inr, List,
  [], ◌∷◌, Option, none, some, if◌then◌else◌, Result, ok, err, undefined,
}
use zmqpp_pty.Poller.{Answer, Run, poll}
use zmqpp_pty.Loop.{
  Loop, Clock, remove_timer, remove_socket, remove_fd, followed_by, each, each_timer,
  flush_remove_later, remove_later, is_nothing_later, tickless, erase_if, is_socket, is_fd,
}
use zmqpp_pty.Loop.Passes.{
  Program, Turn, again, left, threw, turn, after_flush, after_poll, after_timers, after_items,
  start_handle_poller, returned, start, next_turn, at_end, undispatched,
}
use zmqpp_pty.Loop.Settled.{remove_timer-Keeps}
use zmqpp_pty.Loop.Removal.{
  without, any_of, without-nothing, without-without, erase_timer-without, each-without,
  followed_inv,
}
use zmqpp_pty.Loop.Timers.{Timer}

each_timer-Keeps : (ids : List ℕ) (l : Loop) → (each_timer ids l).dispatching ≡ l.dispatching
unfolding each_timer
each_timer-Keeps [] l = refl
each_timer-Keeps (id ∷ ids) l = each_timer-Keeps ids (remove_timer l id) ∙ remove_timer-Keeps l id

-- `l` outside of a dispatch, with every removal done that was put off in `m`, and nothing else.
pub record IsSettled (m l : Loop) : Type 0 where
  pub idle : l.dispatching ≡ false
  pub no_fd : l.fd_later ≡ []
  pub no_socket : l.socket_later ≡ []
  pub no_timer : l.timer_later ≡ []
  pub items :
      l.items
      ≡ without
          (λ e.
            any_of (λ d. is_fd d e.item) m.fd_later
            || any_of (λ s. is_socket s e.item) m.socket_later)
          m.items
  pub timers : l.timers ≡ without (λ t. any_of (λ id. t.id == id) m.timer_later) m.timers

-- Outside of a dispatch a removal takes the item out at once, and leaves the timers alone.
record IsAfter (ts : List Timer) (l : Loop) : Type 0 where
  idle : l.dispatching ≡ false
  timers : l.timers ≡ ts

fd_once :
    (ts : List Timer) (l : Loop) (d : ℕ)
    → IsAfter ts l
    → ((remove_fd l d).0.items ≡ erase_if (is_fd d) l.items) × IsAfter ts (remove_fd l d).0
unfolding remove_fd
fd_once ts l d a = rw (a.idle) (refl, record { idle = refl; timers = a.timers })

socket_once :
    (ts : List Timer) (l : Loop) (s : ℕ)
    → IsAfter ts l
    → ((remove_socket l s).0.items ≡ erase_if (is_socket s) l.items)
      × IsAfter ts (remove_socket l s).0
unfolding remove_socket
socket_once ts l s a = rw (a.idle) (refl, record { idle = refl; timers = a.timers })

each_timer-items : (ids : List ℕ) (l : Loop) → (each_timer ids l).items ≡ l.items
unfolding each_timer remove_timer
each_timer-items [] l = refl
each_timer-items (id ∷ ids) l = elim (Bool-cases l.dispatching) [
  | inl b ↦ each_timer-items ids (remove_timer l id) ∙ rw b refl
  | inr b ↦ each_timer-items ids (remove_timer l id) ∙ rw b refl
]

each_timer-timers :
    (ids : List ℕ) (l : Loop)
    → l.dispatching ≡ false
    → (each_timer ids l).timers ≡ without (λ t. any_of (λ id. t.id == id) ids) l.timers
unfolding each_timer remove_timer any_of
each_timer-timers [] l d = sym (without-nothing l.timers)
each_timer-timers (id ∷ ids) l d =
    each_timer-timers ids (remove_timer l id) (rw d refl)
    ∙ ap (without (λ t. any_of (λ i. t.id == i) ids)) (rw d (erase_timer-without id l.timers))
    ∙ without-without _ _ l.timers

-- A run of one series that is followed by more, and returned.
first_ok :
    (ran : Loop × Result (Unit {0})) (next : Loop → Loop × Result (Unit {0})) (l' : Loop)
    → followed_by ran next ≡ (l', ok tt)
    → ran ≡ (ran.0, ok tt)
first_ok (l, ok tt) next l' e = refl
first_ok (l, err x) next l' e = cc

remove_later-IsSettled :
    (l l' : Loop) → l.dispatching ≡ false → remove_later l ≡ (l', ok tt) → IsSettled l l'
unfolding remove_later
remove_later-IsSettled l l' d e =
    let clear : Loop → Loop × Result (Unit {0}) = λ m. (
      record (each_timer l.timer_later m) { fd_later = []; socket_later = []; timer_later = [] },
      ok tt,
    ) in
    let later : Loop → Loop × Result (Unit {0}) =
      λ m. followed_by (each remove_socket l.socket_later m) clear in
    let fds = (each remove_fd l.fd_later l).0 in
    let sockets = (each remove_socket l.socket_later fds).0 in
    let e' = followed_inv (each remove_fd l.fd_later l) later l' e in
    let final = ap (λ r. r.0) (followed_inv (each remove_socket l.socket_later fds) clear l' e') in
    let start : IsAfter l.timers l = record { idle = d; timers = refl } in
    let (items_fds, after_fds) =
      each-without remove_fd (λ m. m.items) (IsAfter l.timers) is_fd (fd_once l.timers) l.fd_later l
        fds start (first_ok (each remove_fd l.fd_later l) later l' e) in
    let (items_sockets, after) =
      each-without remove_socket (λ m. m.items) (IsAfter l.timers) is_socket (socket_once l.timers)
        l.socket_later fds sockets after_fds
        (first_ok (each remove_socket l.socket_later fds) clear l' e') in
    record {
      idle =
          sym (ap (λ m. m.dispatching) final) ∙ each_timer-Keeps l.timer_later sockets ∙ after.idle;
      no_fd = sym (ap (λ m. m.fd_later) final);
      no_socket = sym (ap (λ m. m.socket_later) final);
      no_timer = sym (ap (λ m. m.timer_later) final);
      items =
          sym (ap (λ m. m.items) final)
          ∙ each_timer-items l.timer_later sockets
          ∙ items_sockets
          ∙ ap (without (λ e. any_of (λ s. is_socket s e.item) l.socket_later)) items_fds
          ∙ without-without _ _ l.items;
      timers =
          sym (ap (λ m. m.timers) final)
          ∙ each_timer-timers l.timer_later sockets after.idle
          ∙ ap (without (λ t. any_of (λ id. t.id == id) l.timer_later)) after.timers;
    }

flush-IsSettled :
    (l l' : Loop) → l.dispatching ≡ false → flush_remove_later l ≡ (l', ok tt) → IsSettled l l'
unfolding flush_remove_later
flush-IsSettled l l' d e = remove_later-IsSettled l l' d (
    sym (ap (λ b. if b && not (is_nothing_later l) then (l, err undefined) else remove_later l) d)
    ∙ e)

-- A turn that ends the loop ends the dispatch.
abbrev LeavesIdle : Turn → Type 0
LeavesIdle (left l) = l.dispatching ≡ false
LeavesIdle _ = Unit

after_items-LeavesIdle : (ran : Loop × Result Bool) → LeavesIdle (after_items ran)
after_items-LeavesIdle (l, ok true) = tt
after_items-LeavesIdle (l, ok false) = refl
after_items-LeavesIdle (l, err e) = tt

after_timers-LeavesIdle :
    (now : Clock) (program : Program) (rc : Bool) (o : Option (Loop × Result Bool))
    → LeavesIdle (after_timers now program rc o)
unfolding after_timers
after_timers-LeavesIdle now program rc none = tt
after_timers-LeavesIdle now program rc (some (l, err e)) = tt
after_timers-LeavesIdle now program rc (some (l, ok false)) = refl
after_timers-LeavesIdle now program rc (some (l, ok true)) =
    by_cases l.rebuild rc (start_handle_poller now program (record l { dispatching = true }))
  where
    by_cases :
        (changed b : Bool) (ran : Loop × Result Bool)
        → LeavesIdle (
            if changed
            then again (undispatched l)
            else if b
            then after_items ran
            else again (undispatched l))
    by_cases true b ran = tt
    by_cases false true ran = after_items-LeavesIdle ran
    by_cases false false ran = tt

after_flush-LeavesIdle :
    (fuel : ℕ) (now : Clock) (program : Program) (answer : Answer) (ran : Loop × Result (Unit {0}))
    → LeavesIdle (after_flush fuel now program answer ran)
unfolding after_flush after_poll
after_flush-LeavesIdle fuel now program answer (l, err e) = tt
after_flush-LeavesIdle fuel now program answer (l, ok u) = by_poll (poll l.poller answer)
  where
    by_poll : (p : Run Bool) → LeavesIdle (after_poll fuel now program (tickless now l).0 p)
    by_poll (p, err e) = tt
    by_poll (p, ok rc) = after_timers-LeavesIdle now program rc _

turn-LeavesIdle :
    (fuel : ℕ) (now : Clock) (program : Program) (answer : Answer) (l : Loop)
    → LeavesIdle (turn fuel now program answer l)
unfolding turn
turn-LeavesIdle fuel now program answer l =
    after_flush-LeavesIdle fuel now program answer
      (flush_remove_later (record l { rebuild = false }))

at_end-inv :
    (ran : Loop × Result (Unit {0})) (l' : Loop) → at_end ran ≡ returned l' → ran ≡ (l', ok tt)
at_end-inv (l, ok u) l' e = cc
at_end-inv (l, err x) l' e = cc

-- The turns that go on, up to the one that leaves the loop, and what that one leaves.
pub data LastLeft (fuel : ℕ) (now : Clock) (program : Program)
    : List Answer → Loop → Loop → Type 0 where
  ends :
      (answer : Answer) (later : List Answer) (l m : Loop)
      → turn fuel now program answer l ≡ left m
      → LastLeft fuel now program (answer ∷ later) l m
  goes :
      (answer : Answer) (later : List Answer) (l middle m : Loop)
      → turn fuel now program answer l ≡ again middle
      → LastLeft fuel now program later middle m
      → LastLeft fuel now program (answer ∷ later) l m

next_turn-IsSettled :
    (fuel : ℕ) (now : Clock) (program : Program) (answer : Answer) (later : List Answer)
    → (l l' : Loop)
    → ((n : Loop)
        → start fuel now program later n ≡ returned l'
        → (m : Loop) × LastLeft fuel now program later n m × IsSettled m l')
    → (t : Turn) → turn fuel now program answer l ≡ t
    → LeavesIdle t
    → next_turn t (λ m. start fuel now program later m) ≡ returned l'
    → (m : Loop) × LastLeft fuel now program (answer ∷ later) l m × IsSettled m l'
next_turn-IsSettled fuel now program answer later l l' rest (again n) same i h =
    let (m, steps, settled) = rest n h in (m, goes answer later l n m same steps, settled)
next_turn-IsSettled fuel now program answer later l l' rest (left m) same i h =
    (m, ends answer later l m same, flush-IsSettled m l' i (at_end-inv _ l' h))
next_turn-IsSettled fuel now program answer later l l' rest (threw n x) same i h = cc
next_turn-IsSettled fuel now program answer later l l' rest Turn.unfinished same i h = cc

-- Whatever the clock, the callables and the answers of `zmq_poll` are: if `start` returns, then one of
-- the turns has left the loop, and all turns before it went on. The loop that `start` leaves is no
-- longer dispatching and has no removal left to do. Its items are, in order, those which that last
-- turn left, without exactly those whose descriptor or socket was still to be removed; and its timers
-- are those which that turn left, without exactly those that were still to be removed.
pub start-IsSettled :
    (fuel : ℕ) (now : Clock) (program : Program) (answers : List Answer) (l l' : Loop)
    → start fuel now program answers l ≡ returned l'
    → (m : Loop) × LastLeft fuel now program answers l m × IsSettled m l'
unfolding start
start-IsSettled fuel now program [] l l' e = cc
start-IsSettled fuel now program (answer ∷ later) l l' e =
    next_turn-IsSettled fuel now program answer later l l'
      (λ n h. start-IsSettled fuel now program later n l' h) (turn fuel now program answer l) refl
      (turn-LeavesIdle fuel now program answer l) e
