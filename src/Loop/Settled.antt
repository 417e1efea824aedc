-- ===== src/Loop/Settled.antt =====
-- What `start` leaves when it returns, and what it leaves when a callable throws.
use zmqpp_pty.Base.{
  ℕ, zero, suc, ◌≡◌, refl, ap, ◌∙◌, Bool, true, false, not, ◌&&◌, List, [], ◌∷◌, ◌++◌, Option, none,
  some, if◌then◌else◌, Bool-cases, inl, inr, Result, ok, err, Error, undefined, ltb, length-append,
  arith,
}
use zmqpp_pty.Poller
use zmqpp_pty.Poller.{Answer, Run, poll}
use zmqpp_pty.Loop.{
  Loop, Clock, add_item, add_timer, reset, remove_timer, remove_socket, remove_fd, followed_by,
  flush_remove_later, remove_later, is_nothing_later, tick, after_poller, erase_if, is_socket,
}
use zmqpp_pty.Loop.Timers.{Timer, find_timer, first_id}
use zmqpp_pty.Loop.Passes.{
  Action, adds_item, adds_timer, resets, removes_timer, removes_socket, removes_fd, Program,
  perform, perform_all, returning, call, after_call, on_return, at_timer, round, timers_from,
  start_handle_timers, Round, finished, moved, go_on, turn, after_flush, thrown, start, next_turn,
}

-- Calls of the loop do not begin or end a dispatch.
abbrev pub Keeps : Loop → {A : Type 0} → Loop × Result A → Type 0
Keeps l ran = ran.0.dispatching ≡ l.dispatching

pub remove_timer-Keeps : (l : Loop) (id : ℕ) → (remove_timer l id).dispatching ≡ l.dispatching
unfolding remove_timer
remove_timer-Keeps l id = elim (Bool-cases l.dispatching) [ inl e ↦ rw e refl | inr e ↦ rw e refl ]

pub remove_socket-Keeps : (l : Loop) (s : ℕ) → Keeps l (remove_socket l s)
unfolding remove_socket
remove_socket-Keeps l s = elim (Bool-cases l.dispatching) [ inl e ↦ rw e refl | inr e ↦ rw e refl ]

pub remove_fd-Keeps : (l : Loop) (d : ℕ) → Keeps l (remove_fd l d)
unfolding remove_fd
remove_fd-Keeps l d = elim (Bool-cases l.dispatching) [ inl e ↦ rw e refl | inr e ↦ rw e refl ]

perform-Keeps : (now : Clock) (a : Action) (l : Loop) → Keeps l (perform now a l)
unfolding perform add_item add_timer reset
perform-Keeps now (adds_item item c) l = refl
perform-Keeps now (adds_timer id delay times c) l = refl
perform-Keeps now (resets id) l = ground arith
perform-Keeps now (removes_timer id) l = remove_timer-Keeps l id
perform-Keeps now (removes_socket s) l = remove_socket-Keeps l s
perform-Keeps now (removes_fd d) l = remove_fd-Keeps l d

pub followed-Keeps :
    (l : Loop) (ran : Loop × Result (Unit {0})) (next : Loop → Loop × Result (Unit {0}))
    → Keeps l ran
    → ((l' : Loop) → Keeps l' (next l'))
    → Keeps l (followed_by ran next)
followed-Keeps l (l', ok u) next h n = n l' ∙ h
followed-Keeps l (l', err e) next h n = h

perform_all-Keeps :
    (now : Clock) (actions : List Action) (l : Loop) → Keeps l (perform_all now actions l)
unfolding perform_all
perform_all-Keeps now [] l = refl
perform_all-Keeps now (a ∷ more) l =
    followed-Keeps l (perform now a l) _ (perform-Keeps now a l) (perform_all-Keeps now more)

returning-Keeps :
    (l : Loop) (ran : Loop × Result (Unit {0})) (b : Result Bool)
    → Keeps l ran
    → Keeps l (returning ran b)
returning-Keeps l (l', ok u) b h = h
returning-Keeps l (l', err e) b h = h

call-Keeps : (now : Clock) (program : Program) (c : ℕ) (l : Loop) → Keeps l (call now program c l)
unfolding call
call-Keeps now program c l =
    returning-Keeps l _ _
      (perform_all-Keeps now (program l.calls c).0 (record l { calls = c ∷ l.calls }))

after_call-Keeps : (id : ℕ) (l : Loop) → (after_call id l).0.dispatching ≡ l.dispatching
unfolding after_call
after_call-Keeps id l = ground arith

-- The state in a round, and in a result.
abbrev Ends : Bool → Round → Type 0
Ends b (finished l r) = l.dispatching ≡ b
Ends b (moved l at) = l.dispatching ≡ b

on_return-Keeps :
    (l : Loop) (id : ℕ) (ran : Loop × Result Bool)
    → Keeps l ran
    → Ends l.dispatching (on_return id ran)
on_return-Keeps l id (l', err e) h = h
on_return-Keeps l id (l', ok true) h = after_call-Keeps id l' ∙ h
on_return-Keeps l id (l', ok false) h = after_call-Keeps id l' ∙ h

at_timer-Keeps :
    (now : Clock) (program : Program) (at : ℕ) (o : Option Timer) (l : Loop)
    → Ends l.dispatching (at_timer now program at o l)
unfolding at_timer
at_timer-Keeps now program at none l = refl
at_timer-Keeps now program at (some t) l = elim (Bool-cases (ltb t.when at)) [
  | inl e ↦ rw e (on_return-Keeps l t.id _ (call-Keeps now program t.callable l))
  | inr e ↦ rw e refl
]

round-Keeps :
    (now : Clock) (program : Program) (at : ℕ) (o : Option ℕ) (l : Loop)
    → Ends l.dispatching (round now program at o l)
unfolding round
round-Keeps now program at none l = refl
round-Keeps now program at (some id) l = at_timer-Keeps now program at (find_timer id l.timers) l

go_on-Keeps :
    (b : Bool) (next : Loop → Option ℕ → Option (Loop × Result Bool)) (l' : Loop) (r : Result Bool)
    → ((m : Loop) (at : Option ℕ) → next m at ≡ some (l', r) → l'.dispatching ≡ m.dispatching)
    → (x : Round) → Ends b x
    → go_on x next ≡ some (l', r)
    → l'.dispatching ≡ b
go_on-Keeps b next l' r keep (finished m q) h e = cc
go_on-Keeps b next l' r keep (moved m at) h e = keep m at e ∙ h

-- Whatever the callables do, and however the pass over the timers ends, also when a callable throws,
-- the loop is dispatching after it if it was before.
pub pass-Keeps :
    (fuel : ℕ) (now : Clock) (program : Program) (at : ℕ) (o : Option ℕ) (l l' : Loop)
    (r : Result Bool)
    → timers_from fuel now program at o l ≡ some (l', r)
    → l'.dispatching ≡ l.dispatching
unfolding timers_from
pass-Keeps zero now program at o l l' r e = cc
pass-Keeps (suc fuel) now program at o l l' r e =
    go_on-Keeps l.dispatching (λ m at'. timers_from fuel now program at at' m) l' r
      (λ m at' h. pass-Keeps fuel now program at at' m l' r h) (round now program at o l)
      (round-Keeps now program at o l) e

something_later :
    (l : Loop) (s : ℕ)
    → is_nothing_later (record l { rebuild = false; socket_later = l.socket_later ++ s ∷ [] })
      ≡ false
unfolding is_nothing_later
something_later l s = ground (arith, length-append l.socket_later (s ∷ []))

-- When the pass over the timers of a dispatching loop throws, the loop still dispatches: removing a
-- socket after that is put off, and the next `start` appends to the vector of removals that it
-- traverses, whatever the clock, the callables and the answers are.
pub thrown_undefined :
    (fuel fuel' : ℕ) (now now' : Clock) (program program' : Program) (l l' : Loop) (e : Error)
    (s : ℕ) (answer : Answer) (later : List Answer)
    → l.dispatching ≡ true
    → start_handle_timers fuel now program l ≡ some (l', err e)
    → (m : Loop) × (start fuel' now' program' (answer ∷ later) (remove_socket l' s).0
        ≡ thrown m undefined)
unfolding start_handle_timers start turn flush_remove_later remove_socket is_nothing_later
    after_flush
thrown_undefined fuel fuel' now now' program program' l l' e s answer later d h =
    let busy : l'.dispatching ≡ true =
      pass-Keeps fuel now program (now l.reads) (first_id l.timers) (tick l) l' (err e) h ∙ d in
    let noted = record l' { rebuild = true; socket_later = l'.socket_later ++ s ∷ [] } in
    let removed : remove_socket l' s ≡ (noted, ok tt) =
      ap
        (λ b.
          if b
          then (noted, ok tt)
          else after_poller (record l' { items = erase_if (is_socket s) l'.items })
              (Poller.remove_socket l'.poller s))
        busy in
    let m = record noted { rebuild = false } in
    let traversed : (m.dispatching && not (is_nothing_later m)) ≡ true =
      rw (busy, something_later l' s) refl in
    let flushed : flush_remove_later m ≡ (m, err undefined) =
      ap (λ b. if b then (m, err undefined) else remove_later m) traversed in
    (
      m,
      ap (λ x. start fuel' now' program' (answer ∷ later) x.0) removed
          ∙ ap
              (λ f.
                next_turn (after_flush fuel' now' program' answer f)
                  (λ l''. start fuel' now' program' later l''))
              flushed,
    )
