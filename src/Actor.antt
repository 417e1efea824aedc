-- ===== src/Actor.antt =====
-- zmqpp/actor.hpp and actor.cpp: the parent's side of an actor, the signals between it and its thread.
-- The thread's routine is an argument: what it sends before it ends, and how it ends. The
-- pipe from the thread is the list of what the parent has not read; a wait on an empty
-- pipe does not return.
pub mod Shutdown
use zmqpp_pty.Base.{
  ℕ, zero, suc, Bool, true, false, List, [], ◌∷◌, ◌++◌, Option, none, some, if◌then◌else◌, Bytes,
  Result, ok, err, Error,
}

-- The signals of signal.hpp; every other one is `other`.
pub data Signal : Type 0 where
  ko stop : Signal
  success : Signal
  other : ℕ → Signal

-- What a pipe carries: a signal, or a message that is none.
pub data Item : Type 0 where
  message : Item
  sig : Signal → Item

-- `socket::wait()`: messages that are no signals are skipped; `none` when it is still waiting.
unfoldable pub wait : List Item → Option (Signal × List Item)
wait [] = none
wait (message ∷ items) = wait items
wait (sig s ∷ items) = some (s, items)

-- How a routine ends: it returns, or it throws a `std::exception`.
pub data Ending : Type 0 where
  returns : Bool → Ending
  throws : ℕ → Ending

pub record Routine : Type 0 where
  pub before : List Item
  pub ending : Ending

-- `eptr_`.
abbrev pub exception_of : Ending → Option ℕ
exception_of (returns b) = none
exception_of (throws e) = some e

abbrev pub last_signal : Ending → Signal
last_signal (returns true) = success
last_signal (returns false) = ko
last_signal (throws e) = ko

-- `start_routine`: what it sends through the child's pipe.
unfoldable pub start_routine : Routine → List Item
start_routine r = r.before ++ sig (last_signal r.ending) ∷ []

-- The parent's pipe, as the signals to read and those that were sent; `none` when it was moved away.
pub record Pipe : Type 0 where
  pub inbox : List Item
  pub outbox : List Signal

pub record Actor : Type 0 where
  pub parent_pipe : Option Pipe
  pub stopped : Bool
  -- `retval_`, which is not set before the actor stopped
  pub retval : Option Bool

-- How a call ends: with a value and the actor, by waiting for ever, in a failed assertion, with the
-- exception of the constructor, which nests the one of the routine if there is one, or with the
-- exception of a send.
pub data Outcome (A : Type 0) : Type 0 where
  done : Actor → A → Outcome A
  waits : Outcome A
  fails : Outcome A
  initialization_exception : Option ℕ → Outcome A
  send_throws : Error → Outcome A

-- The exception to nest: `eptr_` is set before the last signal is sent. When the signal that was read
-- is an earlier one, `race` tells whether the thread has come so far.
unfoldable pub nested : Bool → Routine → List Item → Option ℕ
nested race r [] = exception_of r.ending
nested race r (i ∷ inbox) = if race then exception_of r.ending else none

unfoldable pub after_wait : Bool → Routine → Option (Signal × List Item) → Outcome (Unit {0})
unfolding nested
after_wait race r none = waits
after_wait race r (some (success, inbox)) =
    done
      (record {
        parent_pipe = some (record { inbox = inbox; outbox = [] });
        stopped = false;
        retval = none;
      })
      tt
after_wait race r (some (ko, inbox)) = initialization_exception (nested race r inbox)
after_wait race r (some (stop, inbox)) = fails
after_wait race r (some (other n, inbox)) = fails

-- The constructor, when all that the thread sends is there to be read.
unfoldable pub construct : Bool → Routine → Outcome (Unit {0})
unfolding start_routine after_wait wait
construct race r = after_wait race r (wait (start_routine r))

abbrev pub with_pipe : Actor → List Item → List Signal → Actor
with_pipe a inbox outbox = record a {
  parent_pipe = some (record { inbox = inbox; outbox = outbox });
}

-- After the wait in `stop`.
unfoldable pub on_signal : Actor → List Signal → Option (Signal × List Item) → Outcome Bool
on_signal a outbox none = waits
on_signal a outbox (some (success, inbox)) =
    done (record (with_pipe a inbox outbox) { stopped = true; retval = some true }) true
on_signal a outbox (some (ko, inbox)) =
    done (record (with_pipe a inbox outbox) { stopped = true; retval = some false }) false
on_signal a outbox (some (stop, inbox)) = fails
on_signal a outbox (some (other n, inbox)) = fails

-- `return retval_`.
abbrev pub known : Actor → Option Bool → Outcome Bool
known a none = fails
known a (some b) = done a b

-- `parent_pipe_->send(signal::stop, true)` by what `send` answers: `false` when the signal cannot be
-- sent for now, as after the thread has deleted its pipe, which is ignored.
abbrev pub outbox_after : Bool → List Signal → List Signal
outbox_after true outbox = outbox ++ stop ∷ []
outbox_after false outbox = outbox

unfoldable pub stop_pipe : Bool → Result Bool → Actor → Option Pipe → Outcome Bool
unfolding on_signal wait
stop_pipe block answer a none = done a false
stop_pipe block (err e) a (some p) = send_throws e
stop_pipe block (ok sent) a (some p) =
    let outbox = outbox_after sent p.outbox in
    if block
    then (if a.stopped
        then known (with_pipe a p.inbox outbox) a.retval
        else on_signal a outbox (wait p.inbox))
    else done (with_pipe a p.inbox outbox) true

-- `stop(block)`, with the answer of the send.
unfoldable pub stop_actor : Bool → Result Bool → Actor → Outcome Bool
unfolding stop_pipe
stop_actor block answer a = stop_pipe block answer a a.parent_pipe

-- The move assignment: the new state of the target and of the source.
unfoldable pub move_from : Actor → Actor → Actor × Actor
move_from target source = (source, record source { parent_pipe = none })

-- `bind_parent`, for the answers of `bind` to one random endpoint after the other: the number of
-- attempts, or `none` while all of them threw.
unfoldable pub bind_parent : List Bool → Option ℕ
bind_parent [] = none
bind_parent (true ∷ answers) = some 1
bind_parent (false ∷ answers) = elim (bind_parent answers) [ none ↦ none | some n ↦ some (suc n) ]
