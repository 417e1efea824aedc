-- ===== src/Tests/ActorTests.antt =====
-- Actors whose routines signal that they started, or not.
use zmqpp_pty.Base.{
  true, false, [], ◌∷◌, ◌++◌, none, some, ◌≡◌, if◌then◌else◌, ok, err, zmq_internal,
}
use zmqpp_pty.Actor.{
  Actor, stop, returns, throws, done, waits, initialization_exception, construct, stop_actor,
  send_throws,
}
use zmqpp_pty.Actor.Shutdown.{
  starting, silent, started, ended, succeeded, stop-construct, construct-silent,
}

abbrev idle : Actor
idle = record {
  parent_pipe = some (record { inbox = []; outbox = [] });
  stopped = false;
  retval = none;
}

-- The signal to stop is sent first, and can no longer be sent later.
stop-construct_example :
    (construct false (starting 1 2 (throws 5)) ≡ done (started 2 (throws 5)) tt)
    × (stop_actor true (ok true) (started 2 (throws 5))
        ≡ done (ended (if true then stop ∷ [] else []) (throws 5)) (succeeded (throws 5)))
    × (stop_actor true (ok false) (ended (stop ∷ []) (throws 5))
        ≡ done
            (ended (if false then (stop ∷ []) ++ stop ∷ [] else stop ∷ []) (throws 5))
            (succeeded (throws 5)))
    × (stop_actor true (err (zmq_internal 88)) (started 2 (throws 5))
        ≡ send_throws (zmq_internal 88))
    × (stop_actor true (err (zmq_internal 88)) (ended (stop ∷ []) (throws 5))
        ≡ send_throws (zmq_internal 88))
stop-construct_example =
    stop-construct false true false 1 2 (throws 5) (stop ∷ []) (zmq_internal 88)

construct-silent_example :
    (construct true (silent 1 (returns false)) ≡ initialization_exception none)
    × (construct true (silent 1 (throws 5)) ≡ initialization_exception (some 5))
    × (construct true (silent 1 (returns true)) ≡ done idle tt)
    × (stop_actor true (ok true) idle ≡ waits)
construct-silent_example = construct-silent true true 1 5
