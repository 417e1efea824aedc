-- ===== src/Actor/Shutdown.antt =====
-- The life of an actor, from the constructor to `stop`.
use zmqpp_pty.Base.{
  ℕ, zero, suc, ◌≡◌, refl, ap, ◌∙◌, Bool, true, false, List, [], ◌∷◌, ◌++◌, none, some,
  if◌then◌else◌, ok, err, Error,
}
use zmqpp_pty.Actor.{
  Signal, success, stop, Item, message, sig, wait, Ending, returns, throws, last_signal, Routine,
  start_routine, Actor, done, waits, initialization_exception, after_wait, construct, on_signal,
  stop_pipe, stop_actor, nested, outbox_after, send_throws,
}

-- Messages that are no signals.
abbrev pub messages : ℕ → List Item → List Item
messages zero items = items
messages (suc n) items = message ∷ messages n items

wait-messages :
    (n : ℕ) (s : Signal) (items : List Item) → wait (messages n (sig s ∷ items)) ≡ some (s, items)
unfolding wait
wait-messages zero s items = refl
wait-messages (suc n) s items = wait-messages n s items

messages-append : (n : ℕ) (xs ys : List Item) → messages n xs ++ ys ≡ messages n (xs ++ ys)
messages-append zero xs ys = refl
messages-append (suc n) xs ys = ap (◌∷◌ message) (messages-append n xs ys)

-- A routine that sends `m` messages, the signal `ok` and `n` messages before it ends, and one that
-- only sends messages.
abbrev pub starting : ℕ → ℕ → Ending → Routine
starting m n ending = record { before = messages m (sig success ∷ messages n []); ending = ending }

abbrev pub silent : ℕ → Ending → Routine
silent m ending = record { before = messages m []; ending = ending }

abbrev pub succeeded : Ending → Bool
succeeded (returns b) = b
succeeded (throws e) = false

-- The actor of such a routine after the constructor, and after `stop(true)`.
abbrev pub started : ℕ → Ending → Actor
started n ending = record {
  parent_pipe = some (record { inbox = messages n (sig (last_signal ending) ∷ []); outbox = [] });
  stopped = false;
  retval = none;
}

abbrev pub ended : List Signal → Ending → Actor
ended sent ending = record {
  parent_pipe = some (record { inbox = []; outbox = sent });
  stopped = true;
  retval = some (succeeded ending);
}

constructs :
    (race : Bool) (m n : ℕ) (e : Ending) → construct race (starting m n e) ≡ done (started n e) tt
unfolding construct start_routine after_wait
constructs race m n e =
    ap (λ items. after_wait race (starting m n e) (wait items))
      (messages-append m (sig success ∷ messages n []) (sig (last_signal e) ∷ []))
    ∙ ap (after_wait race (starting m n e))
        (wait-messages m success (messages n [] ++ sig (last_signal e) ∷ []))
    ∙ ap
        (λ inbox.
          done
            (record {
              parent_pipe = some (record { inbox = inbox; outbox = [] });
              stopped = false;
              retval = none;
            })
            tt)
        (messages-append n [] (sig (last_signal e) ∷ []))

stops_first :
    (t : Bool) (n : ℕ) (e : Ending)
    → stop_actor true (ok t) (started n e) ≡ done (ended (outbox_after t []) e) (succeeded e)
unfolding stop_actor stop_pipe on_signal
stops_first t n e =
    ap (on_signal (started n e) (outbox_after t [])) (wait-messages n (last_signal e) [])
    ∙ by_ending e
  where
    by_ending :
        (e : Ending)
        → on_signal (started n e) (outbox_after t []) (some (last_signal e, []))
          ≡ done (ended (outbox_after t []) e) (succeeded e)
    by_ending (returns true) = refl
    by_ending (returns false) = refl
    by_ending (throws x) = refl

-- When the routine signals that it started, whatever other messages it sends, the constructor
-- returns. `stop(true)` then sends the signal to stop, or goes on without it if it cannot be sent,
-- waits for the routine's end and returns whether the routine returned `true`. Any later `stop(true)`
-- tries to send the signal once more and returns the same value without a wait, also when the signal
-- cannot be sent because the thread is gone. An exception of the send goes through.
pub stop-construct :
    (race first later : Bool) (m n : ℕ) (e : Ending) (sent : List Signal) (x : Error)
    → (construct race (starting m n e) ≡ done (started n e) tt)
      × (stop_actor true (ok first) (started n e)
          ≡ done (ended (if first then stop ∷ [] else []) e) (succeeded e))
      × (stop_actor true (ok later) (ended sent e)
          ≡ done (ended (if later then sent ++ stop ∷ [] else sent) e) (succeeded e))
      × (stop_actor true (err x) (started n e) ≡ send_throws x)
      × (stop_actor true (err x) (ended sent e) ≡ send_throws x)
unfolding stop_actor stop_pipe
stop-construct race first later m n e sent x =
    (constructs race m n e, stops_first' first, stops_later later, refl, refl)
  where
    stops_first' :
        (t : Bool)
        → stop_actor true (ok t) (started n e)
          ≡ done (ended (if t then stop ∷ [] else []) e) (succeeded e)
    stops_first' true = stops_first true n e
    stops_first' false = stops_first false n e

    stops_later :
        (t : Bool)
        → stop_actor true (ok t) (ended sent e)
          ≡ done (ended (if t then sent ++ stop ∷ [] else sent) e) (succeeded e)
    stops_later true = refl
    stops_later false = refl

-- When the routine ends before it signalled that it started: if it returned `false` or threw, the
-- constructor throws, with the routine's exception nested if there is one; if it returned `true`, the
-- constructor returns, and `stop(true)` waits for ever, whether the signal to stop is sent or not.
pub construct-silent :
    (race sent : Bool) (m : ℕ) (x : ℕ)
    → (construct race (silent m (returns false)) ≡ initialization_exception none)
      × (construct race (silent m (throws x)) ≡ initialization_exception (some x))
      × (construct race (silent m (returns true))
          ≡ done
              (record {
                parent_pipe = some (record { inbox = []; outbox = [] });
                stopped = false;
                retval = none;
              })
              tt)
      × (stop_actor true (ok sent) (record {
        parent_pipe = some (record { inbox = []; outbox = [] });
        stopped = false;
        retval = none;
      })
          ≡ waits)
unfolding construct start_routine after_wait nested stop_actor stop_pipe on_signal wait
construct-silent race sent m x =
    (silent_ends (returns false), silent_ends (throws x), silent_ends (returns true), refl)
  where
    silent_ends :
        (e : Ending)
        → construct race (silent m e) ≡ after_wait race (silent m e) (some (last_signal e, []))
    silent_ends e =
        ap (λ items. after_wait race (silent m e) (wait items))
          (messages-append m [] (sig (last_signal e) ∷ []))
        ∙ ap (after_wait race (silent m e)) (wait-messages m (last_signal e) [])
