-- ===== src/Client/Opening.antt =====
-- `main` from the options to the end of the loop: the standard input, the socket and its endpoints,
-- and the poller. What libzmq answers to the calls that open the socket is an argument.
use Prim.Native.Nat.{bit_or}
use zmqpp_pty.Base.{
  ℕ, ◌≡◌, ◌≢◌, ◌⊎◌, inl, inr, refl, Bool-cases, Option-cases, arith, Bool, true, false, not, ◌&&◌,
  ◌||◌, List, [], ◌∷◌, Option, none, some, Bytes, if◌then◌else◌, Result, ok, err, Error,
  zmq_internal,
}
use zmqpp_pty.Poller
use zmqpp_pty.Poller.{Poller, poll_in, poll_error}
use zmqpp_pty.Socket.Endpoints.{Opening, opened, refused, call_endpoint}
use zmqpp_pty.Client.{
  SocketType, subscribe, ClientOptions, Variables, Modes, Start, shows_version, shows_usage,
  unsupported, runs, process_command_line, start,
}
use zmqpp_pty.Client.Turns.{Event, Turn, run}
use zmqpp_pty.Client.Starting.{is_supported, is_alternating, start_supported}
use zmqpp_pty.Client.Toggling.{client_of, run_alternates}

-- What `main` meets: whether there is a standard input, the answers of libzmq, and what comes.
pub record Surroundings : Type 0 where
  pub stdin : Bool
  pub opening : Opening
  pub subscribing : Option ℕ
  pub binding : Bytes → Option ℕ
  pub connecting : Bytes → Option ℕ
  pub send : List (List Bytes) → List Bytes → Bool → Result Bool
  pub lines : List Bytes
  pub events : List Event

-- How `main` ends: after its output, with EXIT_FAILURE, with an exception, or by its loop.
pub data Ending : Type 0 where
  printed : Ending
  type_unsupported : Ending
  no_stdin : Ending
  throws : Error → Ending
  endpoint_failed : Bytes → Ending
  looped : Turn → Ending

-- The calls for the endpoints in their order; the first one that throws, if there is one.
refused_at : Result (Unit {0}) → Bytes → Option Bytes → Option Bytes
refused_at (ok done) endpoint later = later
refused_at (err e) endpoint later = some endpoint

unfoldable pub first_failing : (Bytes → Option ℕ) → List Bytes → Option Bytes
unfolding refused_at call_endpoint
first_failing answer [] = none
first_failing answer (e ∷ es) = refused_at (call_endpoint (answer e)) e (first_failing answer es)

abbrev pub needs_stdin : Modes → Bool
needs_stdin m = m.can_send || m.toggles

unfoldable pub poller_of : ℕ → Bool → Poller
unfolding Poller.add_socket Poller.add_fd
poller_of s stdin =
    let p = Poller.add_socket Poller.empty s poll_in in
    if stdin then Poller.add_fd p 0 (bit_or poll_in poll_error) else p

looping : Surroundings → ClientOptions → Modes → ℕ → Ending
unfolding poller_of
looping x o m s = looped (
    run (record { socket = s; singlepart = o.singlepart; send = x.send }) x.events
      (record {
        modes = m;
        has_stdin = needs_stdin m;
        lines = x.lines;
        poller = poller_of s (needs_stdin m);
        received = [];
        sent = [];
      }))

after_connects : Surroundings → ClientOptions → Modes → ℕ → Option Bytes → Ending
unfolding looping
after_connects x o m s none = looping x o m s
after_connects x o m s (some e) = endpoint_failed e

after_binds : Surroundings → ClientOptions → Modes → ℕ → Option Bytes → Ending
unfolding after_connects first_failing
after_binds x o m s none = after_connects x o m s (first_failing x.connecting o.connects)
after_binds x o m s (some e) = endpoint_failed e

after_subscribe : Surroundings → ClientOptions → Modes → ℕ → Result (Unit {0}) → Ending
unfolding after_binds first_failing
after_subscribe x o m s (ok done) = after_binds x o m s (first_failing x.binding o.binds)
after_subscribe x o m s (err e) = throws e

abbrev subscribes : SocketType → Bool
subscribes subscribe = true
subscribes _ = false

with_socket : Surroundings → ClientOptions → Modes → Opening → Ending
unfolding after_subscribe call_endpoint
with_socket x o m (opened s) =
    after_subscribe x o m s
      (if subscribes o.socket_type then call_endpoint x.subscribing else ok tt)
with_socket x o m (refused e) = throws (zmq_internal e)

launch : Surroundings → ClientOptions → Start → Ending
unfolding with_socket
launch x o shows_version = printed
launch x o (shows_usage help) = printed
launch x o unsupported = type_unsupported
launch x o (runs m) = if needs_stdin m && not x.stdin then no_stdin else with_socket x o m x.opening

unfoldable pub main : Surroundings → Option Variables → Ending
unfolding launch process_command_line start
main x vars = let o = process_command_line vars in launch x o (start o)

-- libzmq accepts every endpoint; or this one is the first that it refuses.
abbrev pub AllAccepted : (Bytes → Option ℕ) → List Bytes → Type 0
AllAccepted answer [] = Unit
AllAccepted answer (e ∷ es) = (answer e ≡ none) × AllAccepted answer es

abbrev pub FailsFirst : (Bytes → Option ℕ) → List Bytes → Bytes → Type 0
FailsFirst answer [] f = ⊥
FailsFirst answer (e ∷ es) f =
    ((f ≡ e) × (answer e ≢ none)) ⊎ ((answer e ≡ none) × FailsFirst answer es f)

abbrev Attempts : (Bytes → Option ℕ) → List Bytes → Option Bytes → Type 0
Attempts answer es none = AllAccepted answer es
Attempts answer es (some f) = FailsFirst answer es f

-- Why `main` ended so.
abbrev pub Explains : Surroundings → ClientOptions → Ending → Type 0
Explains x o printed = Unit
Explains x o type_unsupported = ⊥
Explains x o no_stdin = x.stdin ≡ false
Explains x o (throws e) =
    (n : ℕ) × (e ≡ zmq_internal n) × ((x.opening ≡ refused n) ⊎ (x.subscribing ≡ some n))
Explains x o (endpoint_failed f) =
    FailsFirst x.binding o.binds f
    ⊎ (AllAccepted x.binding o.binds × FailsFirst x.connecting o.connects f)
Explains x o (looped t) =
    AllAccepted x.binding o.binds
    × AllAccepted x.connecting o.connects
    × (is_alternating (client_of t).modes ≡ true)

first_failing_lem :
    (answer : Bytes → Option ℕ) (es : List Bytes) → Attempts answer es (first_failing answer es)
unfolding first_failing
first_failing_lem answer [] = tt
first_failing_lem answer (e ∷ es) = elim (Option-cases (answer e)) [
  | inl accepted ↦
      rw (accepted, first_failing)
        (later (first_failing answer es) accepted (first_failing_lem answer es))
  | inr (n, failed) ↦ rw (failed, first_failing) (inl (refl, λ q. cc))
]
  where
    later : (r : Option Bytes) → answer e ≡ none → Attempts answer es r → Attempts answer (e ∷ es) r
    later none accepted a = (accepted, a)
    later (some f) accepted a = inr (accepted, a)

module _ (x : Surroundings) (o : ClientOptions) (m : Modes) (s : ℕ)
    (alternates : is_alternating m ≡ true) where
  connects-Explains :
      (r : Option Bytes)
      → AllAccepted x.binding o.binds
      → Attempts x.connecting o.connects r
      → Explains x o (after_connects x o m s r)
  unfolding after_connects looping
  connects-Explains none binds connects = (binds, connects, run_alternates _ x.events _ alternates)
  connects-Explains (some f) binds fails = inr (binds, fails)

  binds-Explains :
      (r : Option Bytes) → Attempts x.binding o.binds r → Explains x o (after_binds x o m s r)
  unfolding after_binds
  binds-Explains none binds =
      connects-Explains (first_failing x.connecting o.connects) binds
        (first_failing_lem x.connecting o.connects)
  binds-Explains (some f) fails = inl fails

  subscribed-Explains :
      (sub : Bool) (a : Option ℕ)
      → x.subscribing ≡ a
      → Explains x o (after_subscribe x o m s (if sub then call_endpoint a else ok tt))
  unfolding after_subscribe call_endpoint
  subscribed-Explains false a q =
      binds-Explains (first_failing x.binding o.binds) (first_failing_lem x.binding o.binds)
  subscribed-Explains true none q =
      binds-Explains (first_failing x.binding o.binds) (first_failing_lem x.binding o.binds)
  subscribed-Explains true (some n) q = (n, refl, inr q)

with_socket-Explains :
    (x : Surroundings) (o : ClientOptions) (m : Modes) (a : Opening)
    → x.opening ≡ a
    → is_alternating m ≡ true
    → Explains x o (with_socket x o m a)
unfolding with_socket
with_socket-Explains x o m (refused n) e h = (n, refl, inl e)
with_socket-Explains x o m (opened s) e h =
    subscribed-Explains x o m s h (subscribes o.socket_type) x.subscribing refl

launch-Explains :
    (x : Surroundings) (o : ClientOptions) (b : Start)
    → is_supported b ≡ true
    → Explains x o (launch x o b)
unfolding launch
launch-Explains x o shows_version h = tt
launch-Explains x o (shows_usage help) h = tt
launch-Explains x o unsupported h = cc
launch-Explains x o (runs m) h = elim (Bool-cases (needs_stdin m && not x.stdin)) [
  | inl missing ↦ rw (missing, launch) (ground arith)
  | inr ready ↦ rw (ready, launch) (with_socket-Explains x o m x.opening refl h)
]

-- Whatever the command line is and libzmq answers, `main` never ends for its type of socket: it prints
-- and ends; or has no standard input; or throws the error of opening the socket or of its
-- subscription; or fails for the first endpoint that libzmq refuses, the binds being tried before the
-- connects; or runs its loop with all endpoints open, and then a client that changes between sending and
-- receiving is in exactly one of the two at the end, however long it runs.
pub main-Explains :
    (x : Surroundings) (vars : Option Variables)
    → Explains x (process_command_line vars) (main x vars)
unfolding main
main-Explains x vars =
    launch-Explains x (process_command_line vars) (start (process_command_line vars))
      (start_supported vars)
