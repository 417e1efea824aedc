-- ===== src/Pty/Main/Outcomes.antt =====
-- How far `main` of zmq_pty_client.cpp comes.
use zmqpp_pty.Base.{◌≢◌, refl, true, List, [], ◌∷◌, Option, none, some, Bytes, Result, ok, err}
use zmqpp_pty.Inet.Memory.{Order}
use zmqpp_pty.Client.{SocketType}
use zmqpp_pty.Pty.{Listener, Flow, goes_on, leaves, blocks}
use zmqpp_pty.Pty.Keeping.{KeepsOne, poll_messages-KeepsOne}
use zmqpp_pty.Pty.Main.{
  World, MainRun, unknown_type, not_set_up, listening, talking, type_of, set_up, setup_calls,
  no_messages, main, after_listening, after_setup, with_type,
}

-- `main` ends in its setup, or in `poll_messages`, which does not return and keeps one message at most.
abbrev pub NeverTalks : MainRun → Type 0
NeverTalks unknown_type = Unit
NeverTalks (not_set_up e) = Unit
NeverTalks (listening out) = KeepsOne [] out
NeverTalks (talking out) = ⊥

listening-NeverTalks :
    (o : Order) (w : World) (out : Listener × Flow)
    → KeepsOne [] out
    → NeverTalks (after_listening o w out)
unfolding after_listening
listening-NeverTalks o w (l, leaves (ok tt)) k = k.1 refl
listening-NeverTalks o w (l, leaves (err e)) k = k
listening-NeverTalks o w (l, goes_on) k = k
listening-NeverTalks o w (l, blocks) k = k

setup-NeverTalks :
    (o : Order) (w : World) (r : Result (Unit {0})) → w.socket ≢ 0 → NeverTalks (after_setup o w r)
unfolding after_setup
setup-NeverTalks o w (err e) real = tt
setup-NeverTalks o w (ok done) real =
    listening-NeverTalks o w _ (poll_messages-KeepsOne o w.socket real true w.rounds no_messages)

type-NeverTalks :
    (o : Order) (w : World) (endpoint : Bytes) (t : Option SocketType)
    → w.socket ≢ 0
    → NeverTalks (with_type o w endpoint t)
unfolding with_type
type-NeverTalks o w endpoint none real = tt
type-NeverTalks o w endpoint (some t) real =
    setup-NeverTalks o w (set_up w.failure (setup_calls t endpoint)) real

-- Whatever its arguments are and libzmq answers, `main` with a socket never reaches the loop that
-- reads and sends lines: it returns for an unknown type, leaves by an exception of its setup, or calls
-- `poll_messages`, which keeps one message at most and never returns: it goes on, waits, or leaves by
-- an exception or in undefined behaviour, which `main` does not stop.
pub main-NeverTalks :
    (o : Order) (w : World) (args : List Bytes) → w.socket ≢ 0 → NeverTalks (main o w args)
unfolding main
main-NeverTalks o w [] real = type-NeverTalks o w _ _ real
main-NeverTalks o w (stype ∷ []) real = type-NeverTalks o w _ (type_of stype) real
main-NeverTalks o w (stype ∷ endpoint ∷ args) real =
    type-NeverTalks o w endpoint (type_of stype) real
