-- ===== src/Context/Termination.antt =====
-- Terminating a context.
use zmqpp_pty.Base.{
  ℕ, zero, suc, List, ◌∷◌, ◌≡◌, ◌≢◌, ◌==◌, if◌then◌else◌, ok, err, zmq_internal, arith,
}
use zmqpp_pty.Socket.Transfer.{returned, eintr}
use zmqpp_pty.Context.{Context, null, terminate}

abbrev pub interrupted : ℕ → List ℕ → List ℕ
interrupted zero later = later
interrupted (suc n) later = eintr ∷ interrupted n later

-- However many interrupts come first, `terminate` retries until another answer arrives, and uses
-- up no later one. On success it returns and the context is no longer valid; any other error is
-- thrown and leaves the context as it was.
pub terminate-interrupted :
    (n e : ℕ) (later : List ℕ) (c : Context)
    → e ≢ eintr
    → terminate c (interrupted n (e ∷ later)) ≡ (
        if e == 0
        then (null, returned (ok tt), later)
        else (c, returned (err (zmq_internal e)), later))
unfolding terminate
terminate-interrupted zero e later c h = ground arith
terminate-interrupted (suc n) e later c h = terminate-interrupted n e later c h
