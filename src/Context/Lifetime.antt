-- ===== src/Context/Lifetime.antt =====
-- What a context object becomes from its construction over moves to its destruction.
use zmqpp_pty.Base.{
  ℕ, Bool, true, false, some, List, ◌∷◌, ◌≡◌, ◌≢◌, refl, ap, ◌∙◌, ◌==◌, if◌then◌else◌, ok, err,
  zmq_internal,
}
use zmqpp_pty.Socket.Transfer.{Call, returned, eintr}
use zmqpp_pty.Context.{
  Context, null, move_construct, move_assign, destroy, Destruction, destroyed, ends_program,
  destruction,
}
use zmqpp_pty.Context.Termination.{interrupted, terminate-interrupted}

abbrev finish : Context × Call (Unit {0}) × List ℕ → Destruction × List ℕ
finish out = (destruction out.1, out.2)

destroy_made :
    (n e c : ℕ) (later : List ℕ)
    → e ≢ eintr
    → destroy (record { context = some c }) (interrupted n (e ∷ later))
      ≡ ((if e == 0 then destroyed else ends_program), later)
unfolding destroy
destroy_made n e c later h =
    ap finish (terminate-interrupted n e later (record { context = some c }) h) ∙ ended (e == 0)
  where
    ended :
        (b : Bool)
        → finish (
            if b
            then (null, returned (ok tt), later)
            else (record { context = some c }, returned (err (zmq_internal e)), later))
          ≡ ((if b then destroyed else ends_program), later)
    ended true = refl
    ended false = refl

-- A context that was made ends with one object: after a move construction, and after a move assignment
-- to another object, the destructor of the source calls nothing, or terminates the context that the
-- target had; that of the new owner calls `zmq_ctx_destroy` until it is not interrupted, and an error
-- then ends the program.
pub destroy-move :
    (n e c d : ℕ) (later : List ℕ)
    → e ≢ eintr
    → let made : Context = record { context = some c } in
      let moved = move_construct made in
      let assigned = move_assign (record { context = some d }) moved.0 in
      let ended : Destruction × List ℕ = ((if e == 0 then destroyed else ends_program), later) in
      (destroy moved.1 later ≡ (destroyed, later))
      × (destroy moved.0 (interrupted n (e ∷ later)) ≡ ended)
      × (assigned.0 ≡ made)
      × (destroy assigned.1 (interrupted n (e ∷ later)) ≡ ended)
unfolding move_construct move_assign destroy
destroy-move n e c d later h = (refl, destroy_made n e c later h, refl, destroy_made n e d later h)
