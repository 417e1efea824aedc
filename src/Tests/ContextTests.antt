-- ===== src/Tests/ContextTests.antt =====
-- A destructor that is interrupted once, and one whose context cannot be destroyed.
use zmqpp_pty.Base.{some, [], ◌∷◌, ◌≡◌, refl}
use zmqpp_pty.Context.{Context, destroyed, ends_program, destroy}

abbrev context : Context
context = record { context = some 7 }

destroys :
    (destroy context (4 ∷ 0 ∷ []) ≡ (destroyed, []))
    × (destroy context (14 ∷ []) ≡ (ends_program, []))
unfolding destroy
destroys = (refl, refl)
