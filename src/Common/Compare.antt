-- ===== src/Common/Compare.antt =====
-- What `u8ncmp` returns.
use zmqpp_pty.Base.{
  ℕ, zero, suc, ◌≡◌, refl, List, [], ◌∷◌, ltb, ◌==◌, if◌then◌else◌, length, ok, arith,
}
use zmqpp_pty.Common.{matching, counted, u8ncmp}

-- The length of the longest common prefix.
unfoldable pub common : List ℕ → List ℕ → ℕ
common [] v = 0
common (a ∷ u) [] = 0
common (a ∷ u) (b ∷ v) = if a == b then suc (common u v) else 0

common-symmetric : (u v : List ℕ) → common u v ≡ common v u
unfolding common
common-symmetric [] [] = refl
common-symmetric [] (b ∷ v) = refl
common-symmetric (a ∷ u) [] = refl
common-symmetric (a ∷ u) (b ∷ v) = ground (arith, common-symmetric u v)

abbrev shorter : List ℕ → List ℕ → ℕ
shorter u v = if ltb (length u) (length v) then length u else length v

matching_next : (n i a b : ℕ) (u v : List ℕ) → matching n (suc i) (a ∷ u) (b ∷ v) ≡ matching n i u v
unfolding matching
matching_next zero i a b u v = refl
matching_next (suc n) i a b u v = rw (matching_next n (suc i) a b u v) refl

shorter_next : (a b : ℕ) (u v : List ℕ) → shorter (a ∷ u) (b ∷ v) ≡ suc (shorter u v)
shorter_next a b u v = ground arith

shorter_nil : (v : List ℕ) → shorter [] v ≡ 0
shorter_nil v = ground arith

shorter_of_nil : (a : ℕ) (u : List ℕ) → shorter (a ∷ u) [] ≡ 0
shorter_of_nil a u = ground arith

matching-common : (u v : List ℕ) → matching (shorter u v) 0 u v ≡ ok (common u v)
unfolding matching common
matching-common [] v = rw (shorter_nil v) refl
matching-common (a ∷ u) [] = rw (shorter_of_nil a u) refl
matching-common (a ∷ u) (b ∷ v) =
    rw (shorter_next a b u v, matching_next (shorter u v) 0 a b u v, matching-common u v)
      (ground arith)

-- `u8ncmp` returns the length of the longest common prefix of the two arrays less `num_comp`,
-- whichever of the arrays is the smaller one: with the arrays swapped it returns the same number.
pub u8ncmp-common :
    (u1 u2 : List ℕ) (num_comp : ℕ)
    → (u8ncmp u1 u2 (length u1) (length u2) num_comp ≡ ok (counted (common u1 u2) num_comp))
      × (u8ncmp u2 u1 (length u2) (length u1) num_comp
          ≡ u8ncmp u1 u2 (length u1) (length u2) num_comp)
unfolding u8ncmp
u8ncmp-common u1 u2 num_comp =
    rw (matching-common u1 u2, matching-common u2 u1, common-symmetric u2 u1) (refl, refl)
