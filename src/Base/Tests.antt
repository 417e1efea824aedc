-- ===== src/Base/Tests.antt =====
-- Boolean tests on the native numbers and on byte strings, and the conditional.
use Prim.Native.Nat.{ℕ, compare, Ordering}
use mathlib.Core.Path.{◌≡◌, refl}
use mathlib.Core.Logic.{◌↔◌, ◌⊎◌, inl, inr}
use mathlib.Core.Bool.{Bool, true, false, ◌&&◌}
use mathlib.Core.List.{List, [], ◌∷◌}
use mathlib.Core.Option.{Option, none, some}
use native.Mathlib.Omega.{arith}

abbrev pub ltb : ℕ → ℕ → Bool
ltb a b = elim (compare a b) [ Ordering.lt ↦ true | _ ↦ false ]

abbrev pub leb : ℕ → ℕ → Bool
leb a b = elim (compare a b) [ Ordering.gt ↦ false | _ ↦ true ]

infix 50 ◌==◌
abbrev pub ◌==◌ : ℕ → ℕ → Bool
a == b = elim (compare a b) [ Ordering.eq ↦ true | _ ↦ false ]

infix 1 if◌then◌else◌
abbrev pub if◌then◌else◌ {ℓ} : {A : Type ℓ} → Bool → A → A → A
if true then x else y = x
if false then x else y = y

pub ==_iff : (a b : ℕ) → ((a == b) ≡ true) ↔ (a ≡ b)
==_iff a b = ground arith

pub ==_refl : (a : ℕ) → (a == a) ≡ true
==_refl a = ground arith

-- To split on a computed value and keep the equation.
pub Bool-cases : (b : Bool) → (b ≡ true) ⊎ (b ≡ false)
Bool-cases true = inl refl
Bool-cases false = inr refl

pub Option-cases {ℓ} : {A : Type ℓ} (o : Option A) → (o ≡ none) ⊎ ((a : A) × (o ≡ some a))
Option-cases none = inl refl
Option-cases (some a) = inr (a, refl)

-- `std::string` and byte buffers: the codes of their bytes.
abbrev pub Bytes : Type 0
Bytes = List ℕ

-- `==` on `std::string`.
infix 50 ◌=ˢ◌
unfoldable pub ◌=ˢ◌ : Bytes → Bytes → Bool
[] =ˢ [] = true
[] =ˢ (y ∷ ys) = false
(x ∷ xs) =ˢ [] = false
(x ∷ xs) =ˢ (y ∷ ys) = x == y && (xs =ˢ ys)

pub =ˢ_refl : (s : Bytes) → (s =ˢ s) ≡ true
unfolding ◌=ˢ◌
=ˢ_refl [] = refl
=ˢ_refl (x ∷ xs) = ground (arith, =ˢ_refl xs)

pub =ˢ_eq : (s t : Bytes) → (s =ˢ t) ≡ true → s ≡ t
unfolding ◌=ˢ◌
=ˢ_eq [] [] h = refl
=ˢ_eq [] (y ∷ ys) h = cc
=ˢ_eq (x ∷ xs) [] h = cc
=ˢ_eq (x ∷ xs) (y ∷ ys) h = ground (arith, =ˢ_eq xs ys)
