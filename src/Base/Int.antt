-- ===== src/Base/Int.antt =====
-- Signed machine integers over the native numbers.
use Prim.Native.Nat.{ℕ, ◌-◌, ◌/◌, ◌%◌, ◌<◌}
use mathlib.Core.Path.{◌≡◌}
use native.Mathlib.Nat.{mod-eq_of_lt}
use native.Mathlib.Omega.{arith}
use zmqpp_pty.Base.Tests.{ltb, if◌then◌else◌}

-- `negsuc n` is -(n + 1).
pub data ℤ : Type 0 where
  pos : ℕ → ℤ
  negsuc : ℕ → ℤ

-- The value of a word of `m` patterns, in two's complement (`static_cast` to the signed type).
abbrev pub to_signed : ℕ → ℕ → ℤ
to_signed m w = if ltb w (m / 2) then pos w else negsuc (m - w - 1)

-- `static_cast` to the unsigned type of `m` patterns: the value modulo `m`.
abbrev pub to_unsigned : ℕ → ℤ → ℕ
to_unsigned m (pos n) = n % m
to_unsigned m (negsuc n) = m - 1 - n % m

-- The range of the signed type of `m` patterns.
abbrev pub Fits : ℕ → ℤ → Type 0
Fits m (pos n) = n < m / 2
Fits m (negsuc n) = n < m / 2

pub to_unsigned-lt : (m : ℕ) (z : ℤ) → 0 < m → to_unsigned m z < m
to_unsigned-lt m (pos n) h = omega arith
to_unsigned-lt m (negsuc n) h = omega arith

pub to_signed-to_unsigned : (m : ℕ) (z : ℤ) → Fits m z → to_signed m (to_unsigned m z) ≡ z
to_signed-to_unsigned m (pos n) h = let e : n % m ≡ n = mod-eq_of_lt (omega arith) in ground arith
to_signed-to_unsigned m (negsuc n) h =
    let e : n % m ≡ n = mod-eq_of_lt (omega arith) in ground arith
