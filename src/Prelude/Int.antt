-- ===== src/Prelude/Int.antt =====
-- The integers of math/big as far as the program looks at them: sign, magnitude and order.
use Prim.Native.Nat.{ℕ, suc}
use mathlib.Core.Bool.{Bool, true, false}
use averlock.Prelude.Tests.{◌==◌}

-- `negsuc n` is -(n + 1)
pub data ℤ : Type 0 where
  pos : ℕ → ℤ
  negsuc : ℕ → ℤ

-- `x.Sign() < 0`
abbrev pub is_neg : ℤ → Bool
is_neg (pos _) = false
is_neg (negsuc _) = true

-- `x.Sign() <= 0`
abbrev pub is_nonpos : ℤ → Bool
is_nonpos (pos n) = n == 0
is_nonpos (negsuc _) = true

-- the magnitude
abbrev pub abs : ℤ → ℕ
abs (pos n) = n
abs (negsuc n) = suc n
