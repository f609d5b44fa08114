-- ===== src/Common/Integers.antt =====
-- Whole numbers over the native naturals: amounts in cents may be negative.
use Prim.Native.Nat.{ℕ, zero, suc, ◌+◌, ◌-◌, ◌*◌}
use mathlib.Core.Bool.{Bool, true, false}
use proyecto.Common.Tests.{ltb, leb, if◌then◌else◌}

pub data ℤ : Type 0 where
  pos : ℕ → ℤ
  negsuc : ℕ → ℤ  -- -(n + 1)

abbrev pub neg : ℕ → ℤ
neg zero = pos zero
neg (suc n) = negsuc n

-- m - n
abbrev pub subtract : ℕ → ℕ → ℤ
subtract m n = if leb n m then pos (m - n) else neg (n - m)

infixl 6 ◌+ℤ◌ ◌-ℤ◌
abbrev pub ◌+ℤ◌ : ℤ → ℤ → ℤ
pos m +ℤ pos n = pos (m + n)
pos m +ℤ negsuc n = subtract m (suc n)
negsuc m +ℤ pos n = subtract n (suc m)
negsuc m +ℤ negsuc n = negsuc (suc (m + n))

abbrev pub opposite : ℤ → ℤ
opposite (pos n) = neg n
opposite (negsuc n) = pos (suc n)

abbrev pub ◌-ℤ◌ : ℤ → ℤ → ℤ
a -ℤ b = a +ℤ opposite b

-- a · n
abbrev pub scale : ℕ → ℤ → ℤ
scale n (pos m) = pos (m * n)
scale n (negsuc m) = neg (suc m * n)

abbrev pub lt : ℤ → ℤ → Bool
lt (pos m) (pos n) = ltb m n
lt (pos m) (negsuc n) = false
lt (negsuc m) (pos n) = true
lt (negsuc m) (negsuc n) = ltb n m
