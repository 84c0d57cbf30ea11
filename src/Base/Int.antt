-- ===== src/Base/Int.antt =====
-- Go's `int` where a program counts below zero: integers over the native numbers.
-- The counters here stay far from the 64-bit bounds, so no wrap-around is modelled.
use Prim.Native.Nat.{ℕ, zero, suc}
use mathlib.Core.Bool.{Bool, true, false}
use ai_inference_managed_by.Base.Tests.{ltb, eqb}

-- `negsuc n` is -(n + 1).
pub data ℤ : Type 0 where
  pos : ℕ → ℤ
  negsuc : ℕ → ℤ

-- i--
abbrev pub pred_ℤ : ℤ → ℤ
pred_ℤ (pos zero) = negsuc zero
pred_ℤ (pos (suc n)) = pos n
pred_ℤ (negsuc n) = negsuc (suc n)

abbrev pub is_zero : ℤ → Bool
is_zero (pos n) = eqb n 0
is_zero (negsuc n) = false

-- i < n
abbrev pub lt_ℕ : ℤ → ℕ → Bool
lt_ℕ (pos i) n = ltb i n
lt_ℕ (negsuc i) n = true

-- The number of rounds of `for k := 1; k <= i; k++`.
abbrev pub pos_part : ℤ → ℕ
pos_part (pos n) = n
pos_part (negsuc n) = 0

-- i <= 0
abbrev pub is_nonpos : ℤ → Bool
is_nonpos (pos n) = eqb n 0
is_nonpos (negsuc n) = true
