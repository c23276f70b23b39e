-- ===== src/Common/Words.antt =====
-- C's `int` as its 32-bit pattern: a number below 2 ^ 32, negative from 2 ^ 31 on.
use Prim.Native.Nat.{ℕ, ◌+◌, ◌%◌, ◌^◌, ◌≤◌, ◌<◌}
use mathlib.Core.Path.{◌≡◌, refl}
use mathlib.Core.Logic.{◌↔◌}
use mathlib.Core.Bool.{Bool, true, false, ◌&&◌}
use native.Mathlib.Omega.{arith}
use itron_rtos.Common.Tests.{ltb, leb}

-- 2147483647, the greatest `int`
abbrev pub int_max : ℕ
int_max = 2147483647

-- v + 1 on `int`, wrapping
abbrev pub int_succ : ℕ → ℕ
int_succ v = (v + 1) % 4294967296

-- 0 < v
abbrev pub is_positive : ℕ → Bool
is_positive v = ltb 0 v && leb v int_max

-- 0 <= v
abbrev pub is_nonneg : ℕ → Bool
is_nonneg v = leb v int_max

-- Where a pattern stands in the signed order.
unfoldable pub rank : ℕ → ℕ
rank v = (v + 2147483648) % 4294967296

-- a < b and a <= b
abbrev pub int_lt : ℕ → ℕ → Bool
int_lt a b = ltb (rank a) (rank b)

abbrev pub int_le : ℕ → ℕ → Bool
int_le a b = leb (rank a) (rank b)

pub is_positive_range : (v : ℕ) → is_positive v ≡ true → (0 < v) × (v ≤ int_max)
is_positive_range v h = (ground arith, ground arith)

-- Between non-negative values the signed order is that of the numbers.
pub rank-le_iff : (a b : ℕ) → a ≤ int_max → b ≤ int_max → (rank a ≤ rank b) ↔ (a ≤ b)
unfolding rank
rank-le_iff a b ha hb = (λ h. omega arith, λ h. omega arith)

-- -1 < 0 and 0 < 1
rank_order : (int_lt 4294967295 0 ≡ true) × (int_lt 0 1 ≡ true) × (int_lt 1 4294967295 ≡ false)
unfolding rank
rank_order = (refl, refl, refl)

pub rank-lt→lt : (a b : ℕ) → a ≤ int_max → b ≤ int_max → rank a < rank b → a < b
unfolding rank
rank-lt→lt a b ha hb h = omega arith

pub rank-injective : (a b : ℕ) → a < 2 ^ 32 → b < 2 ^ 32 → rank a ≡ rank b → a ≡ b
unfolding rank
rank-injective a b ha hb h = omega arith
