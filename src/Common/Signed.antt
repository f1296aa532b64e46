-- ===== src/Common/Signed.antt =====
-- Go's `int64`: integers over the native numbers, and arithmetic that wraps to 64 bits.
use Prim.Native.Nat.{ℕ, suc, ◌+◌, ◌-◌, ◌/◌, ◌%◌, ◌^◌, ◌≤◌, ◌<◌}
use llm_pico.Common.{◌==◌, false}
use llm_pico.Common.Tests.{ltb, leb, if◌then◌else◌}
use mathlib.Core.Bool.{Bool}
use mathlib.Core.Path.{◌≡◌}
use native.Mathlib.Omega.{arith}

-- `negsuc n` is -(n + 1).
pub data ℤ : Type 0 where
  pos : ℕ → ℤ
  negsuc : ℕ → ℤ

abbrev pub pos_part : ℤ → ℕ
pos_part (pos n) = n
pos_part (negsuc n) = 0

abbrev pub neg_part : ℤ → ℕ
neg_part (pos n) = 0
neg_part (negsuc n) = suc n

-- a - b, as an integer.
abbrev pub sub_ℕ : ℕ → ℕ → ℤ
sub_ℕ a b = if leb b a then pos (a - b) else negsuc (b - a - 1)

abbrev pub half_range : ℕ
half_range = 2 ^ 63

abbrev pub full_range : ℕ
full_range = 2 ^ 64

-- The signed value of a 64-bit pattern.
abbrev pub of_pattern : ℕ → ℤ
of_pattern u = if ltb u half_range then pos u else negsuc (full_range - 1 - u)

-- An integer taken into the range of `int64`, as hardware addition does.
unfoldable pub wrap64 : ℤ → ℤ
wrap64 (pos n) = of_pattern (n % full_range)
wrap64 (negsuc n) = of_pattern (full_range - 1 - n % full_range)

unfoldable pub add64 : ℤ → ℤ → ℤ
add64 a b = wrap64 (sub_ℕ (pos_part a + pos_part b) (neg_part a + neg_part b))

unfoldable pub sub64 : ℤ → ℤ → ℤ
sub64 a b = wrap64 (sub_ℕ (pos_part a + neg_part b) (neg_part a + pos_part b))

abbrev pub ltb_ℤ : ℤ → ℤ → Bool
ltb_ℤ a b = ltb (pos_part a + neg_part b) (pos_part b + neg_part a)

abbrev pub eq_ℤ : ℤ → ℤ → Bool
eq_ℤ (pos m) (pos n) = m == n
eq_ℤ (negsuc m) (negsuc n) = m == n
eq_ℤ _ _ = false

-- The built-in `max(0, a)`.
abbrev pub max_zero : ℤ → ℤ
max_zero (pos n) = pos n
max_zero (negsuc n) = pos 0

-- Division by a positive constant truncates towards zero.
abbrev pub quot : ℤ → ℕ → ℤ
quot (pos n) k = pos (n / k)
quot (negsuc n) k = sub_ℕ 0 (suc n / k)

-- Below 2 ^ 63 the operations are exact.
pub add64-pos : (a b : ℕ) → a + b < half_range → add64 (pos a) (pos b) ≡ pos (a + b)
unfolding add64 wrap64
add64-pos a b h = ground arith

pub sub64-pos : (a b : ℕ) → a < half_range → b ≤ a → sub64 (pos a) (pos b) ≡ pos (a - b)
unfolding sub64 wrap64
sub64-pos a b h k = ground arith

pub sub64-neg : (a b : ℕ) → b < half_range → a < b → sub64 (pos a) (pos b) ≡ negsuc (b - a - 1)
unfolding sub64 wrap64
sub64-neg a b h k = ground arith

-- What `max(0, a - b)` computes for values of the range: truncated subtraction.
pub max_zero-sub64 :
    (a b : ℕ) → a < half_range → b < half_range → max_zero (sub64 (pos a) (pos b)) ≡ pos (a - b)
unfolding sub64 wrap64
max_zero-sub64 a b h k = ground arith

-- The sum of a count and a difference of two counts, cut off at zero.
pub max_zero-add64-sub64 :
    (c a b : ℕ)
    → c + a < half_range
    → b < half_range
    → max_zero (add64 (pos c) (sub64 (pos a) (pos b))) ≡ pos (c + a - b)
unfolding add64 sub64 wrap64
max_zero-add64-sub64 c a b h k = ground arith

pub max_zero-add64_neg :
    (c d : ℕ)
    → c < half_range
    → d < half_range - 1
    → max_zero (add64 (pos c) (negsuc d)) ≡ pos (c - suc d)
unfolding add64 wrap64
max_zero-add64_neg c d h k = ground arith
