-- ===== src/Prelude/Int.antt =====
-- Signed integers over the native numbers, and the `int64` of the program.
use Prim.Native.Nat.{ℕ, suc, ◌+◌, ◌-◌, ◌%◌, ◌^◌, ◌≤◌, ◌<◌}
use mathlib.Core.Path.{◌≡◌}
use mathlib.Core.Bool.{Bool, true, false}
use native.Mathlib.Omega.{arith}
use corv_client.Prelude.Tests.{ltb, leb, if◌then◌else◌}

-- `negsuc n` is -(n + 1).
pub data ℤ : Type 0 where
  pos : ℕ → ℤ
  negsuc : ℕ → ℤ

abbrev pub pos_part : ℤ → ℕ
pos_part (pos n) = n
pos_part (negsuc n) = 0

abbrev pub neg_part : ℤ → ℕ
neg_part (pos n) = 0
neg_part (negsuc n) = suc n

-- a - b, as an integer.
abbrev pub sub_ℕ : ℕ → ℕ → ℤ
sub_ℕ a b = if leb b a then pos (a - b) else negsuc (b - a - 1)

infixl 65 ◌+ℤ◌
unfoldable pub ◌+ℤ◌ : ℤ → ℤ → ℤ
a +ℤ b = sub_ℕ (pos_part a + pos_part b) (neg_part a + neg_part b)

abbrev pub ltb_ℤ : ℤ → ℤ → Bool
ltb_ℤ a b = ltb (pos_part a + neg_part b) (pos_part b + neg_part a)

-- `a == b`.
abbrev pub eq_ℤ : ℤ → ℤ → Bool
eq_ℤ a b = if ltb_ℤ a b then false else if ltb_ℤ b a then false else true

-- `int64` arithmetic wraps: the representative of an integer in -2^63 .. 2^63 - 1.
abbrev pub signed64 : ℕ → ℤ
signed64 m = if ltb m (2 ^ 63) then pos m else negsuc (2 ^ 64 - m - 1)

unfoldable pub wrap64 : ℤ → ℤ
wrap64 (pos n) = signed64 (n % 2 ^ 64)
wrap64 (negsuc n) = signed64 (2 ^ 64 - 1 - n % 2 ^ 64)

-- The sum of two `int64`.
unfoldable pub add64 : ℤ → ℤ → ℤ
unfolding wrap64 ◌+ℤ◌
add64 a b = wrap64 (a +ℤ b)

-- A sum that fits is exact, and a sum of two numbers that does not fit turns negative.
pub add64_fits : (a b : ℕ) → a + b < 2 ^ 63 → add64 (pos a) (pos b) ≡ pos (a + b)
unfolding add64
add64_fits a b h = ground arith

pub add64_overflow :
    (a b : ℕ)
    → a < 2 ^ 63
    → b < 2 ^ 63
    → 2 ^ 63 ≤ a + b
    → ltb_ℤ (add64 (pos a) (pos b)) (pos 0) ≡ true
unfolding add64
add64_overflow a b ha hb h = ground arith
