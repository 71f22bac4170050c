-- ===== src/Prelude/Int.antt =====
-- Go's signed integers: the integers over the native numbers, with 64-bit wrap-around.
use Prim.Native.Nat.{ℕ, suc, ◌+◌, ◌-◌, ◌*◌, ◌%◌, ◌≤◌, ◌<◌}
use mathlib.Core.Path.{◌≡◌}
use mathlib.Core.Bool.{Bool}
use native.Mathlib.Omega.{arith}
use cronix.Prelude.Tests.{ltb, leb, if◌then◌else◌}

-- `negsuc n` is -(n + 1).
pub data ℤ : Type 0 where
  pos : ℕ → ℤ
  negsuc : ℕ → ℤ

abbrev pub pos_part : ℤ → ℕ
pos_part (pos n) = n
pos_part (negsuc n) = 0

abbrev pub neg_part : ℤ → ℕ
neg_part (pos n) = 0
neg_part (negsuc n) = suc n

-- a - b, as an integer.
abbrev pub sub_ℕ : ℕ → ℕ → ℤ
sub_ℕ a b = if leb b a then pos (a - b) else negsuc (b - a - 1)

infix 50 ◌≤ℤ◌ ◌<ℤ◌
abbrev pub ◌≤ℤ◌ : ℤ → ℤ → Type 0
a ≤ℤ b = pos_part a + neg_part b ≤ pos_part b + neg_part a

abbrev pub ◌<ℤ◌ : ℤ → ℤ → Type 0
a <ℤ b = pos_part a + neg_part b < pos_part b + neg_part a

-- The tests `a < b` and `a <= b`.
abbrev pub ltℤ : ℤ → ℤ → Bool
ltℤ a b = ltb (pos_part a + neg_part b) (pos_part b + neg_part a)

abbrev pub leℤ : ℤ → ℤ → Bool
leℤ a b = leb (pos_part a + neg_part b) (pos_part b + neg_part a)

-- The value of a word of 64 bits, read as two's complement.
abbrev pub signed : ℕ → ℤ
signed r = if ltb r 9223372036854775808 then pos r else negsuc (18446744073709551616 - r - 1)

-- The word that stands for an integer modulo 2^64.
abbrev pub word : ℤ → ℕ
word (pos n) = n % 18446744073709551616
word (negsuc n) = 18446744073709551615 - n % 18446744073709551616

-- `int64(x)`: the result of an operation on `int64`, wrapped around.
pub int64 : ℤ → ℤ
int64 x = signed (word x)

-- `a - b`, `-a` and `a * n` on `int64`.
unfoldable pub sub64 : ℤ → ℤ → ℤ
unfolding int64
sub64 a b = int64 (sub_ℕ (pos_part a + neg_part b) (pos_part b + neg_part a))

unfoldable pub neg64 : ℤ → ℤ
unfolding int64
neg64 a = int64 (sub_ℕ (neg_part a) (pos_part a))

unfoldable pub mul64 : ℤ → ℕ → ℤ
unfolding int64
mul64 a n = int64 (sub_ℕ (pos_part a * n) (neg_part a * n))

-- No wrap-around where the product fits.
pub mul64_exact : (a n : ℕ) → a * n < 9223372036854775808 → mul64 (pos a) n ≡ pos (a * n)
unfolding mul64 int64
mul64_exact a n h = ground arith

-- No wrap-around in a difference of two non-negative values, nor in its negation.
pub sub64_exact :
    (a b : ℕ)
    → a < 9223372036854775808
    → b < 9223372036854775808
    → sub64 (pos a) (pos b) ≡ sub_ℕ a b
unfolding sub64 int64
sub64_exact a b h k = ground arith

pub neg64_exact : (n : ℕ) → n < 9223372036854775807 → neg64 (negsuc n) ≡ pos (suc n)
unfolding neg64 int64
neg64_exact n h = ground arith

pub int64_exact : (n : ℕ) → n < 9223372036854775808 → int64 (sub_ℕ n 0) ≡ pos n
unfolding int64
int64_exact n h = ground arith
