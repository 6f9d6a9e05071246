-- ===== src/Base/Int.antt =====
-- Signed integers over the native numbers, under the library's names (its ℤ stands on the unary ℕ).
-- Sums and orders go through the two parts of an integer, which are numbers. Signed words of 32 and
-- 64 bits are integers that wrap around.
use genia_cpp.Base.{ℕ, suc, ◌+◌, ◌-◌, ◌*◌, ◌%◌, ◌<◌, ◌≤◌, ◌≡◌, arith, leb, ltb, if◌then◌else◌}
use native.Mathlib.Nat.{mod-eq_of_lt}

-- `negsuc n` is -(n + 1).
pub data ℤ : Type 0 where
  pos : ℕ → ℤ
  negsuc : ℕ → ℤ

abbrev pub pos_part : ℤ → ℕ
pos_part (pos n) = n
pos_part (negsuc n) = 0

abbrev pub neg_part : ℤ → ℕ
neg_part (pos n) = 0
neg_part (negsuc n) = suc n

-- a - b, as an integer.
abbrev pub sub_ℕ : ℕ → ℕ → ℤ
sub_ℕ a b = if leb b a then pos (a - b) else negsuc (b - a - 1)

infixl 65 ◌+ℤ◌ ◌-ℤ◌
infixl 70 ◌*ℤ◌
infix 50 ◌≤ℤ◌
unfoldable pub ◌+ℤ◌ : ℤ → ℤ → ℤ
a +ℤ b = sub_ℕ (pos_part a + pos_part b) (neg_part a + neg_part b)

unfoldable pub ◌-ℤ◌ : ℤ → ℤ → ℤ
a -ℤ b = sub_ℕ (pos_part a + neg_part b) (neg_part a + pos_part b)

unfoldable pub ◌*ℤ◌ : ℤ → ℤ → ℤ
a *ℤ b =
    sub_ℕ (pos_part a * pos_part b + neg_part a * neg_part b)
      (pos_part a * neg_part b + neg_part a * pos_part b)

abbrev pub ◌≤ℤ◌ : ℤ → ℤ → Type 0
a ≤ℤ b = pos_part a + neg_part b ≤ pos_part b + neg_part a

-- A signed word that holds the integers from -half on, and below half.
abbrev word_of_pos : ℕ → ℕ → ℤ
word_of_pos half r = if ltb r half then pos r else negsuc (2 * half - 1 - r)

abbrev word_of_neg : ℕ → ℕ → ℤ
word_of_neg half r = if ltb r half then negsuc r else pos (2 * half - 1 - r)

wrapped : ℕ → ℤ → ℤ
wrapped half (pos n) = word_of_pos half (n % (2 * half))
wrapped half (negsuc n) = word_of_neg half (n % (2 * half))

-- `int` and `int64_t`, whose arithmetic wraps around here.
unfoldable pub as_int : ℤ → ℤ
unfolding wrapped
as_int z = wrapped 2147483648 z

unfoldable pub as_i64 : ℤ → ℤ
unfolding wrapped
as_i64 z = wrapped 9223372036854775808 z

word_lem : (half n : ℕ) → n < half → (word_of_pos half n ≡ pos n) × (word_of_neg half n ≡ negsuc n)
word_lem half n h = (ground arith, ground arith)

below_twice : (half n : ℕ) → n < half → n % (2 * half) ≡ n
below_twice half n h = let below : n < 2 * half = omega (arith, h) in mod-eq_of_lt below

wrapped_lem : (half : ℕ) (z : ℤ) → pos_part z < half → neg_part z ≤ half → wrapped half z ≡ z
unfolding wrapped
wrapped_lem half (pos n) h k = rw (below_twice half n h) (word_lem half n h).0
wrapped_lem half (negsuc n) h k =
    let below : n < half = omega (arith, k) in
    rw (below_twice half n below) (word_lem half n below).1

-- An integer in the range is kept.
pub as_int_lem : (z : ℤ) → pos_part z < 2147483648 → neg_part z ≤ 2147483648 → as_int z ≡ z
unfolding as_int
as_int_lem z h k = wrapped_lem 2147483648 z h k

pub as_i64_lem :
    (z : ℤ) → pos_part z < 9223372036854775808 → neg_part z ≤ 9223372036854775808 → as_i64 z ≡ z
unfolding as_i64
as_i64_lem z h k = wrapped_lem 9223372036854775808 z h k
