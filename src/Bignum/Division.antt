-- ===== src/Bignum/Division.antt =====
-- src/bignum.hpp: long division bit by bit, and what rests on it: `divmod_positive`,
-- `floor_remainder`, `exact_divide` and `gcd`.
pub mod Quotient
pub mod Floor
pub mod Exact
pub mod Gcd
use genia_cpp.Base.{
  ℕ, zero, suc, ◌+◌, ◌/◌, ◌%◌, ◌^◌, true, Option, none, some, List, [], ◌∷◌, ◌==◌, if◌then◌else◌,
}
use genia_cpp.Bignum.{
  Integer, zero_integer, is_zero, normalize, from_u64, absolute, negate, compare_magnitude,
  at_least, add_magnitude, sub_magnitude, shift_left_one_bit, add, same,
}
use genia_cpp.Bignum.Limbs.{magnitude}

-- `current` takes the next bit of the dividend.
unfoldable pub push_bit : Integer → ℕ → Integer
push_bit current bit_value =
    if bit_value == 0
    then shift_left_one_bit current
    else add_magnitude (shift_left_one_bit current) (from_u64 1)

-- One round of the loop over the bits: the new remainder, and the limb of the quotient. Its bit
-- `weight` is still clear, so that `|=` adds.
unfoldable pub divide_bit : Integer → ℕ → ℕ → Integer × ℕ → Integer × ℕ
divide_bit divisor weight bit_value (current, quotient) =
    let pushed = push_bit current bit_value in
    if at_least (compare_magnitude pushed (absolute divisor))
    then (sub_magnitude pushed (absolute divisor), quotient + weight)
    else (pushed, quotient)

-- `for (int bit = 31; bit >= 0; --bit)`: the argument is the number of bits left.
unfoldable pub divide_limb : Integer → ℕ → ℕ → Integer × ℕ → Integer × ℕ
divide_limb divisor zero limb state = state
divide_limb divisor (suc bit) limb state =
    divide_limb divisor bit limb (divide_bit divisor (2 ^ bit) (limb / 2 ^ bit % 2) state)

-- The loop over the limbs from the highest down; a quotient limb starts at 0.
unfoldable pub divide_limbs : Integer → List ℕ → Integer × List ℕ
divide_limbs divisor [] = (zero_integer, [])
divide_limbs divisor (limb ∷ limbs) =
    let (current, quotient) = divide_limbs divisor limbs in
    let (current', digit) = divide_limb divisor 32 limb (current, 0) in (current', digit ∷ quotient)

-- Quotient and remainder of the magnitudes.
unfoldable pub divmod_magnitude : Integer → Integer → Integer × Integer
divmod_magnitude dividend divisor =
    let (current, quotient) = divide_limbs divisor dividend.limbs in
    if at_least (compare_magnitude dividend divisor)
    then (normalize (record { limbs = quotient; positive = true }), normalize (absolute current))
    else (zero_integer, absolute dividend)

unfoldable pub divmod_positive : Integer → Integer → Integer × Integer
divmod_positive dividend divisor = divmod_magnitude dividend divisor

-- The remainder with the sign of the dividend becomes the floor remainder.
unfoldable pub floor_sign : Integer → Integer → Integer → Integer
floor_sign a b truncating_remainder =
    if is_zero truncating_remainder
    then truncating_remainder
    else if same a.positive b.positive
    then truncating_remainder
    else add truncating_remainder b

unfoldable pub floor_remainder : Integer → Integer → Option Integer
floor_remainder a b =
    if is_zero b
    then none
    else if is_zero a
    then some zero_integer
    else some
        (floor_sign a b (normalize (record (divmod_magnitude a b).1 { positive = a.positive })))

unfoldable pub exact_divide : Integer → Integer → Option Integer
exact_divide a b =
    if is_zero b
    then none
    else if is_zero a
    then some zero_integer
    else if is_zero (divmod_magnitude a b).1
    then some
        (normalize (record (divmod_magnitude a b).0 { positive = same a.positive b.positive }))
    else none

abbrev pub value_or {ℓ} : {A : Type ℓ} → Option A → A → A
value_or none d = d
value_or (some a) d = a

-- `while (!b.is_zero())`. The remainder falls, so that a round for each unit of `b` is enough
-- (Bignum/Gcd); without fuel the loop would stop early.
unfoldable pub gcd_loop : ℕ → Integer → Integer → Integer
gcd_loop zero a b = a
gcd_loop (suc fuel) a b =
    let rest = gcd_loop fuel b (value_or (floor_remainder a b) zero_integer) in
    if is_zero b then a else rest

unfoldable pub gcd : Integer → Integer → Integer
gcd a b =
    let a' = if a.positive then a else negate a in
    let b' = if b.positive then b else negate b in gcd_loop (suc (magnitude b'.limbs)) a' b'
