-- ===== src/Numbers/Float64/Widths.antt =====
-- src/float64.hpp, `to_exact`: how large the numbers of a decimal are, for the casts of
-- `fraction_to_binary64` and for the 64 bits of an exponent.
use genia_cpp.Base.{ℕ, zero, suc, ◌+◌, ◌*◌, ◌^◌, ◌<◌, ◌≤◌, ◌≡◌, ap, arith}
use genia_cpp.Base.Int.{pos, pos_part, neg_part, ◌+ℤ◌, ◌-ℤ◌}
use genia_cpp.Bignum.Words.{pow_add}
use native.Mathlib.Nat.{
  pow-suc, pow-zero, one-le-pow, pow-le-pow_left, pow-le-pow_right, mul-le-mul_left,
  mul-le-mul_right,
}

pub small_parts :
    (k t : ℕ) → (pos_part (pos 0 -ℤ pos k +ℤ pos t) ≤ t) × (neg_part (pos 0 -ℤ pos k +ℤ pos t) ≤ k)
unfolding ◌-ℤ◌ ◌+ℤ◌
small_parts zero t = ground arith
small_parts (suc k) t = ground arith

pub negative_parts : (k : ℕ) → (pos_part (pos 0 -ℤ pos k) ≡ 0) × (neg_part (pos 0 -ℤ pos k) ≡ k)
unfolding ◌-ℤ◌
negative_parts zero = ground arith
negative_parts (suc k) = ground arith

pub times_pow : (a b n : ℕ) → (a * b) ^ n ≡ a ^ n * b ^ n
times_pow a b zero = rw (pow-zero (a * b), pow-zero a, pow-zero b) (omega arith)
times_pow a b (suc n) =
    rw (pow-suc (a * b) n, pow-suc a n, pow-suc b n)
      (omega (arith, ap (λ (x : ℕ). x * (a * b)) (times_pow a b n)))

ten_powers : (j : ℕ) → 10 ^ j ≤ 2 ^ (j + j + j + j)
ten_powers j =
    let wider : 10 ^ j ≤ 16 ^ j = pow-le-pow_left (omega arith) j in
    omega (
      arith,
      wider,
      times_pow 4 4 j,
      times_pow 2 2 j,
      ap (λ (i : ℕ). i * 4 ^ j) (times_pow 2 2 j),
      ap (λ (i : ℕ). 2 ^ j * 2 ^ j * i) (times_pow 2 2 j),
      pow_add 2 (j + j + j) j,
      ap (λ (i : ℕ). i * 2 ^ j) (pow_add 2 (j + j) j),
      ap (λ (i : ℕ). i * 2 ^ j * 2 ^ j) (pow_add 2 j j),
    )

pub small_product : (m f j : ℕ) → f ≤ 10 → m < 18446744073709551616 → m * f ^ j < 10 ^ (20 + j)
small_product m f j h fits =
    let powers : f ^ j ≤ 10 ^ j = pow-le-pow_left h j in
    omega (
      arith,
      mul-le-mul_left m powers,
      mul-le-mul_right (10 ^ j) fits,
      one-le-pow j 10 (omega arith),
      pow_add 10 20 j,
    )

-- The power of ten that a coefficient keeps is no greater than the coefficient, and all is below 2^w.
pub narrow_top :
    (w t p n total : ℕ)
    → p ≤ t
    → w * 10 ^ t ≡ n
    → n < 10 ^ total
    → w * 10 ^ p < 2 ^ (total + total + total + total)
narrow_top w t p n total h e l =
    let powers : 10 ^ p ≤ 10 ^ t = pow-le-pow_right (omega arith) h in
    omega (arith, mul-le-mul_left w powers, e, l, ten_powers total)

pub narrow_bottom : (q total : ℕ) → q < total → 10 ^ q < 2 ^ (total + total + total + total)
narrow_bottom q total h =
    let powers : 10 ^ suc q ≤ 10 ^ total = pow-le-pow_right (omega arith) h in
    omega (arith, powers, pow-suc 10 q, one-le-pow q 10 (omega arith), ten_powers total)
