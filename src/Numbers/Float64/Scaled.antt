-- ===== src/Numbers/Float64/Scaled.antt =====
-- src/float64.hpp, `fraction_to_binary64`: the exponent, the scale and the quotient of a fraction that
-- is a significand times a power of two.
use genia_cpp.Base.{
  ℕ, suc, ◌+◌, ◌*◌, ◌^◌, ◌<◌, ◌≤◌, ◌≡◌, sym, ap, subst, ◌∙◌, true, false, compare, arith, dec_lt,
  ltb,
}
use genia_cpp.Base.Int.{ℤ, pos, negsuc, pos_part, neg_part, ◌-ℤ◌, ◌+ℤ◌}
use genia_cpp.Bignum.{Integer, compare_integer, mul, from_u64}
use genia_cpp.Bignum.Words.{pow_add}
use genia_cpp.Numbers.StandsFor.{
  StandsFor, StandsFor-shift_left, compare_integer-numbers, StandsFor-from_u64,
  StandsFor-mul_positive,
}
use genia_cpp.Numbers.Float64.{is_above, is_normal, scaled_by, largest_finite}
use genia_cpp.Numbers.Float64.Leading.{IsLeading, cancel_lt}
use genia_cpp.Numbers.Float64.Decimals.{cancel, product_above}
use native.Mathlib.Nat.{
  pow-zero, pow-suc, mul-le-mul_left, mul-le-mul_right, one-le-pow, pow-le-pow_right,
  le_of_mul-le-mul_right,
}

-- x / y is m * 2^(u - bias).
pub record IsDouble (bias x y m u : ℕ) : Type 0 where
  pub positive : 0 < y
  pub value : x * 2 ^ bias ≡ m * 2 ^ u * y

pub exponents_lt : (a b : ℕ) → 2 ^ a < 2 ^ b → a < b
exponents_lt a b h = elim (dec_lt a b) [
  | yes l ↦ l
  | no n ↦
      let flipped : b ≤ a = omega (arith, n) in
      absurd (omega (arith, h, pow-le-pow_right {n = 2} (omega arith) flipped))
]

module _ (bias x y m u w : ℕ) (h : IsDouble bias x y m u) (e : ℤ) (leading : IsLeading e x y) where
  p : ℕ
  p = pos_part e

  q : ℕ
  q = neg_part e

  rest : ℕ
  rest = 2 ^ u * 2 ^ q

  rest-above : 0 < rest * y
  unfolding rest
  rest-above =
      product_above (2 ^ u * 2 ^ q) y
        (product_above (2 ^ u) (2 ^ q) (one-le-pow u 2 (omega arith))
          (one-le-pow q 2 (omega arith)))
        h.positive

  powers : 2 ^ (u + w + q) ≡ 2 ^ w * rest
  unfolding rest
  powers = omega (arith, pow_add 2 (u + w) q, ap (λ (t : ℕ). t * 2 ^ q) (pow_add 2 u w))

  -- The exponent is below that of a bound of the significand.
  pub leading_below : m < 2 ^ w → pos_part e + bias < u + w + neg_part e
  unfolding rest p q
  leading_below l = exponents_lt (p + bias) (u + w + q) (
      cancel_lt (2 ^ (p + bias)) (2 ^ (u + w + q)) y (
        omega (
          arith,
          ap (λ (t : ℕ). t * y) (pow_add 2 p bias),
          ap (λ (t : ℕ). t * y) powers,
          mul-le-mul_right (2 ^ bias) leading.0,
          ap (λ (t : ℕ). t * 2 ^ q) h.value,
          mul-le-mul_right (rest * y) l,
          rest-above,
        )))

  pub leading_above : 2 ^ w ≤ m → u + w + neg_part e ≤ pos_part e + bias
  unfolding rest p q
  leading_above l =
      let strict = exponents_lt (u + w + q) (suc (p + bias)) (
        cancel_lt (2 ^ (u + w + q)) (2 ^ suc (p + bias)) y (
          omega (
            arith,
            ap (λ (t : ℕ). t * y) (pow-suc 2 (p + bias)),
            ap (λ (t : ℕ). t * y) (pow_add 2 p bias),
            ap (λ (t : ℕ). t * y) powers,
            mul-le-mul_right (2 ^ bias) leading.1,
            ap (λ (t : ℕ). t * 2 ^ q) h.value,
            mul-le-mul_right (rest * y) l,
            one-le-pow bias 2 (omega arith),
          ))) in
      omega (arith, strict)

-- The scaled fraction is the significand.
pub scaled_value :
    (bias x y m u : ℕ) (scale : ℤ)
    → IsDouble bias x y m u
    → pos_part scale + u ≡ neg_part scale + bias
    → x * 2 ^ pos_part scale ≡ m * (y * 2 ^ neg_part scale)
scaled_value bias x y m u scale h e =
    let s = pos_part scale in
    let t = neg_part scale in
    cancel (x * 2 ^ pos_part scale) (m * (y * 2 ^ neg_part scale)) (2 ^ bias)
      (one-le-pow bias 2 (omega arith))
      (omega (
        arith,
        ap (λ (i : ℕ). i * 2 ^ s) h.value,
        ap (λ (i : ℕ). m * y * i)
            (sym (pow_add 2 s u) ∙ ap (λ (i : ℕ). 2 ^ i) e ∙ pow_add 2 t bias),
      ))

pub scaled_by-StandsFor :
    (a b : Integer) (x y : ℕ) (scale : ℤ)
    → StandsFor a true x
    → StandsFor b true y
    → StandsFor (scaled_by a b scale).0 true (x * 2 ^ pos_part scale)
      × StandsFor (scaled_by a b scale).1 true (y * 2 ^ neg_part scale)
scaled_by-StandsFor a b x y (pos k) ha hb = (
  StandsFor-shift_left a true x k ha,
  subst (StandsFor b true) (omega (arith, ap (λ (t : ℕ). y * t) (pow-zero 2))) hb,
)
scaled_by-StandsFor a b x y (negsuc k) ha hb = (
  subst (StandsFor a true) (omega (arith, ap (λ (t : ℕ). x * t) (pow-zero 2))) ha,
  StandsFor-shift_left b true y (suc k) hb,
)

-- A normal exponent, with the scale that it has.
pub normal_scale :
    (u : ℕ) (e : ℤ)
    → u ≤ 2045
    → pos_part e + 1074 ≡ u + 52 + neg_part e
    → (is_normal e ≡ true)
      × (pos_part (pos 52 -ℤ e) + u ≡ neg_part (pos 52 -ℤ e) + 1074)
      × (pos_part (e +ℤ pos 1023) ≡ suc u)
      × (ltb 1023 (pos_part e) ≡ false)
unfolding ◌-ℤ◌ ◌+ℤ◌
normal_scale u (pos k) l e =
    (ground arith, ground (arith, e), ground (arith, e), ground (arith, e, l))
normal_scale u (negsuc k) l e =
    (ground (arith, e), ground (arith, e), ground (arith, e), ground arith)

pub subnormal_scale :
    (e : ℤ)
    → pos_part e + 1074 < 52 + neg_part e
    → (is_normal e ≡ false) × (ltb 1023 (pos_part e) ≡ false)
subnormal_scale (pos k) l = absurd (omega (arith, l))
subnormal_scale (negsuc k) l = (ground (arith, l), ground arith)

pub largest-StandsFor : StandsFor largest_finite true (9007199254740991 * 2 ^ 971)
unfolding largest_finite
largest-StandsFor =
    StandsFor-shift_left (from_u64 9007199254740991) true 9007199254740991 971
      (StandsFor-from_u64 9007199254740991 (omega arith))

pub not_above : (m n : ℕ) → m ≤ n → is_above (compare m n) ≡ false
not_above m n h = ground arith

bounded :
    (bias x y m u c j : ℕ) → IsDouble bias x y m u → m ≤ c → u ≤ j + bias → x ≤ y * (c * 2 ^ j)
bounded bias x y m u c j h l k =
    le_of_mul-le-mul_right
      (omega (
        arith,
        h.value,
        mul-le-mul_right (2 ^ u * y) l,
        mul-le-mul_left (c * y) (pow-le-pow_right {n = 2} (omega arith) k),
        ap (λ (t : ℕ). c * y * t) (pow_add 2 j bias),
      ))
      (one-le-pow bias 2 (omega arith))

-- A double is not above the largest one.
pub largest_finite_lem :
    (a b : Integer) (x y m u : ℕ)
    → StandsFor a true x
    → StandsFor b true y
    → IsDouble 1074 x y m u
    → m ≤ 9007199254740991
    → u ≤ 2045
    → is_above (compare_integer a (mul b largest_finite)) ≡ false
largest_finite_lem a b x y m u ha hb h l k =
    rw
      (compare_integer-numbers a (mul b largest_finite) x (y * (9007199254740991 * 2 ^ 971)) ha (
        StandsFor-mul_positive b largest_finite true y (9007199254740991 * 2 ^ 971) hb
          largest-StandsFor))
      (not_above x (y * (9007199254740991 * 2 ^ 971))
        (bounded 1074 x y m u 9007199254740991 971 h l (omega (arith, k))))
