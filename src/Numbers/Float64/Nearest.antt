-- ===== src/Numbers/Float64/Nearest.antt =====
-- src/float64.hpp, `fraction_to_binary64`: the multiple that a fraction is rounded to.
use genia_cpp.Base.{
  ℕ, ◌+◌, ◌-◌, ◌*◌, ◌^◌, ◌<◌, ◌≤◌, ◌≡◌, ◌⊎◌, refl, sym, ap, subst, ◌∙◌, true, false, compare, arith,
  dec_lt, if◌then◌else◌, ltb, some, inl, inr,
}
use genia_cpp.Base.Int.{ℤ, pos, pos_part, neg_part, ◌-ℤ◌}
use genia_cpp.Bignum.{Integer, mul, bit_length}
use genia_cpp.Bignum.Words.{pow_add}
use genia_cpp.Numbers.StandsFor.{StandsFor, StandsFor-mul_positive, compare_integer-numbers}
use genia_cpp.Numbers.Float64.{
  is_above, largest_finite, positive_bits, quotient_bits, rounded, scale_of, scaled_by,
  leading_exponent,
}
use genia_cpp.Numbers.Float64.Decimals.{product_above}
use genia_cpp.Numbers.Float64.Leading.{cancel_lt, IsLeading, leading_exponent_lem}
use genia_cpp.Numbers.Float64.Scaled.{
  exponents_lt, largest-StandsFor, not_above, normal_scale, subnormal_scale, scaled_by-StandsFor,
}
use genia_cpp.Numbers.Float64.Bits.{guarded}
use genia_cpp.Numbers.Float64.Multiples.{IsNearer, rounded-nearest, rounded-le, rounded_ge}
use genia_cpp.Numbers.Float64.Grid.{scaled-lt, scaled-ge, subnormal-lt, double-IsNearer}
use genia_cpp.Numbers.Float64.Rounded.{
  IsRounded, quotient_bits-IsRounded, rounded_bits, subnormal_rounded,
}
use genia_cpp.Numbers.Float64.Encoded.{IsGrid}
use native.Mathlib.Nat.{mul-le-mul_right, one-le-pow}

-- The number that no double is nearer than, with its bits; of two as near, it has the even bits.
pub record IsNearest (a b : Integer) (x y : ℕ) : Type 0 where
  pub g : ℕ
  pub n : ℕ
  pub grid : IsGrid g n
  pub bits : positive_bits a b ≡ some (g * 2 ^ 52 + n)
  pub nearest :
      (m u : ℕ) → m < 9007199254740992 → IsNearer (x * 2 ^ 1074) (n * 2 ^ g * y) (m * 2 ^ u * y) n

finite_grid :
    (g n : ℕ) → g ≤ 2045 → n ≤ 2 ^ 53 → (g ≡ 2045 → n < 2 ^ 53) → g * 2 ^ 52 + n < 2047 * 2 ^ 52
finite_grid g n l h last = elim (dec_lt g 2045) [
  | yes a ↦ omega (arith, a, h)
  | no a ↦ omega (arith, l, last (omega (arith, a, l)))
]

grid_bound :
    (x y g bias j : ℕ)
    → 4503599627370496 * (y * 2 ^ g) ≤ x * 2 ^ bias
    → x ≤ y * (9007199254740991 * 2 ^ j)
    → 0 < y
    → g ≤ j + bias
grid_bound x y g bias j h l p =
    let strict = exponents_lt (52 + g) (53 + (j + bias)) (
      cancel_lt _ _ y (
        omega (
          arith,
          h,
          mul-le-mul_right (2 ^ bias) l,
          ap (λ (i : ℕ). i * y) (pow_add 2 52 g),
          ap (λ (i : ℕ). i * y) (pow_add 2 53 (j + bias)),
          ap (λ (i : ℕ). i * y) (pow_add 2 j bias),
          ap (λ (i : ℕ). 9007199254740991 * i * y) (pow_add 2 j bias),
          product_above (2 ^ (j + bias)) y (one-le-pow (j + bias) 2 (omega arith)) p,
        ))) in
    omega (arith, strict)

last_scaled :
    (x y s t j : ℕ)
    → s + j ≡ t
    → x ≤ y * (9007199254740991 * 2 ^ j)
    → x * 2 ^ s ≤ 9007199254740991 * (y * 2 ^ t)
last_scaled x y s t j e l = omega (
  arith,
  mul-le-mul_right (2 ^ s) l,
  ap (λ (i : ℕ). y * i) (ap (λ (i : ℕ). 2 ^ i) (sym e) ∙ pow_add 2 s j),
)

module _ (a b : Integer) (x y : ℕ) (ha : StandsFor a true x) (hb : StandsFor b true y) (px : 0 < x)
    (py : 0 < y) (sa : bit_length a < 2147483648) (sb : bit_length b < 2147483648)
    (range : x ≤ y * (9007199254740991 * 2 ^ 971)) where
  e : ℤ
  e = leading_exponent a b

  leading : IsLeading e x y
  unfolding e
  leading = leading_exponent_lem a b x y ha hb px py sa sb

  within :
      (n : ℕ)
      → ltb 1023 (pos_part e) ≡ false
      → quotient_bits e (scaled_by a b (scale_of e)) ≡ some n
      → positive_bits a b ≡ some n
  unfolding e
  within n k h =
      guarded
        (ap is_above (
            compare_integer-numbers a (mul b largest_finite) x (y * (9007199254740991 * 2 ^ 971)) ha
              (StandsFor-mul_positive b largest_finite true y (9007199254740991 * 2 ^ 971) hb
                largest-StandsFor))
          ∙ not_above x (y * (9007199254740991 * 2 ^ 971)) range)
        k h

  -- The fraction on a scale.
  on_scale :
      (scale : ℤ)
      → x * 2 ^ pos_part scale < 9007199254740992 * (y * 2 ^ neg_part scale)
      → IsRounded e
          (scaled_by a b scale).0
          (scaled_by a b scale).1
          (x * 2 ^ pos_part scale)
          (y * 2 ^ neg_part scale)
  on_scale scale l =
      let scaled = scaled_by-StandsFor a b x y scale ha hb in
      quotient_bits-IsRounded e (scaled_by a b scale).0 (scaled_by a b scale).1 _ _ scaled.0
        scaled.1
        (product_above x (2 ^ pos_part scale) px (one-le-pow (pos_part scale) 2 (omega arith)))
        (product_above y (2 ^ neg_part scale) py (one-le-pow (neg_part scale) 2 (omega arith))) l

  nearest_scaled :
      (scale : ℤ) (g : ℕ)
      → pos_part scale + g ≡ neg_part scale + 1074
      → (l : x * 2 ^ pos_part scale < 9007199254740992 * (y * 2 ^ neg_part scale))
      → (g ≡ 0) ⊎ (4503599627370496 * (y * 2 ^ neg_part scale) ≤ x * 2 ^ pos_part scale)
      → (r : IsRounded e
          (scaled_by a b scale).0
          (scaled_by a b scale).1
          (x * 2 ^ pos_part scale)
          (y * 2 ^ neg_part scale))
      → (m u : ℕ) → m < 9007199254740992
      → IsNearer
          (x * 2 ^ 1074)
          (rounded r.q (compare (r.r * 2 ^ 1) (y * 2 ^ neg_part scale)) * 2 ^ g * y)
          (m * 2 ^ u * y)
          (rounded r.q (compare (r.r * 2 ^ 1) (y * 2 ^ neg_part scale)))
  nearest_scaled scale g k l low r m u fits =
      double-IsNearer 1074 x y g (pos_part scale) (neg_part scale) _ k
        (λ j.
          subst
            (λ i.
              IsNearer i
                (rounded r.q (compare (r.r * 2 ^ 1) (y * 2 ^ neg_part scale))
                  * (y * 2 ^ neg_part scale))
                (j * (y * 2 ^ neg_part scale))
                (rounded r.q (compare (r.r * 2 ^ 1) (y * 2 ^ neg_part scale))))
            (sym r.value) (rounded-nearest r.q r.r (y * 2 ^ neg_part scale) j r.fits r.below))
        m u py fits low

  normal-IsNearest : (g : ℕ) → pos_part e + 1074 ≡ g + 52 + neg_part e → IsNearest a b x y
  normal-IsNearest g k =
      let at_least = scaled-ge x y e leading g 1074 g (omega arith) k in
      let bound = grid_bound x y g 1074 971 at_least range py in
      let normal = normal_scale g e bound k in
      let scale = pos 52 -ℤ e in
      let s = pos_part scale in
      let t = neg_part scale in
      let below = scaled-lt x y e leading g s t normal.1 k in
      let above = scaled-ge x y e leading g s t normal.1 k in
      let r = on_scale scale below in
      let v = y * 2 ^ t in
      let n = rounded r.q (compare (r.r * 2 ^ 1) v) in
      let low : 4503599627370496 ≤ n =
        rounded_ge r.q r.r v 4503599627370496 r.fits r.below
          (subst (λ i. 4503599627370496 * v ≤ i) r.value above) in
      let high : n ≤ 9007199254740992 =
        rounded-le r.q r.r v 9007199254740992 r.fits r.below
          (subst (λ i. i ≤ 9007199254740992 * v) r.value (omega (arith, below))) in
      let last : g ≡ 2045 → n < 9007199254740992 = λ z. omega (
        arith,
        rounded-le r.q r.r v 9007199254740991 r.fits r.below (
            subst (λ i. i ≤ 9007199254740991 * v) r.value
              (last_scaled x y s t 971 (omega (arith, normal.1, z)) range)),
      ) in
      record {
        g = g;
        n = n;
        grid = record { high = high; finite = finite_grid g n bound high last; low = inl low };
        bits = within (g * 2 ^ 52 + n) normal.3 (
            ap (λ i. quotient_bits e (scaled_by a b (if i then scale else pos 1074))) normal.0
            ∙ r.bits
            ∙ rounded_bits e g n bound k low high last);
        nearest = nearest_scaled scale g normal.1 below (inr above) r;
      }

  subnormal-IsNearest : pos_part e + 1074 < 52 + neg_part e → IsNearest a b x y
  subnormal-IsNearest k =
      let subnormal = subnormal_scale e k in
      let small = subnormal-lt x y e leading k in
      let below : x * 2 ^ 1074 < 9007199254740992 * (y * 2 ^ 0) = omega (arith, small) in
      let r = on_scale (pos 1074) below in
      let v = y * 2 ^ 0 in
      let n = rounded r.q (compare (r.r * 2 ^ 1) v) in
      let high : n ≤ 4503599627370496 =
        rounded-le r.q r.r v 4503599627370496 r.fits r.below
          (subst (λ i. i ≤ 4503599627370496 * v) r.value (omega (arith, small))) in
      record {
        g = 0;
        n = n;
        grid = record { high = omega (arith, high); finite = omega (arith, high); low = inr refl };
        bits = within (0 * 2 ^ 52 + n) subnormal.1 (
            ap (λ i. quotient_bits e (scaled_by a b (if i then pos 52 -ℤ e else pos 1074)))
              subnormal.0
            ∙ r.bits
            ∙ subnormal_rounded e n high subnormal.0
            ∙ ap some (omega arith));
        nearest = nearest_scaled (pos 1074) 0 refl below (inl refl) r;
      }

  pub positive-IsNearest : IsNearest a b x y
  positive-IsNearest = elim (dec_lt (pos_part e + 1074) (52 + neg_part e)) [
    | yes l ↦ subnormal-IsNearest l
    | no n ↦ normal-IsNearest (pos_part e + 1022 - neg_part e) (omega (arith, n))
  ]
