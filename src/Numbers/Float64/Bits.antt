-- ===== src/Numbers/Float64/Bits.antt =====
-- src/float64.hpp, `fraction_to_binary64`: the bits of a fraction that is a double.
use genia_cpp.Base.{
  ℕ, zero, suc, ◌+◌, ◌-◌, ◌*◌, ◌%◌, ◌^◌, ◌<◌, ◌≤◌, ◌≡◌, ◌⊎◌, refl, sym, ap, subst, ◌∙◌, Bool, true,
  false, not, compare, arith, dec_lt, if◌then◌else◌, leb, ltb, ◌==◌, Option, none, some, bit_or,
  ◌>>=◌, inl, inr,
}
use genia_cpp.Base.Digits.{bit_or_shifted, bit_or_power, bit_or_zero}
use genia_cpp.Base.Int.{ℤ, pos, pos_part, neg_part, ◌-ℤ◌, ◌+ℤ◌}
use genia_cpp.Bignum.{Integer, is_zero, absolute, bit_length}
use genia_cpp.Bignum.Limbs.{magnitude}
use genia_cpp.Bignum.Canonical.{is_zero_lem, absolute-IsCanonical}
use genia_cpp.Bignum.Words.{to_u64_lem}
use genia_cpp.Bignum.Division.{divmod_positive}
use genia_cpp.Bignum.Division.Quotient.{divmod_magnitude-IsDivMod}
use genia_cpp.Numbers.StandsFor.{
  StandsFor, StandsFor-itself, StandsFor-shift_left, StandsFor-parts, compare_integer-numbers,
}
use genia_cpp.Numbers.Float64.{
  fraction_to_binary64, is_normal, leading_exponent, magnitude_bits, positive_bits, quotient_bits,
  rounded, scale_of, scaled_by, sign_bit,
}
use genia_cpp.Numbers.Float64.Decimals.{product_above, IsRatio}
use genia_cpp.Numbers.Float64.Leading.{IsLeading, leading_exponent_lem, bit_length-le}
use genia_cpp.Numbers.Float64.Scaled.{
  IsDouble, largest_finite_lem, leading_above, leading_below, normal_scale, scaled_by-StandsFor,
  scaled_value, subnormal_scale,
}
use native.Mathlib.Nat.{mul-le-mul_right, one-le-pow}

quotient_unique : (q r m v : ℕ) → m * v ≡ q * v + r → r < v → (q ≡ m) × (r ≡ 0)
quotient_unique q r m v e l = elim (dec_lt q m) [
  | yes h ↦ absurd (omega (arith, e, l, mul-le-mul_right v h))
  | no h ↦ elim (dec_lt m q) [
    | yes k ↦ absurd (omega (arith, e, l, mul-le-mul_right v k))
    | no k ↦
        let same : q ≡ m = omega (arith, h, k) in
        (same, omega (arith, e, ap (λ (t : ℕ). t * v) same))
  ]
]

pub kept_word :
    (positive : Bool) (n m : ℕ)
    → positive ≡ true
    → n ≡ m
    → m < 2 ^ 64
    → (if positive then if ltb n (2 ^ 64) then some n else none else none) ≡ some m
kept_word true n m p e l = ground (arith, e, l)
kept_word false n m p e l = absurd (ground (arith, p))

not_rounded : (m v : ℕ) → 0 < v → rounded m (compare (0 * 2 ^ 1) v) ≡ m
not_rounded m v h = ground (arith, h)

-- A quotient without a remainder is not rounded.
exact_quotient :
    (e : ℤ) (a b : Integer) (m v : ℕ)
    → StandsFor a true (m * v)
    → StandsFor b true v
    → 0 < v
    → 0 < m
    → m < 2 ^ 64
    → quotient_bits e (a, b) ≡ magnitude_bits e m
unfolding divmod_positive
exact_quotient e a b m v ha hb pv pm fits =
    let above = StandsFor-parts a true (m * v) ha (product_above m v pm pv) in
    let below = StandsFor-parts b true v hb pv in
    let division =
      divmod_magnitude-IsDivMod a b ha.canonical hb.canonical
        (subst (λ n. 0 < n) (sym below.1) pv) in
    let q = magnitude (divmod_positive a b).0.limbs in
    let r = magnitude (divmod_positive a b).1.limbs in
    let parts =
      quotient_unique q r m v (sym above.1 ∙ division.value ∙ ap (λ t. q * t + r) below.1)
        (subst (λ n. r < n) below.1 division.below) in
    let word =
      to_u64_lem (divmod_positive a b).0 division.quotient_canonical
      ∙ kept_word _ q m division.positive.0 parts.0 fits in
    let rest = StandsFor-shift_left (divmod_positive a b).1 true 0 1 (
      subst (StandsFor (divmod_positive a b).1 true) parts.1 (
        StandsFor-itself (divmod_positive a b).1 true division.remainder_canonical
          division.positive.1)) in
    rw (word, compare_integer-numbers _ b (0 * 2 ^ 1) v rest hb)
      (ap (magnitude_bits e) (not_rounded m v pv))

-- The fields of the bits: an exponent and the significand without its leading bit.
pub normal_bits_lem :
    (e : ℤ) (m u : ℕ)
    → 2 ^ 52 ≤ m
    → m < 2 ^ 53
    → is_normal e ≡ true
    → pos_part (e +ℤ pos 1023) ≡ suc u
    → ltb 1023 (pos_part e) ≡ false
    → magnitude_bits e m ≡ some (u * 2 ^ 52 + m)
normal_bits_lem e m u l h n b s =
    let not_next : (m == 2 ^ 53) ≡ false = ground (arith, h) in
    let fraction : (m + 2 ^ 64 - 2 ^ 52) % 2 ^ 64 ≡ m - 2 ^ 52 = omega (arith, l, h) in
    rw (n, not_next, s, b, fraction, bit_or_shifted 52 (suc u) (m - 2 ^ 52) (omega (arith, l, h)))
      (ap some (omega (arith, l)))

subnormal_bits_lem :
    (e : ℤ) (m : ℕ) → m < 2 ^ 52 → is_normal e ≡ false → magnitude_bits e m ≡ some m
subnormal_bits_lem e m l n =
    let not_normal : leb (2 ^ 52) m ≡ false = ground (arith, l) in rw (n, not_normal) refl

-- A significand and an exponent as a double has them.
abbrev pub IsSignificand : ℕ → ℕ → Type 0
IsSignificand m u = (0 < m) × (m < 2 ^ 53) × (u ≤ 2045) × ((2 ^ 52 ≤ m) ⊎ ((m < 2 ^ 52) × (u ≡ 0)))

pub top_above : (x y m u bias : ℕ) → IsDouble bias x y m u → 0 < m → 0 < x
top_above zero y m u bias h p = absurd (
    omega (
      arith,
      h.value,
      product_above (m * 2 ^ u) y (product_above m (2 ^ u) p (one-le-pow u 2 (omega arith)))
          h.positive,
    ))
top_above (suc x) y m u bias h p = omega arith

pub guarded :
    {above large : Bool} {r v : Option ℕ}
    → above ≡ false
    → large ≡ false
    → r ≡ v
    → (if above then none else if large then none else r) ≡ v
guarded h k e = rw (h, k) e

module _ (a b : Integer) (x y m u : ℕ) (ha : StandsFor a true x) (hb : StandsFor b true y)
    (sa : bit_length a < 2147483648) (sb : bit_length b < 2147483648) (h : IsDouble 1074 x y m u)
    (s : IsSignificand m u) where
  quotient_lem :
      (e scale : ℤ)
      → pos_part scale + u ≡ neg_part scale + 1074
      → quotient_bits e (scaled_by a b scale) ≡ magnitude_bits e m
  quotient_lem e scale k =
      let scaled = scaled_by-StandsFor a b x y scale ha hb in
      exact_quotient e (scaled_by a b scale).0 (scaled_by a b scale).1 m (y * 2 ^ neg_part scale)
        (subst (StandsFor (scaled_by a b scale).0 true) (scaled_value 1074 x y m u scale h k)
          scaled.0)
        scaled.1
        (product_above y (2 ^ neg_part scale) h.positive
          (one-le-pow (neg_part scale) 2 (omega arith)))
        s.0 (omega (arith, s.1))

  scaled_for :
      (e : ℤ) (normal : Bool)
      → is_normal e ≡ normal
      → quotient_bits e (scaled_by a b (scale_of e))
        ≡ quotient_bits e (scaled_by a b (if normal then pos 52 -ℤ e else pos 1074))
  scaled_for e normal =
      ap (λ n. quotient_bits e (scaled_by a b (if n then pos 52 -ℤ e else pos 1074)))

  exponent_bits :
      (e : ℤ)
      → IsLeading e x y
      → (ltb 1023 (pos_part e) ≡ false)
        × (quotient_bits e (scaled_by a b (scale_of e)) ≡ some (u * 2 ^ 52 + m))
  exponent_bits e leading = elim s.3 [
    | inl l ↦
        let above = leading_above 1074 x y m u 52 h e leading l in
        let below = leading_below 1074 x y m u 53 h e leading s.1 in
        let exponent = normal_scale u e s.2 (omega (arith, above, below)) in
        (
          exponent.3,
          scaled_for e true exponent.0
              ∙ quotient_lem e (pos 52 -ℤ e) exponent.1
              ∙ normal_bits_lem e m u l s.1 exponent.0 exponent.2 exponent.3,
        )
    | inr (l, z) ↦
        let below = leading_below 1074 x y m u 52 h e leading l in
        let exponent = subnormal_scale e (omega (arith, below, z)) in
        (
          exponent.1,
          scaled_for e false exponent.0
              ∙ quotient_lem e (pos 1074) (omega (arith, z))
              ∙ subnormal_bits_lem e m l exponent.0
              ∙ ap some (omega (arith, z)),
        )
  ]

  positive_bits_lem : positive_bits a b ≡ some (u * 2 ^ 52 + m)
  positive_bits_lem =
      let leading =
        leading_exponent_lem a b x y ha hb (top_above x y m u 1074 h s.0) h.positive sa sb in
      let bits = exponent_bits (leading_exponent a b) leading in
      guarded (largest_finite_lem a b x y m u ha hb h (omega (arith, s.1)) s.2) bits.0 bits.1

pub signed_bits :
    (n : ℕ) (negative : Bool) → n < 2 ^ 63 → bit_or n (sign_bit negative) ≡ n + sign_bit negative
signed_bits n false l = bit_or_zero n ∙ omega arith
signed_bits n true l = bit_or_power 63 n l

pub absolute-StandsFor :
    (a : Integer) (s : Bool) (x : ℕ) → StandsFor a s x → 0 < x → StandsFor (absolute a) true x
unfolding absolute
absolute-StandsFor a s x h p =
    subst (StandsFor (absolute a) true) (StandsFor-parts a s x h p).1
      (StandsFor-itself (absolute a) true (absolute-IsCanonical a h.canonical) refl)

-- The fraction of a double is rounded to its bits.
pub fraction_to_binary64_lem :
    (f : Integer × Integer) (s : Bool) (x y m u width : ℕ)
    → IsRatio f s x y
    → IsDouble 1074 x y m u
    → IsSignificand m u
    → x < 2 ^ width
    → y < 2 ^ width
    → width < 2147483648
    → fraction_to_binary64 f.0 f.1 ≡ some (u * 2 ^ 52 + m + sign_bit (not s))
unfolding fraction_to_binary64
fraction_to_binary64_lem f s x y m u width r h k lx ly fits =
    let above = top_above x y m u 1074 h k.0 in
    let parts = StandsFor-parts f.0 s x r.above above in
    let not_zero : is_zero f.0 ≡ false =
      is_zero_lem f.0 r.above.canonical ∙ ground (arith, parts.1, above) in
    let positive = absolute-StandsFor f.0 s x r.above above in
    let narrow_top = bit_length-le (absolute f.0) true x width positive above lx in
    let narrow_bottom = bit_length-le f.1 true y width r.below h.positive ly in
    let bits =
      positive_bits_lem (absolute f.0) f.1 x y m u positive r.below
        (omega (arith, narrow_top, fits)) (omega (arith, narrow_bottom, fits)) h k in
    rw not_zero (
      ap (λ b. b >>= λ n. some (bit_or n (sign_bit (not f.0.positive)))) bits
      ∙ ap (λ p. some (bit_or (u * 2 ^ 52 + m) (sign_bit (not p)))) parts.0
      ∙ ap some (signed_bits (u * 2 ^ 52 + m) (not s) (omega (arith, k.1, k.2))))
