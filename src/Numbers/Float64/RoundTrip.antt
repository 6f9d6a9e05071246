-- ===== src/Numbers/Float64/RoundTrip.antt =====
-- src/float64.hpp: the decimal that `to_exact` makes of a double, and `from_exact` on it.
use genia_cpp.Base.{
  ℕ, ◌+◌, ◌-◌, ◌*◌, ◌^◌, ◌<◌, ◌≤◌, ◌≡◌, refl, sym, ap, subst, ◌∙◌, Bool, true, false, not, arith,
  if◌then◌else◌, ◌==◌, some, Bool-cases, inl, inr,
}
use genia_cpp.Base.Int.{ℤ, pos}
use genia_cpp.Bignum.{Integer, is_zero, is_empty, zero_integer}
use genia_cpp.Values.Value.{Value}
use genia_cpp.Numbers.Fractions.{
  exact_family_numerator_denominator, float_biased, float_fraction, float_sign,
  is_exact_family_kind, mul_times,
}
use genia_cpp.Numbers.Float64.{
  Converted, dyadic_decimal, finite_to_exact, fraction_to_binary64, from_exact, float_of, is_finite,
  is_zero_double, sign_bit, to_exact,
}
use genia_cpp.Numbers.Float64.Decimals.{cancel, dyadic-IsDyadic, IsDyadic, IsRatio}
use genia_cpp.Numbers.Float64.Bits.{IsSignificand, fraction_to_binary64_lem}
use genia_cpp.Numbers.Float64.Scaled.{IsDouble}

IsDyadic-IsDouble :
    (bias : ℕ) (d : Value) (g : Integer × Integer) (s : Bool) (m u : ℕ)
    → (h : IsDyadic bias d g s m u) → IsDouble bias h.decimal.top h.decimal.bottom m u
IsDyadic-IsDouble bias d g s m u h = record {
  positive = h.decimal.positive;
  value = cancel (h.decimal.top * 2 ^ bias) (m * 2 ^ u * h.decimal.bottom) h.power h.positive (
      omega (
        arith,
        ap (λ (t : ℕ). t * 2 ^ bias) h.decimal.value,
        ap (λ (t : ℕ). t * h.decimal.bottom) h.value,
      ));
}

-- A decimal that is converted to these bits.
abbrev IsBack : Value → ℕ → Type 0
IsBack d bits =
    (c : Integer) × (e : ℤ) × (d ≡ Value.decimal c e)
    × (from_exact (Value.decimal c e) ≡ Converted.converted (Value.float64 bits))

not-not : (b : Bool) → not (not b) ≡ b
not-not true = refl
not-not false = refl

dyadic-IsBack :
    (negative : Bool) (m u : ℕ)
    → IsSignificand m u
    → IsBack (dyadic_decimal negative m u) (u * 2 ^ 52 + m + sign_bit negative)
unfolding from_exact is_exact_family_kind
dyadic-IsBack negative m u s =
    let both = dyadic-IsDyadic negative m u s.0 (omega (arith, s.1)) (omega (arith, s.2)) in
    let d = both.decimal in
    let ratio =
      subst (λ v. IsRatio (exact_family_numerator_denominator v) (not negative) d.top d.bottom)
        d.form d.ratio in
    (
      d.coefficient,
      d.exponent,
      d.form,
      ap float_of (
          fraction_to_binary64_lem
            (exact_family_numerator_denominator (Value.decimal d.coefficient d.exponent))
            (not negative) d.top d.bottom m u d.width ratio
            (IsDyadic-IsDouble 1074 _ _ (not negative) m u both) s d.top_fits d.bottom_fits
            d.width_fits
          ∙ ap (λ b. some (u * 2 ^ 52 + m + sign_bit b)) (not-not negative)),
    )

zero-IsBack : IsBack (Value.decimal zero_integer (pos 0)) 0
unfolding from_exact is_exact_family_kind exact_family_numerator_denominator mul_times
    fraction_to_binary64 is_zero is_empty
zero-IsBack = (zero_integer, pos 0, refl, refl)

bits_parts :
    (bits : ℕ)
    → bits < 2 ^ 64
    → bits ≡ float_biased bits * 2 ^ 52 + float_fraction bits + sign_bit (float_sign bits)
bits_parts bits l = ground (arith, l)

biased_finite : (bits : ℕ) → is_finite bits ≡ true → float_biased bits ≤ 2046
biased_finite bits h = ground (arith, h)

at_bits : {d : Value} {m n : ℕ} → m ≡ n → IsBack d m → IsBack d n
at_bits {d = d} e = subst (IsBack d) e

finite-IsBack :
    (bits : ℕ)
    → bits < 2 ^ 64
    → is_finite bits ≡ true
    → IsBack (finite_to_exact bits) (if is_zero_double bits then 0 else bits)
finite-IsBack bits l h = elim (Bool-cases (float_biased bits == 0)) [
  | inl b ↦ elim (Bool-cases (float_fraction bits == 0)) [
    | inl f ↦ rw (b, f) zero-IsBack
    | inr f ↦
        rw (b, f)
          (at_bits
            (ap (λ n. n + sign_bit (float_sign bits)) (ground (arith, b)) ∙ sym (bits_parts bits l))
            (dyadic-IsBack (float_sign bits) (float_fraction bits) 0
              (ground (arith, f), omega arith, omega arith, inr (omega arith, refl))))
  ]
  | inr b ↦ rw b (
      at_bits
        (ap (λ n. n + sign_bit (float_sign bits)) (ground (arith, b)) ∙ sym (bits_parts bits l))
        (dyadic-IsBack (float_sign bits) (2 ^ 52 + float_fraction bits) (float_biased bits - 1)
          (omega arith, omega arith, omega (arith, biased_finite bits h), inl (omega arith))))
]

-- The decimal that `to_exact` makes of a finite double is converted back to the double by
-- `from_exact`; the decimal of a zero, whose sign is lost, is converted to the positive zero.
pub from_exact-to_exact :
    (bits : ℕ)
    → bits < 2 ^ 64
    → is_finite bits ≡ true
    → (c : Integer) × (e : ℤ) × (to_exact (Value.float64 bits) ≡ some (Value.decimal c e))
      × (from_exact (Value.decimal c e)
          ≡ Converted.converted (Value.float64 (if is_zero_double bits then 0 else bits)))
unfolding to_exact
from_exact-to_exact bits l h =
    let (c, e, x, y) = finite-IsBack bits l h in (c, e, rw h (ap some x), y)
