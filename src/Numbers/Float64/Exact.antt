-- ===== src/Numbers/Float64/Exact.antt =====
-- src/float64.hpp and src/equality.hpp: `Float64::to_exact` against the comparison of numbers.
use genia_cpp.Base.{
  ℕ, ◌+◌, ◌-◌, ◌*◌, ◌^◌, ◌<◌, ◌≡◌, refl, sym, ap, ◌∙◌, Bool, true, false, not, ◌&&◌, Ordering,
  arith, Bool-cases, inl, inr, ◌==◌, some,
}
use genia_cpp.Base.Int.{ℤ, pos}
use genia_cpp.Bignum.{Integer, zero_integer}
use genia_cpp.Bignum.Limbs.{magnitude}
use genia_cpp.Bignum.Canonical.{zero-IsCanonical}
use genia_cpp.Values.Value.{Value}
use genia_cpp.Numbers.StandsFor.{StandsFor-itself, StandsFor-one}
use genia_cpp.Numbers.Fractions.{
  one, exact_family_numerator_denominator, cross_compare, dyadic, float_biased, float_fraction,
  float_sign, is_nan, is_inf, NumericOrder, numeric_compare, numeric_order,
  finite_float64_numerator_denominator, is_exact_family_kind, is_numeric_kind,
}
use genia_cpp.Numbers.Float64.Decimals.{
  decimal-IsRatio, cross_compare-IsRatio, dyadic-IsDyadic, IsDecimal-cross_compare,
}
use genia_cpp.Numbers.Float64.{dyadic_decimal, finite_to_exact, is_finite, to_exact}

-- A decimal that is the number of the fraction.
abbrev IsSame : Value → Integer × Integer → Type 0
IsSame d g =
    (c : Integer) × (e : ℤ) × (d ≡ Value.decimal c e)
    × (cross_compare (exact_family_numerator_denominator d) g ≡ Ordering.eq)

dyadic_compare :
    (negative : Bool) (m u : ℕ)
    → 0 < m
    → m < 18446744073709551616
    → u < 10000
    → IsSame (dyadic_decimal negative m u) (dyadic negative m u)
dyadic_compare negative m u h fits small =
    let both = dyadic-IsDyadic negative m u h fits small in
    (
      both.decimal.coefficient,
      both.decimal.exponent,
      both.decimal.form,
      IsDecimal-cross_compare _ _ (not negative) both.multiple both.power both.decimal both.ratio,
    )

zero_compare : IsSame (Value.decimal zero_integer (pos 0)) (zero_integer, one)
unfolding magnitude
zero_compare =
    let zero_itself = StandsFor-itself zero_integer true zero-IsCanonical refl in
    (
      zero_integer,
      pos 0,
      refl,
      cross_compare-IsRatio _ (zero_integer, one) true (0 * 10 ^ 0) (10 ^ 0) 0 1
          (decimal-IsRatio zero_integer (pos 0) true 0 (omega arith) zero_itself)
          (record { above = zero_itself; below = StandsFor-one }) (omega arith),
    )

fraction_fits : (bits : ℕ) → float_fraction bits < 4503599627370496
fraction_fits bits = omega arith

finite_compare :
    (bits : ℕ) → IsSame (finite_to_exact bits) (finite_float64_numerator_denominator bits)
unfolding finite_float64_numerator_denominator
finite_compare bits = elim (Bool-cases (float_biased bits == 0)) [
  | inl b ↦ elim (Bool-cases (float_fraction bits == 0)) [
    | inl f ↦ rw (b, f) zero_compare
    | inr f ↦
        rw (b, f)
          (dyadic_compare (float_sign bits) (float_fraction bits) 0 (ground (arith, f))
            (omega (arith, fraction_fits bits)) (omega arith))
  ]
  | inr b ↦ rw b (
      dyadic_compare (float_sign bits) (2 ^ 52 + float_fraction bits) (float_biased bits - 1)
        (omega arith) (omega (arith, fraction_fits bits)) (omega arith))
]

finite_parts : (nan inf : Bool) → (not nan && not inf) ≡ true → (nan ≡ false) × (inf ≡ false)
finite_parts nan inf h = ground arith

-- A finite double has a decimal by `to_exact`, and `numeric_compare` finds the decimal equal to the
-- double.
pub to_exact-numeric_compare :
    (bits : ℕ)
    → is_finite bits ≡ true
    → (c : Integer) × (e : ℤ) × (to_exact (Value.float64 bits) ≡ some (Value.decimal c e))
      × (numeric_compare (Value.decimal c e) (Value.float64 bits) ≡ NumericOrder.equal)
unfolding to_exact numeric_compare is_numeric_kind is_exact_family_kind
to_exact-numeric_compare bits h =
    let (c, e, x, y) = finite_compare bits in
    let parts = finite_parts (is_nan bits) (is_inf bits) h in
    (
      c,
      e,
      rw h (ap some x),
      rw (parts.0, parts.1)
          (ap numeric_order (
            ap
              (λ d.
                cross_compare (exact_family_numerator_denominator d)
                  (finite_float64_numerator_denominator bits))
              (sym x)
            ∙ y)),
    )
