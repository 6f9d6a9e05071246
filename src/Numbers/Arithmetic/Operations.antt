-- ===== src/Numbers/Arithmetic/Operations.antt =====
-- src/arithmetic.hpp: sums, differences and products of exact numbers as fractions.
use genia_cpp.Base.{arith, ◌≡◌, sym, ap, ◌∙◌, Option, some}
use genia_cpp.Base.Int.{ℤ, pos, ◌*ℤ◌, ◌+ℤ◌, ◌-ℤ◌}
use genia_cpp.Bignum.{Integer, mul}
use genia_cpp.Bignum.Canonical.{IsCanonical}
use genia_cpp.Bignum.Signed.{
  to_ℤ, to_ℤ-mul, to_ℤ-add, to_ℤ-sub, mul-IsCanonical, add-IsCanonical, sub-IsCanonical,
}
use genia_cpp.Values.Value.{Value}
use genia_cpp.Numbers.Fractions.Cross.{
  IsExact, exact_integer, exact_rational, top, bottom, to_ℤ-numerator, to_ℤ-denominator, IsPositive,
  numerator, denominator, numerator-IsCanonical, denominator-IsPositive, cross, cross_lem,
  mul-IsPositive,
}
use genia_cpp.Numbers.Rational.{construct_rational}
use genia_cpp.Numbers.Rational.Lowest.{IsLowest, construct_rational_lem}
use genia_cpp.Numbers.Arithmetic.{rational_add, rational_sub, rational_mul}

-- A result is this integer over this other one, in lowest terms.
abbrev pub IsResult : ℤ → ℤ → Option Value → Type 0
IsResult n d r = (v : Value) × (r ≡ some v) × IsLowest v × (top v *ℤ d ≡ n *ℤ pos (bottom v))

lowest-IsExact : (v : Value) → IsLowest v → IsExact v
lowest-IsExact (Value.integer n) c = exact_integer n c
lowest-IsExact (Value.rational p q) (cp, cq, s, h, g) =
    exact_rational p q cp cq s (omega (arith, h))
lowest-IsExact _ h = absurd h

constructed :
    (n d : Integer) (m k : ℤ)
    → IsCanonical n
    → IsPositive d
    → to_ℤ n ≡ m
    → to_ℤ d ≡ k
    → IsResult m k (construct_rational n d)
constructed n d m k cn pd em ek =
    let result = construct_rational_lem n d cn pd.canonical pd.above in
    let exact = lowest-IsExact result.0 result.2 in
    (
      result.0,
      result.1,
      result.2,
      ap (λ z. top result.0 *ℤ z) (sym ek)
          ∙ ap (λ z. z *ℤ to_ℤ d) (sym (to_ℤ-numerator result.0 exact))
          ∙ result.3
          ∙ ap (λ z. z *ℤ to_ℤ (denominator result.0)) em
          ∙ ap (λ z. m *ℤ z) (to_ℤ-denominator result.0 exact),
    )

module _ (a b : Value) (ha : IsExact a) (hb : IsExact b) where
  abbrev below : ℤ
  below = pos (bottom a) *ℤ pos (bottom b)

  left : IsCanonical (mul (numerator a) (denominator b))
  left = mul-IsCanonical (numerator a) (denominator b)

  right : IsCanonical (mul (numerator b) (denominator a))
  right = mul-IsCanonical (numerator b) (denominator a)

  common : IsPositive (mul (denominator a) (denominator b))
  common =
      mul-IsPositive (denominator a) (denominator b) (denominator-IsPositive a ha)
        (denominator-IsPositive b hb)

  common_lem : to_ℤ (mul (denominator a) (denominator b)) ≡ below
  common_lem =
      to_ℤ-mul (denominator a) (denominator b) (denominator-IsPositive a ha).canonical
        (denominator-IsPositive b hb).canonical
      ∙ ap (λ z. z *ℤ to_ℤ (denominator b)) (to_ℤ-denominator a ha)
      ∙ ap (λ z. pos (bottom a) *ℤ z) (to_ℤ-denominator b hb)

  -- `rational_add`, `rational_sub` and `rational_mul` of exact numbers, whatever their kinds, have a
  -- result: the sum, the difference and the product, as a fraction in lowest terms, of the numbers
  -- that they are. A decimal is the number that is its coefficient times the power of ten; exponents
  -- of decimals and their negations fit into 64 bits.
  pub rational_lem :
      IsResult (cross a b +ℤ cross b a) below (rational_add a b)
      × IsResult (cross a b -ℤ cross b a) below (rational_sub a b)
      × IsResult (top a *ℤ top b) below (rational_mul a b)
  unfolding rational_add rational_sub rational_mul
  rational_lem = (
    constructed _ _ _ _ (add-IsCanonical _ _ left right) common
        (to_ℤ-add _ _ left right
          ∙ ap (λ z. z +ℤ to_ℤ (mul (numerator b) (denominator a))) (cross_lem a b ha hb)
          ∙ ap (λ z. cross a b +ℤ z) (cross_lem b a hb ha))
        common_lem,
    constructed _ _ _ _ (sub-IsCanonical _ _ left right) common
        (to_ℤ-sub _ _ left right
          ∙ ap (λ z. z -ℤ to_ℤ (mul (numerator b) (denominator a))) (cross_lem a b ha hb)
          ∙ ap (λ z. cross a b -ℤ z) (cross_lem b a hb ha))
        common_lem,
    constructed _ _ _ _ (mul-IsCanonical (numerator a) (numerator b)) common
        (to_ℤ-mul _ _ (numerator-IsCanonical a ha) (numerator-IsCanonical b hb)
          ∙ ap (λ z. z *ℤ to_ℤ (numerator b)) (to_ℤ-numerator a ha)
          ∙ ap (λ z. top a *ℤ z) (to_ℤ-numerator b hb))
        common_lem,
  )
