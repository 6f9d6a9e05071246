-- ===== src/Numbers/Fractions/Cross.antt =====
-- src/equality.hpp: the comparison of exact numbers is that of the fractions.
use genia_cpp.Base.{
  ℕ, zero, suc, ◌*◌, ◌^◌, ◌<◌, ◌≡◌, refl, sym, ap, subst, ◌∙◌, Bool, true, false, arith, ◌↔◌,
}
use genia_cpp.Base.Int.{ℤ, pos, negsuc, pos_part, neg_part, ◌*ℤ◌, as_i64, as_i64_lem}
use genia_cpp.Bignum.{Integer, from_u64, mul, same}
use genia_cpp.Bignum.Limbs.{magnitude}
use genia_cpp.Bignum.Canonical.{IsCanonical, from_u64-IsCanonical}
use genia_cpp.Bignum.Signed.{
  to_ℤ, signed, signed_mul, to_ℤ-mul, mul-IsCanonical, compare_integer-to_ℤ, compare_ℤ,
}
use native.Mathlib.Nat.{mul-suc, pow-zero}
use genia_cpp.Values.Value.{Value}
use genia_cpp.Numbers.StandsFor.{
  StandsFor-mul_times, StandsFor-itself, StandsFor-one, StandsFor-ten, same-true,
}
use genia_cpp.Numbers.Signs.{compare_equal, to_ℤ-mul_signed}
use genia_cpp.Numbers.Fractions.{
  one, ten, mul_times, exact_family_numerator_denominator, exact_family_equal, exact_family_compare,
}

-- An exact number of the host: its integers are canonical, the denominator of a rational is positive,
-- and the exponent of a decimal and its negation fit into 64 bits.
pub data IsExact : Value → Type 0 where
  exact_integer : (n : Integer) → IsCanonical n → IsExact (Value.integer n)
  exact_decimal :
      (coefficient : Integer) (exponent : ℤ)
      → IsCanonical coefficient
      → pos_part exponent < 9223372036854775808
      → neg_part exponent < 9223372036854775808
      → IsExact (Value.decimal coefficient exponent)
  exact_rational :
      (p q : Integer)
      → IsCanonical p
      → IsCanonical q
      → q.positive ≡ true
      → 0 < magnitude q.limbs
      → IsExact (Value.rational p q)

abbrev pub numerator : Value → Integer
numerator v = (exact_family_numerator_denominator v).0

abbrev pub denominator : Value → Integer
denominator v = (exact_family_numerator_denominator v).1

-- A canonical integer above 0.
pub record IsPositive (a : Integer) : Type 0 where
  pub canonical : IsCanonical a
  pub sign : a.positive ≡ true
  pub above : 0 < magnitude a.limbs

mul_times-IsCanonical : (n : ℕ) (f a : Integer) → IsCanonical a → IsCanonical (mul_times n f a)
unfolding mul_times
mul_times-IsCanonical zero f a c = c
mul_times-IsCanonical (suc n) f a c = mul_times-IsCanonical n f (mul a f) (mul-IsCanonical a f)

same_signs : (s t : Bool) (n : ℕ) → s ≡ true → t ≡ true → signed (same s t) n ≡ pos n
same_signs true true n h k = refl
same_signs true false n h k = ground arith
same_signs false t n h k = ground arith

above_zero : (s : Bool) (m n : ℕ) → 0 < n → signed s m ≡ pos n → (s ≡ true) × (m ≡ n)
above_zero true m n h e = ground arith
above_zero false zero n h e = ground arith
above_zero false (suc m) n h e = ground arith

product_above : (m n : ℕ) → 0 < m → 0 < n → 0 < m * n
product_above (suc m) (suc n) h k = omega (arith, mul-suc (suc m) n)
product_above zero n h k = absurd (omega (arith, h))
product_above (suc m) zero h k = absurd (omega (arith, k))

positive_value :
    (a : Integer) (n : ℕ) → 0 < n → to_ℤ a ≡ pos n → (a.positive ≡ true) × (magnitude a.limbs ≡ n)
unfolding to_ℤ
positive_value a n h e = above_zero a.positive (magnitude a.limbs) n h e

pub mul-IsPositive : (a b : Integer) → IsPositive a → IsPositive b → IsPositive (mul a b)
mul-IsPositive a b ha hb =
    let product = product_above (magnitude a.limbs) (magnitude b.limbs) ha.above hb.above in
    let value =
      to_ℤ-mul a b ha.canonical hb.canonical
      ∙ to_ℤ-mul_signed a b
      ∙ same_signs a.positive b.positive (magnitude a.limbs * magnitude b.limbs) ha.sign hb.sign in
    let parts = positive_value (mul a b) (magnitude a.limbs * magnitude b.limbs) product value in
    record {
      canonical = mul-IsCanonical a b;
      sign = parts.0;
      above = subst (λ n. 0 < n) (sym parts.1) product;
    }

mul_times-IsPositive :
    (n : ℕ) (f a : Integer) → IsPositive f → IsPositive a → IsPositive (mul_times n f a)
unfolding mul_times
mul_times-IsPositive zero f a hf ha = ha
mul_times-IsPositive (suc n) f a hf ha =
    mul_times-IsPositive n f (mul a f) hf (mul-IsPositive a f ha hf)

one-IsPositive : IsPositive one
unfolding from_u64 magnitude
one-IsPositive = record {
  canonical = from_u64-IsCanonical 1 (omega arith);
  sign = refl;
  above = omega arith;
}

ten-IsPositive : IsPositive ten
unfolding from_u64 magnitude
ten-IsPositive = record {
  canonical = from_u64-IsCanonical 10 (omega arith);
  sign = refl;
  above = omega arith;
}

pub numerator-IsCanonical : (v : Value) → IsExact v → IsCanonical (numerator v)
unfolding exact_family_numerator_denominator
numerator-IsCanonical v (exact_integer n c) = c
numerator-IsCanonical v (exact_decimal a (pos e) c high low) = mul_times-IsCanonical e ten a c
numerator-IsCanonical v (exact_decimal a (negsuc e) c high low) = c
numerator-IsCanonical v (exact_rational p q cp cq s h) = cp

pub denominator-IsPositive : (v : Value) → IsExact v → IsPositive (denominator v)
unfolding exact_family_numerator_denominator
denominator-IsPositive v (exact_integer n c) = one-IsPositive
denominator-IsPositive v (exact_decimal a (pos e) c high low) = one-IsPositive
denominator-IsPositive v (exact_decimal a (negsuc e) c high low) =
    mul_times-IsPositive (pos_part (as_i64 (pos (suc e)))) ten one ten-IsPositive one-IsPositive
denominator-IsPositive v (exact_rational p q cp cq s h) = record {
  canonical = cq;
  sign = s;
  above = h;
}

-- The number that an exact value is, as an integer over a number above zero: a decimal is its
-- coefficient times the power of ten.
abbrev pub top : Value → ℤ
top (Value.integer n) = to_ℤ n
top (Value.decimal coefficient exponent) = to_ℤ coefficient *ℤ pos (10 ^ pos_part exponent)
top (Value.rational p q) = to_ℤ p
top v = pos 0

abbrev pub bottom : Value → ℕ
bottom (Value.decimal coefficient exponent) = 10 ^ neg_part exponent
bottom (Value.rational p q) = magnitude q.limbs
bottom v = 1

to_ℤ-positive : (q : Integer) → q.positive ≡ true → to_ℤ q ≡ pos (magnitude q.limbs)
unfolding to_ℤ
to_ℤ-positive q s = ap (λ t. signed t (magnitude q.limbs)) s

times_pow :
    (a : Integer) (e : ℕ) → IsCanonical a → to_ℤ (mul_times e ten a) ≡ to_ℤ a *ℤ pos (10 ^ e)
unfolding to_ℤ
times_pow a e c =
    (StandsFor-mul_times e ten a a.positive (magnitude a.limbs) 10 StandsFor-ten
      (StandsFor-itself a a.positive c refl)).value
    ∙ ap (λ t. signed t (magnitude a.limbs * 10 ^ e)) (sym (same-true a.positive))
    ∙ signed_mul a.positive true (magnitude a.limbs) (10 ^ e)

-- What the code takes for the numerator and the denominator is the number.
pub to_ℤ-numerator : (v : Value) → IsExact v → to_ℤ (numerator v) ≡ top v
unfolding exact_family_numerator_denominator mul_times
to_ℤ-numerator v (exact_integer n c) = refl
to_ℤ-numerator v (exact_decimal a (pos e) c high low) = times_pow a e c
to_ℤ-numerator v (exact_decimal a (negsuc e) c high low) = times_pow a 0 c
to_ℤ-numerator v (exact_rational p q cp cq s h) = refl

pub to_ℤ-denominator : (v : Value) → IsExact v → to_ℤ (denominator v) ≡ pos (bottom v)
unfolding exact_family_numerator_denominator
to_ℤ-denominator v (exact_integer n c) = StandsFor-one.value
to_ℤ-denominator v (exact_decimal a (pos e) c high low) =
    StandsFor-one.value ∙ ap pos (sym (pow-zero 10))
to_ℤ-denominator v (exact_decimal a (negsuc e) c high low) =
    rw (as_i64_lem (pos (suc e)) low (omega arith)) (
      (StandsFor-mul_times (suc e) ten one true 1 10 StandsFor-ten StandsFor-one).value
      ∙ ap pos (omega arith))
to_ℤ-denominator v (exact_rational p q cp cq s h) = to_ℤ-positive q s

-- The integers that two numbers are on their common denominator.
abbrev pub cross : Value → Value → ℤ
cross a b = top a *ℤ pos (bottom b)

pub cross_lem :
    (a b : Value) → IsExact a → IsExact b → to_ℤ (mul (numerator a) (denominator b)) ≡ cross a b
cross_lem a b ha hb =
    to_ℤ-mul (numerator a) (denominator b) (numerator-IsCanonical a ha)
      (denominator-IsPositive b hb).canonical
    ∙ ap (λ z. z *ℤ to_ℤ (denominator b)) (to_ℤ-numerator a ha)
    ∙ ap (λ z. top a *ℤ z) (to_ℤ-denominator b hb)

-- Exact numbers are equal exactly where the numbers that they are, a decimal the coefficient times the
-- power of ten, are equal on their common denominator, whatever their kinds, and they are ordered as
-- these are. Exponents of decimals and their negations fit into 64 bits.
pub exact_family_compare_lem :
    (a b : Value)
    → IsExact a
    → IsExact b
    → ((exact_family_equal a b ≡ true) ↔ (cross a b ≡ cross b a))
      × (exact_family_compare a b ≡ compare_ℤ (cross a b) (cross b a))
unfolding exact_family_equal exact_family_compare
exact_family_compare_lem a b ha hb =
    let left = cross_lem a b ha hb in
    let right = cross_lem b a hb ha in
    let ca = mul-IsCanonical (numerator a) (denominator b) in
    let cb = mul-IsCanonical (numerator b) (denominator a) in
    let iff =
      compare_equal (mul (numerator a) (denominator b)) (mul (numerator b) (denominator a)) ca cb in
    (
      ((λ e. sym left ∙ iff.0 e ∙ right), (λ e. iff.1 (left ∙ e ∙ sym right))),
      compare_integer-to_ℤ _ _ ca cb
          ∙ ap (λ z. compare_ℤ z (to_ℤ (mul (numerator b) (denominator a)))) left
          ∙ ap (compare_ℤ (cross a b)) right,
    )
