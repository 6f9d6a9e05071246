-- ===== src/Numbers/Float64/Decimals.antt =====
-- src/float64.hpp, `to_exact`: the decimal of a significand and a power of two.
use genia_cpp.Base.{
  ℕ, zero, suc, ◌+◌, ◌-◌, ◌*◌, ◌/◌, ◌^◌, ◌<◌, ◌≤◌, ◌≡◌, sym, ap, subst, ◌∙◌, Bool, true, not,
  Ordering, arith, Bool-cases, inl, inr, ltb,
}
use genia_cpp.Base.Int.{ℤ, pos, negsuc, pos_part, neg_part, ◌+ℤ◌, ◌-ℤ◌, as_i64_lem}
use genia_cpp.Bignum.{Integer, from_u64, shift_left}
use genia_cpp.Bignum.Limbs.{magnitude}
use genia_cpp.Bignum.Words.{pow_add}
use genia_cpp.Values.Value.{Value}
use genia_cpp.Numbers.StandsFor.{
  StandsFor, StandsFor-from_u64, StandsFor-mul_positive, StandsFor-mul_times, StandsFor-shift_left,
  StandsFor-one, StandsFor-ten, StandsFor-signed_integer, StandsFor-parts, StandsFor-itself,
  compare_integer-StandsFor,
}
use genia_cpp.Numbers.Fractions.{
  one, ten, mul_times, signed_integer, exact_family_numerator_denominator, cross_compare, dyadic,
}
use genia_cpp.Numbers.Arithmetic.{five, canonicalize_decimal, make_decimal}
use genia_cpp.Numbers.Arithmetic.Strip.{canonicalize_decimal_lem}
use genia_cpp.Numbers.Float64.{dyadic_decimal}
use genia_cpp.Numbers.Float64.Widths.{
  small_parts, negative_parts, times_pow, small_product, narrow_top, narrow_bottom,
}
use native.Mathlib.Nat.{pow-zero, mul-div_cancel, one-le-pow, pow-le-pow_right}

-- A fraction that is a number of this sign over a positive number.
pub record IsRatio (f : Integer × Integer) (s : Bool) (m q : ℕ) : Type 0 where
  pub above : StandsFor f.0 s m
  pub below : StandsFor f.1 true q

StandsFor-five : StandsFor five true 5
StandsFor-five = StandsFor-from_u64 5 (omega arith)

pub decimal-IsRatio :
    (r : Integer) (e : ℤ) (s : Bool) (w : ℕ)
    → neg_part e < 9223372036854775808
    → StandsFor r s w
    → IsRatio
        (exact_family_numerator_denominator (Value.decimal r e))
        s
        (w * 10 ^ pos_part e)
        (10 ^ neg_part e)
unfolding exact_family_numerator_denominator
decimal-IsRatio r (pos e) s w fits h = record {
  above = StandsFor-mul_times e ten r s w 10 StandsFor-ten h;
  below = subst (StandsFor one true) (sym (pow-zero 10)) StandsFor-one;
}
decimal-IsRatio r (negsuc e) s w fits h = rw (as_i64_lem (pos (suc e)) fits (omega arith)) (record {
  above = subst (StandsFor r s) (omega (arith, ap (λ (t : ℕ). w * t) (pow-zero 10))) h;
  below =
      subst (StandsFor (mul_times (suc e) ten one) true) (omega arith)
        (StandsFor-mul_times (suc e) ten one true 1 10 StandsFor-ten StandsFor-one);
})

pub cross_compare-IsRatio :
    (f g : Integer × Integer) (s : Bool) (m q n p : ℕ)
    → IsRatio f s m q
    → IsRatio g s n p
    → m * p ≡ n * q
    → cross_compare f g ≡ Ordering.eq
cross_compare-IsRatio f g s m q n p hf hg e =
    compare_integer-StandsFor _ _ s (m * p) (n * q)
      (StandsFor-mul_positive f.0 g.1 s m p hf.above hg.below)
      (StandsFor-mul_positive g.0 f.1 s n q hg.above hf.below) e

pub cancel : (a b k : ℕ) → 0 < k → a * k ≡ b * k → a ≡ b
cancel a b k h e = sym (mul-div_cancel a h) ∙ ap (λ t. t / k) e ∙ mul-div_cancel b h

-- An exponent of ten that moves from one side to the other.
moved :
    (w t n b m p q k : ℕ)
    → p + k ≡ t + q
    → w * 10 ^ t ≡ n
    → n * b ≡ m * 10 ^ k
    → w * 10 ^ p * b ≡ m * 10 ^ q
moved w t n b m p q k e f g =
    cancel (w * 10 ^ p * b) (m * 10 ^ q) (10 ^ k) (one-le-pow k 10 (omega arith)) (
      omega (
        arith,
        ap (λ (x : ℕ). w * b * x)
            (sym (pow_add 10 p k) ∙ ap (λ (i : ℕ). 10 ^ i) e ∙ pow_add 10 t q),
        ap (λ (x : ℕ). x * b * 10 ^ q) f,
        ap (λ (x : ℕ). x * 10 ^ q) g,
      ))

exponent_parts :
    (k t : ℕ) → pos_part (pos 0 -ℤ pos k +ℤ pos t) + k ≡ t + neg_part (pos 0 -ℤ pos k +ℤ pos t)
unfolding ◌-ℤ◌ ◌+ℤ◌
exponent_parts zero t = ground arith
exponent_parts (suc k) t = ground arith

-- A decimal whose fraction is m / b.
pub record IsDecimal (d : Value) (s : Bool) (m b : ℕ) : Type 0 where
  pub coefficient : Integer
  pub exponent : ℤ
  pub form : d ≡ Value.decimal coefficient exponent
  pub top : ℕ
  pub bottom : ℕ
  pub ratio : IsRatio (exact_family_numerator_denominator d) s top bottom
  pub positive : 0 < bottom
  pub value : top * b ≡ m * bottom
  pub width : ℕ
  pub width_fits : width < 2147483648
  pub top_fits : top < 2 ^ width
  pub bottom_fits : bottom < 2 ^ width

pub IsDecimal-cross_compare :
    (d : Value) (g : Integer × Integer) (s : Bool) (m b : ℕ)
    → IsDecimal d s m b
    → IsRatio g s m b
    → cross_compare (exact_family_numerator_denominator d) g ≡ Ordering.eq
IsDecimal-cross_compare d g s m b h hg =
    cross_compare-IsRatio (exact_family_numerator_denominator d) g s h.top h.bottom m b h.ratio hg
      h.value

-- A decimal, made of a coefficient `n` and the exponent -k, is the fraction m / b when n / 10^k is.
make_decimal-IsDecimal :
    (c : Integer) (k : ℕ) (s : Bool) (n m b digits : ℕ)
    → StandsFor c s n
    → 0 < n
    → n < 10 ^ digits
    → digits + k < 100000
    → n * b ≡ m * 10 ^ k
    → IsDecimal (make_decimal (canonicalize_decimal c (pos 0 -ℤ pos k))) s m b
make_decimal-IsDecimal c k s n m b digits hc h few small e =
    let start = negative_parts k in
    let parts = StandsFor-parts c s n hc h in
    let (r, x, y) =
      canonicalize_decimal_lem c (pos 0 -ℤ pos k) digits hc.canonical
        (subst (λ i. 0 < i) (sym parts.1) h) (subst (λ i. i < 10 ^ digits) (sym parts.1) few)
        (omega (arith, start.1, small)) (omega (arith, start.0, small)) in
    let bounds = small_parts k r.1 in
    let total = digits + k + 1 in
    let wider : 10 ^ digits ≤ 10 ^ total = pow-le-pow_right (omega arith) (omega arith) in
    let w = magnitude r.0.limbs in
    let exponent = pos 0 -ℤ pos k +ℤ pos r.1 in
    record {
      coefficient = r.0;
      exponent = exponent;
      form = ap make_decimal y;
      top = w * 10 ^ pos_part exponent;
      bottom = 10 ^ neg_part exponent;
      ratio =
          subst
            (λ d.
              IsRatio (exact_family_numerator_denominator d) s (w * 10 ^ pos_part exponent)
                (10 ^ neg_part exponent))
            (sym (ap make_decimal y))
            (decimal-IsRatio r.0 exponent s w (omega (arith, bounds.1, small))
              (StandsFor-itself r.0 s x.canonical (x.sign ∙ parts.0)));
      positive = one-le-pow (neg_part exponent) 10 (omega arith);
      value =
          moved w r.1 n b m (pos_part exponent) (neg_part exponent) k (exponent_parts k r.1)
            (x.value ∙ parts.1) e;
      width = total + total + total + total;
      width_fits = omega (arith, small);
      top_fits =
          narrow_top w r.1 (pos_part exponent) n total bounds.0 (x.value ∙ parts.1)
            (omega (arith, few, wider));
      bottom_fits = narrow_bottom (neg_part exponent) total (omega (arith, bounds.1));
    }

pub product_above : (m n : ℕ) → 0 < m → 0 < n → 0 < m * n
product_above zero n h k = absurd (omega (arith, h))
product_above (suc m) n h k = omega (arith, k)

-- A decimal and a fraction that are both m * 2^(u - bias).
pub record IsDyadic (bias : ℕ) (d : Value) (g : Integer × Integer) (s : Bool) (m u : ℕ)
    : Type 0 where
  pub multiple : ℕ
  pub power : ℕ
  pub positive : 0 < power
  pub decimal : IsDecimal d s multiple power
  pub ratio : IsRatio g s multiple power
  pub value : multiple * 2 ^ bias ≡ m * 2 ^ u * power

below_one :
    (bias : ℕ) (negative : Bool) (m u k : ℕ)
    → u + k ≡ bias
    → 0 < m
    → m < 18446744073709551616
    → k < 10000
    → IsDyadic bias
        (make_decimal (
          canonicalize_decimal
            (signed_integer negative (mul_times k five (from_u64 m)))
            (pos 0 -ℤ pos k)))
        (signed_integer negative (from_u64 m), shift_left one k)
        (not negative)
        m
        u
below_one bias negative m u k e h fits small = record {
  multiple = m;
  power = 1 * 2 ^ k;
  positive = omega (arith, one-le-pow k 2 (omega arith));
  decimal =
      make_decimal-IsDecimal (signed_integer negative (mul_times k five (from_u64 m))) k
        (not negative) (m * 5 ^ k) m (1 * 2 ^ k) (20 + k)
        (StandsFor-signed_integer negative _ _ (
          StandsFor-mul_times k five (from_u64 m) true m 5 StandsFor-five
            (StandsFor-from_u64 m fits)))
        (product_above m (5 ^ k) h (one-le-pow k 5 (omega arith)))
        (small_product m 5 k (omega arith) fits) (omega (arith, small))
        (omega (arith, ap (λ (x : ℕ). m * x) (times_pow 5 2 k)));
  ratio = record {
    above = StandsFor-signed_integer negative _ _ (StandsFor-from_u64 m fits);
    below = StandsFor-shift_left one true 1 k StandsFor-one;
  };
  value = omega (arith, ap (λ (x : ℕ). m * x) (ap (λ (i : ℕ). 2 ^ i) (sym e) ∙ pow_add 2 u k));
}

from_one :
    (bias : ℕ) (negative : Bool) (m u i : ℕ)
    → u ≡ bias + i
    → 0 < m
    → m < 18446744073709551616
    → i < 10000
    → IsDyadic bias
        (make_decimal
          (canonicalize_decimal (signed_integer negative (shift_left (from_u64 m) i)) (pos 0)))
        (signed_integer negative (shift_left (from_u64 m) i), one)
        (not negative)
        m
        u
unfolding ◌-ℤ◌
from_one bias negative m u i e h fits small =
    let c =
      StandsFor-signed_integer negative _ _
        (StandsFor-shift_left (from_u64 m) true m i (StandsFor-from_u64 m fits)) in
    record {
      multiple = m * 2 ^ i;
      power = 1;
      positive = omega arith;
      decimal =
          make_decimal-IsDecimal (signed_integer negative (shift_left (from_u64 m) i)) 0
            (not negative) (m * 2 ^ i) (m * 2 ^ i) 1 (20 + i) c
            (product_above m (2 ^ i) h (one-le-pow i 2 (omega arith)))
            (small_product m 2 i (omega arith) fits) (omega (arith, small))
            (omega (arith, ap (λ (x : ℕ). m * 2 ^ i * x) (pow-zero 10)));
      ratio = record { above = c; below = StandsFor-one };
      value = omega (arith, ap (λ (x : ℕ). m * x) (ap (λ (j : ℕ). 2 ^ j) e ∙ pow_add 2 bias i));
    }

pub dyadic-IsDyadic :
    (negative : Bool) (m u : ℕ)
    → 0 < m
    → m < 18446744073709551616
    → u < 10000
    → IsDyadic 1074 (dyadic_decimal negative m u) (dyadic negative m u) (not negative) m u
dyadic-IsDyadic negative m u h fits small = elim (Bool-cases (ltb u 1074)) [
  | inl b ↦ rw b (below_one 1074 negative m u (1074 - u) (ground (arith, b)) h fits (omega arith))
  | inr b ↦
      rw b (from_one 1074 negative m u (u - 1074) (ground (arith, b)) h fits (omega (arith, small)))
]
