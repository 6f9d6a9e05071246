-- ===== src/Numbers/Arithmetic/Strip.antt =====
-- src/arithmetic.hpp: the loops that divide as long as they can, and the canonical decimals.
use genia_cpp.Base.{
  ℕ, zero, suc, ◌*◌, ◌^◌, ◌<◌, ◌≤◌, ◌≡◌, ◌≢◌, refl, sym, ap, subst, ◌∙◌, Bool, true, false, arith,
  Option, none, some, ◌==◌, ◌+◌, dec_lt,
}
use genia_cpp.Base.Int.{ℤ, pos, negsuc, pos_part, neg_part, ◌*ℤ◌, ◌+ℤ◌, as_i64_lem}
use genia_cpp.Bignum.{Integer, from_u64, same}
use genia_cpp.Bignum.Limbs.{magnitude}
use genia_cpp.Bignum.Canonical.{IsCanonical, is_zero_lem, from_u64-IsCanonical}
use genia_cpp.Bignum.Signed.{to_ℤ, signed}
use genia_cpp.Bignum.Division.{exact_divide}
use genia_cpp.Bignum.Division.Exact.{ExactDivision, exact_divide_lem}
use genia_cpp.Numbers.Signs.{to_ℤ-mul_signed}
use genia_cpp.Numbers.Fractions.{ten}
use genia_cpp.Numbers.Arithmetic.{divided_again, divide_out, strip, canonicalize_decimal}
use native.Mathlib.Nat.{mul_assoc, pow-suc, pow-zero, mul-suc, mul-le-mul_right, pow-le-pow_right}

-- What is left of a number when a factor was divided out of it as often as it divides, and how often.
pub record IsStripped (f : ℕ) (a : Integer) (r : Integer × ℕ) : Type 0 where
  pub canonical : IsCanonical r.0
  pub sign : r.0.positive ≡ a.positive
  pub value : magnitude r.0.limbs * f ^ r.1 ≡ magnitude a.limbs
  pub rest : (k : ℕ) → magnitude r.0.limbs ≢ k * f

signed_parts :
    (s t : Bool) (m n : ℕ) → 0 < n → signed (same s true) m ≡ signed t n → (s ≡ t) × (m ≡ n)
signed_parts true true m n h e = ground arith
signed_parts true false m n h e = ground arith
signed_parts false true m n h e = ground arith
signed_parts false false m n h e = ground arith

smaller : (q f n : ℕ) → 2 ≤ f → 0 < n → q * f ≡ n → (0 < q) × (q < n)
smaller zero f n h k e = absurd (omega (arith, k, e))
smaller (suc q) f n h k e = (omega arith, more (suc q) f n h (omega arith) e)
  where
    more : (q f n : ℕ) → 2 ≤ f → 0 < q → q * f ≡ n → q < n
    more q zero n h k e = absurd (omega (arith, h))
    more q (suc zero) n h k e = absurd (omega (arith, h))
    more q (suc (suc f)) n h k e = omega (arith, k, e, mul-suc q (suc f), mul-suc q f)

module _ (factor : Integer) (cf : IsCanonical factor) (sf : factor.positive ≡ true)
    (at_least_two : 2 ≤ magnitude factor.limbs) where
  above : 0 < magnitude factor.limbs
  above = omega (arith, at_least_two)

  quotient_parts :
      (a q : Integer)
      → 0 < magnitude a.limbs
      → to_ℤ q *ℤ to_ℤ factor ≡ to_ℤ a
      → (q.positive ≡ a.positive) × (magnitude q.limbs * magnitude factor.limbs ≡ magnitude a.limbs)
  unfolding to_ℤ
  quotient_parts a q h e = signed_parts q.positive a.positive _ _ h (
      ap (λ s. signed (same q.positive s) (magnitude q.limbs * magnitude factor.limbs)) (sym sf)
      ∙ sym (to_ℤ-mul_signed q factor)
      ∙ e)

  divided_again-IsStripped :
      (loop : Integer → Integer × ℕ) (a : Integer) (r : Option Integer)
      → (ca : IsCanonical a) → 0 < magnitude a.limbs
      → ((q : Integer)
          → IsCanonical q
          → 0 < magnitude q.limbs
          → magnitude q.limbs < magnitude a.limbs
          → IsStripped (magnitude factor.limbs) q (loop q))
      → ExactDivision a factor ca cf above r
      → IsStripped (magnitude factor.limbs) a (divided_again loop a r)
  divided_again-IsStripped loop a none ca h ih x = record {
    canonical = ca;
    sign = refl;
    value = ap (λ t. magnitude a.limbs * t) (pow-zero (magnitude factor.limbs)) ∙ omega arith;
    rest = x;
  }
  divided_again-IsStripped loop a (some q) ca h ih (cq, e) =
      let parts = quotient_parts a q h e in
      let less =
        smaller (magnitude q.limbs) (magnitude factor.limbs) (magnitude a.limbs) at_least_two h
          parts.1 in
      let tail = ih q cq less.0 less.1 in
      let f = magnitude factor.limbs in
      record {
        canonical = tail.canonical;
        sign = tail.sign ∙ parts.0;
        value =
            ap (λ t. magnitude (loop q).0.limbs * t) (pow-suc f (loop q).1)
            ∙ sym (mul_assoc (magnitude (loop q).0.limbs) (f ^ (loop q).1) f)
            ∙ ap (λ t. t * f) tail.value
            ∙ parts.1;
        rest = tail.rest;
      }

  divide_out-IsStripped :
      (fuel : ℕ) (a : Integer)
      → IsCanonical a
      → 0 < magnitude a.limbs
      → magnitude a.limbs < fuel
      → IsStripped (magnitude factor.limbs) a (divide_out fuel factor a)
  unfolding divide_out
  divide_out-IsStripped zero a ca h enough = absurd (omega (arith, enough))
  divide_out-IsStripped (suc fuel) a ca h enough =
      divided_again-IsStripped (λ q. divide_out fuel factor q) a (exact_divide a factor) ca h
        (λ q cq k less. divide_out-IsStripped fuel q cq k (omega (arith, less, enough)))
        (exact_divide_lem a factor ca cf above)

ten-magnitude : magnitude ten.limbs ≡ 10
unfolding from_u64 magnitude
ten-magnitude = refl

ten-positive : ten.positive ≡ true
unfolding from_u64
ten-positive = refl

not_zero : (n : ℕ) → 0 < n → (n == 0) ≡ false
not_zero n h = ground arith

one_more : (w k : ℕ) → k ≤ suc w * k
one_more w k = let least : 1 ≤ suc w = omega arith in omega (arith, mul-le-mul_right k least)

below_digits : (w t n digits : ℕ) → 0 < n → w * 10 ^ t ≡ n → n < 10 ^ digits → t < digits
below_digits zero t n digits p e h = absurd (omega (arith, p, e))
below_digits (suc w) t n digits p e h = elim (dec_lt t digits) [
  | yes l ↦ l
  | no l ↦
      let powers : 10 ^ digits ≤ 10 ^ t = pow-le-pow_right (omega arith) (omega (arith, l)) in
      absurd (omega (arith, powers, e, h, one_more w (10 ^ t)))
]

sum_parts :
    (z : ℤ) (t : ℕ)
    → (pos_part (z +ℤ pos t) ≤ pos_part z + t) × (neg_part (z +ℤ pos t) ≤ neg_part z)
unfolding ◌+ℤ◌
sum_parts (pos n) t = ground arith
sum_parts (negsuc n) t = ground arith

-- `canonicalize_decimal` of a canonical coefficient that is not zero divides out every factor of ten
-- and adds their count to the exponent, where the exponent is in 64 bits and stays so with the digits
-- of the coefficient added: the fuel of the loop is enough.
pub canonicalize_decimal_lem :
    (coefficient : Integer) (exponent : ℤ) (digits : ℕ)
    → IsCanonical coefficient
    → 0 < magnitude coefficient.limbs
    → magnitude coefficient.limbs < 10 ^ digits
    → neg_part exponent ≤ 9223372036854775808
    → pos_part exponent + digits ≤ 9223372036854775808
    → (r : Integer × ℕ) × IsStripped 10 coefficient r
      × (canonicalize_decimal coefficient exponent ≡ (r.0, exponent +ℤ pos r.1))
unfolding canonicalize_decimal
canonicalize_decimal_lem coefficient exponent digits c h few low high =
    let stripped =
      subst (λ f. IsStripped f coefficient (strip ten coefficient)) ten-magnitude
        (divide_out-IsStripped ten (from_u64-IsCanonical 10 (omega arith)) ten-positive
          (subst (λ f. 2 ≤ f) (sym ten-magnitude) (omega arith)) (suc (magnitude coefficient.limbs))
          coefficient c h (omega arith)) in
    let count = (strip ten coefficient).1 in
    let fewer = below_digits _ count _ digits h stripped.value few in
    let parts = sum_parts exponent count in
    let kept =
      as_i64_lem (exponent +ℤ pos count) (omega (arith, parts.0, fewer, high))
        (omega (arith, parts.1, low)) in
    (
      strip ten coefficient,
      stripped,
      rw (is_zero_lem coefficient c, not_zero (magnitude coefficient.limbs) h)
          (ap (λ z. ((strip ten coefficient).0, z)) kept),
    )
