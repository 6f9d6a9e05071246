-- ===== src/Numbers/Float64/Rounded.antt =====
-- src/float64.hpp, `fraction_to_binary64`: the rounded quotient and its bits.
use genia_cpp.Base.{
  ℕ, suc, ◌+◌, ◌*◌, ◌^◌, ◌<◌, ◌≤◌, ◌≡◌, refl, sym, ap, subst, ◌∙◌, true, false, compare, arith,
  dec_lt, if◌then◌else◌, leb, ltb, some,
}
use genia_cpp.Base.Digits.{bit_or_shifted}
use genia_cpp.Base.Int.{ℤ, pos, negsuc, pos_part, neg_part, ◌+ℤ◌}
use genia_cpp.Bignum.{Integer}
use genia_cpp.Bignum.Limbs.{magnitude}
use genia_cpp.Bignum.Words.{to_u64_lem}
use genia_cpp.Bignum.Division.{divmod_positive}
use genia_cpp.Bignum.Division.Quotient.{divmod_magnitude-IsDivMod}
use genia_cpp.Numbers.StandsFor.{
  StandsFor, StandsFor-itself, StandsFor-shift_left, StandsFor-parts, compare_integer-numbers,
}
use genia_cpp.Numbers.Float64.{is_normal, magnitude_bits, quotient_bits, rounded}
use genia_cpp.Numbers.Float64.Scaled.{normal_scale}
use genia_cpp.Numbers.Float64.Bits.{kept_word, normal_bits_lem}
use native.Mathlib.Nat.{mul-le-mul_right}

-- The quotient of a fraction and its remainder, and what they round to.
pub record IsRounded (e : ℤ) (a b : Integer) (x v : ℕ) : Type 0 where
  pub q : ℕ
  pub r : ℕ
  pub value : x ≡ q * v + r
  pub below : r < v
  pub fits : q < 2 ^ 53
  pub bits : quotient_bits e (a, b) ≡ magnitude_bits e (rounded q (compare (r * 2 ^ 1) v))

quotient_lt : (q r v c : ℕ) → q * v + r < c * v → q < c
quotient_lt q r v c h = elim (dec_lt q c) [
  | yes l ↦ l
  | no n ↦
      let above : c ≤ q = omega (arith, n) in absurd (omega (arith, h, mul-le-mul_right v above))
]

pub quotient_bits-IsRounded :
    (e : ℤ) (a b : Integer) (x v : ℕ)
    → StandsFor a true x
    → StandsFor b true v
    → 0 < x
    → 0 < v
    → x < 9007199254740992 * v
    → IsRounded e a b x v
unfolding divmod_positive
quotient_bits-IsRounded e a b x v ha hb px pv l =
    let above = StandsFor-parts a true x ha px in
    let below = StandsFor-parts b true v hb pv in
    let division =
      divmod_magnitude-IsDivMod a b ha.canonical hb.canonical
        (subst (λ n. 0 < n) (sym below.1) pv) in
    let q = magnitude (divmod_positive a b).0.limbs in
    let r = magnitude (divmod_positive a b).1.limbs in
    let value : x ≡ q * v + r = sym above.1 ∙ division.value ∙ ap (λ t. q * t + r) below.1 in
    let fits : q < 2 ^ 53 =
      quotient_lt q r v (2 ^ 53) (subst (λ n. n < 9007199254740992 * v) value l) in
    let word =
      to_u64_lem (divmod_positive a b).0 division.quotient_canonical
      ∙ kept_word _ q q division.positive.0 refl (omega (arith, fits)) in
    let rest = StandsFor-shift_left (divmod_positive a b).1 true r 1 (
      StandsFor-itself (divmod_positive a b).1 true division.remainder_canonical
        division.positive.1) in
    record {
      q = q;
      r = r;
      value = value;
      below = subst (λ n. r < n) below.1 division.below;
      fits = fits;
      bits = rw (word, compare_integer-numbers _ b (r * 2 ^ 1) v rest hb) refl;
    }

-- The next exponent, where the rounding gave 2^53.
next_bits :
    (e : ℤ) (g : ℕ)
    → is_normal e ≡ true
    → pos_part (e +ℤ pos 1 +ℤ pos 1023) ≡ suc (suc g)
    → ltb 1023 (pos_part (e +ℤ pos 1)) ≡ false
    → magnitude_bits e 9007199254740992 ≡ some (g * 2 ^ 52 + 9007199254740992)
next_bits e g n b s =
    rw (n, s, b, bit_or_shifted 52 (suc (suc g)) 0 (omega arith)) (ap some (omega arith))

next_scale :
    (g : ℕ) (e : ℤ)
    → g < 2045
    → pos_part e + 1074 ≡ g + 52 + neg_part e
    → (pos_part (e +ℤ pos 1 +ℤ pos 1023) ≡ suc (suc g)) × (ltb 1023 (pos_part (e +ℤ pos 1)) ≡ false)
unfolding ◌+ℤ◌
next_scale g (pos k) l e = (ground (arith, e), ground (arith, e, l))
next_scale g (negsuc k) l e = (ground (arith, e), ground (arith, e, l))

pub rounded_bits :
    (e : ℤ) (g n : ℕ)
    → g ≤ 2045
    → pos_part e + 1074 ≡ g + 52 + neg_part e
    → 2 ^ 52 ≤ n
    → n ≤ 2 ^ 53
    → (g ≡ 2045 → n < 2 ^ 53)
    → magnitude_bits e n ≡ some (g * 2 ^ 52 + n)
rounded_bits e g n l k low high last =
    let normal = normal_scale g e l k in
    elim (dec_lt n (2 ^ 53)) [
      | yes h ↦ normal_bits_lem e n g low h normal.0 normal.2 normal.3
      | no h ↦
          let top : 9007199254740992 ≡ n = omega (arith, h, high) in
          let not_last : g < 2045 = elim (dec_lt g 2045) [
            | yes a ↦ a
            | no a ↦ absurd (h (last (omega (arith, a, l))))
          ] in
          let next = next_scale g e not_last k in
          subst (λ i. magnitude_bits e i ≡ some (g * 2 ^ 52 + i)) top
            (next_bits e g normal.0 next.0 next.1)
    ]

pub subnormal_rounded :
    (e : ℤ) (n : ℕ) → n ≤ 2 ^ 52 → is_normal e ≡ false → magnitude_bits e n ≡ some n
subnormal_rounded e n l h = rw h (subnormal n l)
  where
    subnormal : (n : ℕ) → n ≤ 2 ^ 52 → (if leb (2 ^ 52) n then some (2 ^ 52) else some n) ≡ some n
    subnormal n l = ground (arith, l)
