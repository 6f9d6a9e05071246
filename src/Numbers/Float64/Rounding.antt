-- ===== src/Numbers/Float64/Rounding.antt =====
-- src/float64.hpp, `fraction_to_binary64`: the result is the nearest double, with ties to even.
use genia_cpp.Base.{
  ℕ, ◌+◌, ◌-◌, ◌*◌, ◌^◌, ◌<◌, ◌≡◌, ◌⊎◌, refl, sym, ap, subst, ◌∙◌, Bool, true, false, not, compare,
  arith, dec_lt, if◌then◌else◌, ◌==◌, Option, none, some, ◌>>=◌, bit_or, Bool-cases, inl, inr,
}
use genia_cpp.Bignum.{Integer, mul, is_zero, absolute, bit_length}
use genia_cpp.Bignum.Limbs.{magnitude}
use genia_cpp.Bignum.Canonical.{IsCanonical, is_zero_lem}
use genia_cpp.Numbers.StandsFor.{
  StandsFor, StandsFor-itself, StandsFor-mul_positive, compare_integer-numbers,
}
use genia_cpp.Numbers.Fractions.{float_biased, float_fraction, float_sign}
use genia_cpp.Numbers.Float64.{
  fraction_to_binary64, is_finite, is_above, largest_finite, positive_bits, sign_bit,
}
use genia_cpp.Numbers.Float64.Scaled.{largest-StandsFor}
use genia_cpp.Numbers.Float64.Bits.{absolute-StandsFor, signed_bits}
use genia_cpp.Numbers.Float64.Multiples.{IsNearer}
use genia_cpp.Numbers.Float64.Encoded.{units, grid-IsEncoded}
use genia_cpp.Numbers.Float64.Nearest.{IsNearest, positive-IsNearest}

-- A number beyond the largest double.
beyond :
    (a b : Integer) (x y : ℕ)
    → StandsFor a true x
    → StandsFor b true y
    → y * (9007199254740991 * 2 ^ 971) < x
    → positive_bits a b ≡ none
beyond a b x y ha hb l = refused _ _ (
    ap is_above (
      compare_integer-numbers a (mul b largest_finite) x (y * (9007199254740991 * 2 ^ 971)) ha (
        StandsFor-mul_positive b largest_finite true y (9007199254740991 * 2 ^ 971) hb
          largest-StandsFor))
    ∙ above x (y * (9007199254740991 * 2 ^ 971)) l)
  where
    above : (m n : ℕ) → n < m → is_above (compare m n) ≡ true
    above m n h = ground (arith, h)

    refused : (over : Bool) (rest : Option ℕ) → over ≡ true → (if over then none else rest) ≡ none
    refused over rest h = rw h refl

-- The bits, for a number that is nearer to the fraction x / y than the other double, or as near and
-- the same or even; none, beyond the largest double.
abbrev pub IsRoundedTo : Option ℕ → Bool → ℕ → ℕ → ℕ → Type 0
IsRoundedTo result negative x y other =
    ((bits : ℕ) × (result ≡ some bits)
      × (is_finite bits ≡ true)
      × (float_sign bits ≡ negative)
      × IsNearer (x * 2 ^ 1074) (units bits * y) (units other * y) bits)
    ⊎ ((result ≡ none) × (y * (9007199254740991 * 2 ^ 971) < x))

significand_fits :
    (other : ℕ)
    → (if float_biased other == 0 then float_fraction other else 2 ^ 52 + float_fraction other)
      < 9007199254740992
significand_fits other = ground arith

signed_result : Option ℕ → Bool → Option ℕ
signed_result result positive = result >>= λ bits. some (bit_or bits (sign_bit (not positive)))

even_bits :
    (a chosen other g n : ℕ) (negative : Bool)
    → IsNearer a chosen other n
    → IsNearer a chosen other (g * 2 ^ 52 + n + sign_bit negative)
even_bits a chosen other g n negative (inl h) = inl h
even_bits a chosen other g n negative (inr (h, inl same)) = inr (h, inl same)
even_bits a chosen other g n true (inr (h, inr even)) = inr (h, inr (omega (arith, even)))
even_bits a chosen other g n false (inr (h, inr even)) = inr (h, inr (omega (arith, even)))

nearest_lem :
    (a b : Integer) (x y : ℕ) (positive : Bool) (other : ℕ)
    → IsNearest a b x y
    → IsRoundedTo (signed_result (positive_bits a b) positive) (not positive) x y other
unfolding signed_result
nearest_lem a b x y positive other h =
    let encoded = grid-IsEncoded h.g h.n (not positive) h.grid in
    inl (
      h.g * 2 ^ 52 + h.n + sign_bit (not positive),
      ap (λ r. r >>= λ bits. some (bit_or bits (sign_bit (not positive)))) h.bits
          ∙ ap some
              (signed_bits (h.g * 2 ^ 52 + h.n) (not positive) (omega (arith, h.grid.finite))),
      encoded.finite,
      encoded.sign,
      even_bits _ _ _ h.g h.n (not positive) (
          subst (λ i. IsNearer (x * 2 ^ 1074) (i * y) (units other * y) h.n) (sym encoded.magnitude)
            (h.nearest
              (if float_biased other == 0
                then float_fraction other
                else 2 ^ 52 + float_fraction other)
              (float_biased other - 1) (significand_fits other))),
    )

nonzero_lem :
    (a b : Integer) (x y : ℕ) (positive : Bool) (other : ℕ)
    → StandsFor a true x
    → StandsFor b true y
    → 0 < x
    → 0 < y
    → bit_length a < 2147483648
    → bit_length b < 2147483648
    → IsRoundedTo (signed_result (positive_bits a b) positive) (not positive) x y other
unfolding signed_result
nonzero_lem a b x y positive other ha hb px py sa sb =
    elim (dec_lt (y * (9007199254740991 * 2 ^ 971)) x) [
      | yes l ↦ inr (ap (λ r. signed_result r positive) (beyond a b x y ha hb l), l)
      | no n ↦
          nearest_lem a b x y positive other
            (positive-IsNearest a b x y ha hb px py sa sb (omega (arith, n)))
    ]

zero_lem :
    (y other : ℕ) (negative : Bool) → negative ≡ false → IsRoundedTo (some 0) negative 0 y other
zero_lem y other negative e = inl (0, refl, refl, sym e, inr (omega arith, inr refl))

bit_length-absolute : (n : Integer) → bit_length (absolute n) ≡ bit_length n
unfolding bit_length absolute
bit_length-absolute n = refl

-- `fraction_to_binary64` of a canonical numerator and a canonical denominator above 0, whose bit
-- lengths fit into an `int`, gives the bits of a finite double with the sign of the numerator. No other bits are those of a number nearer to the
-- fraction, and where others are as near, they are of the same number or the result is even. Or it
-- gives none, and the fraction is beyond the largest double.
pub fraction_to_binary64-IsRoundedTo :
    (n d : Integer) (other : ℕ)
    → IsCanonical n
    → IsCanonical d
    → d.positive ≡ true
    → 0 < magnitude d.limbs
    → bit_length n < 2147483648
    → bit_length d < 2147483648
    → IsRoundedTo
        (fraction_to_binary64 n d)
        (not n.positive)
        (magnitude n.limbs)
        (magnitude d.limbs)
        other
unfolding fraction_to_binary64 signed_result
fraction_to_binary64-IsRoundedTo n d other cn cd sd pd sn fits = elim (Bool-cases (is_zero n)) [
  | inl z ↦
      let none_left : magnitude n.limbs ≡ 0 = ground (arith, sym (is_zero_lem n cn) ∙ z) in
      rw z (
        subst (λ i. IsRoundedTo (some 0) (not n.positive) i (magnitude d.limbs) other)
          (sym none_left)
          (zero_lem (magnitude d.limbs) other (not n.positive)
            (ap not (cn.zero_positive none_left))))
  | inr z ↦
      let above : 0 < magnitude n.limbs = ground (arith, sym (is_zero_lem n cn) ∙ z) in
      rw z (
        nonzero_lem (absolute n) d (magnitude n.limbs) (magnitude d.limbs) n.positive other
          (absolute-StandsFor n n.positive (magnitude n.limbs)
            (StandsFor-itself n n.positive cn refl) above)
          (StandsFor-itself d true cd sd) above pd
          (subst (λ i. i < 2147483648) (sym (bit_length-absolute n)) sn) fits)
]
