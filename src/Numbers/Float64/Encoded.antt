-- ===== src/Numbers/Float64/Encoded.antt =====
-- src/float64.hpp: the number that the bits of a double are.
use genia_cpp.Base.{
  ℕ, suc, ◌+◌, ◌-◌, ◌*◌, ◌^◌, ◌<◌, ◌≤◌, ◌≡◌, ◌⊎◌, refl, ap, subst, ◌∙◌, Bool, true, false, not,
  ◌&&◌, arith, dec_lt, if◌then◌else◌, ◌==◌, inl, inr,
}
use genia_cpp.Numbers.Fractions.{float_biased, float_fraction, float_sign}
use genia_cpp.Numbers.Float64.{is_finite, sign_bit}
use native.Mathlib.Nat.{pow-suc}

-- Multiples of 2^g that a double has.
pub record IsGrid (g n : ℕ) : Type 0 where
  pub high : n ≤ 2 ^ 53
  pub finite : g * 2 ^ 52 + n < 2047 * 2 ^ 52
  pub low : (2 ^ 52 ≤ n) ⊎ (g ≡ 0)

-- The magnitude of a double, in units of 2^-1074.
abbrev pub units : ℕ → ℕ
units bits =
    (if float_biased bits == 0 then float_fraction bits else 2 ^ 52 + float_fraction bits)
    * 2 ^ (float_biased bits - 1)

fields :
    (h f : ℕ) (negative : Bool)
    → h < 2048
    → f < 2 ^ 52
    → (float_biased (h * 2 ^ 52 + f + sign_bit negative) ≡ h)
      × (float_fraction (h * 2 ^ 52 + f + sign_bit negative) ≡ f)
      × (float_sign (h * 2 ^ 52 + f + sign_bit negative) ≡ negative)
fields h f true k l = (omega (arith, k, l), omega (arith, k, l), ground (arith, k, l))
fields h f false k l = (omega (arith, k, l), omega (arith, k, l), ground (arith, k, l))

-- The bits of a number that is not above the largest double.
pub record IsEncoded (g n bits : ℕ) (negative : Bool) : Type 0 where
  pub finite : is_finite bits ≡ true
  pub sign : float_sign bits ≡ negative
  pub magnitude : units bits ≡ n * 2 ^ g

not_last :
    (h f : ℕ) → h < 2047 → (not (h == 2047 && not (f == 0)) && not (h == 2047 && f == 0)) ≡ true
not_last h f k = ground (arith, k)

normal_value :
    (g f : ℕ) → (if suc g == 0 then f else 2 ^ 52 + f) * 2 ^ (suc g - 1) ≡ (2 ^ 52 + f) * 2 ^ g
normal_value g f =
    let not_zero : (suc g == 0) ≡ false = ground arith in
    let less : suc g - 1 ≡ g = omega arith in rw (not_zero, less) refl

top_significand : (n : ℕ) → ¬ (n < 2 ^ 53) → n ≤ 2 ^ 53 → n ≡ 9007199254740992
top_significand n h k = omega (arith, h, k)

from_fields :
    (g n h f : ℕ) (negative : Bool)
    → h < 2047
    → f < 2 ^ 52
    → h * 2 ^ 52 + f ≡ g * 2 ^ 52 + n
    → (if h == 0 then f else 2 ^ 52 + f) * 2 ^ (h - 1) ≡ n * 2 ^ g
    → IsEncoded g n (g * 2 ^ 52 + n + sign_bit negative) negative
from_fields g n h f negative k l e value =
    subst (λ b. IsEncoded g n (b + sign_bit negative) negative) e
      (let parts = fields h f negative (omega (arith, k)) l in
        record {
          finite = rw (parts.0, parts.1) (not_last h f k);
          sign = parts.2;
          magnitude = rw (parts.0, parts.1) value;
        })

pub grid-IsEncoded :
    (g n : ℕ) (negative : Bool)
    → IsGrid g n
    → IsEncoded g n (g * 2 ^ 52 + n + sign_bit negative) negative
grid-IsEncoded g n negative h = elim (dec_lt n (2 ^ 52)) [
  | yes l ↦
      let zero_exponent : g ≡ 0 = elim h.low [ inl a ↦ absurd (omega (arith, a, l)) | inr z ↦ z ] in
      from_fields g n 0 n negative (omega arith) l (omega (arith, zero_exponent))
        (omega (arith, ap (λ (i : ℕ). n * 2 ^ i) zero_exponent))
  | no l ↦ elim (dec_lt n (2 ^ 53)) [
    | yes k ↦
        from_fields g n (suc g) (n - 2 ^ 52) negative (omega (arith, h.finite, l))
          (omega (arith, k, l)) (omega (arith, l))
          (normal_value g (n - 2 ^ 52) ∙ ap (λ i. i * 2 ^ g) (omega (arith, l)))
    | no k ↦
        from_fields g n (suc (suc g)) 0 negative (omega (arith, h.finite, k)) (omega arith)
          (omega (arith, k, h.high))
          (normal_value (suc g) 0
            ∙ omega (arith, pow-suc 2 g, ap (λ (i : ℕ). i * 2 ^ g) (top_significand n k h.high)))
  ]
]
