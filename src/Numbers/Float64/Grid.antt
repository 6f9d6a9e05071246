-- ===== src/Numbers/Float64/Grid.antt =====
-- src/float64.hpp, `fraction_to_binary64`: the scaled fraction and the multiples that doubles are.
use genia_cpp.Base.{
  ℕ, ◌+◌, ◌-◌, ◌*◌, ◌^◌, ◌<◌, ◌≤◌, ◌≡◌, ◌⊎◌, sym, ap, subst, ◌∙◌, arith, dec_lt, inl, inr,
}
use genia_cpp.Base.Int.{ℤ, pos_part, neg_part}
use genia_cpp.Bignum.Words.{pow_add}
use genia_cpp.Numbers.Float64.Leading.{IsLeading, cancel_lt}
use genia_cpp.Numbers.Float64.Multiples.{IsNearer, scaled-IsNearer}
use native.Mathlib.Nat.{
  pow-suc, mul-le-mul_left, mul-le-mul_right, one-le-pow, pow-le-pow_right, le_of_mul-le-mul_right,
}

power-above : (k : ℕ) → 0 < 2 ^ k
power-above k = one-le-pow k 2 (omega arith)

same_power : (a b c d : ℕ) → a + b ≡ c + d → 2 ^ a * 2 ^ b ≡ 2 ^ c * 2 ^ d
same_power a b c d e = sym (pow_add 2 a b) ∙ ap (λ (i : ℕ). 2 ^ i) e ∙ pow_add 2 c d

module _ (x y : ℕ) (e : ℤ) (leading : IsLeading e x y) (g s t : ℕ) (k : s + g ≡ t + 1074) where
  -- With a normal exponent, the scaled fraction is from 2^52 to 2^53.
  module _ (h : pos_part e + 1074 ≡ g + 52 + neg_part e) where
    powers : 2 ^ pos_part e * 2 ^ s ≡ 2 ^ (t + 52) * 2 ^ neg_part e
    powers = same_power (pos_part e) s (t + 52) (neg_part e) (omega (arith, h, k))

    pub scaled-lt : x * 2 ^ s < 9007199254740992 * (y * 2 ^ t)
    scaled-lt = cancel_lt _ _ (2 ^ neg_part e) (
        omega (
          arith,
          mul-le-mul_right (2 ^ s) leading.1,
          power-above s,
          ap (λ (i : ℕ). y * i) powers,
          ap (λ (i : ℕ). y * 2 ^ neg_part e * i) (pow_add 2 t 52),
        ))

    pub scaled-ge : 4503599627370496 * (y * 2 ^ t) ≤ x * 2 ^ s
    scaled-ge =
        le_of_mul-le-mul_right
          (omega (
            arith,
            mul-le-mul_right (2 ^ s) leading.0,
            ap (λ (i : ℕ). y * i) powers,
            ap (λ (i : ℕ). y * 2 ^ neg_part e * i) (pow_add 2 t 52),
          ))
          (power-above (neg_part e))

-- With a subnormal exponent, it is below 2^52.
pub subnormal-lt :
    (x y : ℕ) (e : ℤ)
    → IsLeading e x y
    → pos_part e + 1074 < 52 + neg_part e
    → x * 2 ^ 1074 < 4503599627370496 * (y * 2 ^ 0)
subnormal-lt x y e leading h = subnormal 1074 h
  where
    subnormal :
        (bias : ℕ)
        → pos_part e + bias < 52 + neg_part e
        → x * 2 ^ bias < 4503599627370496 * (y * 2 ^ 0)
    subnormal bias l = cancel_lt _ _ (2 ^ neg_part e) (
        omega (
          arith,
          mul-le-mul_right (2 ^ bias) leading.1,
          power-above bias,
          mul-le-mul_left y (pow-le-pow_right {n = 2} (omega arith) l),
          ap (λ (i : ℕ). y * i) (pow_add 2 52 (neg_part e)),
          ap (λ (i : ℕ). 2 * y * i) (pow_add 2 (pos_part e) bias),
          ap (λ (i : ℕ). y * i) (pow-suc 2 (pos_part e + bias)),
        ))

-- What is as near as a number below is nearer than one below that.
nearer : (a n b c choice : ℕ) → c < b → b ≤ a → IsNearer a n b choice → IsNearer a n c choice
nearer a n b c choice h k (inl l) = inl (omega (arith, h, k, l))
nearer a n b c choice h k (inr (l, either)) = inl (omega (arith, h, k, l))

-- A multiple that no multiple of the scaled divisor is nearer than is a double that no other double is
-- nearer than.
module _ (bias x y g s t n : ℕ) (k : s + g ≡ t + bias)
    (nearest : (j : ℕ) → IsNearer (x * 2 ^ s) (n * (y * 2 ^ t)) (j * (y * 2 ^ t)) n) where
  multiple-IsNearer : (j : ℕ) → IsNearer (x * 2 ^ bias) (n * 2 ^ g * y) (j * 2 ^ g * y) n
  multiple-IsNearer j =
      scaled-IsNearer (x * 2 ^ bias) (n * 2 ^ g * y) (j * 2 ^ g * y) (x * 2 ^ s) (n * (y * 2 ^ t))
        (j * (y * 2 ^ t)) (2 ^ t) (2 ^ g) (power-above t) (power-above g)
        (omega (arith, ap (λ (i : ℕ). x * i) (same_power s g t bias k))) (omega arith) (omega arith)
        n (nearest j)

  low_below :
      4503599627370496 * (y * 2 ^ t) ≤ x * 2 ^ s → 4503599627370496 * 2 ^ g * y ≤ x * 2 ^ bias
  low_below z =
      le_of_mul-le-mul_right
        (omega (arith, mul-le-mul_right (2 ^ g) z, ap (λ (i : ℕ). x * i) (same_power s g t bias k)))
        (power-above t)

  below_low :
      (m u : ℕ)
      → 0 < y
      → m < 9007199254740992
      → u < g
      → m * 2 ^ u * y < 4503599627370496 * 2 ^ g * y
  below_low m u p l h =
      let powers : m * 2 ^ u + 1 ≤ 4503599627370496 * 2 ^ g = omega (
        arith,
        mul-le-mul_right (2 ^ u) l,
        pow-le-pow_right {n = 2} (omega arith) h,
        pow-suc 2 u,
        power-above u,
      ) in
      omega (arith, mul-le-mul_right y powers, p)

  pub double-IsNearer :
      (m u : ℕ)
      → 0 < y
      → m < 9007199254740992
      → (g ≡ 0) ⊎ (4503599627370496 * (y * 2 ^ t) ≤ x * 2 ^ s)
      → IsNearer (x * 2 ^ bias) (n * 2 ^ g * y) (m * 2 ^ u * y) n
  double-IsNearer m u p l low = elim (dec_lt u g) [
    | no h ↦
        let power : 2 ^ u ≡ 2 ^ (u - g) * 2 ^ g =
          ap (λ (i : ℕ). 2 ^ i) (omega (arith, h)) ∙ pow_add 2 (u - g) g in
        let multiple : m * 2 ^ (u - g) * 2 ^ g * y ≡ m * 2 ^ u * y =
          omega (arith, ap (λ (i : ℕ). m * y * i) power) in
        subst (λ i. IsNearer (x * 2 ^ bias) (n * 2 ^ g * y) i n) multiple
          (multiple-IsNearer (m * 2 ^ (u - g)))
    | yes h ↦ elim low [
      | inl z ↦ absurd (omega (arith, z, h))
      | inr z ↦
          nearer (x * 2 ^ bias) (n * 2 ^ g * y) (4503599627370496 * 2 ^ g * y) (m * 2 ^ u * y) n
            (below_low m u p l h) (low_below z) (multiple-IsNearer 4503599627370496)
    ]
  ]
