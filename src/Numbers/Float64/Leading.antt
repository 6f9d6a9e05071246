-- ===== src/Numbers/Float64/Leading.antt =====
-- src/float64.hpp, `fraction_to_binary64`: the exponent of the leading bit of a fraction.
use genia_cpp.Base.{
  ℕ, zero, suc, ◌+◌, ◌-◌, ◌*◌, ◌^◌, ◌<◌, ◌≤◌, ◌≡◌, ◌⊎◌, sym, ap, subst, ◌∙◌, Bool, true, false,
  compare, arith, Bool-cases, dec_lt, inl, inr, leb,
}
use genia_cpp.Base.Int.{ℤ, pos, negsuc, pos_part, neg_part, ◌-ℤ◌, as_int, as_int_lem}
use genia_cpp.Bignum.{Integer, bit_length}
use genia_cpp.Bignum.Words.{pow_add, bit_length_lem}
use genia_cpp.Numbers.StandsFor.{
  StandsFor, StandsFor-shift_left, StandsFor-parts, compare_integer-numbers,
}
use genia_cpp.Numbers.Float64.{is_below, corrected, leading_exponent}
use native.Mathlib.Nat.{pow-suc, mul-le-mul_left, mul-le-mul_right, one-le-pow, pow-le-pow_right}

-- 2^e is at most x / y, and twice it is above.
abbrev pub IsLeading : ℤ → ℕ → ℕ → Type 0
IsLeading e x y =
    (y * 2 ^ pos_part e ≤ x * 2 ^ neg_part e) × (x * 2 ^ neg_part e < 2 * (y * 2 ^ pos_part e))

-- 2^(e - 1) is below x / y, and 2^(e + 1) is above.
abbrev IsEstimate : ℤ → ℕ → ℕ → Type 0
IsEstimate e x y =
    (y * 2 ^ pos_part e < 2 * (x * 2 ^ neg_part e))
    × (x * 2 ^ neg_part e < 2 * (y * 2 ^ pos_part e))

below_cases :
    (m n : ℕ)
    → ((is_below (compare m n) ≡ true) × (m < n)) ⊎ ((is_below (compare m n) ≡ false) × (n ≤ m))
below_cases m n = ground arith

one_less : (k : ℕ) → pos (suc k) -ℤ pos 1 ≡ pos k
unfolding ◌-ℤ◌
one_less k = ground arith

one_less_negative : (k : ℕ) → negsuc k -ℤ pos 1 ≡ negsuc (suc k)
unfolding ◌-ℤ◌
one_less_negative k = ground arith

below_estimate :
    (e : ℤ) (x y : ℕ)
    → IsEstimate e x y
    → x * 2 ^ neg_part e < y * 2 ^ pos_part e
    → IsLeading (e -ℤ pos 1) x y
unfolding ◌-ℤ◌
below_estimate (pos zero) x y h l = (omega (arith, h.0), omega (arith, l))
below_estimate (pos (suc k)) x y h l = rw (one_less k) (
  omega (arith, h.0, ap (λ (t : ℕ). y * t) (pow-suc 2 k)),
  omega (arith, l, ap (λ (t : ℕ). y * t) (pow-suc 2 k)),
)
below_estimate (negsuc k) x y h l = rw (one_less_negative k) (
  omega (arith, h.0, ap (λ (t : ℕ). x * t) (pow-suc 2 (suc k))),
  omega (arith, l, ap (λ (t : ℕ). x * t) (pow-suc 2 (suc k))),
)

int_less :
    (k : ℕ) → neg_part (negsuc k) < 2147483648 → as_int (negsuc k -ℤ pos 1) ≡ negsuc k -ℤ pos 1
int_less k h =
    rw (one_less_negative k) (as_int_lem (negsuc (suc k)) (omega arith) (omega (arith, h)))

corrected-IsLeading :
    (numerator denominator : Integer) (x y : ℕ) (e : ℤ)
    → neg_part e < 2147483648
    → StandsFor numerator true x
    → StandsFor denominator true y
    → IsEstimate e x y
    → IsLeading (corrected numerator denominator e) x y
corrected-IsLeading numerator denominator x y (pos e) fits hx hy h =
    rw (compare_integer-numbers _ _ x (y * 2 ^ e) hx (StandsFor-shift_left denominator true y e hy))
      (elim (below_cases x (y * 2 ^ e)) [
        | inl (b, l) ↦ rw b (below_estimate (pos e) x y h (omega (arith, l)))
        | inr (b, l) ↦ rw b (omega (arith, l), h.1)
      ])
corrected-IsLeading numerator denominator x y (negsuc e) fits hx hy h = rw (int_less e fits) (
    rw
      (compare_integer-numbers _ _ (x * 2 ^ suc e) y
        (StandsFor-shift_left numerator true x (suc e) hx) hy)
      (elim (below_cases (x * 2 ^ suc e) y) [
        | inl (b, l) ↦ rw b (below_estimate (negsuc e) x y h (omega (arith, l)))
        | inr (b, l) ↦ rw b (omega (arith, l), h.1)
      ]))

product_powers : (x y a b : ℕ) → x < 2 ^ a → 2 ^ b ≤ 2 * y → x * 2 ^ b < 2 * (y * 2 ^ a)
product_powers x y a b h k =
    omega (arith, mul-le-mul_left x k, mul-le-mul_right y h, one-le-pow b 2 (omega arith), k)

pub cancel_lt : (x y k : ℕ) → x * k < y * k → x < y
cancel_lt x y k h = elim (dec_lt x y) [
  | yes l ↦ l
  | no n ↦
      let flipped : y ≤ x = omega (arith, n) in
      absurd (omega (arith, h, mul-le-mul_right k flipped))
]

difference_cases :
    (a b : ℕ)
    → ((k : ℕ) × (a ≡ k + b) × (pos a -ℤ pos b ≡ pos k))
      ⊎ ((k : ℕ) × (b ≡ a + suc k) × (pos a -ℤ pos b ≡ negsuc k))
unfolding ◌-ℤ◌
difference_cases a b = elim (Bool-cases (leb b a)) [
  | inl e ↦ inl (a - b, ground (arith, e), ground (arith, e))
  | inr e ↦ inr (b - a - 1, ground (arith, e), ground (arith, e))
]

-- The difference of two widths.
estimate :
    (x y a b : ℕ)
    → x < 2 ^ a
    → 2 ^ a ≤ 2 * x
    → y < 2 ^ b
    → 2 ^ b ≤ 2 * y
    → IsEstimate (pos a -ℤ pos b) x y
estimate x y a b h k h' k' =
    let one = product_powers y x b a h' k in
    let two = product_powers x y a b h k' in
    elim (difference_cases a b) [
      | inl (i, e, f) ↦
          let powers : 2 ^ a ≡ 2 ^ i * 2 ^ b = ap (λ (j : ℕ). 2 ^ j) e ∙ pow_add 2 i b in
          rw f (
            cancel_lt _ _ (2 ^ b) (omega (arith, one, ap (λ (t : ℕ). y * t) powers)),
            cancel_lt _ _ (2 ^ b) (omega (arith, two, ap (λ (t : ℕ). y * t) powers)),
          )
      | inr (i, e, f) ↦
          let powers : 2 ^ b ≡ 2 ^ a * 2 ^ suc i = ap (λ (j : ℕ). 2 ^ j) e ∙ pow_add 2 a (suc i) in
          rw f (
            cancel_lt _ _ (2 ^ a) (omega (arith, one, ap (λ (t : ℕ). x * t) powers)),
            cancel_lt _ _ (2 ^ a) (omega (arith, two, ap (λ (t : ℕ). x * t) powers)),
          )
    ]

width :
    (a : Integer) (n : ℕ)
    → StandsFor a true n
    → 0 < n
    → (n < 2 ^ bit_length a) × (2 ^ bit_length a ≤ 2 * n)
width a n h p =
    let size = (StandsFor-parts a true n h p).1 in
    let bounds = bit_length_lem a h.canonical (subst (λ i. 0 < i) (sym size) p) in
    (omega (arith, bounds.0, size), omega (arith, bounds.1, size))

difference_parts : (a b : ℕ) → (pos_part (pos a -ℤ pos b) ≤ a) × (neg_part (pos a -ℤ pos b) ≤ b)
unfolding ◌-ℤ◌
difference_parts a b = ground arith

-- Bit lengths that fit into an `int` are not changed by the casts.
int_difference :
    (a b : ℕ)
    → a < 2147483648
    → b < 2147483648
    → as_int (as_int (pos a) -ℤ as_int (pos b)) ≡ pos a -ℤ pos b
int_difference a b h k =
    let parts = difference_parts a b in
    rw (as_int_lem (pos a) h (omega arith), as_int_lem (pos b) k (omega arith))
      (as_int_lem (pos a -ℤ pos b) (omega (arith, parts.0, h)) (omega (arith, parts.1, k)))

-- The bit length of a number below a power of two.
pub bit_length-le :
    (a : Integer) (s : Bool) (n k : ℕ) → StandsFor a s n → 0 < n → n < 2 ^ k → bit_length a ≤ k
bit_length-le a s n k h p l =
    let size = (StandsFor-parts a s n h p).1 in
    let bounds = bit_length_lem a h.canonical (subst (λ i. 0 < i) (sym size) p) in
    elim (dec_lt k (bit_length a)) [
      | no f ↦ omega (arith, f)
      | yes f ↦
          let powers : 2 ^ suc k ≤ 2 ^ bit_length a = pow-le-pow_right (omega arith) f in
          absurd (omega (arith, powers, pow-suc 2 k, bounds.1, size, l))
    ]

-- The exponent is that of the leading bit of the fraction, where both bit lengths fit into an `int`.
pub leading_exponent_lem :
    (numerator denominator : Integer) (x y : ℕ)
    → StandsFor numerator true x
    → StandsFor denominator true y
    → 0 < x
    → 0 < y
    → bit_length numerator < 2147483648
    → bit_length denominator < 2147483648
    → IsLeading (leading_exponent numerator denominator) x y
leading_exponent_lem numerator denominator x y hx hy px py sx sy =
    let above = width numerator x hx px in
    let below = width denominator y hy py in
    let parts = difference_parts (bit_length numerator) (bit_length denominator) in
    rw (int_difference (bit_length numerator) (bit_length denominator) sx sy) (
      corrected-IsLeading numerator denominator x y _ (omega (arith, parts.1, sy)) hx hy (
        estimate x y (bit_length numerator) (bit_length denominator) above.0 above.1 below.0
          below.1))
