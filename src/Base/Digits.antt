-- ===== src/Base/Digits.antt =====
-- The bitwise or of numbers whose binary digits do not meet is their sum.
use Prim.Native.Nat.{
  ℕ, zero, suc, ◌+◌, ◌*◌, ◌/◌, ◌%◌, ◌^◌, ◌<◌, ◌≤◌, bit_or, bit_or-bitwise, digits, max,
}
use mathlib.Core.Path.{◌≡◌, refl, ap, ◌∙◌}
use native.Mathlib.Omega.{arith}
use native.Mathlib.Nat.{pow-suc, pow-zero}

abbrev or_digits : ℕ → ℕ → ℕ → ℕ
or_digits = digits (λ b. b) max

digit_max : (a : ℕ) → max (a % 2) 0 ≡ a % 2
digit_max a = ground arith

or_digits_zero : (n a : ℕ) → a ≤ n → or_digits n a 0 ≡ a
or_digits_zero zero a h = omega arith
or_digits_zero (suc n) zero h = refl
or_digits_zero (suc n) (suc a) h =
    omega (arith, or_digits_zero n (suc a / 2) (omega arith), digit_max (suc a))

or_digits_above : (k n h a f : ℕ) → a ≡ h * 2 ^ k → a ≤ n → f < 2 ^ k → or_digits n a f ≡ a + f
or_digits_above k zero h a f e g l = omega (arith, g)
or_digits_above k (suc n) h zero f e g l = omega arith
or_digits_above zero (suc n) h (suc a) f e g l =
    let none_left : f ≡ 0 = omega (arith, l, pow-zero 2) in
    ap (or_digits (suc n) (suc a)) none_left
    ∙ or_digits_zero (suc n) (suc a) g
    ∙ omega (arith, none_left)
or_digits_above (suc k) (suc n) h (suc a) f e g l =
    let even : suc a ≡ 2 * (h * 2 ^ k) = omega (arith, e, ap (λ (t : ℕ). h * t) (pow-suc 2 k)) in
    let rest =
      or_digits_above k n h (suc a / 2) (f / 2) (omega (arith, even)) (omega (arith, g))
        (omega (arith, l, pow-suc 2 k)) in
    ap (λ t. t * 2 + max (suc a % 2) (f % 2)) rest ∙ ground (arith, even)

or_digits_below : (k n a p : ℕ) → p ≡ 2 ^ k → a < p → a ≤ n → or_digits n a p ≡ a + p
or_digits_below k zero a p e l g = omega (arith, g)
or_digits_below k (suc n) zero p e l g = omega arith
or_digits_below zero (suc n) (suc a) p e l g = absurd (omega (arith, l, e, pow-zero 2))
or_digits_below (suc k) (suc n) (suc a) p e l g =
    let even : p ≡ 2 * (2 ^ k) = omega (arith, e, pow-suc 2 k) in
    let rest =
      or_digits_below k n (suc a / 2) (p / 2) (omega (arith, even)) (omega (arith, l, even))
        (omega (arith, g)) in
    ap (λ t. t * 2 + max (suc a % 2) (p % 2)) rest ∙ ground (arith, even)

bit_or_digits : (a b : ℕ) → bit_or a b ≡ or_digits a a b
bit_or_digits a b = λ i. bit_or-bitwise a b i

pub bit_or_shifted : (k h f : ℕ) → f < 2 ^ k → bit_or (h * 2 ^ k) f ≡ h * 2 ^ k + f
bit_or_shifted k h f l =
    bit_or_digits (h * 2 ^ k) f ∙ or_digits_above k (h * 2 ^ k) h (h * 2 ^ k) f refl (omega arith) l

pub bit_or_power : (k a : ℕ) → a < 2 ^ k → bit_or a (2 ^ k) ≡ a + 2 ^ k
bit_or_power k a l = bit_or_digits a (2 ^ k) ∙ or_digits_below k a a (2 ^ k) refl l (omega arith)

pub bit_or_zero : (a : ℕ) → bit_or a 0 ≡ a
bit_or_zero a = bit_or_digits a 0 ∙ or_digits_zero a a (omega arith)
