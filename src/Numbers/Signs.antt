-- ===== src/Numbers/Signs.antt =====
-- Products of integers by sign and magnitude, for src/rational.hpp and src/equality.hpp.
use genia_cpp.Base.{
  ℕ, zero, suc, ◌+◌, ◌*◌, ◌≡◌, refl, sym, ap, ◌∙◌, Bool, true, false, not, arith, ◌==◌,
  if◌then◌else◌, ◌↔◌, compare,
}
use genia_cpp.Base.Int.{ℤ, pos, negsuc, pos_part, neg_part, ◌*ℤ◌}
use genia_cpp.Bignum.{Integer, same, negate, compare_integer}
use genia_cpp.Bignum.Limbs.{magnitude}
use genia_cpp.Bignum.Canonical.{IsCanonical, magnitude-negate}
use genia_cpp.Bignum.Signed.{signed, to_ℤ, signed_mul, positive-negate, compare_integer-to_ℤ}
use genia_cpp.Numbers.Fractions.{is_equal}
use native.Mathlib.Nat.{mul_comm, mul_assoc}

pub to_ℤ-mul_signed :
    (a b : Integer)
    → to_ℤ a *ℤ to_ℤ b ≡ signed (same a.positive b.positive) (magnitude a.limbs * magnitude b.limbs)
unfolding to_ℤ
to_ℤ-mul_signed a b = sym (signed_mul a.positive b.positive _ _)

same_comm : (s t : Bool) → same s t ≡ same t s
same_comm true true = refl
same_comm true false = refl
same_comm false true = refl
same_comm false false = refl

same_assoc : (s t u : Bool) → same (same s t) u ≡ same s (same t u)
same_assoc true true true = refl
same_assoc true true false = refl
same_assoc true false true = refl
same_assoc true false false = refl
same_assoc false true true = refl
same_assoc false true false = refl
same_assoc false false true = refl
same_assoc false false false = refl

abbrev is_nonneg : ℤ → Bool
is_nonneg (pos n) = true
is_nonneg (negsuc n) = false

abbrev size : ℤ → ℕ
size (pos n) = n
size (negsuc n) = suc n

view : (z : ℤ) → z ≡ signed (is_nonneg z) (size z)
view (pos n) = refl
view (negsuc n) = refl

mul_view : (a b : ℤ) → a *ℤ b ≡ signed (same (is_nonneg a) (is_nonneg b)) (size a * size b)
mul_view a b =
    ap (λ x. x *ℤ b) (view a)
    ∙ ap (λ y. signed (is_nonneg a) (size a) *ℤ y) (view b)
    ∙ sym (signed_mul (is_nonneg a) (is_nonneg b) (size a) (size b))

pub mulℤ_comm : (a b : ℤ) → a *ℤ b ≡ b *ℤ a
mulℤ_comm a b =
    mul_view a b
    ∙ ap (λ s. signed s (size a * size b)) (same_comm (is_nonneg a) (is_nonneg b))
    ∙ ap (signed (same (is_nonneg b) (is_nonneg a))) (mul_comm (size a) (size b))
    ∙ sym (mul_view b a)

pub mulℤ_assoc : (a b c : ℤ) → (a *ℤ b) *ℤ c ≡ a *ℤ (b *ℤ c)
mulℤ_assoc a b c =
    ap (λ x. x *ℤ c) (mul_view a b)
    ∙ ap (λ y. signed (same (is_nonneg a) (is_nonneg b)) (size a * size b) *ℤ y) (view c)
    ∙ sym (signed_mul (same (is_nonneg a) (is_nonneg b)) (is_nonneg c) (size a * size b) (size c))
    ∙ ap (λ s. signed s (size a * size b * size c))
        (same_assoc (is_nonneg a) (is_nonneg b) (is_nonneg c))
    ∙ ap (signed (same (is_nonneg a) (same (is_nonneg b) (is_nonneg c))))
        (mul_assoc (size a) (size b) (size c))
    ∙ signed_mul (is_nonneg a) (same (is_nonneg b) (is_nonneg c)) (size a) (size b * size c)
    ∙ ap (λ x. x *ℤ signed (same (is_nonneg b) (is_nonneg c)) (size b * size c)) (sym (view a))
    ∙ ap (λ y. a *ℤ y) (sym (mul_view b c))

pub size_signed : (s t : Bool) (m n : ℕ) → signed s m ≡ signed t n → m ≡ n
size_signed true true m n e = ground arith
size_signed true false m n e = ground arith
size_signed false true m n e = ground arith
size_signed false false m n e = ground arith

pub flipped : (s t : Bool) (m n : ℕ) → signed s m ≡ signed t n → signed (not s) m ≡ signed (not t) n
flipped true true m n e = ground arith
flipped true false m n e = ground arith
flipped false true m n e = ground arith
flipped false false m n e = ground arith

to_ℤ-negate-signed :
    (a : Integer) → IsCanonical a → to_ℤ (negate a) ≡ signed (not a.positive) (magnitude a.limbs)
unfolding to_ℤ
to_ℤ-negate-signed a c =
    rw (magnitude-negate a, positive-negate a c) (by_sign a.positive (magnitude a.limbs))
  where
    by_sign : (s : Bool) (n : ℕ) → signed (if n == 0 then s else not s) n ≡ signed (not s) n
    by_sign true zero = ground arith
    by_sign true (suc n) = ground arith
    by_sign false zero = ground arith
    by_sign false (suc n) = ground arith

same-not : (s t : Bool) → same (not s) t ≡ not (same s t)
same-not true true = refl
same-not true false = refl
same-not false true = refl
same-not false false = refl

negate_mul :
    (a b : Integer)
    → IsCanonical a
    → to_ℤ (negate a) *ℤ to_ℤ b
      ≡ signed (not (same a.positive b.positive)) (magnitude a.limbs * magnitude b.limbs)
unfolding to_ℤ
negate_mul a b c =
    ap (λ z. z *ℤ to_ℤ b) (to_ℤ-negate-signed a c)
    ∙ sym (signed_mul (not a.positive) b.positive (magnitude a.limbs) (magnitude b.limbs))
    ∙ ap (λ s. signed s (magnitude a.limbs * magnitude b.limbs)) (same-not a.positive b.positive)

-- Equal products stay equal when a factor of each changes its sign.
pub negated_products :
    (a b c d : Integer)
    → IsCanonical a
    → IsCanonical d
    → to_ℤ a *ℤ to_ℤ b ≡ to_ℤ c *ℤ to_ℤ d
    → to_ℤ (negate a) *ℤ to_ℤ b ≡ to_ℤ c *ℤ to_ℤ (negate d)
negated_products a b c d ca cd e =
    negate_mul a b ca
    ∙ flipped (same a.positive b.positive) (same d.positive c.positive)
        (magnitude a.limbs * magnitude b.limbs) (magnitude d.limbs * magnitude c.limbs)
        (sym (to_ℤ-mul_signed a b) ∙ e ∙ mulℤ_comm (to_ℤ c) (to_ℤ d) ∙ to_ℤ-mul_signed d c)
    ∙ sym (negate_mul d c cd)
    ∙ mulℤ_comm (to_ℤ (negate d)) (to_ℤ c)

parts_equal : (x y : ℤ) → pos_part x + neg_part y ≡ pos_part y + neg_part x → x ≡ y
parts_equal (pos a) (pos b) e = ground arith
parts_equal (pos a) (negsuc b) e = ground arith
parts_equal (negsuc a) (pos b) e = ground arith
parts_equal (negsuc a) (negsuc b) e = ground arith

compare_same : (m n : ℕ) → is_equal (compare m n) ≡ true → m ≡ n
compare_same m n h = ground arith

same_compare : (m n : ℕ) → m ≡ n → is_equal (compare m n) ≡ true
same_compare m n e = ground arith

-- `compare` is 0 exactly for equal integers.
pub compare_equal :
    (a b : Integer)
    → IsCanonical a
    → IsCanonical b
    → (is_equal (compare_integer a b) ≡ true) ↔ (to_ℤ a ≡ to_ℤ b)
compare_equal a b ca cb = rw (compare_integer-to_ℤ a b ca cb) (
  (λ h. parts_equal (to_ℤ a) (to_ℤ b) (compare_same _ _ h)),
  (λ e. same_compare _ _ (
      ap (λ x. pos_part x + neg_part (to_ℤ b)) e
      ∙ ap (λ x. pos_part (to_ℤ b) + neg_part x) (sym e))),
)
