-- ===== src/Numbers/StandsFor.antt =====
-- Integers by the sign and the number that they stand for, for src/float64.hpp and src/equality.hpp.
use genia_cpp.Base.{
  ℕ, zero, suc, ◌*◌, ◌^◌, ◌<◌, ◌≡◌, refl, sym, ap, subst, ◌∙◌, Bool, true, false, not, Ordering,
  compare, arith,
}
use genia_cpp.Base.Int.{pos, ◌*ℤ◌, ◌-ℤ◌}
use genia_cpp.Bignum.{Integer, from_u64, mul, same, shift_left, compare_integer}
use genia_cpp.Bignum.Limbs.{magnitude}
use genia_cpp.Bignum.Canonical.{
  IsCanonical, from_u64-IsCanonical, magnitude-from_u64, negate-IsCanonical,
}
use native.Mathlib.Nat.{add-zero}
use genia_cpp.Bignum.Signed.{
  compare_integer-to_ℤ, compare_ℤ, to_ℤ, signed, signed_mul, to_ℤ-mul, mul-IsCanonical, to_ℤ-negate,
}
use genia_cpp.Bignum.Words.{to_ℤ-shift_left, shift_left-IsCanonical}
use genia_cpp.Numbers.Signs.{compare_equal}
use genia_cpp.Numbers.Fractions.{one, ten, mul_times, signed_integer, is_equal}
use native.Mathlib.Nat.{mul_assoc, mul_comm, pow-suc, pow-zero}

-- A canonical integer that is the number, or the number below zero.
pub record StandsFor (a : Integer) (s : Bool) (n : ℕ) : Type 0 where
  pub canonical : IsCanonical a
  pub value : to_ℤ a ≡ signed s n

pub StandsFor-mul :
    (a b : Integer) (s t : Bool) (m n : ℕ)
    → StandsFor a s m
    → StandsFor b t n
    → StandsFor (mul a b) (same s t) (m * n)
StandsFor-mul a b s t m n ha hb = record {
  canonical = mul-IsCanonical a b;
  value =
      to_ℤ-mul a b ha.canonical hb.canonical
      ∙ ap (λ x. x *ℤ to_ℤ b) ha.value
      ∙ ap (λ y. signed s m *ℤ y) hb.value
      ∙ sym (signed_mul s t m n);
}

from_u64-positive : (n : ℕ) → (from_u64 n).positive ≡ true
unfolding from_u64
from_u64-positive n = ground arith

from_u64_value : (n : ℕ) → n < 18446744073709551616 → to_ℤ (from_u64 n) ≡ pos n
unfolding to_ℤ
from_u64_value n h =
    ap (λ s. signed s (magnitude (from_u64 n).limbs)) (from_u64-positive n)
    ∙ ap pos (magnitude-from_u64 n h)

pub StandsFor-from_u64 : (n : ℕ) → n < 18446744073709551616 → StandsFor (from_u64 n) true n
StandsFor-from_u64 n h = record { canonical = from_u64-IsCanonical n h; value = from_u64_value n h }

pub StandsFor-one : StandsFor one true 1
StandsFor-one = StandsFor-from_u64 1 (omega arith)

pub StandsFor-ten : StandsFor ten true 10
StandsFor-ten = StandsFor-from_u64 10 (omega arith)

pub same-true : (s : Bool) → same s true ≡ s
same-true true = refl
same-true false = refl

pub StandsFor-mul_positive :
    (a b : Integer) (s : Bool) (m n : ℕ)
    → StandsFor a s m
    → StandsFor b true n
    → StandsFor (mul a b) s (m * n)
StandsFor-mul_positive a b s m n ha hb =
    subst (λ t. StandsFor (mul a b) t (m * n)) (same-true s) (StandsFor-mul a b s true m n ha hb)

pub StandsFor-mul_times :
    (k : ℕ) (f a : Integer) (s : Bool) (m p : ℕ)
    → StandsFor f true p
    → StandsFor a s m
    → StandsFor (mul_times k f a) s (m * p ^ k)
unfolding mul_times
StandsFor-mul_times zero f a s m p hf ha =
    subst (StandsFor a s) (omega (arith, ap (λ (t : ℕ). m * t) (pow-zero p))) ha
StandsFor-mul_times (suc k) f a s m p hf ha =
    subst (StandsFor (mul_times k f (mul a f)) s)
      (mul_assoc m p (p ^ k) ∙ ap (λ (t : ℕ). m * t) (mul_comm p (p ^ k) ∙ sym (pow-suc p k)))
      (StandsFor-mul_times k f (mul a f) s (m * p) p hf (StandsFor-mul_positive a f s m p ha hf))

signed_times :
    (s t : Bool) (m n p : ℕ) → signed s m ≡ signed t n → signed s (m * p) ≡ signed t (n * p)
signed_times s t m n p e =
    ap (λ u. signed u (m * p)) (sym (same-true s))
    ∙ signed_mul s true m p
    ∙ ap (λ x. x *ℤ signed true p) e
    ∙ sym (signed_mul t true n p)
    ∙ ap (λ u. signed u (n * p)) (same-true t)

to_ℤ-signed : (a : Integer) → to_ℤ a ≡ signed a.positive (magnitude a.limbs)
unfolding to_ℤ
to_ℤ-signed a = refl

pub StandsFor-shift_left :
    (a : Integer) (s : Bool) (m bits : ℕ)
    → StandsFor a s m
    → StandsFor (shift_left a bits) s (m * 2 ^ bits)
StandsFor-shift_left a s m bits h = record {
  canonical = shift_left-IsCanonical a bits h.canonical;
  value =
      to_ℤ-shift_left a bits h.canonical
      ∙ signed_times a.positive s (magnitude a.limbs) m (2 ^ bits) (sym (to_ℤ-signed a) ∙ h.value);
}

zero_minus : (n : ℕ) → pos 0 -ℤ pos n ≡ signed false n
unfolding ◌-ℤ◌
zero_minus zero = refl
zero_minus (suc n) = ground arith

pub StandsFor-signed_integer :
    (negative : Bool) (a : Integer) (n : ℕ)
    → StandsFor a true n
    → StandsFor (signed_integer negative a) (not negative) n
StandsFor-signed_integer false a n h = h
StandsFor-signed_integer true a n h = record {
  canonical = negate-IsCanonical a h.canonical;
  value = to_ℤ-negate a h.canonical ∙ ap (λ x. pos 0 -ℤ x) h.value ∙ zero_minus n;
}

order_equal : (o : Ordering) → is_equal o ≡ true → o ≡ Ordering.eq
order_equal Ordering.eq h = refl
order_equal Ordering.lt h = cc
order_equal Ordering.gt h = cc

pub compare_integer-StandsFor :
    (a b : Integer) (s : Bool) (m n : ℕ)
    → StandsFor a s m
    → StandsFor b s n
    → m ≡ n
    → compare_integer a b ≡ Ordering.eq
compare_integer-StandsFor a b s m n ha hb e =
    order_equal (compare_integer a b)
      ((compare_equal a b ha.canonical hb.canonical).1 (ha.value ∙ ap (signed s) e ∙ sym hb.value))

parts_of : (s t : Bool) (m n : ℕ) → 0 < n → signed s m ≡ signed t n → (s ≡ t) × (m ≡ n)
parts_of true true m n h e = ground arith
parts_of true false m n h e = ground arith
parts_of false true m n h e = ground arith
parts_of false false m n h e = ground arith

-- The sign and the magnitude, where the number is not 0.
pub StandsFor-parts :
    (a : Integer) (s : Bool) (n : ℕ)
    → StandsFor a s n
    → 0 < n
    → (a.positive ≡ s) × (magnitude a.limbs ≡ n)
StandsFor-parts a s n h k =
    parts_of a.positive s (magnitude a.limbs) n k (sym (to_ℤ-signed a) ∙ h.value)

pub StandsFor-itself :
    (a : Integer) (s : Bool) → IsCanonical a → a.positive ≡ s → StandsFor a s (magnitude a.limbs)
StandsFor-itself a s c e = record {
  canonical = c;
  value = to_ℤ-signed a ∙ ap (λ t. signed t (magnitude a.limbs)) e;
}

-- The comparison of two that are not negative is that of the numbers.
pub compare_integer-numbers :
    (a b : Integer) (m n : ℕ)
    → StandsFor a true m
    → StandsFor b true n
    → compare_integer a b ≡ compare m n
compare_integer-numbers a b m n ha hb =
    compare_integer-to_ℤ a b ha.canonical hb.canonical
    ∙ ap (λ x. compare_ℤ x (to_ℤ b)) ha.value
    ∙ ap (compare_ℤ (pos m)) hb.value
    ∙ rw (add-zero m, add-zero n) refl
