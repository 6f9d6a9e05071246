-- ===== src/Bignum/Canonical.antt =====
-- src/bignum.hpp: the representation invariant of `Integer`, which `normalize` establishes.
use genia_cpp.Base.{
  ℕ, zero, suc, ◌+◌, ◌-◌, ◌*◌, ◌≤◌, ◌<◌, ◌≡◌, refl, sym, ◌∙◌, true, List, [], ◌∷◌, All, arith, ◌==◌,
  if◌then◌else◌, inl, inr, Bool-cases, ◌/◌, ◌||◌,
}
use genia_cpp.Bignum.{
  Integer, zero_integer, is_empty, is_zero, normalize, negate, absolute, from_u64, add_magnitude,
  sub_magnitude, shift_left_one_bit, mul_u32,
}
use genia_cpp.Bignum.Limbs.{base, IsLimb, magnitude, pop_zeros, size_max}
use genia_cpp.Bignum.Magnitude.{
  IsTrimmed, magnitude-pop_zeros, pop_zeros-IsTrimmed, pop_zeros-All, add_limbs-All,
  magnitude-add_limbs, sub_limbs-All, magnitude-sub_limbs, shift_limbs-All, magnitude-shift_limbs,
}
use genia_cpp.Bignum.Multiply.{mul_limb-All, magnitude-mul_limb}

pub trimmed_pos : (x : ℕ) (xs : List ℕ) → IsTrimmed (x ∷ xs) → 0 < magnitude (x ∷ xs)
unfolding magnitude
trimmed_pos x [] h = omega arith
trimmed_pos x (y ∷ ys) h = omega (arith, trimmed_pos y ys h)

-- Limbs below 2^32, no high zero limb, and no negative zero.
pub record IsCanonical (a : Integer) : Type 0 where
  pub limbs_fit : All IsLimb a.limbs
  pub trimmed : IsTrimmed a.limbs
  pub zero_positive : magnitude a.limbs ≡ 0 → a.positive ≡ true

is_empty_lem : (xs : List ℕ) → IsTrimmed xs → is_empty xs ≡ (magnitude xs == 0)
unfolding is_empty magnitude
is_empty_lem [] h = refl
is_empty_lem (x ∷ xs) h = ground (arith, trimmed_pos x xs h)

pub is_zero_lem : (a : Integer) → IsCanonical a → is_zero a ≡ (magnitude a.limbs == 0)
unfolding is_zero
is_zero_lem a c = is_empty_lem a.limbs c.trimmed

pub magnitude-normalize : (a : Integer) → magnitude (normalize a).limbs ≡ magnitude a.limbs
unfolding normalize
magnitude-normalize a = magnitude-pop_zeros a.limbs

pub positive-normalize :
    (a : Integer) → (normalize a).positive ≡ (if magnitude a.limbs == 0 then true else a.positive)
unfolding normalize
positive-normalize a =
    rw (is_empty_lem (pop_zeros a.limbs) (pop_zeros-IsTrimmed a.limbs), magnitude-pop_zeros a.limbs)
      refl

-- `normalize` makes any vector of 32-bit limbs canonical, and keeps its number.
pub normalize-IsCanonical : (a : Integer) → All IsLimb a.limbs → IsCanonical (normalize a)
unfolding normalize
normalize-IsCanonical a h = record {
  limbs_fit = pop_zeros-All a.limbs h;
  trimmed = pop_zeros-IsTrimmed a.limbs;
  zero_positive =
      λ e. rw (is_empty_lem (pop_zeros a.limbs) (pop_zeros-IsTrimmed a.limbs)) (ground (arith, e));
}

pub zero-IsCanonical : IsCanonical zero_integer
zero-IsCanonical = record { limbs_fit = tt; trimmed = tt; zero_positive = λ e. refl }

pub absolute-IsCanonical : (a : Integer) → IsCanonical a → IsCanonical (absolute a)
unfolding absolute
absolute-IsCanonical a c = record {
  limbs_fit = c.limbs_fit;
  trimmed = c.trimmed;
  zero_positive = λ e. refl;
}

pub magnitude-negate : (a : Integer) → magnitude (negate a).limbs ≡ magnitude a.limbs
unfolding negate
magnitude-negate a = ground arith

pub negate-IsCanonical : (a : Integer) → IsCanonical a → IsCanonical (negate a)
unfolding negate
negate-IsCanonical a c = elim (Bool-cases (is_zero a)) [
  | inl e ↦ rw e c
  | inr e ↦ rw e (record {
    limbs_fit = c.limbs_fit;
    trimmed = c.trimmed;
    zero_positive = λ z. absurd (ground (arith, is_zero_lem a c, z));
  })
]

pub magnitude-from_u64 :
    (value : ℕ) → value < 18446744073709551616 → magnitude (from_u64 value).limbs ≡ value
unfolding from_u64 magnitude
magnitude-from_u64 value h = ground arith

pub from_u64-IsCanonical : (value : ℕ) → value < 18446744073709551616 → IsCanonical (from_u64 value)
unfolding from_u64 magnitude
from_u64-IsCanonical value h = elim (Bool-cases (value == 0)) [
  | inl e ↦ rw e zero-IsCanonical
  | inr e ↦ elim (Bool-cases ((value / base) == 0)) [
    | inl f ↦
        rw (e, f)
          (record {
            limbs_fit = (omega arith, tt);
            trimmed = ground arith;
            zero_positive = λ z. refl;
          })
    | inr f ↦
        rw (e, f)
          (record {
            limbs_fit = (omega arith, (omega arith, tt));
            trimmed = ground arith;
            zero_positive = λ z. refl;
          })
  ]
]

pub add_magnitude-IsCanonical : (a b : Integer) → IsCanonical (add_magnitude a b)
unfolding add_magnitude
add_magnitude-IsCanonical a b = normalize-IsCanonical _ (add_limbs-All _ 0 a.limbs b.limbs)

pub magnitude-add_magnitude :
    (a b : Integer)
    → IsCanonical a
    → IsCanonical b
    → magnitude (add_magnitude a b).limbs ≡ magnitude a.limbs + magnitude b.limbs
unfolding add_magnitude
magnitude-add_magnitude a b ca cb =
    magnitude-normalize _
    ∙ omega (
      arith,
      magnitude-add_limbs (size_max a.limbs b.limbs) 0 a.limbs b.limbs ca.limbs_fit cb.limbs_fit
          (omega arith) (omega arith) (omega arith),
    )

pub sub_magnitude-IsCanonical :
    (a b : Integer) → IsCanonical a → IsCanonical b → IsCanonical (sub_magnitude a b)
unfolding sub_magnitude
sub_magnitude-IsCanonical a b ca cb =
    normalize-IsCanonical _
      (sub_limbs-All 0 a.limbs b.limbs ca.limbs_fit cb.limbs_fit (omega arith))

pub magnitude-sub_magnitude :
    (a b : Integer)
    → IsCanonical a
    → IsCanonical b
    → magnitude b.limbs ≤ magnitude a.limbs
    → magnitude (sub_magnitude a b).limbs ≡ magnitude a.limbs - magnitude b.limbs
unfolding sub_magnitude
magnitude-sub_magnitude a b ca cb h =
    magnitude-normalize _
    ∙ omega (
      arith,
      magnitude-sub_limbs 0 a.limbs b.limbs ca.limbs_fit cb.limbs_fit (omega arith) (omega arith),
    )

pub shift_left_one_bit-IsCanonical :
    (a : Integer) → IsCanonical a → IsCanonical (shift_left_one_bit a)
unfolding shift_left_one_bit
shift_left_one_bit-IsCanonical a c =
    normalize-IsCanonical _ (shift_limbs-All 0 a.limbs (omega arith) c.limbs_fit)

pub magnitude-shift_left_one_bit :
    (a : Integer) → IsCanonical a → magnitude (shift_left_one_bit a).limbs ≡ 2 * magnitude a.limbs
unfolding shift_left_one_bit
magnitude-shift_left_one_bit a c =
    magnitude-normalize _ ∙ omega (arith, magnitude-shift_limbs 0 a.limbs (omega arith) c.limbs_fit)

pub mul_u32-IsCanonical : (a : Integer) (value : ℕ) → IsCanonical (mul_u32 a value)
unfolding mul_u32
mul_u32-IsCanonical a value = elim (Bool-cases (is_zero a || value == 0)) [
  | inl e ↦ rw e zero-IsCanonical
  | inr e ↦ rw e (normalize-IsCanonical _ (mul_limb-All value 0 a.limbs))
]

pub product_zero : (m n : ℕ) → ((m == 0) || (n == 0)) ≡ true → m * n ≡ 0
product_zero zero n h = omega arith
product_zero (suc m) zero h = omega arith
product_zero (suc m) (suc n) h = absurd (ground arith)

pub magnitude-mul_u32 :
    (a : Integer) (value : ℕ)
    → IsCanonical a
    → value < base
    → magnitude (mul_u32 a value).limbs ≡ magnitude a.limbs * value
unfolding mul_u32 magnitude
magnitude-mul_u32 a value c h = elim (Bool-cases (is_zero a || value == 0)) [
  | inl e ↦ rw e (sym (product_zero _ value (rw (← is_zero_lem a c) e)))
  | inr e ↦ rw e (
      magnitude-normalize _
      ∙ omega (arith, magnitude-mul_limb value 0 a.limbs h (omega arith) c.limbs_fit))
]
