-- ===== src/Bignum/Signed.antt =====
-- src/bignum.hpp: comparison, addition, subtraction and multiplication of signed values are those of
-- the integers, and keep the representation invariant.
use genia_cpp.Base.{
  ℕ, zero, suc, ◌+◌, ◌-◌, ◌*◌, ◌≤◌, ◌<◌, ◌≡◌, refl, sym, ap, ◌∙◌, Bool, true, false, not, arith,
  ◌==◌, compare, Ordering, if◌then◌else◌, ◌⊎◌, inl, inr, Bool-cases, ◌||◌, ◌&&◌,
}
use genia_cpp.Base.Int.{ℤ, pos, negsuc, pos_part, neg_part, ◌+ℤ◌, ◌-ℤ◌, ◌*ℤ◌, sub_ℕ}
use genia_cpp.Bignum.{
  Integer, is_zero, normalize, negate, compare_magnitude, compare_integer, flip_ordering, at_least,
  add, sub, mul, same,
}
use genia_cpp.Bignum.Limbs.{magnitude}
use genia_cpp.Bignum.Canonical.{
  IsCanonical, is_zero_lem, magnitude-normalize, positive-normalize, normalize-IsCanonical,
  zero-IsCanonical, magnitude-negate, negate-IsCanonical, add_magnitude-IsCanonical,
  magnitude-add_magnitude, sub_magnitude-IsCanonical, magnitude-sub_magnitude, product_zero,
}
use genia_cpp.Bignum.Multiply.{magnitude-mul_limbs, mul_limbs-All}
use genia_cpp.Bignum.Compare.{compare_magnitude_lem}
use native.Mathlib.Nat.{mul-zero, zero-mul, add-zero, zero-add}

abbrev pub signed : Bool → ℕ → ℤ
signed true n = pos n
signed false zero = pos 0
signed false (suc n) = negsuc n

-- The integer that an Integer stands for.
unfoldable pub to_ℤ : Integer → ℤ
to_ℤ a = signed a.positive (magnitude a.limbs)

abbrev pub compare_ℤ : ℤ → ℤ → Ordering
compare_ℤ a b = compare (pos_part a + neg_part b) (pos_part b + neg_part a)

signed_normal : (s : Bool) (n : ℕ) → signed (if n == 0 then true else s) n ≡ signed s n
signed_normal s zero = ground arith
signed_normal s (suc n) = ground arith

pub to_ℤ-normalize : (a : Integer) → to_ℤ (normalize a) ≡ signed a.positive (magnitude a.limbs)
unfolding to_ℤ
to_ℤ-normalize a = rw (magnitude-normalize, positive-normalize) (signed_normal _ _)

compare-signed :
    (s t : Bool) (m n : ℕ)
    → (m ≡ 0 → s ≡ true)
    → (n ≡ 0 → t ≡ true)
    → (if m == 0 && n == 0
        then Ordering.eq
        else if not (same s t)
        then (if m == 0 && not t
            then Ordering.gt
            else if n == 0 && not s
            then Ordering.lt
            else if s
            then Ordering.gt
            else Ordering.lt)
        else if s
        then compare m n
        else flip_ordering (compare m n))
      ≡ compare_ℤ (signed s m) (signed t n)
compare-signed true true m n hs ht = ground arith
compare-signed true false m n hs ht = ground arith
compare-signed false true m n hs ht = ground arith
compare-signed false false m n hs ht = ground arith

-- `Integer::compare` of canonical values is the order of the integers.
pub compare_integer-to_ℤ :
    (a b : Integer)
    → IsCanonical a
    → IsCanonical b
    → compare_integer a b ≡ compare_ℤ (to_ℤ a) (to_ℤ b)
unfolding compare_integer to_ℤ
compare_integer-to_ℤ a b ca cb =
    rw (is_zero_lem a ca, is_zero_lem b cb, compare_magnitude_lem a b ca cb)
      (compare-signed a.positive b.positive _ _ ca.zero_positive cb.zero_positive)

signed_negate :
    (s : Bool) (n : ℕ)
    → (n ≡ 0 → s ≡ true)
    → signed (if n == 0 then s else not s) n ≡ pos 0 -ℤ signed s n
unfolding ◌-ℤ◌
signed_negate true n h = ground arith
signed_negate false n h = ground arith

pub positive-negate :
    (a : Integer)
    → IsCanonical a
    → (negate a).positive ≡ (if magnitude a.limbs == 0 then a.positive else not a.positive)
unfolding negate
positive-negate a c = rw (is_zero_lem a c) (ground arith)

pub to_ℤ-negate : (a : Integer) → IsCanonical a → to_ℤ (negate a) ≡ pos 0 -ℤ to_ℤ a
unfolding to_ℤ
to_ℤ-negate a c =
    rw (magnitude-negate a, positive-negate a c) (signed_negate a.positive _ c.zero_positive)

pub add-IsCanonical : (a b : Integer) → IsCanonical a → IsCanonical b → IsCanonical (add a b)
unfolding add
add-IsCanonical a b ca cb = elim (Bool-cases (same a.positive b.positive)) [
  | inl e ↦ rw e (normalize-IsCanonical _ (add_magnitude-IsCanonical a b).limbs_fit)
  | inr e ↦ elim (Bool-cases (at_least (compare_magnitude a b))) [
    | inl f ↦ rw (e, f) (normalize-IsCanonical _ (sub_magnitude-IsCanonical a b ca cb).limbs_fit)
    | inr f ↦ rw (e, f) (normalize-IsCanonical _ (sub_magnitude-IsCanonical b a cb ca).limbs_fit)
  ]
]

signed_add : (s t : Bool) (m n : ℕ) → same s t ≡ true → signed s (m + n) ≡ signed s m +ℤ signed t n
unfolding ◌+ℤ◌
signed_add true true m n h = ground arith
signed_add true false m n h = cc
signed_add false true m n h = cc
signed_add false false m n h = ground arith

signed_sub_left :
    (s t : Bool) (m n : ℕ) → same s t ≡ false → n ≤ m → signed s (m - n) ≡ signed s m +ℤ signed t n
unfolding ◌+ℤ◌
signed_sub_left true true m n h le = cc
signed_sub_left true false m n h le = ground arith
signed_sub_left false true m n h le = ground arith
signed_sub_left false false m n h le = cc

signed_sub_right :
    (s t : Bool) (m n : ℕ) → same s t ≡ false → m ≤ n → signed t (n - m) ≡ signed s m +ℤ signed t n
unfolding ◌+ℤ◌
signed_sub_right true true m n h le = cc
signed_sub_right true false m n h le = ground arith
signed_sub_right false true m n h le = ground arith
signed_sub_right false false m n h le = cc

at_least→le : (m n : ℕ) → at_least (compare m n) ≡ true → n ≤ m
at_least→le m n h = ground arith

not-at_least→le : (m n : ℕ) → at_least (compare m n) ≡ false → m ≤ n
not-at_least→le m n h = ground arith

pub at_least_lem :
    (a b : Integer)
    → IsCanonical a
    → IsCanonical b
    → ((at_least (compare_magnitude a b) ≡ true) × (magnitude b.limbs ≤ magnitude a.limbs))
      ⊎ ((at_least (compare_magnitude a b) ≡ false) × (magnitude a.limbs < magnitude b.limbs))
at_least_lem a b ca cb = rw (compare_magnitude_lem a b ca cb) (ground arith)

-- Addition of canonical values is that of the integers.
pub to_ℤ-add : (a b : Integer) → IsCanonical a → IsCanonical b → to_ℤ (add a b) ≡ to_ℤ a +ℤ to_ℤ b
unfolding add to_ℤ
to_ℤ-add a b ca cb = elim (Bool-cases (same a.positive b.positive)) [
  | inl e ↦ rw e (
      to_ℤ-normalize _
      ∙ rw (magnitude-add_magnitude a b ca cb) (signed_add a.positive b.positive _ _ e))
  | inr e ↦ elim (at_least_lem a b ca cb) [
    | inl (f, le) ↦
        rw (e, f)
          (to_ℤ-normalize _
            ∙ rw (magnitude-sub_magnitude a b ca cb le)
                (signed_sub_left a.positive b.positive _ _ e le))
    | inr (f, lt) ↦
        rw (e, f)
          (to_ℤ-normalize _
            ∙ rw (magnitude-sub_magnitude b a cb ca (omega arith))
                (signed_sub_right a.positive b.positive _ _ e (omega arith)))
  ]
]

add_minus : (x y : ℤ) → x +ℤ (pos 0 -ℤ y) ≡ x -ℤ y
unfolding ◌+ℤ◌ ◌-ℤ◌
add_minus x y = ground arith

pub sub-IsCanonical : (a b : Integer) → IsCanonical a → IsCanonical b → IsCanonical (sub a b)
unfolding sub
sub-IsCanonical a b ca cb = add-IsCanonical a (negate b) ca (negate-IsCanonical b cb)

pub to_ℤ-sub : (a b : Integer) → IsCanonical a → IsCanonical b → to_ℤ (sub a b) ≡ to_ℤ a -ℤ to_ℤ b
unfolding sub
to_ℤ-sub a b ca cb =
    rw (to_ℤ-add a (negate b) ca (negate-IsCanonical b cb), to_ℤ-negate b cb) (add_minus _ _)

pub pos_part-signed : (s : Bool) (n : ℕ) → pos_part (signed s n) ≡ (if s then n else 0)
pos_part-signed true n = refl
pos_part-signed false zero = refl
pos_part-signed false (suc n) = refl

pub neg_part-signed : (s : Bool) (n : ℕ) → neg_part (signed s n) ≡ (if s then 0 else n)
neg_part-signed true n = refl
neg_part-signed false zero = refl
neg_part-signed false (suc n) = refl

sub_zero : (n : ℕ) → sub_ℕ n 0 ≡ pos n
sub_zero n = ground arith

zero_sub : (n : ℕ) → sub_ℕ 0 n ≡ signed false n
zero_sub zero = ground arith
zero_sub (suc n) = ground arith

pub signed_mul : (s t : Bool) (m n : ℕ) → signed (same s t) (m * n) ≡ signed s m *ℤ signed t n
unfolding ◌*ℤ◌
signed_mul s t m n =
    rw (pos_part-signed s m, neg_part-signed s m, pos_part-signed t n, neg_part-signed t n) (go s t)
  where
    go :
        (s t : Bool)
        → signed (same s t) (m * n)
          ≡ sub_ℕ
              ((if s then m else 0) * (if t then n else 0)
                + (if s then 0 else m) * (if t then 0 else n))
              ((if s then m else 0) * (if t then 0 else n)
                + (if s then 0 else m) * (if t then n else 0))
    go true true = simp (mul-zero, zero-mul, add-zero) (sym (sub_zero _))
    go true false = simp (mul-zero, zero-mul, add-zero) (sym (zero_sub _))
    go false true = simp (mul-zero, zero-mul, add-zero, zero-add) (sym (zero_sub _))
    go false false = simp (mul-zero, zero-mul, add-zero, zero-add) (sym (sub_zero _))

pub mul-IsCanonical : (a b : Integer) → IsCanonical (mul a b)
unfolding mul
mul-IsCanonical a b = elim (Bool-cases (is_zero a || is_zero b)) [
  | inl e ↦ rw e zero-IsCanonical
  | inr e ↦ rw e (normalize-IsCanonical _ (mul_limbs-All a.limbs b.limbs))
]

signed_zero : (s : Bool) → signed s 0 ≡ pos 0
signed_zero true = refl
signed_zero false = refl

-- Multiplication of canonical values is that of the integers.
pub to_ℤ-mul : (a b : Integer) → IsCanonical a → IsCanonical b → to_ℤ (mul a b) ≡ to_ℤ a *ℤ to_ℤ b
unfolding mul to_ℤ
to_ℤ-mul a b ca cb = elim (Bool-cases (is_zero a || is_zero b)) [
  | inl e ↦ rw e (
      unfold magnitude in
      sym (signed_zero (same a.positive b.positive))
      ∙ ap (signed (same a.positive b.positive))
          (sym (product_zero _ _ (rw (← is_zero_lem a ca, ← is_zero_lem b cb) e)))
      ∙ signed_mul a.positive b.positive _ _)
  | inr e ↦ rw e (
      to_ℤ-normalize _
      ∙ rw (magnitude-mul_limbs a.limbs b.limbs ca.limbs_fit cb.limbs_fit)
          (signed_mul a.positive b.positive _ _))
]
