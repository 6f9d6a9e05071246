-- ===== src/Bignum/Division/Floor.antt =====
-- src/bignum.hpp, `floor_remainder` and `exact_divide` on signed values.
use genia_cpp.Base.{
  ℕ, zero, suc, ◌+◌, ◌*◌, ◌<◌, ◌≡◌, refl, ◌∙◌, Bool, true, false, none, some, arith, ◌==◌,
  if◌then◌else◌, ◌⊎◌, inl, inr, Bool-cases,
}
use genia_cpp.Base.Int.{ℤ, pos, pos_part, neg_part, ◌+ℤ◌, ◌*ℤ◌, ◌≤ℤ◌}
use genia_cpp.Bignum.{Integer, zero_integer, is_zero, normalize, same}
use genia_cpp.Bignum.Limbs.{magnitude}
use genia_cpp.Bignum.Canonical.{
  IsCanonical, is_zero_lem, magnitude-normalize, normalize-IsCanonical, zero-IsCanonical,
}
use genia_cpp.Bignum.Signed.{signed, to_ℤ, to_ℤ-normalize, to_ℤ-add, add-IsCanonical, signed_mul}
use genia_cpp.Bignum.Division.{divmod_magnitude, floor_sign, floor_remainder, exact_divide}
use native.Mathlib.Nat.{suc-mul}
use genia_cpp.Bignum.Division.Quotient.{IsDivMod, divmod_magnitude-IsDivMod}

-- `r` is what a floor division of `a` by `b` leaves: between 0 and `b`, on the side of `b`.
pub record IsFloorRemainder (a b r : ℤ) : Type 0 where
  pub quotient : ℤ
  pub value : a ≡ quotient *ℤ b +ℤ r
  pub range :
      ((pos 0 ≤ℤ r) × (pos_part r < pos_part b)) ⊎ ((r ≤ℤ pos 0) × (neg_part r < neg_part b))

signed_floor :
    (s t : Bool) (m n q r : ℕ)
    → 0 < n
    → m ≡ q * n + r
    → r < n
    → IsFloorRemainder
        (signed s m)
        (signed t n)
        (if r == 0 then pos 0 else if same s t then signed s r else signed s r +ℤ signed t n)
signed_floor true true m n q r hn e h = record {
  quotient = signed true q;
  value = rw (← signed_mul true true q n) (unfold ◌+ℤ◌ in ground arith);
  range = inl (ground arith);
}
signed_floor false false m n q r hn e h = record {
  quotient = signed true q;
  value = rw (← signed_mul true false q n) (unfold ◌+ℤ◌ in ground arith);
  range = inr (ground arith);
}
signed_floor true false m n q zero hn e h = record {
  quotient = signed false q;
  value = rw (← signed_mul false false q n) (unfold ◌+ℤ◌ in ground arith);
  range = inr (ground arith);
}
signed_floor true false m n q (suc r) hn e h = record {
  quotient = signed false (suc q);
  value = rw (← signed_mul false false (suc q) n, suc-mul q n) (unfold ◌+ℤ◌ in ground arith);
  range = inr (unfold ◌+ℤ◌ in ground arith);
}
signed_floor false true m n q zero hn e h = record {
  quotient = signed false q;
  value = rw (← signed_mul false true q n) (unfold ◌+ℤ◌ in ground arith);
  range = inl (ground arith);
}
signed_floor false true m n q (suc r) hn e h = record {
  quotient = signed false (suc q);
  value = rw (← signed_mul false true (suc q) n, suc-mul q n) (unfold ◌+ℤ◌ in ground arith);
  range = inl (unfold ◌+ℤ◌ in ground arith);
}

module _ (a b : Integer) (ca : IsCanonical a) (cb : IsCanonical b) where
  -- By zero, both divisions have no result.
  pub floor_remainder_by_zero : magnitude b.limbs ≡ 0 → floor_remainder a b ≡ none
  unfolding floor_remainder
  floor_remainder_by_zero h = rw (is_zero_lem b cb, h) refl

  pub exact_divide_by_zero : magnitude b.limbs ≡ 0 → exact_divide a b ≡ none
  unfolding exact_divide
  exact_divide_by_zero h = rw (is_zero_lem b cb, h) refl

module _ (a b : Integer) (ca : IsCanonical a) (cb : IsCanonical b)
    (nonzero : 0 < magnitude b.limbs) where
  division : IsDivMod a b (divmod_magnitude a b)
  division = divmod_magnitude-IsDivMod a b ca cb nonzero

  abbrev rest : ℕ
  rest = magnitude (divmod_magnitude a b).1.limbs

  -- The remainder with the sign of the dividend.
  abbrev truncated : Integer
  truncated = normalize (record (divmod_magnitude a b).1 { positive = a.positive })

  truncated-IsCanonical : IsCanonical truncated
  truncated-IsCanonical = normalize-IsCanonical _ division.remainder_canonical.limbs_fit

  is_zero-truncated : is_zero truncated ≡ (rest == 0)
  is_zero-truncated = is_zero_lem truncated truncated-IsCanonical ∙ rw magnitude-normalize refl

  to_ℤ-truncated : to_ℤ truncated ≡ signed a.positive rest
  to_ℤ-truncated = to_ℤ-normalize _

  floor_sign-IsCanonical : IsCanonical (floor_sign a b truncated)
  unfolding floor_sign
  floor_sign-IsCanonical = elim (Bool-cases (is_zero truncated)) [
    | inl e ↦ rw e truncated-IsCanonical
    | inr e ↦ elim (Bool-cases (same a.positive b.positive)) [
      | inl f ↦ rw (e, f) truncated-IsCanonical
      | inr f ↦ rw (e, f) (add-IsCanonical truncated b truncated-IsCanonical cb)
    ]
  ]

  to_ℤ-floor_sign : to_ℤ (floor_sign a b truncated) ≡ (
      if rest == 0
      then pos 0
      else if same a.positive b.positive
      then signed a.positive rest
      else signed a.positive rest +ℤ to_ℤ b)
  unfolding floor_sign
  to_ℤ-floor_sign = elim (Bool-cases (rest == 0)) [
    | inl e ↦ rw (is_zero-truncated, e) (to_ℤ-truncated ∙ ground arith)
    | inr e ↦ elim (Bool-cases (same a.positive b.positive)) [
      | inl f ↦ rw (is_zero-truncated, e, f) to_ℤ-truncated
      | inr f ↦
          rw (is_zero-truncated, e, f)
            (to_ℤ-add truncated b truncated-IsCanonical cb ∙ rw to_ℤ-truncated refl)
    ]
  ]

  floor_sign_lem : IsFloorRemainder (to_ℤ a) (to_ℤ b) (to_ℤ (floor_sign a b truncated))
  floor_sign_lem = rw to_ℤ-floor_sign (
      unfold to_ℤ in
      signed_floor a.positive b.positive _ _ _ rest nonzero division.value division.below)

  zero_dividend : magnitude a.limbs ≡ 0 → IsFloorRemainder (to_ℤ a) (to_ℤ b) (to_ℤ zero_integer)
  unfolding to_ℤ magnitude
  zero_dividend h =
      signed_floor a.positive b.positive (magnitude a.limbs) (magnitude b.limbs) 0 0 nonzero
        (omega (arith, h)) nonzero

  -- The floor remainder of canonical values, where the divisor is not zero.
  pub floor_remainder_lem :
      (r : Integer) × (floor_remainder a b ≡ some r)
      × IsCanonical r
      × IsFloorRemainder (to_ℤ a) (to_ℤ b) (to_ℤ r)
  unfolding floor_remainder
  floor_remainder_lem = elim (Bool-cases (magnitude a.limbs == 0)) [
    | inl e ↦ (
      zero_integer,
      rw (is_zero_lem b cb, is_zero_lem a ca, e) (ground arith),
      zero-IsCanonical,
      zero_dividend (ground arith),
    )
    | inr e ↦ (
      floor_sign a b truncated,
      rw (is_zero_lem b cb, is_zero_lem a ca, e) (ground arith),
      floor_sign-IsCanonical,
      floor_sign_lem,
    )
  ]
