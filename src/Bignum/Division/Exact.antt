-- ===== src/Bignum/Division/Exact.antt =====
-- src/bignum.hpp, `exact_divide`: it answers exactly where the divisor divides.
use genia_cpp.Base.{
  ℕ, ◌+◌, ◌*◌, ◌%◌, ◌<◌, ◌≡◌, ◌≢◌, refl, sym, ap, ◌∙◌, Bool, true, false, Option, none, some, arith,
  ◌==◌, inl, inr, Bool-cases,
}
use genia_cpp.Base.Int.{◌*ℤ◌}
use genia_cpp.Bignum.{Integer, zero_integer, is_zero, normalize, same}
use genia_cpp.Bignum.Limbs.{magnitude}
use genia_cpp.Bignum.Canonical.{IsCanonical, is_zero_lem, normalize-IsCanonical, zero-IsCanonical}
use genia_cpp.Bignum.Signed.{signed, to_ℤ, to_ℤ-normalize, signed_mul}
use genia_cpp.Bignum.Division.{divmod_magnitude, exact_divide}
use native.Mathlib.Nat.{zero-mul, mod-eq_of_lt, add-mul-mod_self_left, mul-mod_left}
use genia_cpp.Bignum.Division.Quotient.{IsDivMod, divmod_magnitude-IsDivMod}

same_twice : (s t : Bool) → same (same s t) t ≡ s
same_twice true true = refl
same_twice true false = refl
same_twice false true = refl
same_twice false false = refl

-- A multiple leaves no remainder.
no_remainder : (q k n r : ℕ) → r < n → q * n + r ≡ k * n → r ≡ 0
no_remainder q k n r h e =
    sym (mod-eq_of_lt h)
    ∙ sym (add-mul-mod_self_left r n q)
    ∙ ap (λ (t : ℕ). t % n) (omega (arith, e))
    ∙ mul-mod_left k n

module _ (a b : Integer) (ca : IsCanonical a) (cb : IsCanonical b)
    (nonzero : 0 < magnitude b.limbs) where
  division : IsDivMod a b (divmod_magnitude a b)
  division = divmod_magnitude-IsDivMod a b ca cb nonzero

  divisor : (magnitude b.limbs == 0) ≡ false
  divisor = ground arith

  remainder_zero :
      is_zero (divmod_magnitude a b).1 ≡ (magnitude (divmod_magnitude a b).1.limbs == 0)
  remainder_zero = is_zero_lem _ division.remainder_canonical

  quotient_value :
      magnitude (divmod_magnitude a b).1.limbs ≡ 0
      → to_ℤ (normalize (record (divmod_magnitude a b).0 { positive = same a.positive b.positive }))
          *ℤ to_ℤ b
        ≡ to_ℤ a
  unfolding to_ℤ
  quotient_value h =
      let quotient : ℕ = magnitude (divmod_magnitude a b).0.limbs in
      rw to_ℤ-normalize (
        sym (signed_mul (same a.positive b.positive) b.positive quotient _)
        ∙ rw same_twice (ap (signed a.positive) (omega (arith, division.value, h))))

  zero_value : magnitude a.limbs ≡ 0 → to_ℤ zero_integer *ℤ to_ℤ b ≡ to_ℤ a
  unfolding to_ℤ magnitude
  zero_value h =
      sym (signed_mul true b.positive 0 (magnitude b.limbs)) ∙ rw (h, zero-mul) (ground arith)

  not_multiple :
      magnitude (divmod_magnitude a b).1.limbs ≢ 0
      → (k : ℕ) → magnitude a.limbs ≢ k * magnitude b.limbs
  not_multiple h k e = h (
      no_remainder (magnitude (divmod_magnitude a b).0.limbs) k (magnitude b.limbs)
        (magnitude (divmod_magnitude a b).1.limbs) division.below (sym division.value ∙ e))

  -- What `exact_divide` may answer: the quotient, or nothing where the magnitude is no multiple.
  abbrev pub ExactDivision : Option Integer → Type 0
  ExactDivision none = (k : ℕ) → magnitude a.limbs ≢ k * magnitude b.limbs
  ExactDivision (some q) = IsCanonical q × (to_ℤ q *ℤ to_ℤ b ≡ to_ℤ a)

  -- The quotient of an exact division, or nothing where the divisor does not divide.
  pub exact_divide_lem : ExactDivision (exact_divide a b)
  unfolding exact_divide
  exact_divide_lem = elim (Bool-cases (magnitude a.limbs == 0)) [
    | inl e ↦
        rw (is_zero_lem b cb, is_zero_lem a ca, e, divisor)
          (zero-IsCanonical, zero_value (ground arith))
    | inr e ↦ elim (Bool-cases (is_zero (divmod_magnitude a b).1)) [
      | inl f ↦
          rw (is_zero_lem b cb, is_zero_lem a ca, e, divisor, f)
            (
              normalize-IsCanonical _ division.quotient_canonical.limbs_fit,
              quotient_value (ground (arith, remainder_zero)),
            )
      | inr f ↦
          rw (is_zero_lem b cb, is_zero_lem a ca, e, divisor, f)
            (not_multiple (ground (arith, remainder_zero)))
    ]
  ]
