-- ===== src/Bignum/Tests.antt =====
-- src/bignum.hpp: the theorems on concrete values.
use genia_cpp.Base.{◌<◌, ◌≡◌, refl, true, false, some, [], ◌∷◌, All, arith}
use genia_cpp.Base.Int.{◌+ℤ◌, ◌*ℤ◌}
use genia_cpp.Bignum.{Integer, add, mul}
use genia_cpp.Bignum.Limbs.{IsLimb, magnitude}
use genia_cpp.Bignum.Canonical.{IsCanonical}
use genia_cpp.Bignum.Signed.{to_ℤ, to_ℤ-add, to_ℤ-mul}
use genia_cpp.Bignum.Division.{divmod_magnitude, floor_remainder, exact_divide, gcd}
use genia_cpp.Bignum.Division.Quotient.{IsDivMod, divmod_magnitude-IsDivMod}
use genia_cpp.Bignum.Division.Floor.{IsFloorRemainder, floor_remainder_lem}
use genia_cpp.Bignum.Division.Exact.{ExactDivision, exact_divide_lem}
use genia_cpp.Bignum.Division.Gcd.{IsGcd, gcd_lem}
use genia_cpp.Bignum.Decimal.{all_digits, from_unsigned_decimal, to_decimal_string}
use genia_cpp.Bignum.Decimal.RoundTrip.{from_unsigned_decimal-to_decimal_string}

-- 3 * 2^32 + 5 and -(2^32 - 1).
abbrev two_limbs : Integer
two_limbs = record { limbs = 5 ∷ 3 ∷ []; positive = true }

abbrev minus_one_limb : Integer
minus_one_limb = record { limbs = 4294967295 ∷ []; positive = false }

two_limbs-IsCanonical : IsCanonical two_limbs
unfolding magnitude
two_limbs-IsCanonical = record {
  limbs_fit = (omega arith, (omega arith, tt));
  trimmed = omega arith;
  zero_positive = λ e. refl;
}

minus_one_limb-IsCanonical : IsCanonical minus_one_limb
unfolding magnitude
minus_one_limb-IsCanonical = record {
  limbs_fit = (omega arith, tt);
  trimmed = omega arith;
  zero_positive = λ e. absurd (omega (arith, e));
}

two_limbs_positive : 0 < magnitude two_limbs.limbs
unfolding magnitude
two_limbs_positive = omega arith

minus_one_limb_positive : 0 < magnitude minus_one_limb.limbs
unfolding magnitude
minus_one_limb_positive = omega arith

zeros_fit : All IsLimb (0 ∷ 0 ∷ [])
zeros_fit = (omega arith, (omega arith, tt))

forty_two_digits : all_digits (b'4' ∷ b'2' ∷ []) ≡ true
unfolding all_digits
forty_two_digits = refl

not_digits : all_digits (b'4' ∷ b'x' ∷ []) ≡ false
unfolding all_digits
not_digits = refl

to_ℤ-add_example : to_ℤ (add two_limbs minus_one_limb) ≡ to_ℤ two_limbs +ℤ to_ℤ minus_one_limb
to_ℤ-add_example =
    to_ℤ-add two_limbs minus_one_limb two_limbs-IsCanonical minus_one_limb-IsCanonical

to_ℤ-mul_example : to_ℤ (mul two_limbs minus_one_limb) ≡ to_ℤ two_limbs *ℤ to_ℤ minus_one_limb
to_ℤ-mul_example =
    to_ℤ-mul two_limbs minus_one_limb two_limbs-IsCanonical minus_one_limb-IsCanonical

divmod_magnitude-IsDivMod_example :
    IsDivMod two_limbs minus_one_limb (divmod_magnitude two_limbs minus_one_limb)
divmod_magnitude-IsDivMod_example =
    divmod_magnitude-IsDivMod two_limbs minus_one_limb two_limbs-IsCanonical
      minus_one_limb-IsCanonical minus_one_limb_positive

floor_remainder_lem_example :
    (r : Integer) × (floor_remainder two_limbs minus_one_limb ≡ some r)
    × IsCanonical r
    × IsFloorRemainder (to_ℤ two_limbs) (to_ℤ minus_one_limb) (to_ℤ r)
floor_remainder_lem_example =
    floor_remainder_lem two_limbs minus_one_limb two_limbs-IsCanonical minus_one_limb-IsCanonical
      minus_one_limb_positive

exact_divide_lem_example :
    ExactDivision two_limbs minus_one_limb two_limbs-IsCanonical minus_one_limb-IsCanonical
      minus_one_limb_positive
      (exact_divide two_limbs minus_one_limb)
exact_divide_lem_example =
    exact_divide_lem two_limbs minus_one_limb two_limbs-IsCanonical minus_one_limb-IsCanonical
      minus_one_limb_positive

gcd_lem_example :
    IsGcd
      (magnitude two_limbs.limbs)
      (magnitude minus_one_limb.limbs)
      (magnitude (gcd two_limbs minus_one_limb).limbs)
    × IsCanonical (gcd two_limbs minus_one_limb)
    × ((gcd two_limbs minus_one_limb).positive ≡ true)
gcd_lem_example = gcd_lem two_limbs minus_one_limb two_limbs-IsCanonical minus_one_limb-IsCanonical

from_unsigned_decimal-to_decimal_string_example :
    from_unsigned_decimal (to_decimal_string two_limbs) ≡ some two_limbs
from_unsigned_decimal-to_decimal_string_example =
    from_unsigned_decimal-to_decimal_string two_limbs two_limbs-IsCanonical refl
