-- ===== src/Numbers/Tests.antt =====
-- src/rational.hpp, src/equality.hpp, src/arithmetic.hpp and src/float64.hpp: the theorems on concrete numbers.
use genia_cpp.Base.{ℕ, ◌^◌, ◌<◌, ◌≡◌, refl, true, not, arith, some, ◌↔◌}
use genia_cpp.Base.Int.{ℤ, pos, negsuc, ◌*ℤ◌, ◌+ℤ◌, ◌-ℤ◌}
use genia_cpp.Bignum.{Integer, from_u64, negate, bit_length, bit_width}
use genia_cpp.Bignum.Limbs.{magnitude}
use genia_cpp.Bignum.Canonical.{IsCanonical, from_u64-IsCanonical, negate-IsCanonical}
use genia_cpp.Bignum.Signed.{compare_ℤ}
use genia_cpp.Values.Value.{Value}
use genia_cpp.Numbers.Fractions.{
  exact_family_equal, exact_family_compare, NumericOrder, numeric_compare,
}
use genia_cpp.Numbers.Float64.{Converted, fraction_to_binary64, from_exact, to_exact}
use genia_cpp.Numbers.Float64.Exact.{to_exact-numeric_compare}
use genia_cpp.Numbers.Float64.Rounding.{IsRoundedTo, fraction_to_binary64-IsRoundedTo}
use genia_cpp.Numbers.Float64.RoundTrip.{from_exact-to_exact}
use genia_cpp.Numbers.Fractions.Cross.{
  IsExact, exact_decimal, exact_rational, top, bottom, cross, exact_family_compare_lem,
}
use genia_cpp.Numbers.Rational.{construct_rational}
use genia_cpp.Numbers.Rational.Lowest.{IsLowest, IsFraction, construct_rational_lem}
use genia_cpp.Numbers.Arithmetic.{canonicalize_decimal, rational_add, rational_sub, rational_mul}
use genia_cpp.Numbers.Arithmetic.Operations.{IsResult, rational_lem}
use genia_cpp.Numbers.Arithmetic.Strip.{IsStripped, canonicalize_decimal_lem}

abbrev six : Integer
six = from_u64 6

abbrev minus_four : Integer
minus_four = negate (from_u64 4)

-- 0.5 and 1/3.
abbrev half : Value
half = Value.decimal (from_u64 5) (negsuc 0)

abbrev third : Value
third = Value.rational (from_u64 1) (from_u64 3)

six-IsCanonical : IsCanonical six
six-IsCanonical = from_u64-IsCanonical 6 (omega arith)

minus_four-IsCanonical : IsCanonical minus_four
minus_four-IsCanonical = negate-IsCanonical (from_u64 4) (from_u64-IsCanonical 4 (omega arith))

half-IsExact : IsExact half
half-IsExact =
    exact_decimal (from_u64 5) (negsuc 0) (from_u64-IsCanonical 5 (omega arith)) (omega arith)
      (omega arith)

third-IsExact : IsExact third
unfolding from_u64 magnitude
third-IsExact =
    exact_rational (from_u64 1) (from_u64 3) (from_u64-IsCanonical 1 (omega arith))
      (from_u64-IsCanonical 3 (omega arith)) refl (omega arith)

four-above : 0 < magnitude minus_four.limbs
unfolding negate from_u64 magnitude genia_cpp.Bignum.is_zero genia_cpp.Bignum.is_empty
four-above = omega arith

construct_rational_lem_example :
    (v : Value) × (construct_rational six minus_four ≡ some v)
    × IsLowest v
    × IsFraction six minus_four v
construct_rational_lem_example =
    construct_rational_lem six minus_four six-IsCanonical minus_four-IsCanonical four-above

exact_family_compare_lem_example :
    ((exact_family_equal half third ≡ true) ↔ (cross half third ≡ cross third half))
    × (exact_family_compare half third ≡ compare_ℤ (cross half third) (cross third half))
exact_family_compare_lem_example = exact_family_compare_lem half third half-IsExact third-IsExact

rational_lem_example :
    let below = pos (bottom half) *ℤ pos (bottom third) in
    IsResult (cross half third +ℤ cross third half) below (rational_add half third)
    × IsResult (cross half third -ℤ cross third half) below (rational_sub half third)
    × IsResult (top half *ℤ top third) below (rational_mul half third)
rational_lem_example = rational_lem half third half-IsExact third-IsExact

fifteen_hundred-above : 0 < magnitude (from_u64 1500).limbs
unfolding from_u64 magnitude
fifteen_hundred-above = omega arith

fifteen_hundred-below : magnitude (from_u64 1500).limbs < 10 ^ 4
unfolding from_u64 magnitude
fifteen_hundred-below = omega arith

canonicalize_decimal_lem_example :
    (r : Integer × ℕ) × IsStripped 10 (from_u64 1500) r
    × (canonicalize_decimal (from_u64 1500) (negsuc 2) ≡ (r.0, negsuc 2 +ℤ pos r.1))
canonicalize_decimal_lem_example =
    canonicalize_decimal_lem (from_u64 1500) (negsuc 2) 4 (from_u64-IsCanonical 1500 (omega arith))
      fifteen_hundred-above fifteen_hundred-below (omega arith) (omega arith)

-- The bits of -0.1.
abbrev minus_tenth : ℕ
minus_tenth = 13815242216921733530

to_exact-numeric_compare_example :
    (c : Integer) × (e : ℤ) × (to_exact (Value.float64 minus_tenth) ≡ some (Value.decimal c e))
    × (numeric_compare (Value.decimal c e) (Value.float64 minus_tenth) ≡ NumericOrder.equal)
to_exact-numeric_compare_example = to_exact-numeric_compare minus_tenth refl

from_exact-to_exact_example :
    (c : Integer) × (e : ℤ) × (to_exact (Value.float64 minus_tenth) ≡ some (Value.decimal c e))
    × (from_exact (Value.decimal c e) ≡ Converted.converted (Value.float64 minus_tenth))
from_exact-to_exact_example = from_exact-to_exact minus_tenth (omega arith) refl

three-positive : (from_u64 3).positive ≡ true
unfolding from_u64
three-positive = refl

three-above : 0 < magnitude (from_u64 3).limbs
unfolding from_u64 magnitude
three-above = omega arith

one-fits : bit_length (from_u64 1) < 2147483648
unfolding from_u64 bit_length bit_width genia_cpp.Bignum.is_empty genia_cpp.Bignum.Limbs.last_limb
one-fits = omega arith

three-fits : bit_length (from_u64 3) < 2147483648
unfolding from_u64 bit_length bit_width genia_cpp.Bignum.is_empty genia_cpp.Bignum.Limbs.last_limb
three-fits = omega arith

-- The bits of a double next to 1/3.
abbrev above_third : ℕ
above_third = 4599676419421066582

fraction_to_binary64-IsRoundedTo_example :
    IsRoundedTo
      (fraction_to_binary64 (from_u64 1) (from_u64 3))
      (not (from_u64 1).positive)
      (magnitude (from_u64 1).limbs)
      (magnitude (from_u64 3).limbs)
      above_third
fraction_to_binary64-IsRoundedTo_example =
    fraction_to_binary64-IsRoundedTo (from_u64 1) (from_u64 3) above_third
      (from_u64-IsCanonical 1 (omega arith)) (from_u64-IsCanonical 3 (omega arith)) three-positive
      three-above one-fits three-fits
