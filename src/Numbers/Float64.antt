-- ===== src/Numbers/Float64.antt =====
-- src/float64.hpp: conversions between the exact numbers and the 64 bits of a `double`.
pub mod Widths
pub mod Decimals
pub mod Exact
pub mod Leading
pub mod Scaled
pub mod Bits
pub mod RoundTrip
pub mod Multiples
pub mod Grid
pub mod Rounded
pub mod Encoded
pub mod Nearest
pub mod Rounding
use genia_cpp.Base.{
  ℕ, suc, ◌+◌, ◌-◌, ◌*◌, ◌/◌, ◌%◌, ◌^◌, Bool, true, false, not, ◌&&◌, if◌then◌else◌, ◌==◌, ltb, leb,
  Option, none, some, ◌>>=◌, Ordering, bit_or,
}
use genia_cpp.Base.Int.{ℤ, pos, negsuc, pos_part, neg_part, ◌+ℤ◌, ◌-ℤ◌, as_int}
use genia_cpp.Bignum.{
  Integer, from_u64, to_u64, zero_integer, is_zero, absolute, mul, shift_left, bit_length,
  compare_integer,
}
use genia_cpp.Bignum.Division.{divmod_positive}
use genia_cpp.Values.Value.{Value}
use genia_cpp.Syntax.CoreIr.{Op}
use genia_cpp.Numbers.Fractions.{
  mul_times, float_fraction, float_biased, float_sign, is_nan, is_inf, signed_integer,
  is_exact_family_kind, exact_family_numerator_denominator,
}
use genia_cpp.Numbers.Arithmetic.{five, canonicalize_decimal, make_decimal}

abbrev pub is_above : Ordering → Bool
is_above Ordering.gt = true
is_above order = false

abbrev pub is_below : Ordering → Bool
is_below Ordering.lt = true
is_below order = false

abbrev pub sign_bit : Bool → ℕ
sign_bit negative = if negative then 2 ^ 63 else 0

-- The largest finite `double`.
unfoldable pub largest_finite : Integer
largest_finite = shift_left (from_u64 (2 ^ 53 - 1)) 971

-- The exponent of the leading bit of a fraction: an estimate, and one less where it is too large. Both
-- bit lengths are cast to `int`.
abbrev pub corrected : Integer → Integer → ℤ → ℤ
corrected numerator denominator (pos e) =
    if is_below (compare_integer numerator (shift_left denominator e))
    then pos e -ℤ pos 1
    else pos e
corrected numerator denominator (negsuc e) =
    if is_below (compare_integer (shift_left numerator (suc e)) denominator)
    then as_int (negsuc e -ℤ pos 1)
    else negsuc e

abbrev pub leading_exponent : Integer → Integer → ℤ
leading_exponent numerator denominator =
    corrected numerator denominator
      (as_int (as_int (pos (bit_length numerator)) -ℤ as_int (pos (bit_length denominator))))

-- From -1022 on.
abbrev pub is_normal : ℤ → Bool
is_normal exponent = leb (neg_part exponent) 1022

abbrev pub scale_of : ℤ → ℤ
scale_of exponent = if is_normal exponent then pos 52 -ℤ exponent else pos 1074

abbrev pub scaled_by : Integer → Integer → ℤ → Integer × Integer
scaled_by numerator denominator (pos k) = (shift_left numerator k, denominator)
scaled_by numerator denominator (negsuc k) = (numerator, shift_left denominator (suc k))

-- Ties go to the even quotient.
abbrev pub rounded : ℕ → Ordering → ℕ
rounded q half_cmp =
    if is_above half_cmp
    then (q + 1) % 2 ^ 64
    else if leb 1 (q % 2) && not (is_below half_cmp)
    then (q + 1) % 2 ^ 64
    else q

-- The bits without the sign.
abbrev pub normal_bits : ℤ → ℕ → Option ℕ
normal_bits exponent q =
    if ltb 1023 (pos_part exponent)
    then none
    else some (bit_or (pos_part (exponent +ℤ pos 1023) * 2 ^ 52) ((q + 2 ^ 64 - 2 ^ 52) % 2 ^ 64))

abbrev pub magnitude_bits : ℤ → ℕ → Option ℕ
magnitude_bits exponent q =
    if is_normal exponent
    then if q == 2 ^ 53 then normal_bits (exponent +ℤ pos 1) (q / 2) else normal_bits exponent q
    else if leb (2 ^ 52) q
    then some (2 ^ 52)
    else some q

abbrev pub quotient_bits : ℤ → Integer × Integer → Option ℕ
quotient_bits exponent (scaled_numerator, scaled_denominator) = do
  let division = divmod_positive scaled_numerator scaled_denominator
  q ← to_u64 division.0
  magnitude_bits exponent (rounded q (compare_integer (shift_left division.1 1) scaled_denominator))

-- For a numerator that is not negative.
abbrev pub positive_bits : Integer → Integer → Option ℕ
positive_bits numerator denominator =
    let exponent = leading_exponent numerator denominator in
    if is_above (compare_integer numerator (mul denominator largest_finite))
    then none
    else if ltb 1023 (pos_part exponent)
    then none
    else quotient_bits exponent (scaled_by numerator denominator (scale_of exponent))

-- `none` is a magnitude beyond the largest finite `double`.
unfoldable pub fraction_to_binary64 : Integer → Integer → Option ℕ
fraction_to_binary64 numerator denominator =
    if is_zero numerator
    then some 0
    else positive_bits (absolute numerator) denominator >>= λ bits.
        some (bit_or bits (sign_bit (not numerator.positive)))

abbrev pub is_finite : ℕ → Bool
is_finite bits = not (is_nan bits) && not (is_inf bits)

-- A value, the error `MagnitudeOverflowError`, or a kind that is not supported.
pub data Converted : Type 0 where
  converted : Value → Converted
  magnitude_overflow : Converted
  unsupported : Converted

abbrev pub float_of : Option ℕ → Converted
float_of none = Converted.magnitude_overflow
float_of (some bits) = Converted.converted (Value.float64 bits)

abbrev pub exact_to_float : Value → Converted
exact_to_float input =
    if is_exact_family_kind input
    then float_of (
        fraction_to_binary64 (exact_family_numerator_denominator input).0
          (exact_family_numerator_denominator input).1)
    else Converted.unsupported

unfoldable pub from_exact : Value → Converted
from_exact (Value.float64 bits) = Converted.converted (Value.float64 bits)
from_exact input = exact_to_float input

-- A significand times a power of two, as a decimal; the exponent is given with 1074 added.
abbrev pub dyadic_decimal : Bool → ℕ → ℕ → Value
dyadic_decimal negative significand exponent =
    if ltb exponent 1074
    then make_decimal (
        canonicalize_decimal
          (signed_integer negative (mul_times (1074 - exponent) five (from_u64 significand)))
          (pos 0 -ℤ pos (1074 - exponent)))
    else make_decimal (
        canonicalize_decimal
          (signed_integer negative (shift_left (from_u64 significand) (exponent - 1074))) (pos 0))

abbrev pub finite_to_exact : ℕ → Value
finite_to_exact bits =
    if float_biased bits == 0 && float_fraction bits == 0
    then Value.decimal zero_integer (pos 0)
    else if float_biased bits == 0
    then dyadic_decimal (float_sign bits) (float_fraction bits) 0
    else dyadic_decimal (float_sign bits) (2 ^ 52 + float_fraction bits) (float_biased bits - 1)

abbrev pub kept_exact : Value → Option Value
kept_exact input = if is_exact_family_kind input then some input else none

unfoldable pub to_exact : Value → Option Value
to_exact (Value.float64 bits) = if is_finite bits then some (finite_to_exact bits) else none
to_exact input = kept_exact input

-- The operations of the hardware on the bits of two `double`s, and `std::fmod`.
pub record Binary64 : Type 0 where
  pub plus : ℕ → ℕ → ℕ
  pub minus : ℕ → ℕ → ℕ
  pub times : ℕ → ℕ → ℕ
  pub divided : ℕ → ℕ → ℕ
  pub fmod : ℕ → ℕ → ℕ

-- `== 0.0` holds of both zeros.
abbrev pub is_zero_double : ℕ → Bool
is_zero_double bits = float_biased bits == 0 && float_fraction bits == 0

abbrev pub negated_bits : ℕ → ℕ
negated_bits bits = if float_sign bits then bits - 2 ^ 63 else bits + 2 ^ 63

unfoldable pub negate : ℕ → Value
negate bits = Value.float64 (negated_bits bits)

-- A result, no result, or a division or a remainder by a zero.
pub data Computed : Type 0 where
  result : ℕ → Computed
  no_result : Computed
  division_by_zero : Computed
  remainder_by_zero : Computed

abbrev pub same_sign : ℕ → ℕ → Bool
same_sign a b = if float_sign a then float_sign b else not (float_sign b)

-- The sign of the divisor.
abbrev pub floor_sign_double : Binary64 → ℕ → ℕ → ℕ
floor_sign_double ops remainder right =
    if is_zero_double remainder
    then sign_bit (float_sign right)
    else if same_sign remainder right
    then remainder
    else ops.plus remainder right

-- The operation on two `double`s.
unfoldable pub arithmetic : Binary64 → Op → ℕ → ℕ → Computed
arithmetic ops Op.plus left right = Computed.result (ops.plus left right)
arithmetic ops Op.minus left right = Computed.result (ops.minus left right)
arithmetic ops Op.star left right = Computed.result (ops.times left right)
arithmetic ops Op.slash left right =
    if is_zero_double right
    then Computed.division_by_zero
    else Computed.result (ops.divided left right)
arithmetic ops Op.percent left right =
    if is_zero_double right
    then Computed.remainder_by_zero
    else Computed.result (floor_sign_double ops (ops.fmod left right) right)
arithmetic ops op left right = Computed.no_result
