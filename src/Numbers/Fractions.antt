-- ===== src/Numbers/Fractions.antt =====
-- src/equality.hpp: numbers as fractions, their order and their keys.
pub mod Cross
use genia_cpp.Base.{
  ℕ, zero, suc, ◌+◌, ◌-◌, ◌*◌, ◌/◌, ◌%◌, ◌^◌, Bool, true, false, not, ◌&&◌, ◌||◌, if◌then◌else◌,
  ◌==◌, ltb, Option, none, some, List, [], ◌∷◌, ◌++◌, Ordering, codes, ◌>>=◌,
}
use genia_cpp.Base.Int.{ℤ, pos, negsuc, pos_part, as_i64}
use genia_cpp.Bignum.{Integer, from_u64, zero_integer, mul, negate, shift_left, compare_integer}
use genia_cpp.Bignum.Division.{gcd, exact_divide}
use genia_cpp.Bignum.Decimal.{to_decimal_string}
use genia_cpp.Values.Value.{Text, Value}

unfoldable pub is_exact_family_kind : Value → Bool
is_exact_family_kind (Value.integer n) = true
is_exact_family_kind (Value.decimal coefficient exponent) = true
is_exact_family_kind (Value.rational numerator denominator) = true
is_exact_family_kind v = false

abbrev pub is_float : Value → Bool
is_float (Value.float64 bits) = true
is_float v = false

unfoldable pub is_numeric_kind : Value → Bool
is_numeric_kind v = is_exact_family_kind v || is_float v

-- The loops that multiply by a factor.
unfoldable pub mul_times : ℕ → Integer → Integer → Integer
mul_times zero factor a = a
mul_times (suc i) factor a = mul_times i factor (mul a factor)

abbrev pub one : Integer
one = from_u64 1

abbrev pub ten : Integer
ten = from_u64 10

-- The loop of a negative exponent runs to the exponent negated in 64 bits. A value of another kind
-- has the members of a decimal as they are made, 0 and 0.
unfoldable pub exact_family_numerator_denominator : Value → Integer × Integer
exact_family_numerator_denominator (Value.integer n) = (n, one)
exact_family_numerator_denominator (Value.rational numerator denominator) = (numerator, denominator)
exact_family_numerator_denominator (Value.decimal coefficient (pos exponent)) =
    (mul_times exponent ten coefficient, one)
exact_family_numerator_denominator (Value.decimal coefficient (negsuc exponent)) =
    (coefficient, mul_times (pos_part (as_i64 (pos (suc exponent)))) ten one)
exact_family_numerator_denominator v = (zero_integer, one)

abbrev pub is_equal : Ordering → Bool
is_equal Ordering.eq = true
is_equal order = false

-- The order of two fractions whose denominators are positive.
abbrev pub cross_compare : Integer × Integer → Integer × Integer → Ordering
cross_compare a b = compare_integer (mul a.0 b.1) (mul b.0 a.1)

unfoldable pub exact_family_equal : Value → Value → Bool
exact_family_equal a b =
    is_equal
      (cross_compare (exact_family_numerator_denominator a) (exact_family_numerator_denominator b))

unfoldable pub exact_family_compare : Value → Value → Ordering
exact_family_compare a b =
    cross_compare (exact_family_numerator_denominator a) (exact_family_numerator_denominator b)

-- The fields of the bits of a `double`.
abbrev pub float_fraction : ℕ → ℕ
float_fraction bits = bits % 2 ^ 52

abbrev pub float_biased : ℕ → ℕ
float_biased bits = bits / 2 ^ 52 % 2 ^ 11

abbrev pub float_sign : ℕ → Bool
float_sign bits = not (bits / 2 ^ 63 == 0)

-- `std::isnan`, `std::isinf` and `std::signbit`.
abbrev pub is_nan : ℕ → Bool
is_nan bits = float_biased bits == 2047 && not (float_fraction bits == 0)

abbrev pub is_inf : ℕ → Bool
is_inf bits = float_biased bits == 2047 && float_fraction bits == 0

abbrev pub signed_integer : Bool → Integer → Integer
signed_integer negative a = if negative then negate a else a

-- A significand times a power of two; the exponent is given with 1074 added.
abbrev pub dyadic : Bool → ℕ → ℕ → Integer × Integer
dyadic negative significand exponent =
    if ltb exponent 1074
    then (signed_integer negative (from_u64 significand), shift_left one (1074 - exponent))
    else (signed_integer negative (shift_left (from_u64 significand) (exponent - 1074)), one)

unfoldable pub finite_float64_numerator_denominator : ℕ → Integer × Integer
finite_float64_numerator_denominator bits =
    if float_biased bits == 0 && float_fraction bits == 0
    then (zero_integer, one)
    else if float_biased bits == 0
    then dyadic (float_sign bits) (float_fraction bits) 0
    else dyadic (float_sign bits) (2 ^ 52 + float_fraction bits) (float_biased bits - 1)

pub data NumericOrder : Type 0 where
  less : NumericOrder
  equal : NumericOrder
  greater : NumericOrder
  unordered : NumericOrder

abbrev pub numeric_order : Ordering → NumericOrder
numeric_order Ordering.lt = NumericOrder.less
numeric_order Ordering.eq = NumericOrder.equal
numeric_order Ordering.gt = NumericOrder.greater

-- The fraction of a numeric value that is finite.
abbrev pub fraction_of : Value → Integer × Integer
fraction_of (Value.float64 bits) = finite_float64_numerator_denominator bits
fraction_of v = exact_family_numerator_denominator v

abbrev pub is_nan_value : Value → Bool
is_nan_value (Value.float64 bits) = is_nan bits
is_nan_value v = false

-- The sign of an infinity, true where it is negative.
abbrev pub infinity_of : Value → Option Bool
infinity_of (Value.float64 bits) = if is_inf bits then some (float_sign bits) else none
infinity_of v = none

abbrev pub same_sign : Bool → Bool → Bool
same_sign a b = if a then b else not b

abbrev pub infinite_compare : Option Bool → Option Bool → Ordering → NumericOrder
infinite_compare (some a) (some b) order =
    if same_sign a b
    then NumericOrder.equal
    else if a
    then NumericOrder.less
    else NumericOrder.greater
infinite_compare (some a) none order = if a then NumericOrder.less else NumericOrder.greater
infinite_compare none (some b) order = if b then NumericOrder.greater else NumericOrder.less
infinite_compare none none order = numeric_order order

unfoldable pub numeric_compare : Value → Value → NumericOrder
numeric_compare a b =
    if not (is_numeric_kind a) || not (is_numeric_kind b)
    then NumericOrder.unordered
    else if is_nan_value a || is_nan_value b
    then NumericOrder.unordered
    else infinite_compare (infinity_of a) (infinity_of b)
        (cross_compare (fraction_of a) (fraction_of b))

-- The key of a fraction in lowest terms.
abbrev pub fraction_key : Integer × Integer → Option Text
fraction_key (numerator, denominator) = do
  let divisor = gcd numerator denominator
  reduced_numerator ← exact_divide numerator divisor
  reduced_denominator ← exact_divide denominator divisor
  some (
      codes "N:"
      ++ to_decimal_string reduced_numerator
      ++ codes "/"
      ++ to_decimal_string reduced_denominator)

abbrev pub infinite_key : Option Bool → Integer × Integer → Option Text
infinite_key (some true) fraction = some (codes "N:-inf")
infinite_key (some false) fraction = some (codes "N:+inf")
infinite_key none fraction = fraction_key fraction

unfoldable pub numeric_map_key_encoding : Value → Option Text
numeric_map_key_encoding key =
    if is_nan_value key then none else infinite_key (infinity_of key) (fraction_of key)

abbrev pub plain_key : Value → Option Text
plain_key (Value.boolean b) = some (codes "B:" ++ codes (if b then "1" else "0"))
plain_key (Value.string text) = some (codes "S:" ++ text)
plain_key v = none

unfoldable pub map_key_encoding_checked : Value → Option Text
map_key_encoding_checked key =
    if is_numeric_kind key then numeric_map_key_encoding key else plain_key key

abbrev pub or_empty : Option Text → Text
or_empty none = []
or_empty (some text) = text

-- The empty text is that of a key that is not legal.
unfoldable pub map_key_encoding : Value → Text
map_key_encoding key = or_empty (map_key_encoding_checked key)
