-- ===== src/Numbers/Arithmetic.antt =====
-- src/arithmetic.hpp: the arithmetic of integers, decimals and rationals.
pub mod Operations
pub mod Strip
use genia_cpp.Base.{
  ℕ, zero, suc, ◌+◌, ◌-◌, ◌*◌, leb, Bool, true, false, not, ◌&&◌, ◌||◌, if◌then◌else◌, Option, none,
  some, ◌>>=◌,
}
use genia_cpp.Base.Int.{ℤ, pos, negsuc, pos_part, ◌+ℤ◌, ◌-ℤ◌, as_i64}
use genia_cpp.Bignum.{
  Integer, from_u64, zero_integer, is_zero, add, sub, mul, negate, compare_integer,
}
use genia_cpp.Bignum.Limbs.{magnitude}
use genia_cpp.Bignum.Division.{gcd, exact_divide, floor_remainder}
use genia_cpp.Values.Value.{Value}
use genia_cpp.Numbers.Fractions.{one, ten, mul_times, is_equal, exact_family_numerator_denominator}
use genia_cpp.Numbers.Rational.{construct_rational}

-- The loops that divide by a factor as long as it divides, with the rounds. The fuel is a round for
-- each unit of the number, and one.
abbrev pub divided_again : (Integer → Integer × ℕ) → Integer → Option Integer → Integer × ℕ
divided_again loop a none = (a, 0)
divided_again loop a (some divided) = ((loop divided).0, suc (loop divided).1)

unfoldable pub divide_out : ℕ → Integer → Integer → Integer × ℕ
divide_out zero factor a = (a, 0)
divide_out (suc fuel) factor a =
    divided_again (λ divided. divide_out fuel factor divided) a (exact_divide a factor)

abbrev pub strip : Integer → Integer → Integer × ℕ
strip factor a = divide_out (suc (magnitude a.limbs)) factor a

-- `++exponent` in each round, in 64 bits.
unfoldable pub canonicalize_decimal : Integer → ℤ → Integer × ℤ
canonicalize_decimal coefficient exponent =
    if is_zero coefficient
    then (zero_integer, pos 0)
    else ((strip ten coefficient).0, as_i64 (exponent +ℤ pos (strip ten coefficient).1))

abbrev pub make_decimal : Integer × ℤ → Value
make_decimal (coefficient, exponent) = Value.decimal coefficient exponent

-- A value of another kind has the members of a decimal as they are made.
unfoldable pub decimal_common_form : Value → Integer × ℤ
decimal_common_form (Value.integer n) = (n, pos 0)
decimal_common_form (Value.decimal coefficient exponent) = (coefficient, exponent)
decimal_common_form v = (zero_integer, pos 0)

abbrev pub min_ℤ : ℤ → ℤ → ℤ
min_ℤ (pos a) (pos b) = if leb a b then pos a else pos b
min_ℤ (pos a) (negsuc b) = negsuc b
min_ℤ (negsuc a) (pos b) = negsuc a
min_ℤ (negsuc a) (negsuc b) = if leb b a then negsuc a else negsuc b

-- A coefficient at a lesser exponent.
abbrev pub scaled : Integer × ℤ → ℤ → Integer
scaled (coefficient, exponent) lesser =
    mul_times (pos_part (as_i64 (exponent -ℤ lesser))) ten coefficient

unfoldable pub decimal_add_sub : Value → Value → Bool → Value
decimal_add_sub a b subtract =
    let lesser = min_ℤ (decimal_common_form a).1 (decimal_common_form b).1 in
    let left = scaled (decimal_common_form a) lesser in
    let right = scaled (decimal_common_form b) lesser in
    make_decimal (canonicalize_decimal (if subtract then sub left right else add left right) lesser)

unfoldable pub decimal_mul : Value → Value → Value
decimal_mul a b = make_decimal (
    canonicalize_decimal (mul (decimal_common_form a).0 (decimal_common_form b).0)
      (as_i64 ((decimal_common_form a).1 +ℤ (decimal_common_form b).1)))

-- Both quotients, or the fraction where one of them is missing.
abbrev pub quotients : Integer × Integer → Option Integer → Option Integer → Integer × Integer
quotients fraction (some numerator) (some denominator) = (numerator, denominator)
quotients fraction numerator denominator = fraction

abbrev pub divided_by : Integer → Integer × Integer → Integer × Integer
divided_by divisor (numerator, denominator) =
    if is_zero divisor
    then (numerator, denominator)
    else quotients (numerator, denominator) (exact_divide numerator divisor)
        (exact_divide denominator divisor)

abbrev pub reduced : Integer × Integer → Integer × Integer
reduced (numerator, denominator) = divided_by (gcd numerator denominator) (numerator, denominator)

unfoldable pub reduce_fraction : Integer → Integer → Integer × Integer
reduce_fraction numerator denominator =
    if denominator.positive
    then reduced (numerator, denominator)
    else reduced (negate numerator, negate denominator)

abbrev pub two : Integer
two = from_u64 2

abbrev pub five : Integer
five = from_u64 5

unfoldable pub denominator_terminates_in_base10 : Integer → Bool
denominator_terminates_in_base10 denominator =
    is_equal (compare_integer (strip five (strip two denominator).0).0 one)

unfoldable pub decimal_from_terminating_fraction : Integer → Integer → Value
decimal_from_terminating_fraction numerator denominator =
    let twos = (strip two denominator).1 in
    let fives = (strip five (strip two denominator).0).1 in
    let multiplier = mul_times twos five (mul_times fives two one) in
    make_decimal
      (canonicalize_decimal (mul numerator multiplier) (as_i64 (pos 0 -ℤ pos (twos + fives))))

abbrev pub numerator_of : Value → Integer
numerator_of v = (exact_family_numerator_denominator v).0

abbrev pub denominator_of : Value → Integer
denominator_of v = (exact_family_numerator_denominator v).1

unfoldable pub rational_add : Value → Value → Option Value
rational_add a b =
    construct_rational
      (add (mul (numerator_of a) (denominator_of b)) (mul (numerator_of b) (denominator_of a)))
      (mul (denominator_of a) (denominator_of b))

unfoldable pub rational_sub : Value → Value → Option Value
rational_sub a b =
    construct_rational
      (sub (mul (numerator_of a) (denominator_of b)) (mul (numerator_of b) (denominator_of a)))
      (mul (denominator_of a) (denominator_of b))

unfoldable pub rational_mul : Value → Value → Option Value
rational_mul a b =
    construct_rational (mul (numerator_of a) (numerator_of b))
      (mul (denominator_of a) (denominator_of b))

abbrev pub is_rational : Value → Bool
is_rational (Value.rational numerator denominator) = true
is_rational v = false

abbrev pub is_integer : Value → Bool
is_integer (Value.integer n) = true
is_integer v = false

-- The kind of a quotient.
abbrev pub quotient_value : Value → Value → Integer × Integer → Option Value
quotient_value a b (numerator, denominator) =
    if is_rational a || is_rational b
    then construct_rational numerator denominator
    else if is_integer a && is_integer b
    then if is_equal (compare_integer denominator one)
      then some (Value.integer numerator)
      else construct_rational numerator denominator
    else if denominator_terminates_in_base10 denominator
    then some (decimal_from_terminating_fraction numerator denominator)
    else construct_rational numerator denominator

unfoldable pub exact_divide_values : Value → Value → Option Value
exact_divide_values a b =
    if is_zero (numerator_of b)
    then none
    else quotient_value a b (
        reduce_fraction (mul (numerator_of a) (denominator_of b))
          (mul (numerator_of b) (denominator_of a)))

abbrev pub remainder_value : Value → Value → Integer × Integer → Option Value
remainder_value a b (numerator, denominator) =
    if is_rational a || is_rational b
    then construct_rational numerator denominator
    else if is_integer a && is_integer b
    then some (Value.integer numerator)
    else some (decimal_from_terminating_fraction numerator denominator)

unfoldable pub exact_floor_remainder : Value → Value → Option Value
exact_floor_remainder a b =
    let left = mul (numerator_of a) (denominator_of b) in
    let right = mul (numerator_of b) (denominator_of a) in
    if is_zero (numerator_of b)
    then none
    else floor_remainder left right >>= λ remainder.
        exact_divide (sub left remainder) right >>= λ q. remainder_value a b (
          reduce_fraction (sub left (mul (mul q (numerator_of b)) (denominator_of a)))
            (mul (denominator_of a) (denominator_of b)))
