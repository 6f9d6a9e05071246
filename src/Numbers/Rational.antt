-- ===== src/Numbers/Rational.antt =====
-- src/rational.hpp: rationals in lowest terms.
pub mod Lowest
use genia_cpp.Base.{Bool, true, false, if◌then◌else◌, Option, none, some, ◌>>=◌}
use genia_cpp.Bignum.{Integer, is_zero, negate, compare_integer}
use genia_cpp.Bignum.Division.{gcd, exact_divide}
use genia_cpp.Values.Value.{Value}
use genia_cpp.Numbers.Fractions.{one, is_equal}

-- The value of a fraction in lowest terms with a positive denominator.
abbrev pub collapsed : Integer → Integer → Value
collapsed numerator denominator =
    if is_equal (compare_integer denominator one)
    then Value.integer numerator
    else Value.rational numerator denominator

-- A positive denominator, with the sign in the numerator.
abbrev pub oriented : Integer → Integer → Value
oriented numerator denominator =
    if denominator.positive
    then collapsed numerator denominator
    else collapsed (negate numerator) (negate denominator)

unfoldable pub construct_rational : Integer → Integer → Option Value
construct_rational numerator denominator =
    if is_zero denominator
    then none
    else exact_divide numerator (gcd numerator denominator) >>= λ reduced_numerator.
        exact_divide denominator (gcd numerator denominator) >>= λ reduced_denominator.
        some (oriented reduced_numerator reduced_denominator)
