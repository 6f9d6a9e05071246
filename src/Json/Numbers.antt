-- ===== src/Json/Numbers.antt =====
-- src/json.hpp: numbers as tokens, and which numbers are exchanged.
use genia_cpp.Base.{
  ℕ, ◌+◌, ◌-◌, ◌*◌, Bool, true, false, not, ◌&&◌, ◌||◌, if◌then◌else◌, ◌==◌, ltb, Option, none,
  some, [], ◌∷◌, ◌++◌, length, take, drop, ◌>>=◌,
}
use genia_cpp.Base.Int.{ℤ, pos, ◌-ℤ◌, as_i64}
use genia_cpp.Bignum.{Integer, from_u64, negate, compare_integer, is_zero}
use genia_cpp.Bignum.Decimal.{is_digit, from_unsigned_decimal}
use genia_cpp.Values.Value.{Text, Value}
use genia_cpp.Numbers.Fractions.{exact_family_numerator_denominator, exact_family_equal}
use genia_cpp.Numbers.Arithmetic.{canonicalize_decimal, make_decimal}
use genia_cpp.Numbers.Float64.{fraction_to_binary64, is_finite, is_zero_double, is_above, is_below}
use genia_cpp.Rendering.Numbers.{ToChars, render_float64}

-- The digits in front, and the text behind them.
unfoldable pub span_digits : Text → Text × Text
span_digits [] = ([], [])
span_digits (c ∷ text) =
    let rest = span_digits text in if is_digit c then (c ∷ rest.0, rest.1) else ([], c ∷ text)

-- Digits, of which there is one at least.
abbrev pub some_digits : Text × Text → Option (Text × Text)
some_digits ([], rest) = none
some_digits (c ∷ digits, rest) = some (c ∷ digits, rest)

-- The digits of the integer part; another digit behind a zero in front is refused.
abbrev pub next_is_digit : Text → Bool
next_is_digit [] = false
next_is_digit (c ∷ text) = is_digit c

abbrev pub integer_digits : Text → Option (Text × Text)
integer_digits [] = none
integer_digits (c ∷ text) =
    if c == b'0'
    then if next_is_digit text then none else some (c ∷ [], text)
    else some_digits (span_digits (c ∷ text))

-- The digits behind a point, where there is one.
abbrev pub fraction_digits : Text → Option (Option Text × Text)
fraction_digits [] = some (none, [])
fraction_digits (c ∷ text) =
    if c == b'.'
    then (some_digits (span_digits text) >>= λ digits. some (some digits.0, digits.1))
    else some (none, c ∷ text)

-- The loop over the digits of an exponent, which refuses more than a million.
unfoldable pub exponent_magnitude : ℕ → Text → Option (ℕ × Text)
exponent_magnitude magnitude [] = some (magnitude, [])
exponent_magnitude magnitude (c ∷ text) =
    let rest = exponent_magnitude (magnitude * 10 + (c - b'0')) text in
    if is_digit c then if ltb 1000000 magnitude then none else rest else some (magnitude, c ∷ text)

abbrev pub exponent_number : Bool → Text → Option (ℤ × Text)
exponent_number negative text =
    if next_is_digit text
    then (exponent_magnitude 0 text >>= λ (magnitude, rest).
        if ltb 1000000 magnitude
        then none
        else some ((if negative then pos 0 -ℤ pos magnitude else pos magnitude), rest))
    else none

abbrev pub signed_number : Text → Option (ℤ × Text)
signed_number [] = none
signed_number (c ∷ text) =
    if c == b'+'
    then exponent_number false text
    else if c == b'-'
    then exponent_number true text
    else exponent_number false (c ∷ text)

abbrev pub exponent_part : Text → Option (Option ℤ × Text)
exponent_part [] = some (none, [])
exponent_part (c ∷ text) =
    if c == b'e' || c == b'E'
    then (signed_number text >>= λ (exponent, rest). some (some exponent, rest))
    else some (none, c ∷ text)

abbrev pub or_empty_text : Option Text → Text
or_empty_text none = []
or_empty_text (some text) = text

abbrev pub or_zero_exponent : Option ℤ → ℤ
or_zero_exponent none = pos 0
or_zero_exponent (some exponent) = exponent

abbrev pub is_some {ℓ} : {A : Type ℓ} → Option A → Bool
is_some none = false
is_some (some a) = true

abbrev pub signed_value : Bool → Integer → Integer
signed_value negative a = if negative then negate a else a

-- The decimal of the digits of a token, whose end was reached.
abbrev pub token_decimal : Bool → Text → Option Text → Option ℤ → Text → Option Value
token_decimal negative digits fraction exponent (c ∷ text) = none
token_decimal negative digits fraction exponent [] =
    if is_some fraction || is_some exponent
    then (from_unsigned_decimal (digits ++ or_empty_text fraction) >>= λ coefficient. some (
        make_decimal (
          canonicalize_decimal (signed_value negative coefficient)
            (as_i64 (or_zero_exponent exponent -ℤ pos (length (or_empty_text fraction)))))))
    else none

abbrev pub unsigned_token : Bool → Text → Option Value
unsigned_token negative text = integer_digits text >>= λ (digits, behind_digits).
    fraction_digits behind_digits >>= λ (fraction, behind_fraction).
    exponent_part behind_fraction >>= λ (exponent, rest).
    token_decimal negative digits fraction exponent rest

unfoldable pub parse_decimal_token : Text → Option Value
parse_decimal_token [] = none
parse_decimal_token (c ∷ text) =
    if c == b'-' then unsigned_token true text else unsigned_token false (c ∷ text)

-- `text` without `float64(` in front and `)` at its end.
unfoldable pub float64_json_text : ToChars → ℕ → Text
float64_json_text to_chars number =
    let atom = render_float64 to_chars number in take (length atom - 9) (drop 8 atom)

abbrev pub equals_decimal : Value → Option Value → Bool
equals_decimal number none = false
equals_decimal number (some shortest) = exact_family_equal number shortest

abbrev pub stable_double : ToChars → Value → Integer → Option ℕ → Bool
stable_double to_chars number numerator none = false
stable_double to_chars number numerator (some bits) =
    if not (is_finite bits)
    then false
    else if not (is_zero numerator) && is_zero_double bits
    then false
    else equals_decimal number (parse_decimal_token (float64_json_text to_chars bits))

-- The decimal is the shortest text of the `double` next to it.
unfoldable pub stable_decimal : ToChars → Value → Bool
stable_decimal to_chars number =
    let fraction = exact_family_numerator_denominator number in
    stable_double to_chars number fraction.0 (fraction_to_binary64 fraction.0 fraction.1)

-- 2^53 - 1.
abbrev pub safe_bound : Integer
safe_bound = from_u64 9007199254740991

unfoldable pub safe_integer : Integer → Bool
safe_integer integer =
    not (is_above (compare_integer integer safe_bound))
    && not (is_below (compare_integer integer (negate safe_bound)))
