-- ===== src/Json/Decoder/Tokens.antt =====
-- src/json.hpp, `parse_number`.
use genia_cpp.Base.{
  ℕ, ◌+◌, Bool, true, false, ◌||◌, if◌then◌else◌, ◌==◌, Option, none, some, [], ◌∷◌, ◌++◌, length,
  ◌>>=◌,
}
use genia_cpp.Bignum.{Integer}
use genia_cpp.Bignum.Decimal.{from_unsigned_decimal}
use genia_cpp.Values.Value.{Text, Value}
use genia_cpp.Rendering.Numbers.{ToChars}
use genia_cpp.Json.Result.{Error, failure_of}
use genia_cpp.Json.Numbers.{
  span_digits, some_digits, signed_value, parse_decimal_token, stable_decimal, safe_integer,
}
use genia_cpp.Json.Decoder.Position.{Cursor, Decoded, invalid_at}

-- A minus sign, and the text behind it.
abbrev pub scan_sign : Text → Text × Text
scan_sign [] = ([], [])
scan_sign (c ∷ text) = if c == b'-' then (c ∷ [], text) else ([], c ∷ text)

-- One zero, or digits.
abbrev pub scan_integer : Text → Option (Text × Text)
scan_integer [] = none
scan_integer (c ∷ text) =
    if c == b'0' then some (c ∷ [], text) else some_digits (span_digits (c ∷ text))

abbrev pub scan_fraction : Text → Option (Text × Text)
scan_fraction [] = some ([], [])
scan_fraction (c ∷ text) =
    if c == b'.'
    then (some_digits (span_digits text) >>= λ digits. some (c ∷ digits.0, digits.1))
    else some ([], c ∷ text)

-- The digits of an exponent, behind the `e` and its sign.
abbrev pub scan_signed : ℕ → Text → Option (Text × Text)
scan_signed e [] = none
scan_signed e (c ∷ text) =
    if c == b'+' || c == b'-'
    then (some_digits (span_digits text) >>= λ digits. some (e ∷ c ∷ digits.0, digits.1))
    else (some_digits (span_digits (c ∷ text)) >>= λ digits. some (e ∷ digits.0, digits.1))

abbrev pub scan_exponent : Text → Option (Text × Text)
scan_exponent [] = some ([], [])
scan_exponent (c ∷ text) =
    if c == b'e' || c == b'E' then scan_signed c text else some ([], c ∷ text)

-- The sign, the digits, the fraction, the exponent, and the text behind them.
pub record Token : Type 0 where
  pub sign : Text
  pub digits : Text
  pub fraction : Text
  pub exponent : Text
  pub behind : Text

unfoldable pub scan_number : Text → Option Token
scan_number text = scan_integer (scan_sign text).1 >>= λ (digits, behind_digits).
    scan_fraction behind_digits >>= λ (fraction, behind_fraction).
    scan_exponent behind_fraction >>= λ (exponent, rest). some (record {
      sign = (scan_sign text).0;
      digits = digits;
      fraction = fraction;
      exponent = exponent;
      behind = rest;
    })

abbrev pub token_text : Token → Text
token_text t = t.sign ++ t.digits ++ t.fraction ++ t.exponent

abbrev pub is_nonempty : Text → Bool
is_nonempty [] = false
is_nonempty (c ∷ text) = true

abbrev pub safe_value : Integer → Cursor → Decoded Value
safe_value n c =
    if safe_integer n
    then Decoded.done (Value.integer n) c
    else Decoded.failed (failure_of Error.number_out_of_range)

-- `at` is where the number starts, and `c` is behind it.
abbrev pub integer_value : Cursor → Cursor → Bool → Option Integer → Decoded Value
integer_value at c negative none = Decoded.failed (invalid_at at)
integer_value at c negative (some n) = safe_value (signed_value negative n) c

abbrev pub decimal_value : ToChars → Cursor → Cursor → Option Value → Decoded Value
decimal_value to_chars at c none = Decoded.failed (invalid_at at)
decimal_value to_chars at c (some v) =
    if stable_decimal to_chars v
    then Decoded.done v c
    else Decoded.failed (failure_of Error.number_out_of_range)

abbrev pub behind_token : Cursor → Token → Cursor
behind_token c t = record {
  rest = t.behind;
  line = c.line;
  column = c.column + length (token_text t);
}

abbrev pub number_value : ToChars → Cursor → Option Token → Decoded Value
number_value to_chars c none = Decoded.failed (invalid_at c)
number_value to_chars c (some t) =
    if is_nonempty t.fraction || is_nonempty t.exponent
    then decimal_value to_chars c (behind_token c t) (parse_decimal_token (token_text t))
    else integer_value c (behind_token c t) (is_nonempty t.sign) (from_unsigned_decimal t.digits)

unfoldable pub parse_number : ToChars → Cursor → Decoded Value
parse_number to_chars c = number_value to_chars c (scan_number c.rest)
