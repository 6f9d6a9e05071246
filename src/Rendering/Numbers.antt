-- ===== src/Rendering/Numbers.antt =====
-- src/render.hpp: the text of decimals and of `double`s. `std::to_chars` is an argument: it gives the
-- shortest text of a `double`, or none where the buffer is too short.
use genia_cpp.Base.{
  ℕ, zero, suc, ◌-◌, Bool, true, false, ◌&&◌, ◌||◌, if◌then◌else◌, ◌==◌, leb, Option, none, some,
  [], ◌∷◌, ◌++◌, length, take, drop, replicate, codes,
}
use genia_cpp.Base.Int.{ℤ, pos, negsuc, pos_part, neg_part, ◌+ℤ◌, ◌-ℤ◌, as_i64}
use genia_cpp.Bignum.{Integer, from_u64}
use genia_cpp.Bignum.Decimal.{to_decimal_string}
use genia_cpp.Values.Value.{Text}
use genia_cpp.Numbers.Fractions.{float_sign, is_nan, is_inf}
use genia_cpp.Numbers.Float64.{is_zero_double}

abbrev pub ToChars : Type 0
ToChars = ℕ → Option Text

-- `find`, as the text in front of a character and the text from it on.
unfoldable pub split_at : ℕ → Text → Text × Text
split_at c [] = ([], [])
split_at c (d ∷ text) =
    if d == c then ([], d ∷ text) else (d ∷ (split_at c text).0, (split_at c text).1)

abbrev pub has_char : ℕ → Text → Bool
has_char c [] = false
has_char c (d ∷ text) = if d == c then true else has_char c text

-- A plus sign where there is no sign.
abbrev pub signed_exponent : Text → Text
signed_exponent [] = []
signed_exponent (c ∷ text) = if c == b'+' || c == b'-' then c ∷ text else b'+' ∷ c ∷ text

-- The loop that erases the zeros in front, and leaves one digit.
abbrev pub trim_zeros : Text → Text
trim_zeros [] = []
trim_zeros (c ∷ []) = c ∷ []
trim_zeros (c ∷ d ∷ text) =
    let rest = trim_zeros (d ∷ text) in if c == b'0' then rest else c ∷ d ∷ text

abbrev pub trim_exponent : Text → Text
trim_exponent [] = []
trim_exponent (sign ∷ digits) = sign ∷ trim_zeros digits

abbrev pub with_point : Text → Text
with_point text = if has_char b'.' text then text else text ++ codes ".0"

-- A number of `std::to_chars` with a point, and with a sign and no zeros in front of its exponent.
abbrev pub pointed : Text × Text → Text
pointed (mantissa, []) = with_point mantissa
pointed (mantissa, e ∷ exponent) =
    with_point mantissa ++ e ∷ trim_exponent (signed_exponent exponent)

abbrev pub float_atom : Option Text → Text
float_atom none = []
float_atom (some inner) = codes "float64(" ++ pointed (split_at b'e' inner) ++ codes ")"

unfoldable pub render_float64 : ToChars → ℕ → Text
render_float64 to_chars number =
    if is_nan number
    then codes "float64(nan)"
    else if is_inf number
    then if float_sign number then codes "float64(-inf)" else codes "float64(inf)"
    else if is_zero_double number
    then if float_sign number then codes "float64(-0.0)" else codes "float64(0.0)"
    else float_atom (to_chars number)

-- The sign of a text, and the text without it.
abbrev pub sign_of : Text → Text × Text
sign_of [] = ([], [])
sign_of (c ∷ text) = if c == b'-' then (c ∷ [], text) else ([], c ∷ text)

abbrev pub or_zero : Text → Text
or_zero [] = b'0' ∷ []
or_zero (c ∷ text) = c ∷ text

-- The digits with the point behind so many of them.
abbrev pub fixed_body : Text → ℤ → Text
fixed_body digits (negsuc k) = codes "0." ++ replicate (suc k) b'0' ++ digits
fixed_body digits (pos zero) = codes "0." ++ digits
fixed_body digits (pos (suc k)) =
    if leb (length digits) (suc k)
    then digits ++ replicate (suc k - length digits) b'0' ++ codes ".0"
    else take (suc k) digits ++ b'.' ∷ drop (suc k) digits

-- `std::to_string` of a number in 64 bits.
abbrev pub unsigned_text : ℕ → Text
unsigned_text n = to_decimal_string (from_u64 n)

abbrev pub exponent_text : ℤ → Text
exponent_text (pos n) = b'+' ∷ unsigned_text n
exponent_text (negsuc n) = b'-' ∷ unsigned_text (suc n)

abbrev pub scientific_body : Text → ℤ → Text
scientific_body digits exponent =
    take 1 digits ++ b'.' ∷ or_zero (drop 1 digits) ++ b'e' ∷ exponent_text exponent

-- From -6 to 20.
abbrev pub is_fixed : ℤ → Bool
is_fixed exponent = leb (neg_part exponent) 6 && leb (pos_part exponent) 20

abbrev pub decimal_body : Text → ℤ → Text
decimal_body digits exponent =
    let point = as_i64 (pos (length digits) +ℤ exponent) in
    let adjusted = as_i64 (point -ℤ pos 1) in
    if is_fixed adjusted then fixed_body digits point else scientific_body digits adjusted

unfoldable pub render_decimal : Integer → ℤ → Text
render_decimal coefficient exponent =
    (sign_of (to_decimal_string coefficient)).0
    ++ decimal_body (sign_of (to_decimal_string coefficient)).1 exponent
