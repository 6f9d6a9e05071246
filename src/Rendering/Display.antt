-- ===== src/Rendering/Display.antt =====
-- src/render.hpp: `display`. `none` is a value that is not rendered.
use genia_cpp.Base.{
  ℕ, zero, suc, ◌+◌, ◌/◌, ◌%◌, Bool, true, false, ◌&&◌, ◌||◌, if◌then◌else◌, ◌==◌, ltb, leb, Option,
  none, some, [], ◌∷◌, ◌++◌, length, take, drop, codes, ◌>>=◌,
}
use genia_cpp.Bignum.Decimal.{to_decimal_string}
use genia_cpp.Utf8.{DecodedCodepoint, decode_one_permissive}
use genia_cpp.Values.Value.{Text, Value, Values, ValueEntries, MaybeValue}
use genia_cpp.Rendering.Numbers.{ToChars, render_float64, render_decimal, unsigned_text}

-- `std::isalpha` and `std::isalnum` in the locale "C".
abbrev pub is_alpha : ℕ → Bool
is_alpha c = leb b'a' c && leb c b'z' || leb b'A' c && leb c b'Z'

abbrev pub is_alnum : ℕ → Bool
is_alnum c = is_alpha c || leb b'0' c && leb c b'9'

abbrev pub is_identifier_char : ℕ → Bool
is_identifier_char c =
    is_alnum c
    || (c == b'_' || (c == b'?' || (c == b'!' || (c == b'.' || (c == b'-' || c == b'$')))))

abbrev pub all_identifier : Text → Bool
all_identifier [] = true
all_identifier (c ∷ text) = is_identifier_char c && all_identifier text

unfoldable pub looks_like_identifier : Text → Bool
looks_like_identifier [] = false
looks_like_identifier (c ∷ text) =
    (is_alpha c || (c == b'_' || c == b'$')) && all_identifier (c ∷ text)

-- A lowercase hexadecimal digit.
abbrev pub hex_char : ℕ → ℕ
hex_char d = if ltb d 10 then 48 + d else 87 + d

abbrev pub hex4 : ℕ → Text
hex4 cp =
    hex_char (cp / 4096 % 16)
    ∷ hex_char (cp / 256 % 16)
    ∷ hex_char (cp / 16 % 16)
    ∷ hex_char (cp % 16)
    ∷ []

abbrev pub is_control : ℕ → Bool
is_control cp = leb cp 0x1F || (cp == 0x7F || leb 0x80 cp && leb cp 0x9F)

-- One code point, which was read from `source`.
abbrev pub escaped_scalar : ℕ → Text → Text
escaped_scalar cp source =
    if cp == 92
    then codes "\\\\"
    else if cp == 34
    then codes "\\\""
    else if cp == 10
    then codes "\\n"
    else if cp == 13
    then codes "\\r"
    else if cp == 9
    then codes "\\t"
    else if is_control cp
    then codes "\\u" ++ hex4 cp
    else source

-- How many bytes a round takes, and what it writes.
abbrev pub quote_step : ℕ → Text → Option DecodedCodepoint → ℕ × Text
quote_step c text none = (1, c ∷ [])
quote_step c text (some decoded) =
    (decoded.length, escaped_scalar decoded.codepoint (take decoded.length (c ∷ text)))

-- The loop over the code points; each round takes a byte at least.
unfoldable pub quote_loop : ℕ → Text → Text
quote_loop fuel [] = []
quote_loop zero (c ∷ text) = []
quote_loop (suc fuel) (c ∷ text) =
    let step = quote_step c text (decode_one_permissive (c ∷ text)) in
    step.1 ++ quote_loop fuel (drop step.0 (c ∷ text))

unfoldable pub quoted : Text → Text
quoted text = b'"' ∷ quote_loop (length text) text ++ b'"' ∷ []

-- A separator in front of all but the first.
abbrev pub separated : Bool → Text → Text
separated first text = if first then text else codes ", " ++ text

abbrev pub key_text : Text → Text
key_text key = if looks_like_identifier key then key else quoted key

abbrev pub display_key : Value → Option Text
display_key (Value.string key) = some (key_text key)
display_key key = none

-- `name(inner)`, or `name(inner, context)`.
abbrev pub called : Text → Text → Text → Text
called name inner context = name ++ b'(' ∷ inner ++ context ++ b')' ∷ []

module _ (to_chars : ToChars) where
  unfoldable mutual
    pub display : Value → Option Text
    display (Value.integer n) = some (to_decimal_string n)
    display (Value.decimal coefficient exponent) = some (render_decimal coefficient exponent)
    display (Value.rational numerator denominator) =
        some (to_decimal_string numerator ++ b'/' ∷ to_decimal_string denominator)
    display (Value.float64 number) = some (render_float64 to_chars number)
    display (Value.boolean b) = some (if b then codes "true" else codes "false")
    display (Value.string text) = some (quoted text)
    display (Value.list items) =
        display_items true items >>= λ text. some (b'[' ∷ text ++ b']' ∷ [])
    display (Value.map entries index) =
        display_entries true entries >>= λ text. some (b'{' ∷ text ++ b'}' ∷ [])
    display (Value.outcome_none reason context) =
        let context_text = display_context context in
        display reason >>= λ text. context_text >>= λ rest. some (called (codes "none") text rest)
    display (Value.outcome_some value context) =
        display value >>= λ text. some (called (codes "some") text [])
    display (Value.outcome_err reason context) =
        let context_text = display_context context in
        display reason >>= λ text. context_text >>= λ rest. some (called (codes "err") text rest)
    display (Value.represented facet value) = some (codes "<represented>")
    display (Value.bytes text) = some (codes "<bytes " ++ unsigned_text (length text) ++ codes ">")
    display (Value.closure id) = none
    display (Value.ref id) = none
    display (Value.cell id) = none
    display (Value.process id) = none
    display (Value.flow id) = none
    display Value.stdin_source = none
    display Value.nil = none
    display Value.opaque = none

    -- The context of an outcome, with its separator.
    pub display_context : MaybeValue → Option Text
    display_context MaybeValue.absent = some []
    display_context (MaybeValue.present context) =
        display context >>= λ text. some (codes ", " ++ text)

    pub display_items : Bool → Values → Option Text
    display_items first Values.none_left = some []
    display_items first (Values.cons item items) =
        let others = display_items false items in
        display item >>= λ text. others >>= λ rest. some (separated first text ++ rest)

    pub display_entries : Bool → ValueEntries → Option Text
    display_entries first ValueEntries.end = some []
    display_entries first (ValueEntries.entry key value entries) =
        let others = display_entries false entries in
        display value >>= λ text. display_key key >>= λ key_rendered.
        others >>= λ rest. some (separated first (key_rendered ++ codes ": " ++ text) ++ rest)
