-- ===== src/Json/Decoder/Strings.antt =====
-- src/json.hpp, `parse_string` and `read_hex4`.
use genia_cpp.Base.{
  ℕ, zero, suc, ◌+◌, ◌-◌, ◌*◌, Bool, false, ◌&&◌, if◌then◌else◌, ◌==◌, ltb, leb, Option, none, some,
  [], ◌∷◌, ◌++◌, length, take, ◌>>=◌,
}
use genia_cpp.Utf8.{DecodedCodepoint, decode_one_permissive, encode_codepoint, is_surrogate}
use genia_cpp.Values.Value.{Text}
use genia_cpp.Json.Result.{Error, failure_of}
use genia_cpp.Json.Decoder.Position.{Cursor, Decoded, invalid_at, advance_codepoint, advance_ascii}

abbrev pub hex_digit : ℕ → Option ℕ
hex_digit c =
    if leb b'0' c && leb c b'9'
    then some (c - b'0')
    else if leb b'a' c && leb c b'f'
    then some (c - b'a' + 10)
    else if leb b'A' c && leb c b'F'
    then some (c - b'A' + 10)
    else none

-- So many hexadecimal digits. Where the text is too short there is no result in any case.
unfoldable pub read_hex : ℕ → ℕ → Cursor → Text → Option (ℕ × Cursor)
read_hex zero value c text = some (value, c)
read_hex (suc k) value c [] = none
read_hex (suc k) value c (h ∷ text) =
    hex_digit h >>= λ d. read_hex k (value * 16 + d) (advance_ascii c) text

abbrev pub read_hex4 : Cursor → Option (ℕ × Cursor)
read_hex4 c = read_hex 4 0 c c.rest

abbrev pub is_high : ℕ → Bool
is_high codepoint = leb 0xD800 codepoint && leb codepoint 0xDBFF

abbrev pub is_low : ℕ → Bool
is_low codepoint = leb 0xDC00 codepoint && leb codepoint 0xDFFF

-- The code point of a pair, or the first half and the position behind it.
abbrev pub paired : ℕ → Cursor → Option (ℕ × Cursor) → ℕ × Cursor
paired first c none = (first, c)
paired first c (some (second, d)) =
    if is_low second then (0x10000 + (first - 0xD800) * 1024 + (second - 0xDC00), d) else (first, c)

abbrev pub starts_escape : Text → Bool
starts_escape [] = false
starts_escape (c ∷ []) = false
starts_escape (c ∷ d ∷ text) = c == 92 && d == b'u'

abbrev pub second_half : ℕ → Cursor → ℕ × Cursor
second_half first c =
    if is_high first && starts_escape c.rest
    then paired first c (read_hex4 (advance_ascii (advance_ascii c)))
    else (first, c)

-- `again` is the loop.
abbrev pub push_codepoint : (Text → Cursor → Decoded Text) → Text → ℕ × Cursor → Decoded Text
push_codepoint again out (codepoint, c) =
    if is_surrogate codepoint
    then Decoded.failed (failure_of Error.invalid_unicode)
    else again (out ++ encode_codepoint codepoint) c

abbrev pub unicode_escape :
    (Text → Cursor → Decoded Text) → Cursor → Text → Option (ℕ × Cursor) → Decoded Text
unicode_escape again at out none = Decoded.failed (invalid_at at)
unicode_escape again at out (some (first, c)) = push_codepoint again out (second_half first c)

-- The character of a short escape.
abbrev pub short_escape : ℕ → Option ℕ
short_escape c =
    if c == 34
    then some 34
    else if c == 92
    then some 92
    else if c == b'/'
    then some b'/'
    else if c == b'b'
    then some 8
    else if c == b'f'
    then some 12
    else if c == b'n'
    then some 10
    else if c == b'r'
    then some 13
    else if c == b't'
    then some 9
    else none

abbrev pub long_escape : (Text → Cursor → Decoded Text) → Cursor → Text → Cursor → ℕ → Decoded Text
long_escape again at out c esc =
    if esc == b'u'
    then unicode_escape again at out (read_hex4 (advance_ascii c))
    else Decoded.failed (invalid_at at)

abbrev pub escape_by :
    (Text → Cursor → Decoded Text) → Cursor → Text → Cursor → ℕ → Option ℕ → Decoded Text
escape_by again at out c esc none = long_escape again at out c esc
escape_by again at out c esc (some d) = again (out ++ d ∷ []) (advance_ascii c)

-- `at` is where the escape starts, and `c` is behind its backslash.
abbrev pub escape_at : (Text → Cursor → Decoded Text) → Cursor → Text → Cursor → Text → Decoded Text
escape_at again at out c [] = Decoded.failed (invalid_at at)
escape_at again at out c (esc ∷ text) = escape_by again at out c esc (short_escape esc)

abbrev pub push_scalar :
    (Text → Cursor → Decoded Text) → Text → Cursor → Option DecodedCodepoint → Decoded Text
push_scalar again out c none = Decoded.failed (invalid_at c)
push_scalar again out c (some d) =
    if is_surrogate d.codepoint
    then Decoded.failed (failure_of Error.invalid_unicode)
    else again (out ++ take d.length c.rest) (advance_codepoint d.codepoint d.length c)

-- One round; `open_at` is where the string starts.
abbrev pub string_round :
    (Text → Cursor → Decoded Text) → Cursor → Text → Cursor → Text → Decoded Text
string_round again open_at out c [] = Decoded.failed (invalid_at open_at)
string_round again open_at out c (ch ∷ text) =
    if ch == 34
    then Decoded.done out (advance_ascii c)
    else if ch == 92
    then escape_at again c out (advance_ascii c) text
    else if ltb ch 0x20
    then Decoded.failed (invalid_at c)
    else push_scalar again out c (decode_one_permissive (ch ∷ text))

unfoldable pub string_loop : ℕ → Cursor → Text → Cursor → Decoded Text
string_loop zero open_at out c = Decoded.no_fuel
string_loop (suc fuel) open_at out c =
    string_round (λ more d. string_loop fuel open_at more d) open_at out c c.rest

-- A round for each byte.
unfoldable pub parse_string : Cursor → Decoded Text
parse_string c = string_loop (length c.rest) c [] (advance_ascii c)
