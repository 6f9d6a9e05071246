-- ===== src/Rendering/Tests.antt =====
-- src/render.hpp: the theorems at concrete values.
use genia_cpp.Base.{◌≡◌, refl, arith, none, some, [], ◌∷◌, ◌++◌, codes, All}
use genia_cpp.Utf8.{decode_one_permissive, lead_form}
use genia_cpp.Utf8.Bytes.{IsByte}
use genia_cpp.Values.Value.{Text, Value}
use genia_cpp.Rendering.Numbers.{ToChars}
use genia_cpp.Rendering.Display.{display, quoted, quote_loop}
use genia_cpp.Rendering.Unquoted.{read_quoted}
use genia_cpp.Rendering.Quoted.{read_quoted-display}

abbrev no_chars : ToChars
no_chars number = none

-- A letter, a quote, a backslash, the control character 1, and a byte that starts no code point.
abbrev mixed : Text
mixed = 97 ∷ 34 ∷ 92 ∷ 1 ∷ 255 ∷ []

mixed-IsByte : All IsByte mixed
mixed-IsByte = omega arith

quoted-mixed : quoted mixed ≡ codes "\"a\\\"\\\\\\u0001" ++ 255 ∷ 34 ∷ []
unfolding quoted quote_loop decode_one_permissive lead_form
quoted-mixed = refl

read_quoted-display_example :
    (written : Text) × (display no_chars (Value.string mixed) ≡ some written)
    × (read_quoted (written ++ codes "]") ≡ some (mixed, codes "]"))
read_quoted-display_example = read_quoted-display no_chars mixed (codes "]") mixed-IsByte
