-- ===== src/Utf8/Tests.antt =====
-- src/utf8.hpp: the theorems on concrete texts.
use genia_cpp.Base.{ℕ, ◌≡◌, refl, true, some, List, [], ◌∷◌, ◌++◌, length, All, arith, ◌↔◌}
use genia_cpp.Utf8.{
  lead_form, read_continuations, decode_form, decode_one_permissive, encode_codepoint,
  is_well_formed,
}
use genia_cpp.Utf8.Bytes.{IsByte}
use genia_cpp.Utf8.Decode.{decode-encode}
use genia_cpp.Utf8.Inverse.{IsDecoded, decode_one_permissive-IsDecoded}
use genia_cpp.Utf8.Validate.{IsScalar, encode_text, is_well_formed_iff}

-- The euro sign, and the letter A.
abbrev euro : List ℕ
euro = 0xE2 ∷ 0x82 ∷ 0xAC ∷ 0x41 ∷ []

euro_bytes : All IsByte euro
euro_bytes = (omega arith, (omega arith, (omega arith, (omega arith, tt))))

euro_read : decode_one_permissive euro ≡ some (record { codepoint = 0x20AC; length = 3 })
unfolding decode_one_permissive lead_form decode_form read_continuations
euro_read = refl

decode-encode_example :
    decode_one_permissive (encode_codepoint 0x1F600 ++ 0x41 ∷ [])
    ≡ some (record { codepoint = 0x1F600; length = length (encode_codepoint 0x1F600) })
decode-encode_example = decode-encode 0x1F600 (0x41 ∷ []) (omega arith)

decode_one_permissive-IsDecoded_example : IsDecoded euro (record { codepoint = 0x20AC; length = 3 })
decode_one_permissive-IsDecoded_example =
    decode_one_permissive-IsDecoded euro (record { codepoint = 0x20AC; length = 3 }) euro_bytes
      euro_read

is_well_formed_iff_example :
    (is_well_formed euro ≡ true) ↔ ((cs : List ℕ) × All IsScalar cs × (euro ≡ encode_text cs))
is_well_formed_iff_example = is_well_formed_iff euro euro_bytes
