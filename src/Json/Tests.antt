-- ===== src/Json/Tests.antt =====
-- src/json.hpp: the theorems at concrete documents.
use genia_cpp.Base.{◌≤◌, ◌≡◌, ◌≢◌, ◌↔◌, refl, true, none, [], ◌∷◌, codes, length, arith}
use genia_cpp.Base.Int.{pos, negsuc, ◌≤ℤ◌}
use genia_cpp.Bignum.{
  Integer, from_u64, negate, normalize, add_magnitude, mul_u32, is_empty, is_zero, compare_integer,
  compare_magnitude,
}
use genia_cpp.Bignum.Limbs.{add_limbs, mul_limb, pop_zeros, compare_limbs}
use genia_cpp.Bignum.Decimal.{
  from_unsigned_decimal, all_digits, read_digits, read_chunks, to_decimal_string, join_chunks,
  split_chunks, divide_chunk, pop_high_zeros, print_digits,
}
use genia_cpp.Numbers.Fractions.{
  map_key_encoding, map_key_encoding_checked, is_numeric_kind, is_exact_family_kind,
}
use genia_cpp.Json.Maps.{map_has, map_put, push_entry}
use genia_cpp.Json.Decoder.Position.{skip_from, consume_literal}
use genia_cpp.Json.Decoder.Tokens.{parse_number, scan_number}
use genia_cpp.Json.Decoder.Strings.{parse_string, string_loop}
use genia_cpp.Json.Encoder.{
  encode_items, encode_entries, encode_container_items, entry_lines, sort_entries, insert_entry,
  join_lines, escape_string, escape_chars, escape_char,
}
use genia_cpp.Bignum.Canonical.{from_u64-IsCanonical}
use genia_cpp.Bignum.Signed.{to_ℤ}
use genia_cpp.Utf8.{encode_codepoint, decode_one_permissive}
use genia_cpp.Utf8.Validate.{encode_text}
use genia_cpp.Values.Value.{Text, Value, Values, ValueEntries, from_list}
use genia_cpp.Rendering.Numbers.{ToChars}
use genia_cpp.Json.Result.{Result}
use genia_cpp.Json.Numbers.{safe_integer, span_digits}
use genia_cpp.Json.Encoder.{encode_at, encode_value}
use genia_cpp.Json.Decoder.{
  null_value, decode_document, parse_document, parse_value, parse_items, parse_pairs, finish_pairs,
}
use genia_cpp.Json.Decoder.Position.{Cursor, Decoded}
use genia_cpp.Json.Exchange.Numbers.{Succeeds}
use genia_cpp.Json.Exchange.Documents.{decode_document-ne-no_fuel, encode_at-decode_document}
use genia_cpp.Json.Exchange.Height.{height, height-decode_document}
use genia_cpp.Json.RoundTrip.Plain.{IsPlain, pairs_of}
use genia_cpp.Json.RoundTrip.Documents.{decode_document-encode_value}
use genia_cpp.Json.Bounds.{safe_integer_iff}

-- No `double` comes up.
abbrev no_chars : ToChars
no_chars number = none

decode_document-ne-no_fuel_example :
    decode_document no_chars (codes "[1, {\"a\": 2") ≢ Decoded.no_fuel
decode_document-ne-no_fuel_example = decode_document-ne-no_fuel no_chars (codes "[1, {\"a\": 2")

abbrev document : Text
document = codes " {\"b\": [7, null]} "

abbrev seven : Integer
seven = from_u64 7

abbrev document_value : Value
document_value =
    Value.map
      (ValueEntries.entry (Value.string (codes "b"))
        (Value.list (Values.cons (Value.integer seven) (Values.cons null_value Values.none_left)))
        ValueEntries.end)
      ((codes "S:b", 0) ∷ [])

abbrev document_end : Cursor
document_end = record { rest = []; line = 1; column = 19 }

document_decoded : decode_document no_chars document ≡ Decoded.done document_value document_end
unfolding decode_document parse_document parse_value parse_items parse_pairs skip_from parse_string
    string_loop decode_one_permissive parse_number scan_number span_digits from_unsigned_decimal
    all_digits read_digits read_chunks normalize from_u64 add_magnitude mul_u32 add_limbs mul_limb
    pop_zeros is_empty is_zero negate safe_integer compare_integer compare_magnitude compare_limbs
    consume_literal finish_pairs map_has map_put push_entry map_key_encoding
    map_key_encoding_checked is_numeric_kind is_exact_family_kind from_list
document_decoded = refl

encode_at-decode_document_example :
    (length document_end.rest ≡ 0) × Succeeds (encode_at no_chars document_value 0)
encode_at-decode_document_example =
    encode_at-decode_document no_chars document document_value document_end document_decoded

height-decode_document_example : height document_value ≤ 128
height-decode_document_example =
    height-decode_document no_chars document document_value document_end document_decoded

safe_integer_iff_example :
    (safe_integer seven ≡ true)
    ↔ (negsuc 9007199254740990 ≤ℤ to_ℤ seven) × (to_ℤ seven ≤ℤ pos 9007199254740991)
safe_integer_iff_example = safe_integer_iff seven (from_u64-IsCanonical 7 (omega arith))

document_value-IsPlain : IsPlain document_value
unfolding encode_text encode_codepoint finish_pairs pairs_of map_has map_put push_entry
    map_key_encoding map_key_encoding_checked is_numeric_kind is_exact_family_kind safe_integer
    compare_integer is_zero is_empty from_u64 compare_magnitude negate
document_value-IsPlain = (
  refl,
  (tt, tt),
  (
    (codes "b", (ground arith, tt), refl),
    ((from_u64-IsCanonical 7 (omega arith), refl), (refl, tt)),
    tt,
  ),
)

abbrev document_text : Text
document_text = codes "{\n  \"b\": [\n    7,\n    null\n  ]\n}"

document_encoded : encode_value no_chars document_value ≡ Result.ok document_text
unfolding encode_value encode_at encode_items encode_entries safe_integer compare_integer is_zero
    is_empty from_u64 compare_magnitude negate encode_container_items entry_lines sort_entries
    insert_entry join_lines escape_string escape_chars escape_char to_decimal_string join_chunks
    split_chunks divide_chunk pop_high_zeros pop_zeros print_digits
document_encoded = refl

decode_document-encode_value_example :
    (c : Cursor) × (decode_document no_chars document_text ≡ Decoded.done document_value c)
    × (c.rest ≡ [])
decode_document-encode_value_example =
    decode_document-encode_value no_chars document_value document_text document_value-IsPlain
      document_encoded
