-- ===== src/Json/Encoder.antt =====
-- src/json.hpp: the encoder.
use genia_cpp.Base.{
  ℕ, suc, ◌*◌, ◌/◌, ◌%◌, Bool, true, false, if◌then◌else◌, ◌==◌, ltb, List, [], ◌∷◌, ◌++◌,
  replicate, codes,
}
use genia_cpp.Bignum.Decimal.{to_decimal_string}
use genia_cpp.Values.Value.{Text, Value, Values, ValueEntries}
use genia_cpp.Numbers.Arithmetic.{
  denominator_terminates_in_base10, decimal_from_terminating_fraction,
}
use genia_cpp.Numbers.Float64.{is_finite}
use genia_cpp.Rendering.Numbers.{ToChars, render_decimal}
use genia_cpp.Rendering.Display.{hex_char}
use genia_cpp.Matching.Equality.{text_equal}
use genia_cpp.Json.Result.{Error, Failure, Result, and_then, failure_of, max_nesting}
use genia_cpp.Json.Numbers.{safe_integer, stable_decimal, float64_json_text}

-- The text of a character in a string.
unfoldable pub escape_char : ℕ → Text
escape_char c =
    if c == 34
    then codes "\\\""
    else if c == 92
    then codes "\\\\"
    else if c == 8
    then codes "\\b"
    else if c == 12
    then codes "\\f"
    else if c == 10
    then codes "\\n"
    else if c == 13
    then codes "\\r"
    else if c == 9
    then codes "\\t"
    else if ltb c 0x20
    then codes "\\u00" ++ hex_char (c / 16) ∷ hex_char (c % 16) ∷ []
    else c ∷ []

unfoldable pub escape_chars : Text → Text
escape_chars [] = []
escape_chars (c ∷ text) = escape_char c ++ escape_chars text

unfoldable pub escape_string : Text → Text
escape_string input = b'"' ∷ escape_chars input ++ b'"' ∷ []

abbrev pub indent : ℕ → Text
indent depth = replicate (depth * 2) b' '

-- The lines of a container, with a comma behind all but the last.
unfoldable pub join_lines : ℕ → List Text → Text
join_lines depth [] = []
join_lines depth (line ∷ []) = indent (suc depth) ++ line ++ b'\n' ∷ []
join_lines depth (line ∷ next ∷ lines) =
    indent (suc depth) ++ line ++ b',' ∷ b'\n' ∷ join_lines depth (next ∷ lines)

unfoldable pub encode_container_items : List Text → ℕ → ℕ → ℕ → Text
encode_container_items [] opening closing depth = opening ∷ closing ∷ []
encode_container_items (line ∷ lines) opening closing depth =
    opening ∷ b'\n' ∷ join_lines depth (line ∷ lines) ++ indent depth ++ closing ∷ []

-- The order of two keys, as bytes.
unfoldable pub text_below : Text → Text → Bool
text_below [] [] = false
text_below [] (d ∷ ds) = true
text_below (c ∷ cs) [] = false
text_below (c ∷ cs) (d ∷ ds) = let rest = text_below cs ds in if c == d then rest else ltb c d

-- `std::sort` on entries with different keys.
unfoldable pub insert_entry : Text × Text → List (Text × Text) → List (Text × Text)
insert_entry e [] = e ∷ []
insert_entry e (f ∷ entries) =
    let rest = insert_entry e entries in if text_below f.0 e.0 then f ∷ rest else e ∷ f ∷ entries

unfoldable pub sort_entries : List (Text × Text) → List (Text × Text)
sort_entries [] = []
sort_entries (e ∷ entries) = insert_entry e (sort_entries entries)

unfoldable pub entry_lines : List (Text × Text) → List Text
entry_lines [] = []
entry_lines ((key, text) ∷ entries) =
    (escape_string key ++ codes ": " ++ text) ∷ entry_lines entries

abbrev pub out_of_range : Failure
out_of_range = failure_of Error.number_out_of_range

abbrev pub unsupported : Failure
unsupported = failure_of Error.unsupported_value

-- A key that is not a string.
abbrev pub map_key_failure : Failure
map_key_failure = record unsupported { value_type = codes "map-key" }

abbrev pub decimal_text : Value → Text
decimal_text (Value.decimal coefficient exponent) = render_decimal coefficient exponent
decimal_text v = []

abbrev pub encode_stable : ToChars → Value → Result Text
encode_stable to_chars number =
    if stable_decimal to_chars number
    then Result.ok (decimal_text number)
    else Result.fail out_of_range

-- A key and the text of its value, in front of the others.
abbrev pub keyed : Value → Result Text → Result (List (Text × Text)) → Result (List (Text × Text))
keyed (Value.string key) encoded others =
    and_then encoded (λ text. and_then others (λ rest. Result.ok ((key, text) ∷ rest)))
keyed key encoded others = Result.fail map_key_failure

module _ (to_chars : ToChars) where
  unfoldable mutual
    pub encode_at : Value → ℕ → Result Text
    encode_at (Value.integer n) depth =
        if safe_integer n then Result.ok (to_decimal_string n) else Result.fail out_of_range
    encode_at (Value.decimal coefficient exponent) depth =
        encode_stable to_chars (Value.decimal coefficient exponent)
    encode_at (Value.rational numerator denominator) depth =
        if denominator_terminates_in_base10 denominator
        then encode_stable to_chars (decimal_from_terminating_fraction numerator denominator)
        else Result.fail unsupported
    encode_at (Value.float64 number) depth =
        if is_finite number
        then Result.ok (float64_json_text to_chars number)
        else Result.fail out_of_range
    encode_at (Value.boolean b) depth = Result.ok (if b then codes "true" else codes "false")
    encode_at (Value.string text) depth = Result.ok (escape_string text)
    encode_at (Value.outcome_none reason context) depth = Result.ok (codes "null")
    encode_at (Value.list items) depth =
        let encoded = encode_items items (suc depth) in
        if ltb max_nesting (suc depth)
        then Result.fail (failure_of Error.nesting_too_deep)
        else and_then encoded (λ lines. Result.ok (encode_container_items lines b'[' b']' depth))
    encode_at (Value.map entries index) depth =
        let encoded = encode_entries entries (suc depth) in
        if ltb max_nesting (suc depth)
        then Result.fail (failure_of Error.nesting_too_deep)
        else and_then encoded (λ pairs.
          Result.ok (encode_container_items (entry_lines (sort_entries pairs)) b'{' b'}' depth))
    encode_at v depth = Result.fail unsupported

    -- The loop over the items of a list.
    pub encode_items : Values → ℕ → Result (List Text)
    encode_items Values.none_left depth = Result.ok []
    encode_items (Values.cons item items) depth =
        let others = encode_items items depth in
        and_then (encode_at item depth)
          (λ line. and_then others (λ lines. Result.ok (line ∷ lines)))

    -- The loop over the entries of a map.
    pub encode_entries : ValueEntries → ℕ → Result (List (Text × Text))
    encode_entries ValueEntries.end depth = Result.ok []
    encode_entries (ValueEntries.entry key value entries) depth =
        let others = encode_entries entries depth in keyed key (encode_at value depth) others

  abbrev pub is_json : Text → Bool
  is_json facet = text_equal facet (codes "json")

  -- One layer of representation is taken off.
  unfoldable pub encode_value : Value → Result Text
  encode_value (Value.represented facet value) =
      if is_json facet
      then encode_at value 0
      else Result.fail (record unsupported { value_type = codes "represented" })
  encode_value v = encode_at v 0
