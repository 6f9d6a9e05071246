-- ===== src/Json/Decoder.antt =====
-- src/json.hpp, class `Decoder`: values and documents. The recursion and the loops run on fuel.
pub mod Position
pub mod Ensures
pub mod Progress
pub mod Tokens
pub mod Strings
use genia_cpp.Base.{
  ℕ, zero, suc, ◌+◌, ◌*◌, Bool, true, false, not, ◌&&◌, ◌||◌, if◌then◌else◌, ◌==◌, ltb, leb, Option,
  none, some, List, [], ◌∷◌, ◌++◌, length, codes,
}
use genia_cpp.Bignum.Decimal.{is_digit}
use genia_cpp.Values.Value.{Text, Value, Values, MaybeValue, from_list}
use genia_cpp.Numbers.Fractions.{map_key_encoding}
use genia_cpp.Rendering.Numbers.{ToChars}
use genia_cpp.Json.Maps.{HostMap, empty_host_map, map_has, put_text, make_map}
use genia_cpp.Json.Result.{Error, Failure, Result, failure_of, max_nesting}
use Position.{
  Cursor, start, Decoded, then_decode, invalid_at, advance_ascii, skip_ws, consume_literal,
}
use Tokens.{parse_number}
use Strings.{parse_string}

-- Behind the literal, or where it was to start.
abbrev pub literal_value : Cursor → Value → Option Cursor → Decoded Value
literal_value at v none = Decoded.failed (invalid_at at)
literal_value at v (some c) = Decoded.done v c

-- `none("nil")`.
abbrev pub null_value : Value
null_value = Value.outcome_none (Value.string (codes "nil")) MaybeValue.absent

abbrev pub duplicate_failure : Text → Failure
duplicate_failure key = record (failure_of Error.duplicate_key) { key = key }

-- The map of the pairs, in order, without a key twice.
unfoldable pub finish_pairs : HostMap → List (Text × Value) → Result Value
finish_pairs m [] = Result.ok (make_map m)
finish_pairs m ((key, v) ∷ pairs) =
    let rest = finish_pairs (put_text key v m) pairs in
    if map_has (map_key_encoding (Value.string key)) m
    then Result.fail (duplicate_failure key)
    else rest

abbrev pub finished : Cursor → Result Value → Decoded Value
finished c (Result.ok v) = Decoded.done v c
finished c (Result.fail failure) = Decoded.failed failure

-- Behind an item: a comma, the end of the array, or neither. `again` is the loop.
abbrev pub after_item :
    (List Value → Cursor → Decoded Value) → List Value → Cursor → Text → Decoded Value
after_item again items c [] = Decoded.failed (invalid_at c)
after_item again items c (ch ∷ text) =
    if ch == b','
    then again items (skip_ws (advance_ascii c))
    else if ch == b']'
    then Decoded.done (Value.list (from_list items)) (advance_ascii c)
    else Decoded.failed (invalid_at c)

-- Behind the value of a pair.
abbrev pub after_pair :
    (List (Text × Value) → Cursor → Decoded Value)
    → List (Text × Value)
    → Cursor
    → Text
    → Decoded Value
after_pair again pairs c [] = Decoded.failed (invalid_at c)
after_pair again pairs c (ch ∷ text) =
    if ch == b','
    then again pairs (advance_ascii c)
    else if ch == b'}'
    then finished (advance_ascii c) (finish_pairs empty_host_map pairs)
    else Decoded.failed (invalid_at c)

-- The text of a key, whose quote comes next.
abbrev pub key_at : Cursor → Text → Decoded Text
key_at c [] = Decoded.failed (invalid_at c)
key_at c (ch ∷ text) = if ch == b'"' then parse_string c else Decoded.failed (invalid_at c)

-- Behind the colon, which comes next.
abbrev pub colon_at : Cursor → Text → Decoded (Unit {0})
colon_at c [] = Decoded.failed (invalid_at c)
colon_at c (ch ∷ text) =
    if ch == b':'
    then Decoded.done tt (skip_ws (advance_ascii c))
    else Decoded.failed (invalid_at c)

-- A container behind its bracket: `empty` where it closes at once, and else its loop.
abbrev pub container : ℕ → (Unit {0} → Decoded Value) → Text → Decoded Value → Decoded Value
container closing items [] empty = items tt
container closing items (ch ∷ text) empty = if ch == closing then empty else items tt

abbrev pub nested : ℕ → (Unit {0} → Decoded Value) → Decoded Value
nested depth inner =
    if ltb max_nesting depth then Decoded.failed (failure_of Error.nesting_too_deep) else inner tt

module _ (to_chars : ToChars) where
  -- The value that starts with a character. `array` and `object` go on behind their bracket.
  abbrev pub value_at :
      (Cursor → Decoded Value) → (Cursor → Decoded Value) → Cursor → Text → Decoded Value
  value_at array object c [] = Decoded.failed (invalid_at c)
  value_at array object c (ch ∷ text) =
      if ch == b'{'
      then object c
      else if ch == b'['
      then array c
      else if ch == b'"'
      then then_decode (parse_string c) (λ text d. Decoded.done (Value.string text) d)
      else if ch == b't'
      then literal_value c (Value.boolean true) (consume_literal (codes "true") c)
      else if ch == b'f'
      then literal_value c (Value.boolean false) (consume_literal (codes "false") c)
      else if ch == b'n'
      then literal_value c null_value (consume_literal (codes "null") c)
      else if ch == b'-' || is_digit ch
      then parse_number to_chars c
      else Decoded.failed (invalid_at c)

  -- `parse_array` and `parse_object` in front of their loops.
  abbrev pub array_at : (Cursor → Decoded Value) → ℕ → Cursor → Decoded Value
  array_at items depth c = nested depth (λ _.
      let inside = skip_ws (advance_ascii c) in
      container b']' (λ _. items inside) inside.rest
        (Decoded.done (Value.list (from_list [])) (advance_ascii inside)))

  abbrev pub object_at : (Cursor → Decoded Value) → ℕ → Cursor → Decoded Value
  object_at pairs depth c = nested depth (λ _.
      let inside = skip_ws (advance_ascii c) in
      container b'}' (λ _. pairs inside) inside.rest
        (finished (advance_ascii inside) (finish_pairs empty_host_map [])))

  unfoldable mutual
    pub parse_value : ℕ → ℕ → Cursor → Decoded Value
    parse_value zero depth c = Decoded.no_fuel
    parse_value (suc fuel) depth c =
        value_at (λ d. array_at (λ e. parse_items fuel (suc depth) [] e) (suc depth) d)
          (λ d. object_at (λ e. parse_pairs fuel (suc depth) [] e) (suc depth) d) (skip_ws c)
          (skip_ws c).rest

    -- The loop of `parse_array`.
    pub parse_items : ℕ → ℕ → List Value → Cursor → Decoded Value
    parse_items zero depth items c = Decoded.no_fuel
    parse_items (suc fuel) depth items c = then_decode (parse_value fuel depth c) (λ v d.
        after_item (λ more e. parse_items fuel depth more e) (items ++ v ∷ []) (skip_ws d)
          (skip_ws d).rest)

    -- The loop of `parse_object`.
    pub parse_pairs : ℕ → ℕ → List (Text × Value) → Cursor → Decoded Value
    parse_pairs zero depth pairs c = Decoded.no_fuel
    parse_pairs (suc fuel) depth pairs c =
        then_decode (key_at (skip_ws c) (skip_ws c).rest) (λ key d.
          then_decode (colon_at (skip_ws d) (skip_ws d).rest) (λ u e.
            then_decode (parse_value fuel depth e) (λ v g.
              after_pair (λ more h. parse_pairs fuel depth more h) (pairs ++ (key, v) ∷ [])
                (skip_ws g) (skip_ws g).rest)))

  -- A document is a value with nothing but space behind it.
  abbrev pub at_document_end : Value → Cursor → Text → Decoded Value
  at_document_end v c [] = Decoded.done v c
  at_document_end v c (ch ∷ text) = Decoded.failed (invalid_at c)

  unfoldable pub parse_document : ℕ → Cursor → Decoded Value
  parse_document fuel c =
      then_decode (parse_value fuel 0 (skip_ws c))
        (λ v d. at_document_end v (skip_ws d) (skip_ws d).rest)

  -- Two units of fuel for each byte, and three.
  unfoldable pub decode_document : Text → Decoded Value
  decode_document text = parse_document (2 * length text + 3) (start text)
