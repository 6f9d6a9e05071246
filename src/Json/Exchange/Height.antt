-- ===== src/Json/Exchange/Height.antt =====
-- src/json.hpp, `kMaxNesting`: how deep the lists and the maps nest in what is encoded and decoded.
use genia_cpp.Base.{ℕ, suc, ◌+◌, ◌≤◌, ◌≡◌, refl, max, List, arith}
use genia_cpp.Values.Value.{Text, Value, Values, ValueEntries}
use genia_cpp.Rendering.Numbers.{ToChars}
use genia_cpp.Json.Result.{Result, max_nesting}
use genia_cpp.Json.Encoder.{encode_at, encode_items, encode_entries, keyed}
use genia_cpp.Json.Decoder.{decode_document}
use genia_cpp.Json.Decoder.Position.{Cursor, Decoded}
use genia_cpp.Json.RoundTrip.Plain.{list-parts, map-parts, and_then-ok}
use genia_cpp.Json.Exchange.Documents.{encode_at-decode_document}

-- The number of lists and maps around the innermost value.
unfoldable mutual
  pub height : Value → ℕ
  height (Value.list items) = suc (items_height items)
  height (Value.map entries index) = suc (entries_height entries)
  height v = 0

  pub items_height : Values → ℕ
  items_height Values.none_left = 0
  items_height (Values.cons v items) = max (height v) (items_height items)

  pub entries_height : ValueEntries → ℕ
  entries_height ValueEntries.end = 0
  entries_height (ValueEntries.entry key v entries) = max (height v) (entries_height entries)

keyed-ok :
    (key : Value) (r : Result Text) (others : Result (List (Text × Text)))
    (pairs : List (Text × Text))
    → keyed key r others ≡ Result.ok pairs
    → ((text : Text) × (r ≡ Result.ok text))
      × ((rest : List (Text × Text)) × (others ≡ Result.ok rest))
keyed-ok (Value.string key) (Result.ok text) (Result.ok rest) pairs e = ((text, refl), (rest, refl))
keyed-ok (Value.string key) (Result.ok text) (Result.fail failure) pairs e = cc
keyed-ok (Value.string key) (Result.fail failure) others pairs e = cc
keyed-ok _ r others pairs e = cc

module _ (to_chars : ToChars) where
  mutual
    unfolding height items_height entries_height encode_items encode_entries

    value-height :
        (v : Value) (depth : ℕ) (text : Text)
        → depth ≤ max_nesting
        → encode_at to_chars v depth ≡ Result.ok text
        → depth + height v ≤ max_nesting
    value-height (Value.list items) depth text d e =
        let (shallow, (lines, encoded, made)) = list-parts to_chars items depth text e in
        omega (arith, items-height items (suc depth) lines (ground arith) encoded)
    value-height (Value.map entries index) depth text d e =
        let (shallow, (pairs, encoded, made)) = map-parts to_chars entries index depth text e in
        omega (arith, entries-height entries (suc depth) pairs (ground arith) encoded)
    value-height _ depth text d e = omega arith

    items-height :
        (items : Values) (depth : ℕ) (lines : List Text)
        → depth ≤ max_nesting
        → encode_items to_chars items depth ≡ Result.ok lines
        → depth + items_height items ≤ max_nesting
    items-height Values.none_left depth lines d e = omega arith
    items-height (Values.cons v items) depth lines d e =
        let (line, e1, more) = and_then-ok (encode_at to_chars v depth) _ lines e in
        let (others, e2, all) = and_then-ok (encode_items to_chars items depth) _ lines more in
        omega (arith, value-height v depth line d e1, items-height items depth others d e2)

    entries-height :
        (entries : ValueEntries) (depth : ℕ) (pairs : List (Text × Text))
        → depth ≤ max_nesting
        → encode_entries to_chars entries depth ≡ Result.ok pairs
        → depth + entries_height entries ≤ max_nesting
    entries-height ValueEntries.end depth pairs d e = omega arith
    entries-height (ValueEntries.entry key v entries) depth pairs d e =
        let ((text, e1), (rest, e2)) =
          keyed-ok key (encode_at to_chars v depth) (encode_entries to_chars entries depth) pairs
            e in
        omega (arith, value-height v depth text d e1, entries-height entries depth rest d e2)

-- Where `encode_at` at the depth 0 returns a text, the lists and maps of the value nest no more than 128
-- deep.
pub height-encode_at :
    (to_chars : ToChars) (v : Value) (text : Text)
    → encode_at to_chars v 0 ≡ Result.ok text
    → height v ≤ 128
height-encode_at to_chars v text e = omega (arith, value-height to_chars v 0 text (omega arith) e)

-- Where `decode_document` returns a value, its lists and maps nest no more than 128 deep.
pub height-decode_document :
    (to_chars : ToChars) (text : Text) (v : Value) (c : Cursor)
    → decode_document to_chars text ≡ Decoded.done v c
    → height v ≤ 128
height-decode_document to_chars text v c e =
    let (whole, (written, encoded)) = encode_at-decode_document to_chars text v c e in
    height-encode_at to_chars v written encoded
