-- ===== src/Json/RoundTrip/Plain.antt =====
-- src/json.hpp: the values that JSON stands for as they are, and how their texts start.
use genia_cpp.Base.{
  ℕ, suc, ◌≡◌, ◌⊎◌, refl, sym, subst, true, false, ltb, List, [], ◌∷◌, codes, arith, Bool-cases,
  inl, inr,
}
use genia_cpp.Bignum.{Integer}
use genia_cpp.Bignum.Canonical.{IsCanonical}
use genia_cpp.Bignum.Decimal.{to_decimal_string}
use genia_cpp.Utf8.Validate.{Encoded}
use genia_cpp.Values.Value.{Text, Value, Values, ValueEntries}
use genia_cpp.Rendering.Numbers.{ToChars}
use genia_cpp.Json.Maps.{empty_host_map}
use genia_cpp.Json.Result.{Result, and_then, max_nesting}
use genia_cpp.Json.Numbers.{safe_integer}
use genia_cpp.Json.Encoder.{
  text_below, escape_string, encode_at, encode_items, encode_entries, encode_container_items,
  sort_entries, entry_lines,
}
use genia_cpp.Json.Decoder.{null_value, finish_pairs}
use genia_cpp.Json.RoundTrip.Numbers.{StartsNumber, to_decimal_string-StartsNumber}
use genia_cpp.Json.RoundTrip.Layout.{HasStart}

-- The entries, where their keys are texts.
unfoldable pub pairs_of : ValueEntries → List (Text × Value)
pairs_of ValueEntries.end = []
pairs_of (ValueEntries.entry (Value.string key) v entries) = (key, v) ∷ pairs_of entries
pairs_of (ValueEntries.entry key v entries) = pairs_of entries

-- No key is below the one in front of it.
abbrev pub IsBefore : Text → List (Text × Value) → Type 0
IsBefore key [] = Unit {0}
IsBefore key ((next, v) ∷ pairs) = text_below next key ≡ false

abbrev pub AreSorted : List (Text × Value) → Type 0
AreSorted [] = Unit {0}
AreSorted ((key, v) ∷ pairs) = IsBefore key pairs × AreSorted pairs

-- Null, Booleans, safe integers, texts in UTF-8, and the lists and the maps of these: a map's keys are
-- texts, in order and once each, as `put` enters them.
abbrev mutual
  pub IsPlain : Value → Type 0
  IsPlain (Value.integer n) = IsCanonical n × (safe_integer n ≡ true)
  IsPlain (Value.boolean b) = Unit {0}
  IsPlain (Value.string text) = Encoded text
  IsPlain (Value.outcome_none reason context) = Value.outcome_none reason context ≡ null_value
  IsPlain (Value.list items) = ArePlain items
  IsPlain (Value.map entries index) =
      (finish_pairs empty_host_map (pairs_of entries) ≡ Result.ok (Value.map entries index))
      × AreSorted (pairs_of entries)
      × ArePlainEntries entries
  IsPlain v = ⊥

  pub ArePlain : Values → Type 0
  ArePlain Values.none_left = Unit {0}
  ArePlain (Values.cons v items) = IsPlain v × ArePlain items

  pub ArePlainEntries : ValueEntries → Type 0
  ArePlainEntries ValueEntries.end = Unit {0}
  ArePlainEntries (ValueEntries.entry (Value.string key) v entries) =
      Encoded key × IsPlain v × ArePlainEntries entries
  ArePlainEntries (ValueEntries.entry key v entries) = ⊥

StartsNumber-HasStart : (text : Text) → StartsNumber text → HasStart text
StartsNumber-HasStart [] h = h
StartsNumber-HasStart (c ∷ text) h = (ground arith, ground arith, ground arith)

pub and_then-ok :
    {A B : Type 0} (r : Result A) (f : A → Result B) (b : B)
    → and_then r f ≡ Result.ok b
    → (a : A) × (r ≡ Result.ok a) × (f a ≡ Result.ok b)
and_then-ok (Result.ok a) f b e = (a, refl, e)
and_then-ok (Result.fail failure) f b e = cc

encode_container_items-HasStart :
    (lines : List Text) (opening closing depth : ℕ)
    → opening ≡ b'[' ⊎ opening ≡ b'{'
    → HasStart (encode_container_items lines opening closing depth)
unfolding encode_container_items
encode_container_items-HasStart [] opening closing depth (inl e) = rw e (refl, refl, refl)
encode_container_items-HasStart [] opening closing depth (inr e) = rw e (refl, refl, refl)
encode_container_items-HasStart (line ∷ lines) opening closing depth (inl e) =
    rw e (refl, refl, refl)
encode_container_items-HasStart (line ∷ lines) opening closing depth (inr e) =
    rw e (refl, refl, refl)

-- The parts of a container's text.
module _ (to_chars : ToChars) where
  pub list-parts :
      (items : Values) (depth : ℕ) (text : Text)
      → encode_at to_chars (Value.list items) depth ≡ Result.ok text
      → (ltb max_nesting (suc depth) ≡ false)
        × ((lines : List Text) × (encode_items to_chars items (suc depth) ≡ Result.ok lines)
            × (text ≡ encode_container_items lines b'[' b']' depth))
  unfolding encode_at
  list-parts items depth text e = elim (Bool-cases (ltb max_nesting (suc depth))) [
    | inl deep ↦ cc (rw deep at e)
    | inr shallow ↦
        let (lines, encoded, made) =
          and_then-ok (encode_items to_chars items (suc depth)) _ text (rw shallow at e) in
        (shallow, (lines, encoded, cc))
  ]

  pub map-parts :
      (entries : ValueEntries) (index : List (Text × ℕ)) (depth : ℕ) (text : Text)
      → encode_at to_chars (Value.map entries index) depth ≡ Result.ok text
      → (ltb max_nesting (suc depth) ≡ false)
        × ((pairs : List (Text × Text)) × (encode_entries to_chars entries (suc depth)
              ≡ Result.ok pairs)
            × (text ≡ encode_container_items (entry_lines (sort_entries pairs)) b'{' b'}' depth))
  unfolding encode_at
  map-parts entries index depth text e = elim (Bool-cases (ltb max_nesting (suc depth))) [
    | inl deep ↦ cc (rw deep at e)
    | inr shallow ↦
        let (pairs, encoded, made) =
          and_then-ok (encode_entries to_chars entries (suc depth)) _ text (rw shallow at e) in
        (shallow, (pairs, encoded, cc))
  ]

  pub integer-text :
      (n : Integer) (depth : ℕ) (text : Text)
      → safe_integer n ≡ true
      → encode_at to_chars (Value.integer n) depth ≡ Result.ok text
      → text ≡ to_decimal_string n
  unfolding encode_at
  integer-text n depth text safe e = cc (rw safe at e)

  HasStart-ok :
      (t text : Text)
      → ◌≡◌ {A = Result Text} (Result.ok t) (Result.ok text)
      → HasStart t
      → HasStart text
  HasStart-ok t text e h = let same : t ≡ text = cc in subst HasStart same h

  pub encode_at-HasStart :
      (v : Value) (depth : ℕ) (text : Text)
      → IsPlain v
      → encode_at to_chars v depth ≡ Result.ok text
      → HasStart text
  unfolding escape_string encode_at
  encode_at-HasStart (Value.integer n) depth text (c, safe) e =
      subst HasStart (sym (integer-text n depth text safe e))
        (StartsNumber-HasStart (to_decimal_string n) (to_decimal_string-StartsNumber n c))
  encode_at-HasStart (Value.boolean true) depth text h e =
      HasStart-ok (codes "true") text e (refl, refl, refl)
  encode_at-HasStart (Value.boolean false) depth text h e =
      HasStart-ok (codes "false") text e (refl, refl, refl)
  encode_at-HasStart (Value.string s) depth text h e = HasStart-ok _ text e (refl, refl, refl)
  encode_at-HasStart (Value.outcome_none reason context) depth text h e =
      HasStart-ok (codes "null") text e (refl, refl, refl)
  encode_at-HasStart (Value.list items) depth text h e =
      let (shallow, (lines, encoded, made)) = list-parts items depth text e in
      subst HasStart (sym made) (encode_container_items-HasStart lines b'[' b']' depth (inl refl))
  encode_at-HasStart (Value.map entries index) depth text h e =
      let (shallow, (pairs, encoded, made)) = map-parts entries index depth text e in
      subst HasStart (sym made) (
        encode_container_items-HasStart (entry_lines (sort_entries pairs)) b'{' b'}' depth
          (inr refl))
  encode_at-HasStart _ depth text h e = elim h [ ]
