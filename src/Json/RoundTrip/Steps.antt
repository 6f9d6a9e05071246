-- ===== src/Json/RoundTrip/Steps.antt =====
-- src/json.hpp, class `Decoder`: single steps of the decoder on what the encoder writes.
use genia_cpp.Base.{
  ℕ, ◌≡◌, ◌⊎◌, refl, sym, subst, Bool, true, false, if◌then◌else◌, List, [], ◌∷◌, ◌++◌, codes,
  arith, inl, inr,
}
use genia_cpp.Bignum.{Integer}
use genia_cpp.Bignum.Canonical.{IsCanonical}
use genia_cpp.Bignum.Decimal.{to_decimal_string}
use genia_cpp.Utf8.Validate.{Encoded}
use genia_cpp.Values.Value.{Text, Value, from_list}
use genia_cpp.Rendering.Numbers.{ToChars}
use genia_cpp.Json.Maps.{empty_host_map}
use genia_cpp.Json.Result.{Result}
use genia_cpp.Json.Numbers.{safe_integer}
use genia_cpp.Json.Encoder.{escape_string}
use genia_cpp.Json.Decoder.{
  null_value, finish_pairs, after_item, after_pair, key_at, colon_at, container, value_at,
}
use genia_cpp.Json.Decoder.Position.{Cursor, Decoded, advance_ascii, skip_ws, consume_literal}
use genia_cpp.Json.Decoder.Progress.{rest-advance_ascii}
use genia_cpp.Json.Decoder.Tokens.{parse_number}
use genia_cpp.Json.Decoder.Strings.{parse_string}
use genia_cpp.Json.RoundTrip.Reads.{Reads, reads, Reads-bind, at_cursor}
use genia_cpp.Json.RoundTrip.Strings.{parse_string-escape_string}
use genia_cpp.Json.RoundTrip.Numbers.{
  ends_number, StartsNumber, to_decimal_string-StartsNumber, parse_number-to_decimal_string,
}
use genia_cpp.Json.RoundTrip.Layout.{HasStart, skip_ws_blanks}

-- A text in UTF-8 behind its quotes.
pub parse_string-Reads :
    (text rest : Text) (c : Cursor)
    → Encoded text
    → c.rest ≡ escape_string text ++ rest
    → Reads text rest (parse_string c)
parse_string-Reads text rest c (cs, all, same) e =
    subst (λ t. Reads t rest (parse_string c)) (sym same)
      (parse_string-escape_string cs rest c all
        (subst (λ (t : Text). c.rest ≡ escape_string t ++ rest) same e))

module _ (to_chars : ToChars) (array object : Cursor → Decoded Value) (rest : Text)
    (line column : ℕ) where
  abbrev ValueReads : Value → Text → Type 0
  ValueReads v text = Reads v rest (
      value_at to_chars array object (record { rest = text ++ rest; line = line; column = column })
        (text ++ rest))

  pub boolean-reads :
      (b : Bool) → ValueReads (Value.boolean b) (if b then codes "true" else codes "false")
  unfolding consume_literal
  boolean-reads true = reads refl
  boolean-reads false = reads refl

  pub null-reads : ValueReads null_value (codes "null")
  unfolding consume_literal
  null-reads = reads refl

  pub string-reads :
      (text : Text) → Encoded text → ValueReads (Value.string text) (escape_string text)
  unfolding escape_string
  string-reads text h =
      Reads-bind (parse_string-Reads text rest _ h refl) (λ s d. Decoded.done (Value.string s) d)
        (λ d e. reads e)

  value_at_number :
      (text : Text) (c : Cursor)
      → StartsNumber text
      → value_at to_chars array object c (text ++ rest) ≡ parse_number to_chars c
  value_at_number [] c h = elim h [ ]
  value_at_number (ch ∷ text) c h = ground arith

  pub integer-reads :
      (n : Integer)
      → IsCanonical n
      → safe_integer n ≡ true
      → ends_number rest ≡ true
      → ValueReads (Value.integer n) (to_decimal_string n)
  integer-reads n h safe ends =
      let at : Cursor = record {
        rest = to_decimal_string n ++ rest;
        line = line;
        column = column;
      } in
      subst (Reads (Value.integer n) rest)
        (sym (value_at_number (to_decimal_string n) at (to_decimal_string-StartsNumber n h)))
        (parse_number-to_decimal_string to_chars rest ends n at h safe refl)

-- A text that starts as a value does is no end of a container, and no space.
pub skip_ws_start :
    (text rest : Text) (c : Cursor)
    → HasStart text
    → c.rest ≡ text ++ rest
    → (skip_ws c).rest ≡ text ++ rest
skip_ws_start [] rest c h e = elim h [ ]
skip_ws_start (ch ∷ text) rest c h e = skip_ws_blanks 0 ch (text ++ rest) c h.0 e

pub container-Reads :
    (v : Value) (closing : ℕ) (items : Unit {0} → Decoded Value) (text rest next behind : Text)
    (empty : Decoded Value)
    → (closing ≡ b']') ⊎ (closing ≡ b'}')
    → HasStart text
    → next ≡ text ++ behind
    → Reads v rest (items tt)
    → Reads v rest (container closing items next empty)
container-Reads v closing items [] rest next behind empty o h e r = elim h [ ]
container-Reads v closing items (ch ∷ text) rest next behind empty (inl o) h e r =
    subst (λ t. Reads v rest (container closing items t empty)) (sym e) (rw (o, h.1) r)
container-Reads v closing items (ch ∷ text) rest next behind empty (inr o) h e r =
    subst (λ t. Reads v rest (container closing items t empty)) (sym e) (rw (o, h.2) r)

module _ (rest : Text) (c : Cursor) where
  pub after_item_end :
      (again : List Value → Cursor → Decoded Value) (items : List Value)
      → c.rest ≡ b']' ∷ rest
      → Reads (Value.list (from_list items)) rest (after_item again items c c.rest)
  after_item_end again items e =
      at_cursor (λ d. Reads (Value.list (from_list items)) rest (after_item again items d d.rest))
        (b']' ∷ rest) (λ line column. reads refl) c e

  pub after_item_more :
      (v : Value) (behind : Text) (again : List Value → Cursor → Decoded Value) (items : List Value)
      → c.rest ≡ b',' ∷ behind
      → Reads v rest (again items (skip_ws (advance_ascii c)))
      → Reads v rest (after_item again items c c.rest)
  after_item_more v behind again items e r =
      subst (λ t. Reads v rest (after_item again items c t)) (sym e) r

  pub after_pair_more :
      (v : Value) (behind : Text) (again : List (Text × Value) → Cursor → Decoded Value)
      (pairs : List (Text × Value))
      → c.rest ≡ b',' ∷ behind
      → Reads v rest (again pairs (advance_ascii c))
      → Reads v rest (after_pair again pairs c c.rest)
  after_pair_more v behind again pairs e r =
      subst (λ t. Reads v rest (after_pair again pairs c t)) (sym e) r

  pub after_pair_end :
      (v : Value) (again : List (Text × Value) → Cursor → Decoded Value)
      (pairs : List (Text × Value))
      → finish_pairs empty_host_map pairs ≡ Result.ok v
      → c.rest ≡ b'}' ∷ rest
      → Reads v rest (after_pair again pairs c c.rest)
  after_pair_end v again pairs f e =
      at_cursor (λ d. Reads v rest (after_pair again pairs d d.rest)) (b'}' ∷ rest)
        (λ line column. rw f (reads refl)) c e

  pub key_at-Reads :
      (key : Text)
      → Encoded key
      → c.rest ≡ escape_string key ++ rest
      → Reads key rest (key_at c c.rest)
  unfolding escape_string
  key_at-Reads key h e =
      subst (λ t. Reads key rest (key_at c t)) (sym e) (parse_string-Reads key rest c h e)

  pub colon_at-Reads :
      (text : Text)
      → HasStart text
      → c.rest ≡ codes ": " ++ (text ++ rest)
      → Reads tt (text ++ rest) (colon_at c c.rest)
  colon_at-Reads [] h e = elim h [ ]
  colon_at-Reads (ch ∷ text) h e =
      let behind = rest-advance_ascii c b':' (b' ' ∷ ch ∷ text ++ rest) e in
      subst (λ t. Reads tt (ch ∷ text ++ rest) (colon_at c t)) (sym e)
        (reads (skip_ws_blanks 1 ch (text ++ rest) (advance_ascii c) h.0 behind))
