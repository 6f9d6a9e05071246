-- ===== src/Json/RoundTrip/Behind.antt =====
-- src/json.hpp, class `Decoder`: the decoder behind an item or a pair that it has read.
use genia_cpp.Base.{
  ℕ, suc, ◌*◌, ◌<◌, ◌≡◌, refl, sym, subst, ap, ◌∙◌, true, List, [], ◌∷◌, ◌++◌, length,
  length-append, arith,
}
use genia_cpp.Values.Value.{Text, Value, Values, ValueEntries, to_list, from_list}
use genia_cpp.Rendering.Numbers.{ToChars}
use genia_cpp.Json.Maps.{empty_host_map, make_map}
use genia_cpp.Json.Result.{Result}
use genia_cpp.Json.Encoder.{
  indent, encode_at, encode_items, encode_entries, sort_entries, entry_lines,
  encode_container_items,
}
use genia_cpp.Json.Decoder.{
  finish_pairs, after_item, after_pair, value_at, array_at, object_at, parse_value, parse_items,
  parse_pairs,
}
use genia_cpp.Json.Decoder.Progress.{rest-advance_ascii}
use genia_cpp.Json.Decoder.Position.{Cursor, Decoded, advance_ascii, skip_ws}
use genia_cpp.Json.RoundTrip.Reads.{Reads, at_cursor}
use genia_cpp.Json.RoundTrip.Numbers.{ends_number}
use genia_cpp.Json.RoundTrip.Layout.{HasStart, skip_ws_blanks, skip_ws_line, behind_line}
use genia_cpp.Json.RoundTrip.Plain.{
  pairs_of, ArePlain, ArePlainEntries, and_then-ok, encode_at-HasStart,
}
use genia_cpp.Json.RoundTrip.Entries.{entry_line, entry_line-HasStart, encode_entries-EncodedEntry}
use genia_cpp.Json.RoundTrip.Steps.{
  skip_ws_start, after_item_end, after_item_more, after_pair_more, after_pair_end,
}
use mathlib.Core.List.{append_assoc, append-nil}

-- What stands behind a line ends a number.
pub ends-behind_line :
    (closing depth : ℕ) (lines : List Text) (rest : Text)
    → ends_number (behind_line closing depth lines rest) ≡ true
unfolding behind_line
ends-behind_line closing depth [] rest = refl
ends-behind_line closing depth (line ∷ lines) rest = refl

pub from_list-to_list : (items : Values) → from_list (to_list items) ≡ items
unfolding from_list to_list
from_list-to_list Values.none_left = refl
from_list-to_list (Values.cons v items) = ap (Values.cons v) (from_list-to_list items)

pub joined_items :
    (acc : List Value) (v : Value) (items whole : Values)
    → from_list (acc ++ to_list (Values.cons v items)) ≡ whole
    → from_list (acc ++ v ∷ [] ++ to_list items) ≡ whole
unfolding to_list
joined_items acc v items whole e = ap from_list (append_assoc acc (v ∷ []) (to_list items)) ∙ e

pub joined_pairs :
    (acc : List (Text × Value)) (key : Text) (x : Value) (entries : ValueEntries) (v : Value)
    → finish_pairs empty_host_map
        (acc ++ pairs_of (ValueEntries.entry (Value.string key) x entries))
      ≡ Result.ok v
    → finish_pairs empty_host_map (acc ++ (key, x) ∷ [] ++ pairs_of entries) ≡ Result.ok v
unfolding pairs_of
joined_pairs acc key x entries v e =
    ap (finish_pairs empty_host_map) (append_assoc acc ((key, x) ∷ []) (pairs_of entries)) ∙ e

pub empty_built :
    (v : Value)
    → finish_pairs empty_host_map (pairs_of ValueEntries.end) ≡ Result.ok v
    → make_map empty_host_map ≡ v
unfolding finish_pairs pairs_of
empty_built v e = cc

pub empty_layout :
    (depth : ℕ) (pairs : List (Text × Text))
    → pairs ≡ []
    → encode_container_items (entry_lines (sort_entries pairs)) b'{' b'}' depth ≡ b'{' ∷ b'}' ∷ []
unfolding entry_lines sort_entries encode_container_items
empty_layout depth pairs e = rw e refl

-- Behind the comma.
abbrev pub comma_line : ℕ → ℕ → Text → List Text → Text → Text
comma_line closing depth line lines rest =
    b'\n' ∷ indent (suc depth) ++ (line ++ behind_line closing depth lines rest)

pub comma_line_starts :
    (closing depth : ℕ) (line : Text) (lines : List Text) (rest : Text) (c : Cursor)
    → HasStart line
    → c.rest ≡ comma_line closing depth line lines rest
    → (skip_ws c).rest ≡ line ++ behind_line closing depth lines rest
comma_line_starts closing depth [] lines rest c h e = elim h [ ]
comma_line_starts closing depth (ch ∷ line) lines rest c h e =
    skip_ws_line (suc depth * 2) ch (line ++ behind_line closing depth lines rest) c h.0 e

pub length-comma_line :
    (closing depth : ℕ) (line : Text) (others : List Text) (rest : Text) (lines : List Text)
    → lines ≡ line ∷ others
    → suc (length (line ++ behind_line closing depth others rest))
      < length (behind_line closing depth lines rest)
unfolding behind_line
length-comma_line closing depth line others rest lines e = rw e (
    omega
      (arith, length-append (indent (suc depth)) (line ++ behind_line closing depth others rest)))

module _ (to_chars : ToChars) where
  -- The value of a text that comes behind space.
  abbrev pub ReadsValue : ℕ → ℕ → Value → Text → Text → Type 0
  ReadsValue fuel depth v text rest =
      (c : Cursor)
      → (skip_ws c).rest ≡ text ++ rest
      → Reads v rest (parse_value to_chars fuel depth c)

  pub parse_value-at :
      (fuel depth : ℕ) (v : Value) (t text rest : Text)
      → ◌≡◌ {A = Result Text} (Result.ok t) (Result.ok text)
      → ((array object : Cursor → Decoded Value) (line column : ℕ)
          → Reads v rest (
              value_at to_chars array object
                (record { rest = t ++ rest; line = line; column = column })
                (t ++ rest)))
      → ReadsValue (suc fuel) depth v text rest
  unfolding parse_value
  parse_value-at fuel depth v t text rest e h c f =
      let same : text ≡ t = cc in
      let array = array_at to_chars (λ d. parse_items to_chars fuel (suc depth) [] d) (suc depth) in
      let object =
        object_at to_chars (λ d. parse_pairs to_chars fuel (suc depth) [] d) (suc depth) in
      at_cursor (λ d. Reads v rest (value_at to_chars array object d d.rest)) (t ++ rest)
        (λ line column. h array object line column) (skip_ws c)
        (f ∙ ap (λ (x : Text). x ++ rest) same)

  -- Behind an item.
  pub more_items-Reads :
      (items : Values) (depth : ℕ) (again : List Value → Cursor → Decoded Value) (acc : List Value)
      (lines : List Text) (rest : Text) (c : Cursor) (whole : Values)
      → from_list (acc ++ to_list items) ≡ whole
      → ArePlain items
      → encode_items to_chars items (suc depth) ≡ Result.ok lines
      → c.rest ≡ behind_line b']' depth lines rest
      → ((line : Text) (others : List Text) (d : Cursor)
          → lines ≡ line ∷ others
          → (skip_ws d).rest ≡ line ++ behind_line b']' depth others rest
          → Reads (Value.list whole) rest (again acc d))
      → Reads (Value.list whole) rest (after_item again acc (skip_ws c) (skip_ws c).rest)
  unfolding behind_line encode_items to_list
  more_items-Reads Values.none_left depth again acc (line ∷ lines) rest c whole w h e f k = cc
  more_items-Reads Values.none_left depth again acc [] rest c whole w h e f k =
      subst (λ l. Reads (Value.list l) rest (after_item again acc (skip_ws c) (skip_ws c).rest))
        (ap from_list (sym (append-nil acc)) ∙ w)
        (after_item_end rest (skip_ws c) again acc (skip_ws_line (depth * 2) b']' rest c refl f))
  more_items-Reads (Values.cons v items) depth again acc [] rest c whole w h e f k =
      let (first, e1, more) = and_then-ok (encode_at to_chars v (suc depth)) _ [] e in
      let (others, e2, all) = and_then-ok (encode_items to_chars items (suc depth)) _ [] more in cc
  more_items-Reads (Values.cons v items) depth again acc (line ∷ lines) rest c whole w h e f k =
      let (first, e1, more) = and_then-ok (encode_at to_chars v (suc depth)) _ (line ∷ lines) e in
      let (others, e2, all) =
        and_then-ok (encode_items to_chars items (suc depth)) _ (line ∷ lines) more in
      let same_line : first ≡ line = cc in
      let starts =
        encode_at-HasStart to_chars v (suc depth) line h.0 (e1 ∙ ap Result.ok same_line) in
      let behind : Text = comma_line b']' depth line lines rest in
      let comma = skip_ws_blanks 0 b',' behind c refl f in
      let next =
        comma_line_starts b']' depth line lines rest (advance_ascii (skip_ws c)) starts
          (rest-advance_ascii (skip_ws c) b',' behind comma) in
      after_item_more rest (skip_ws c) (Value.list whole) behind again acc comma (
        k line lines (skip_ws (advance_ascii (skip_ws c))) refl
          (skip_ws_start line (behind_line b']' depth lines rest) _ starts next))

  pub entries_end :
      (depth : ℕ) (p : Text × Text) (pairs : List (Text × Text))
      → encode_entries to_chars ValueEntries.end (suc depth) ≡ Result.ok (p ∷ pairs)
      → ⊥
  unfolding encode_entries
  entries_end depth p pairs e = cc

  -- Behind a pair.
  pub more_pairs-Reads :
      (entries : ValueEntries) (depth : ℕ) (again : List (Text × Value) → Cursor → Decoded Value)
      (acc : List (Text × Value)) (pairs : List (Text × Text)) (rest : Text) (c : Cursor)
      (v : Value)
      → finish_pairs empty_host_map (acc ++ pairs_of entries) ≡ Result.ok v
      → ArePlainEntries entries
      → encode_entries to_chars entries (suc depth) ≡ Result.ok pairs
      → c.rest ≡ behind_line b'}' depth (entry_lines pairs) rest
      → ((key text : Text) (others : List (Text × Text)) (d : Cursor)
          → pairs ≡ (key, text) ∷ others
          → (skip_ws d).rest
            ≡ entry_line key text ++ behind_line b'}' depth (entry_lines others) rest
          → Reads v rest (again acc d))
      → Reads v rest (after_pair again acc (skip_ws c) (skip_ws c).rest)
  unfolding behind_line pairs_of entry_lines
  more_pairs-Reads ValueEntries.end depth again acc [] rest c v w h e f k =
      after_pair_end rest (skip_ws c) v again acc
        (ap (finish_pairs empty_host_map) (sym (append-nil acc)) ∙ w)
        (skip_ws_line (depth * 2) b'}' rest c refl f)
  more_pairs-Reads ValueEntries.end depth again acc (p ∷ pairs) rest c v w h e f k =
      absurd (entries_end depth p pairs e)
  more_pairs-Reads (ValueEntries.entry (Value.string key) x entries) depth again acc [] rest c v w h
        e f k =
      cc (encode_entries-EncodedEntry to_chars (suc depth) key x entries [] e).whole
  more_pairs-Reads (ValueEntries.entry (Value.string key) x entries) depth again acc
        ((k', t) ∷ pairs) rest c v w h e f k =
      let behind : Text = comma_line b'}' depth (entry_line k' t) (entry_lines pairs) rest in
      let comma = skip_ws_blanks 0 b',' behind c refl f in
      let next =
        comma_line_starts b'}' depth (entry_line k' t) (entry_lines pairs) rest
          (advance_ascii (skip_ws c)) (entry_line-HasStart k' t)
          (rest-advance_ascii (skip_ws c) b',' behind comma) in
      after_pair_more rest (skip_ws c) v behind again acc comma
        (k k' t pairs (advance_ascii (skip_ws c)) refl next)
  more_pairs-Reads (ValueEntries.entry _ x entries) depth again acc pairs rest c v w h e f k =
      elim h [ ]
