-- ===== src/Json/RoundTrip/Entries.antt =====
-- src/json.hpp: the entries of a map whose keys are in order, as the encoder writes them.
use genia_cpp.Base.{ℕ, ◌≡◌, refl, sym, ap, ◌∙◌, List, [], ◌∷◌, ◌++◌, codes}
use genia_cpp.Values.Value.{Text, Value, ValueEntries}
use genia_cpp.Rendering.Numbers.{ToChars}
use genia_cpp.Json.Result.{Result}
use genia_cpp.Json.Encoder.{escape_string, encode_at, encode_entries, insert_entry, sort_entries}
use genia_cpp.Json.RoundTrip.Layout.{HasStart}
use genia_cpp.Json.RoundTrip.Plain.{pairs_of, IsBefore, AreSorted, ArePlainEntries, and_then-ok}
use mathlib.Core.List.{append_assoc}

abbrev pub entry_line : Text → Text → Text
entry_line key text = escape_string key ++ codes ": " ++ text

pub entry_line-HasStart : (key text : Text) → HasStart (entry_line key text)
unfolding escape_string
entry_line-HasStart key text = (refl, refl, refl)

pub entry_line-append :
    (key text behind : Text)
    → entry_line key text ++ behind ≡ escape_string key ++ (codes ": " ++ (text ++ behind))
entry_line-append key text behind =
    append_assoc (escape_string key ++ codes ": ") text behind
    ∙ append_assoc (escape_string key) (codes ": ") (text ++ behind)

-- What was encoded of an entry and the others.
pub record EncodedEntry (to_chars : ToChars) (key : Text) (v : Value) (entries : ValueEntries)
    (depth : ℕ) (pairs : List (Text × Text)) : Type 0 where
  pub text : Text
  pub others : List (Text × Text)
  pub value : encode_at to_chars v depth ≡ Result.ok text
  pub rest : encode_entries to_chars entries depth ≡ Result.ok others
  pub whole : pairs ≡ (key, text) ∷ others

module _ (to_chars : ToChars) (depth : ℕ) where
  pub encode_entries-EncodedEntry :
      (key : Text) (v : Value) (entries : ValueEntries) (pairs : List (Text × Text))
      → encode_entries to_chars (ValueEntries.entry (Value.string key) v entries) depth
        ≡ Result.ok pairs
      → EncodedEntry to_chars key v entries depth pairs
  unfolding encode_entries
  encode_entries-EncodedEntry key v entries pairs e =
      let (text, e1, more) = and_then-ok (encode_at to_chars v depth) _ pairs e in
      let (others, e2, all) = and_then-ok (encode_entries to_chars entries depth) _ pairs more in
      record { text = text; others = others; value = e1; rest = e2; whole = cc }

  insert_entry_before :
      (key text : Text) (v : Value) (entries : ValueEntries) (pairs : List (Text × Text))
      → ArePlainEntries entries
      → IsBefore key (pairs_of entries)
      → encode_entries to_chars entries depth ≡ Result.ok pairs
      → insert_entry (key, text) pairs ≡ (key, text) ∷ pairs
  unfolding insert_entry pairs_of encode_entries
  insert_entry_before key text v entries [] h b e = refl
  insert_entry_before key text v ValueEntries.end (p ∷ pairs) h b e = cc
  insert_entry_before key text v (ValueEntries.entry (Value.string next) w entries) ((k, t) ∷ pairs)
        h b e =
      let parts = encode_entries-EncodedEntry next w entries ((k, t) ∷ pairs) e in
      let same : k ≡ next = cc parts.whole in rw (same, b) refl
  insert_entry_before key text v (ValueEntries.entry _ w entries) (p ∷ pairs) h b e = elim h [ ]

  -- The entries are sorted already.
  pub sort_entries-AreSorted :
      (entries : ValueEntries) (pairs : List (Text × Text))
      → ArePlainEntries entries
      → AreSorted (pairs_of entries)
      → encode_entries to_chars entries depth ≡ Result.ok pairs
      → sort_entries pairs ≡ pairs
  unfolding sort_entries pairs_of encode_entries
  sort_entries-AreSorted ValueEntries.end [] h s e = refl
  sort_entries-AreSorted ValueEntries.end (p ∷ pairs) h s e = cc
  sort_entries-AreSorted (ValueEntries.entry (Value.string key) v entries) pairs h s e =
      let parts = encode_entries-EncodedEntry key v entries pairs e in
      let sorted = sort_entries-AreSorted entries parts.others h.2 s.1 parts.rest in
      let inserted = insert_entry_before key parts.text v entries parts.others h.2 s.0 parts.rest in
      let entry : Text × Text = (key, parts.text) in
      let again : insert_entry entry (sort_entries parts.others) ≡ entry ∷ parts.others =
        ap (insert_entry entry) sorted ∙ inserted in
      ap sort_entries parts.whole ∙ again ∙ sym parts.whole
  sort_entries-AreSorted (ValueEntries.entry _ v entries) pairs h s e = elim h [ ]
