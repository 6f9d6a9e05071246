-- ===== src/Json/RoundTrip/Containers.antt =====
-- src/json.hpp, `parse_array` and `parse_object` on what the encoder writes.
use genia_cpp.Base.{
  ℕ, suc, ◌*◌, ◌<◌, length, length-append, arith, ◌≡◌, refl, sym, ap, ◌∙◌, false, ltb, List, [],
  ◌∷◌, ◌++◌, inl, inr,
}
use genia_cpp.Values.Value.{Text, Value, Values, from_list}
use genia_cpp.Rendering.Numbers.{ToChars}
use genia_cpp.Json.Maps.{empty_host_map, make_map}
use genia_cpp.Json.Result.{max_nesting}
use genia_cpp.Json.Encoder.{indent, encode_container_items}
use genia_cpp.Json.Decoder.{
  finish_pairs, value_at, array_at, object_at, parse_value, parse_items, parse_pairs,
}
use genia_cpp.Json.Decoder.Position.{Cursor, Decoded, advance_ascii, skip_ws, skip_from}
use genia_cpp.Json.Decoder.Progress.{rest-advance_ascii}
use genia_cpp.Json.RoundTrip.Reads.{Reads, reads, at_cursor}
use genia_cpp.Json.RoundTrip.Layout.{
  HasStart, skip_ws_line, behind_line, encode_container_items-behind_line,
}
use genia_cpp.Json.RoundTrip.Steps.{container-Reads, skip_ws_start}

-- The first line of a container, where there is one.
inside_starts :
    (opening closing depth : ℕ) (line : Text) (lines : List Text) (rest : Text) (at : Cursor)
    → HasStart line
    → at.rest ≡ encode_container_items (line ∷ lines) opening closing depth ++ rest
    → (skip_ws (advance_ascii at)).rest ≡ line ++ behind_line closing depth lines rest
inside_starts opening closing depth [] lines rest at h e = elim h [ ]
inside_starts opening closing depth (ch ∷ line) lines rest at h e =
    skip_ws_line (suc depth * 2) ch (line ++ behind_line closing depth lines rest)
      (advance_ascii at) h.0
      (rest-advance_ascii at opening _
        (e ∙ encode_container_items-behind_line opening closing depth (ch ∷ line) lines rest))

module _ (to_chars : ToChars) (fuel depth : ℕ) (v : Value) (rest more : Text) (c : Cursor) where
  -- The bracket decides.
  pub parse_value-array :
      (skip_ws c).rest ≡ b'[' ∷ more
      → ((at : Cursor)
          → at.rest ≡ b'[' ∷ more
          → Reads v rest
              (array_at to_chars (λ d. parse_items to_chars fuel (suc depth) [] d) (suc depth) at))
      → Reads v rest (parse_value to_chars (suc fuel) depth c)
  unfolding parse_value
  parse_value-array e h =
      let array = array_at to_chars (λ d. parse_items to_chars fuel (suc depth) [] d) (suc depth) in
      let object =
        object_at to_chars (λ d. parse_pairs to_chars fuel (suc depth) [] d) (suc depth) in
      at_cursor (λ d. Reads v rest (value_at to_chars array object d d.rest)) (b'[' ∷ more)
        (λ line column. h _ refl) (skip_ws c) e

  pub parse_value-object :
      (skip_ws c).rest ≡ b'{' ∷ more
      → ((at : Cursor)
          → at.rest ≡ b'{' ∷ more
          → Reads v rest
              (object_at to_chars (λ d. parse_pairs to_chars fuel (suc depth) [] d) (suc depth) at))
      → Reads v rest (parse_value to_chars (suc fuel) depth c)
  unfolding parse_value
  parse_value-object e h =
      let array = array_at to_chars (λ d. parse_items to_chars fuel (suc depth) [] d) (suc depth) in
      let object =
        object_at to_chars (λ d. parse_pairs to_chars fuel (suc depth) [] d) (suc depth) in
      at_cursor (λ d. Reads v rest (value_at to_chars array object d d.rest)) (b'{' ∷ more)
        (λ line column. h _ refl) (skip_ws c) e

module _ (to_chars : ToChars) (items : Cursor → Decoded Value) (depth : ℕ) (rest : Text)
    (at : Cursor) (shallow : ltb max_nesting (suc depth) ≡ false) where
  pub array_at_empty :
      at.rest ≡ b'[' ∷ b']' ∷ rest
      → Reads (Value.list Values.none_left) rest (array_at to_chars items (suc depth) at)
  unfolding skip_from from_list
  array_at_empty e =
      at_cursor
        (λ d. Reads (Value.list Values.none_left) rest (array_at to_chars items (suc depth) d))
        (b'[' ∷ b']' ∷ rest) (λ line column. rw shallow (reads refl)) at e

  pub object_at_empty :
      at.rest ≡ b'{' ∷ b'}' ∷ rest
      → Reads (make_map empty_host_map) rest (object_at to_chars items (suc depth) at)
  unfolding skip_from finish_pairs
  object_at_empty e =
      at_cursor (λ d. Reads (make_map empty_host_map) rest (object_at to_chars items (suc depth) d))
        (b'{' ∷ b'}' ∷ rest) (λ line column. rw shallow (reads refl)) at e

  pub array_at-Reads :
      (v : Value) (line : Text) (lines : List Text)
      → HasStart line
      → at.rest ≡ encode_container_items (line ∷ lines) b'[' b']' depth ++ rest
      → ((d : Cursor) → d.rest ≡ line ++ behind_line b']' depth lines rest → Reads v rest (items d))
      → Reads v rest (array_at to_chars items (suc depth) at)
  array_at-Reads v line lines h e k =
      let inside = inside_starts b'[' b']' depth line lines rest at h e in
      rw shallow (
        container-Reads v b']' (λ _. items (skip_ws (advance_ascii at))) line rest
          (skip_ws (advance_ascii at)).rest (behind_line b']' depth lines rest) _ (inl refl) h
          inside (k _ inside))

  pub object_at-Reads :
      (v : Value) (line : Text) (lines : List Text)
      → HasStart line
      → at.rest ≡ encode_container_items (line ∷ lines) b'{' b'}' depth ++ rest
      → ((d : Cursor) → d.rest ≡ line ++ behind_line b'}' depth lines rest → Reads v rest (items d))
      → Reads v rest (object_at to_chars items (suc depth) at)
  object_at-Reads v line lines h e k =
      let inside = inside_starts b'{' b'}' depth line lines rest at h e in
      rw shallow (
        container-Reads v b'}' (λ _. items (skip_ws (advance_ascii at))) line rest
          (skip_ws (advance_ascii at)).rest (behind_line b'}' depth lines rest) _ (inr refl) h
          inside (k _ inside))

module _ (to_chars : ToChars) (fuel depth : ℕ) (rest text : Text) (c : Cursor)
    (shallow : ltb max_nesting (suc depth) ≡ false) where
  -- A list that is not empty: its items are read from the first line on.
  pub array-Reads :
      (v : Value) (line : Text) (lines : List Text)
      → HasStart line
      → text ≡ encode_container_items (line ∷ lines) b'[' b']' depth
      → (skip_ws c).rest ≡ text ++ rest
      → ((d : Cursor)
          → (skip_ws d).rest ≡ line ++ behind_line b']' depth lines rest
          → Reads v rest (parse_items to_chars fuel (suc depth) [] d))
      → Reads v rest (parse_value to_chars (suc fuel) depth c)
  array-Reads v line lines h made e k =
      let layout = encode_container_items-behind_line b'[' b']' depth line lines rest in
      let behind : Text = behind_line b']' depth lines rest in
      parse_value-array to_chars fuel depth v rest _ c
        (e ∙ ap (λ (t : Text). t ++ rest) made ∙ layout)
        (λ at f.
          array_at-Reads to_chars (λ d. parse_items to_chars fuel (suc depth) [] d) depth rest at
            shallow v line lines h (f ∙ sym layout) (λ d g. k d (skip_ws_start line behind d h g)))

  pub object-Reads :
      (v : Value) (line : Text) (lines : List Text)
      → HasStart line
      → text ≡ encode_container_items (line ∷ lines) b'{' b'}' depth
      → (skip_ws c).rest ≡ text ++ rest
      → ((d : Cursor)
          → (skip_ws d).rest ≡ line ++ behind_line b'}' depth lines rest
          → Reads v rest (parse_pairs to_chars fuel (suc depth) [] d))
      → Reads v rest (parse_value to_chars (suc fuel) depth c)
  object-Reads v line lines h made e k =
      let layout = encode_container_items-behind_line b'{' b'}' depth line lines rest in
      let behind : Text = behind_line b'}' depth lines rest in
      parse_value-object to_chars fuel depth v rest _ c
        (e ∙ ap (λ (t : Text). t ++ rest) made ∙ layout)
        (λ at f.
          object_at-Reads to_chars (λ d. parse_pairs to_chars fuel (suc depth) [] d) depth rest at
            shallow v line lines h (f ∙ sym layout) (λ d g. k d (skip_ws_start line behind d h g)))

  pub empty_array-Reads :
      text ≡ b'[' ∷ b']' ∷ []
      → (skip_ws c).rest ≡ text ++ rest
      → Reads (Value.list Values.none_left) rest (parse_value to_chars (suc fuel) depth c)
  empty_array-Reads made e =
      parse_value-array to_chars fuel depth (Value.list Values.none_left) rest (b']' ∷ rest) c
        (e ∙ ap (λ (t : Text). t ++ rest) made)
        (λ at f.
          array_at_empty to_chars (λ d. parse_items to_chars fuel (suc depth) [] d) depth rest at
            shallow f)

  pub empty_object-Reads :
      text ≡ b'{' ∷ b'}' ∷ []
      → (skip_ws c).rest ≡ text ++ rest
      → Reads (make_map empty_host_map) rest (parse_value to_chars (suc fuel) depth c)
  empty_object-Reads made e =
      parse_value-object to_chars fuel depth (make_map empty_host_map) rest (b'}' ∷ rest) c
        (e ∙ ap (λ (t : Text). t ++ rest) made)
        (λ at f.
          object_at_empty to_chars (λ d. parse_pairs to_chars fuel (suc depth) [] d) depth rest at
            shallow f)

-- Text for the first line and what stands behind it, within the text of its container.
pub length-behind_line :
    (opening closing depth : ℕ) (line : Text) (lines : List Text) (rest text : Text)
    → text ≡ encode_container_items (line ∷ lines) opening closing depth
    → suc (length (line ++ behind_line closing depth lines rest)) < length (text ++ rest)
length-behind_line opening closing depth line lines rest text made =
    let whole =
      ap (λ (t : Text). length (t ++ rest)) made
      ∙ ap length (encode_container_items-behind_line opening closing depth line lines rest) in
    omega (
      arith,
      whole,
      length-append (indent (suc depth)) (line ++ behind_line closing depth lines rest),
    )

pub encode_container_items_empty :
    (opening closing depth : ℕ)
    → encode_container_items [] opening closing depth ≡ opening ∷ closing ∷ []
unfolding encode_container_items
encode_container_items_empty opening closing depth = refl
