-- ===== src/Json/RoundTrip/Values.antt =====
-- src/json.hpp, class `Decoder`: `parse_value` reads what `encode_at` writes, by induction on the value.
use genia_cpp.Base.{
  ℕ, zero, suc, ◌*◌, ◌<◌, ◌≡◌, refl, sym, subst, ap, ◌∙◌, true, List, [], ◌∷◌, ◌++◌, length,
  length-append, codes, arith,
}
use genia_cpp.Values.Value.{Text, Value, Values, ValueEntries, to_list, from_list}
use genia_cpp.Rendering.Numbers.{ToChars}
use genia_cpp.Json.Maps.{empty_host_map}
use genia_cpp.Json.Result.{Result}
use genia_cpp.Json.Encoder.{
  escape_string, encode_at, encode_items, encode_entries, sort_entries, entry_lines,
  encode_container_items,
}
use genia_cpp.Json.Decoder.{
  null_value, finish_pairs, after_item, parse_value, parse_items, parse_pairs,
}
use genia_cpp.Bignum.Decimal.{to_decimal_string}
use genia_cpp.Json.Decoder.Position.{Cursor, Decoded, skip_ws}
use genia_cpp.Json.RoundTrip.Reads.{Reads, Reads-bind}
use genia_cpp.Json.RoundTrip.Numbers.{ends_number}
use genia_cpp.Json.RoundTrip.Layout.{skip_ws_blanks, behind_line}
use genia_cpp.Json.RoundTrip.Plain.{
  pairs_of, IsPlain, ArePlain, ArePlainEntries, and_then-ok, list-parts, map-parts, integer-text,
  encode_at-HasStart,
}
use genia_cpp.Json.RoundTrip.Containers.{
  array-Reads, object-Reads, empty_array-Reads, empty_object-Reads, encode_container_items_empty,
  length-behind_line,
}
use genia_cpp.Json.RoundTrip.Entries.{
  entry_line, entry_line-HasStart, entry_line-append, encode_entries-EncodedEntry,
  sort_entries-AreSorted,
}
use genia_cpp.Json.RoundTrip.Steps.{
  boolean-reads, null-reads, string-reads, integer-reads, skip_ws_start, key_at-Reads,
  colon_at-Reads,
}
use genia_cpp.Json.RoundTrip.Behind.{
  ends-behind_line, from_list-to_list, joined_items, joined_pairs, empty_built, empty_layout,
  ReadsValue, parse_value-at, length-comma_line, more_items-Reads, entries_end, more_pairs-Reads,
}

module _ (to_chars : ToChars) where
  mutual
    unfolding encode_at encode_items encode_entries parse_value parse_items parse_pairs behind_line
        entry_lines

    pub value-Reads :
        (v : Value) (depth fuel : ℕ) (text rest : Text)
        → IsPlain v
        → encode_at to_chars v depth ≡ Result.ok text
        → ends_number rest ≡ true
        → 2 * length (text ++ rest) < fuel
        → ReadsValue to_chars fuel depth v text rest
    value-Reads v depth zero text rest h e ends enough c f = absurd (omega arith)
    value-Reads (Value.boolean b) depth (suc fuel) text rest h e ends enough c f =
        parse_value-at to_chars fuel depth (Value.boolean b) _ text rest e
          (λ array object line column. boolean-reads to_chars array object rest line column b) c f
    value-Reads (Value.integer n) depth (suc fuel) text rest (canonical, safe) e ends enough c f =
        let same : text ≡ to_decimal_string n = integer-text to_chars n depth text safe e in
        parse_value-at to_chars fuel depth (Value.integer n) (to_decimal_string n) text rest
          (ap Result.ok (sym same))
          (λ array object line column.
            integer-reads to_chars array object rest line column n canonical safe ends)
          c f
    value-Reads (Value.string s) depth (suc fuel) text rest h e ends enough c f =
        parse_value-at to_chars fuel depth (Value.string s) (escape_string s) text rest e
          (λ array object line column. string-reads to_chars array object rest line column s h) c f
    value-Reads (Value.outcome_none reason context) depth (suc fuel) text rest h e ends enough c f =
        subst (λ v. ReadsValue to_chars (suc fuel) depth v text rest) (sym h)
          (parse_value-at to_chars fuel depth null_value (codes "null") text rest e
            (λ array object line column. null-reads to_chars array object rest line column))
          c f
    value-Reads (Value.list Values.none_left) depth (suc fuel) text rest h e ends enough c f =
        let (shallow, (lines, encoded, made)) = list-parts to_chars Values.none_left depth text e in
        let none : lines ≡ [] = cc in
        empty_array-Reads to_chars fuel depth rest text c shallow
          (made ∙ rw none (encode_container_items_empty b'[' b']' depth)) f
    value-Reads (Value.list (Values.cons v items)) depth (suc fuel) text rest (h, k) e ends enough c
          f =
        let (shallow, (lines, encoded, made)) =
          list-parts to_chars (Values.cons v items) depth text e in
        let (line, first, more) = and_then-ok (encode_at to_chars v (suc depth)) _ lines encoded in
        let (others, second, all) =
          and_then-ok (encode_items to_chars items (suc depth)) _ lines more in
        let all_lines : lines ≡ line ∷ others = cc in
        let layout : text ≡ encode_container_items (line ∷ others) b'[' b']' depth =
          made ∙ ap (λ (ls : List Text). encode_container_items ls b'[' b']' depth) all_lines in
        array-Reads to_chars fuel depth rest text c shallow (Value.list (Values.cons v items)) line
          others (encode_at-HasStart to_chars v (suc depth) line h first) layout f
          (λ d g.
            items-Reads (Values.cons v items) depth fuel [] line others rest d (Values.cons v items)
              (from_list-to_list (Values.cons v items)) (h, k) (encoded ∙ ap Result.ok all_lines)
              (omega (arith, length-behind_line b'[' b']' depth line others rest text layout)) g)
    value-Reads (Value.map ValueEntries.end index) depth (suc fuel) text rest (built, sorted, h) e
          ends enough c f =
        let (shallow, (pairs, encoded, made)) =
          map-parts to_chars ValueEntries.end index depth text e in
        let none : pairs ≡ [] = cc in
        subst (λ v. Reads v rest (parse_value to_chars (suc fuel) depth c))
          (empty_built (Value.map ValueEntries.end index) built)
          (empty_object-Reads to_chars fuel depth rest text c shallow
            (made ∙ empty_layout depth pairs none) f)
    value-Reads (Value.map (ValueEntries.entry (Value.string key) v entries) index) depth (suc fuel)
          text rest (built, sorted, h) e ends enough c f =
        let (shallow, (pairs, encoded, made)) =
          map-parts to_chars (ValueEntries.entry (Value.string key) v entries) index depth text e in
        let parts = encode_entries-EncodedEntry to_chars (suc depth) key v entries pairs encoded in
        let in_order : sort_entries pairs ≡ pairs =
          sort_entries-AreSorted to_chars (suc depth)
            (ValueEntries.entry (Value.string key) v entries) pairs h sorted encoded in
        let layout : text
            ≡ encode_container_items (entry_line key parts.text ∷ entry_lines parts.others) b'{'
                b'}' depth =
          made
          ∙ ap
              (λ (ps : List (Text × Text)). encode_container_items (entry_lines ps) b'{' b'}' depth)
              (in_order ∙ parts.whole) in
        object-Reads to_chars fuel depth rest text c shallow
          (Value.map (ValueEntries.entry (Value.string key) v entries) index)
          (entry_line key parts.text) (entry_lines parts.others)
          (entry_line-HasStart key parts.text) layout f
          (λ d g.
            pairs-Reads (ValueEntries.entry (Value.string key) v entries) depth fuel [] key
              parts.text parts.others rest d
              (Value.map (ValueEntries.entry (Value.string key) v entries) index) built h
              (encoded ∙ ap Result.ok parts.whole)
              (omega (
                arith,
                length-behind_line b'{' b'}' depth (entry_line key parts.text)
                    (entry_lines parts.others) rest text layout,
              ))
              g)
    value-Reads (Value.map (ValueEntries.entry _ v entries) index) depth (suc fuel) text rest
          (built, sorted, h) e ends enough c f =
        elim h [ ]
    value-Reads _ depth (suc fuel) text rest h e ends enough c f = elim h [ ]

    items-Reads :
        (items : Values) (depth fuel : ℕ) (acc : List Value) (line : Text) (lines : List Text)
        (rest : Text) (c : Cursor) (whole : Values)
        → from_list (acc ++ to_list items) ≡ whole
        → ArePlain items
        → encode_items to_chars items (suc depth) ≡ Result.ok (line ∷ lines)
        → suc (2 * length (line ++ behind_line b']' depth lines rest)) < fuel
        → (skip_ws c).rest ≡ line ++ behind_line b']' depth lines rest
        → Reads (Value.list whole) rest (parse_items to_chars fuel (suc depth) acc c)
    items-Reads items depth zero acc line lines rest c whole w h e enough f = absurd (omega arith)
    items-Reads Values.none_left depth (suc fuel) acc line lines rest c whole w h e enough f = cc
    items-Reads (Values.cons v items) depth (suc fuel) acc line lines rest c whole w (h, k) e enough
          f =
        let (first, e1, more) = and_then-ok (encode_at to_chars v (suc depth)) _ (line ∷ lines) e in
        let (others, e2, all) =
          and_then-ok (encode_items to_chars items (suc depth)) _ (line ∷ lines) more in
        let same_line : first ≡ line = cc in
        let same_lines : others ≡ lines = cc in
        let behind : Text = behind_line b']' depth lines rest in
        let again : List Value → Cursor → Decoded Value =
          λ more d. parse_items to_chars fuel (suc depth) more d in
        Reads-bind
          (value-Reads v (suc depth) fuel line behind h (e1 ∙ ap Result.ok same_line)
            (ends-behind_line b']' depth lines rest) (omega (arith, enough)) c f)
          (λ w d. after_item again (acc ++ w ∷ []) (skip_ws d) (skip_ws d).rest)
          (λ d g.
            let joined = joined_items acc v items whole w in
            more_items-Reads to_chars items depth again (acc ++ v ∷ []) lines rest d whole joined k
              (e2 ∙ ap Result.ok same_lines) g
              (λ next others x same starts.
                items-Reads items depth fuel (acc ++ v ∷ []) next others rest x whole joined k
                  (e2 ∙ ap Result.ok (same_lines ∙ same))
                  (omega (
                    arith,
                    enough,
                    length-append line behind,
                    length-comma_line b']' depth next others rest lines same,
                  ))
                  starts))

    pairs-Reads :
        (entries : ValueEntries) (depth fuel : ℕ) (acc : List (Text × Value)) (key text : Text)
        (pairs : List (Text × Text)) (rest : Text) (c : Cursor) (v : Value)
        → finish_pairs empty_host_map (acc ++ pairs_of entries) ≡ Result.ok v
        → ArePlainEntries entries
        → encode_entries to_chars entries (suc depth) ≡ Result.ok ((key, text) ∷ pairs)
        → suc (2 * length (entry_line key text ++ behind_line b'}' depth (entry_lines pairs) rest))
          < fuel
        → (skip_ws c).rest ≡ entry_line key text ++ behind_line b'}' depth (entry_lines pairs) rest
        → Reads v rest (parse_pairs to_chars fuel (suc depth) acc c)
    pairs-Reads entries depth zero acc key text pairs rest c v w h e enough f = absurd (omega arith)
    pairs-Reads ValueEntries.end depth (suc fuel) acc key text pairs rest c v w h e enough f =
        absurd (entries_end to_chars depth (key, text) pairs e)
    pairs-Reads (ValueEntries.entry (Value.string k) x entries) depth (suc fuel) acc key text pairs
          rest c v w (enc, h, hs) e enough f =
        let parts =
          encode_entries-EncodedEntry to_chars (suc depth) k x entries ((key, text) ∷ pairs) e in
        let same_key : k ≡ key = cc parts.whole in
        let same_text : parts.text ≡ text = cc parts.whole in
        let same_pairs : parts.others ≡ pairs = cc parts.whole in
        let behind : Text = behind_line b'}' depth (entry_lines pairs) rest in
        let starts =
          encode_at-HasStart to_chars x (suc depth) text h (parts.value ∙ ap Result.ok same_text) in
        let size = entry_line-append key text behind in
        let room : 2 * length (text ++ behind) < fuel = omega (
          arith,
          enough,
          ap length size,
          length-append (escape_string key) (codes ": " ++ (text ++ behind)),
        ) in
        Reads-bind
          (key_at-Reads (codes ": " ++ (text ++ behind)) (skip_ws c) k enc (
            f
            ∙ size
            ∙ ap (λ (q : Text). escape_string q ++ (codes ": " ++ (text ++ behind)))
                (sym same_key)))
          _
          (λ d g.
            Reads-bind
              (colon_at-Reads behind (skip_ws d) text starts (skip_ws_blanks 0 b':' _ d refl g)) _
              (λ y g2.
                Reads-bind
                  (value-Reads x (suc depth) fuel text behind h
                    (parts.value ∙ ap Result.ok same_text)
                    (ends-behind_line b'}' depth (entry_lines pairs) rest) room y
                    (skip_ws_start text behind y starts g2))
                  _
                  (λ z g3.
                    more_pairs-Reads to_chars entries depth
                      (λ more u. parse_pairs to_chars fuel (suc depth) more u) (acc ++ (k, x) ∷ [])
                      pairs rest z v (joined_pairs acc k x entries v w) hs
                      (parts.rest ∙ ap Result.ok same_pairs) g3
                      (λ k2 t2 others u same next.
                        pairs-Reads entries depth fuel (acc ++ (k, x) ∷ []) k2 t2 others rest u v
                          (joined_pairs acc k x entries v w) hs
                          (parts.rest ∙ ap Result.ok (same_pairs ∙ same))
                          (omega (
                            arith,
                            room,
                            length-append text behind,
                            length-comma_line b'}' depth (entry_line k2 t2) (entry_lines others)
                                rest (entry_lines pairs) (ap entry_lines same),
                          ))
                          next))))
    pairs-Reads (ValueEntries.entry _ x entries) depth (suc fuel) acc key text pairs rest c v w h e
          enough f =
        elim h [ ]
