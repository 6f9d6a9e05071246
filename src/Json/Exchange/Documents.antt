-- ===== src/Json/Exchange/Documents.antt =====
-- src/json.hpp, `decode_document`: it ends, and the encoder takes what it returns.
use genia_cpp.Base.{
  ℕ, zero, suc, ◌+◌, ◌*◌, ◌≤◌, ◌<◌, ◌≡◌, ◌≢◌, refl, ap, false, ltb, List, [], ◌∷◌, ◌++◌, length,
  All, All-append, arith,
}
use genia_cpp.Values.Value.{Text, Value}
use genia_cpp.Rendering.Numbers.{ToChars}
use genia_cpp.Json.Result.{max_nesting}
use genia_cpp.Json.Encoder.{encode_at}
use genia_cpp.Json.Decoder.{
  array_at, object_at, parse_value, parse_items, parse_pairs, at_document_end, parse_document,
  decode_document,
}
use genia_cpp.Json.Decoder.Position.{Cursor, start, Decoded, skip_ws}
use genia_cpp.Json.Decoder.Ensures.{
  Ensures, holds, rejected, Ensures-bind, Ensures-weaken, Ensures-done, Ensures-no_fuel,
}
use genia_cpp.Json.Exchange.Numbers.{Succeeds, IsEncodable}
use genia_cpp.Json.Exchange.Steps.{
  skip_ws_left, Exchanged, value_at-Ensures, after_item-Ensures, after_pair-Ensures,
  array_at-Ensures, object_at-Ensures, key_at-Ensures, colon_at-Ensures,
}

module _ (to_chars : ToChars) where
  mutual
    unfolding parse_value parse_items parse_pairs

    parse_value-Ensures :
        (fuel depth : ℕ) (c : Cursor)
        → 2 * length c.rest < fuel
        → Ensures (Exchanged to_chars (length c.rest) depth) (parse_value to_chars fuel depth c)
    parse_value-Ensures zero depth c h = absurd (omega arith)
    parse_value-Ensures (suc fuel) depth c h =
        let at : Cursor = skip_ws c in
        value_at-Ensures to_chars
          (array_at to_chars (λ e. parse_items to_chars fuel (suc depth) [] e) (suc depth))
          (object_at to_chars (λ e. parse_pairs to_chars fuel (suc depth) [] e) (suc depth))
          (length c.rest) depth at at.rest refl (skip_ws_left c)
          (λ short.
            array_at-Ensures to_chars (λ e. parse_items to_chars fuel (suc depth) [] e)
              (length c.rest) depth at (skip_ws_left c)
              (λ shallow d l.
                Ensures-weaken
                  (parse_items-Ensures fuel depth [] d (omega (arith, skip_ws_left c)) shallow tt)
                  (λ w g (r, q). (omega (arith, skip_ws_left c), q))))
          (λ short.
            object_at-Ensures to_chars (λ e. parse_pairs to_chars fuel (suc depth) [] e)
              (length c.rest) depth at (skip_ws_left c)
              (λ shallow d l.
                Ensures-weaken
                  (parse_pairs-Ensures fuel depth [] d (omega (arith, skip_ws_left c)) shallow tt)
                  (λ w g (r, q). (omega (arith, skip_ws_left c), q))))

    parse_items-Ensures :
        (fuel depth : ℕ) (items : List Value) (c : Cursor)
        → suc (2 * length c.rest) < fuel
        → ltb max_nesting (suc depth) ≡ false
        → All (λ v. IsEncodable to_chars v (suc depth)) items
        → Ensures
            (Exchanged to_chars (length c.rest) depth)
            (parse_items to_chars fuel (suc depth) items c)
    parse_items-Ensures zero depth items c h shallow all = absurd (omega arith)
    parse_items-Ensures (suc fuel) depth items c h shallow all =
        Ensures-bind (parse_value-Ensures fuel (suc depth) c (omega arith)) (λ v d (l, k).
          after_item-Ensures to_chars (λ more e. parse_items to_chars fuel (suc depth) more e)
            (items ++ v ∷ []) (length c.rest) depth (skip_ws d) (skip_ws d).rest shallow
            (All-append _ items (v ∷ []) all (k, tt)) refl (omega (arith, skip_ws_left d))
            (λ e short.
              Ensures-weaken
                (parse_items-Ensures fuel depth (items ++ v ∷ []) e (omega (arith, skip_ws_left d))
                  shallow (All-append _ items (v ∷ []) all (k, tt)))
                (λ w g (r, q). (omega (arith, skip_ws_left d), q))))

    parse_pairs-Ensures :
        (fuel depth : ℕ) (pairs : List (Text × Value)) (c : Cursor)
        → suc (2 * length c.rest) < fuel
        → ltb max_nesting (suc depth) ≡ false
        → All (λ p. IsEncodable to_chars p.1 (suc depth)) pairs
        → Ensures
            (Exchanged to_chars (length c.rest) depth)
            (parse_pairs to_chars fuel (suc depth) pairs c)
    parse_pairs-Ensures zero depth pairs c h shallow all = absurd (omega arith)
    parse_pairs-Ensures (suc fuel) depth pairs c h shallow all =
        Ensures-bind (key_at-Ensures to_chars (skip_ws c) (skip_ws c).rest refl) (λ key d l.
          Ensures-bind (colon_at-Ensures to_chars (skip_ws d) (skip_ws d).rest refl) (λ u e m.
            let room : length e.rest ≤ length c.rest =
              omega (arith, skip_ws_left c, skip_ws_left d) in
            Ensures-bind (parse_value-Ensures fuel (suc depth) e (omega arith)) (λ v g (r, k).
              after_pair-Ensures to_chars (λ more x. parse_pairs to_chars fuel (suc depth) more x)
                (pairs ++ (key, v) ∷ []) (length c.rest) depth (skip_ws g) (skip_ws g).rest shallow
                (All-append _ pairs ((key, v) ∷ []) all (k, tt)) refl
                (omega (arith, skip_ws_left g))
                (λ x short.
                  Ensures-weaken
                    (parse_pairs-Ensures fuel depth (pairs ++ (key, v) ∷ []) x
                      (omega (arith, skip_ws_left g)) shallow
                      (All-append _ pairs ((key, v) ∷ []) all (k, tt)))
                    (λ w y (a, b). (omega (arith, skip_ws_left g), b))))))

  parse_document-Ensures :
      (fuel : ℕ) (c : Cursor)
      → 2 * length c.rest < fuel
      → Ensures (Exchanged to_chars 0 0) (parse_document to_chars fuel c)
  unfolding parse_document
  parse_document-Ensures fuel c h =
      Ensures-bind (parse_value-Ensures fuel 0 (skip_ws c) (omega (arith, skip_ws_left c)))
        (λ v d (l, k). at_end v (skip_ws d) (skip_ws d).rest refl k)
    where
      at_end :
          (v : Value) (e : Cursor) (text : Text)
          → e.rest ≡ text
          → IsEncodable to_chars v 0
          → Ensures (Exchanged to_chars 0 0) (at_document_end to_chars v e text)
      at_end v e [] r k = holds (omega (arith, ap length r), k)
      at_end v e (ch ∷ text) r k = rejected

  document-Ensures :
      (text : Text) → Ensures (Exchanged to_chars 0 0) (decode_document to_chars text)
  unfolding decode_document
  document-Ensures text = parse_document-Ensures (2 * length text + 3) (start text) (omega arith)

-- `decode_document` on every text returns a value or a failure: its recursion and its loops end, since
-- two units of fuel for each byte and three are enough.
pub decode_document-ne-no_fuel :
    (to_chars : ToChars) (text : Text) → decode_document to_chars text ≢ Decoded.no_fuel
decode_document-ne-no_fuel to_chars text = Ensures-no_fuel (document-Ensures to_chars text)

-- Where `decode_document` returns a value, it has read the whole text, and `encode_at` at the depth 0
-- returns a text for the value.
pub encode_at-decode_document :
    (to_chars : ToChars) (text : Text) (v : Value) (c : Cursor)
    → decode_document to_chars text ≡ Decoded.done v c
    → (length c.rest ≡ 0) × Succeeds (encode_at to_chars v 0)
encode_at-decode_document to_chars text v c e =
    let (l, k) = Ensures-done (document-Ensures to_chars text) e in (omega arith, k)
