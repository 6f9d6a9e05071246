-- ===== src/Json/Exchange/Steps.antt =====
-- src/json.hpp, class `Decoder`: single steps end, and give what the encoder takes.
use genia_cpp.Base.{
  ℕ, zero, suc, ◌≤◌, ◌<◌, ◌≡◌, refl, sym, subst, ap, Bool, true, false, ltb, ◌==◌, ◌||◌, Bool-cases,
  inl, inr, List, [], ◌∷◌, length, codes, All, arith,
}
use genia_cpp.Bignum.Decimal.{is_digit}
use genia_cpp.Values.Value.{Text, Value}
use genia_cpp.Rendering.Numbers.{ToChars}
use genia_cpp.Json.Maps.{empty_host_map}
use genia_cpp.Json.Result.{Result, max_nesting}
use genia_cpp.Json.Encoder.{encode_at, encode_entries}
use genia_cpp.Json.Decoder.{
  literal_value, null_value, finish_pairs, finished, after_item, after_pair, key_at, colon_at,
  container, value_at, array_at, object_at,
}
use genia_cpp.Json.Decoder.Position.{
  Cursor, Decoded, advance_ascii, advance_times, skip_ws, starts_with, consume_literal,
}
use genia_cpp.Json.Decoder.Ensures.{
  Ensures, holds, rejected, Ensures-if, Ensures-bind, Ensures-weaken, Left, length-skip_from,
}
use genia_cpp.Json.Decoder.Progress.{parse_string-Ensures, rest-advance_ascii, advance_ascii_left}
use genia_cpp.Json.Exchange.Numbers.{IsEncodable, parse_number-Ensures}
use genia_cpp.Json.Exchange.Containers.{
  finish_pairs-HasEncodable, list-IsEncodable, map-IsEncodable,
}

pub skip_ws_left : (c : Cursor) → length (skip_ws c).rest ≤ length c.rest
skip_ws_left c = length-skip_from c.rest c.line c.column

pub advance_times_left : (n : ℕ) (c : Cursor) → length (advance_times n c).rest ≤ length c.rest
advance_times_left zero c = omega arith
advance_times_left (suc n) c =
    omega (arith, advance_times_left n (advance_ascii c), advance_ascii_left c)

module _ (to_chars : ToChars) where
  -- A value that the encoder takes, in front of no more than so much text.
  abbrev pub Exchanged : ℕ → ℕ → Value → Cursor → Type 0
  Exchanged n depth v c = (length c.rest ≤ n) × IsEncodable to_chars v depth

  pub literal_value-Ensures :
      (n depth : ℕ) (c : Cursor) (v : Value) (literal : Text)
      → length c.rest ≤ n
      → IsEncodable to_chars v depth
      → Ensures (Exchanged n depth) (literal_value c v (consume_literal literal c))
  unfolding consume_literal
  literal_value-Ensures n depth c v literal h k = elim (Bool-cases (starts_with literal c.rest)) [
    | inl e ↦ rw e (holds (omega (arith, advance_times_left (length literal) c), k))
    | inr e ↦ rw e rejected
  ]

  pub boolean-IsEncodable : (b : Bool) (depth : ℕ) → IsEncodable to_chars (Value.boolean b) depth
  unfolding encode_at
  boolean-IsEncodable b depth = (_, refl)

  pub null-IsEncodable : (depth : ℕ) → IsEncodable to_chars null_value depth
  unfolding encode_at
  null-IsEncodable depth = (_, refl)

  pub string-IsEncodable :
      (text : Text) (depth : ℕ) → IsEncodable to_chars (Value.string text) depth
  unfolding encode_at
  string-IsEncodable text depth = (_, refl)

  pub value_at-Ensures :
      (array object : Cursor → Decoded Value) (n depth : ℕ) (c : Cursor) (text : Text)
      → c.rest ≡ text
      → length text ≤ n
      → (length (advance_ascii c).rest < length text → Ensures (Exchanged n depth) (array c))
      → (length (advance_ascii c).rest < length text → Ensures (Exchanged n depth) (object c))
      → Ensures (Exchanged n depth) (value_at to_chars array object c text)
  value_at-Ensures array object n depth c [] e h f g = rejected
  value_at-Ensures array object n depth c (ch ∷ text) e h f g =
      let room : length c.rest ≤ n = omega (arith, ap length e) in
      let shorter : length (advance_ascii c).rest < suc (length text) =
        omega (arith, ap length (rest-advance_ascii c ch text e)) in
      Ensures-if (ch == b'{') (λ _. g shorter)
        (λ _.
          Ensures-if (ch == b'[') (λ _. f shorter)
            (λ _.
              Ensures-if (ch == b'"')
                (λ _.
                  Ensures-bind (parse_string-Ensures c ch text e)
                    (λ s d l. holds (omega arith, string-IsEncodable s depth)))
                (λ _.
                  Ensures-if (ch == b't')
                    (λ _.
                      literal_value-Ensures n depth c _ (codes "true") room
                        (boolean-IsEncodable true depth))
                    (λ _.
                      Ensures-if (ch == b'f')
                        (λ _.
                          literal_value-Ensures n depth c _ (codes "false") room
                            (boolean-IsEncodable false depth))
                        (λ _.
                          Ensures-if (ch == b'n')
                            (λ _.
                              literal_value-Ensures n depth c _ (codes "null") room
                                (null-IsEncodable depth))
                            (λ _.
                              Ensures-if (ch == b'-' || is_digit ch)
                                (λ _.
                                  Ensures-weaken (parse_number-Ensures to_chars c)
                                    (λ v d (l, k). (omega arith, k depth)))
                                (λ _. rejected)))))))

  pub after_item-Ensures :
      (again : List Value → Cursor → Decoded Value) (items : List Value) (n depth : ℕ) (c : Cursor)
      (text : Text)
      → ltb max_nesting (suc depth) ≡ false
      → All (λ v. IsEncodable to_chars v (suc depth)) items
      → c.rest ≡ text
      → length text ≤ n
      → ((d : Cursor)
          → suc (length d.rest) ≤ length text
          → Ensures (Exchanged n depth) (again items d))
      → Ensures (Exchanged n depth) (after_item again items c text)
  after_item-Ensures again items n depth c [] shallow all e h k = rejected
  after_item-Ensures again items n depth c (ch ∷ text) shallow all e h k =
      let behind : (advance_ascii c).rest ≡ text = rest-advance_ascii c ch text e in
      Ensures-if (ch == b',')
        (λ _. k _ (omega (arith, skip_ws_left (advance_ascii c), ap length behind)))
        (λ _.
          Ensures-if (ch == b']')
            (λ _.
              holds (
                omega (arith, ap length behind),
                list-IsEncodable to_chars depth shallow items all,
              ))
            (λ _. rejected))

  pub finished-Ensures :
      (c : Cursor) (n depth : ℕ) (pairs : List (Text × Value))
      → ltb max_nesting (suc depth) ≡ false
      → All (λ p. IsEncodable to_chars p.1 (suc depth)) pairs
      → length c.rest ≤ n
      → Ensures (Exchanged n depth) (finished c (finish_pairs empty_host_map pairs))
  finished-Ensures c n depth pairs shallow all h = result (finish_pairs empty_host_map pairs) refl
    where
      result :
          (r : Result Value)
          → finish_pairs empty_host_map pairs ≡ r
          → Ensures (Exchanged n depth) (finished c r)
      result (Result.fail failure) e = rejected
      result (Result.ok v) e =
          let (m, made, k) =
            finish_pairs-HasEncodable to_chars (suc depth) pairs empty_host_map v
              ([], unfold encode_entries in refl) all e in
          holds (
            h,
            subst (λ w. IsEncodable to_chars w depth) (sym made)
                (map-IsEncodable to_chars depth shallow m k),
          )

  pub after_pair-Ensures :
      (again : List (Text × Value) → Cursor → Decoded Value) (pairs : List (Text × Value))
      (n depth : ℕ) (c : Cursor) (text : Text)
      → ltb max_nesting (suc depth) ≡ false
      → All (λ p. IsEncodable to_chars p.1 (suc depth)) pairs
      → c.rest ≡ text
      → length text ≤ n
      → ((d : Cursor)
          → suc (length d.rest) ≤ length text
          → Ensures (Exchanged n depth) (again pairs d))
      → Ensures (Exchanged n depth) (after_pair again pairs c text)
  after_pair-Ensures again pairs n depth c [] shallow all e h k = rejected
  after_pair-Ensures again pairs n depth c (ch ∷ text) shallow all e h k =
      let behind : (advance_ascii c).rest ≡ text = rest-advance_ascii c ch text e in
      Ensures-if (ch == b',') (λ _. k _ (omega (arith, ap length behind)))
        (λ _.
          Ensures-if (ch == b'}')
            (λ _. finished-Ensures _ n depth pairs shallow all (omega (arith, ap length behind)))
            (λ _. rejected))

  pub container-Ensures :
      {P : Value → Cursor → Type 0} (closing : ℕ) (items : Unit {0} → Decoded Value) (text : Text)
      (empty : Decoded Value)
      → Ensures P (items tt)
      → ((rest : Text) → text ≡ closing ∷ rest → Ensures P empty)
      → Ensures P (container closing items text empty)
  container-Ensures closing items [] empty h k = h
  container-Ensures closing items (ch ∷ text) empty h k =
      Ensures-if (ch == closing) (λ e. k text (ground arith)) (λ e. h)

  pub array_at-Ensures :
      (items : Cursor → Decoded Value) (n depth : ℕ) (c : Cursor)
      → length c.rest ≤ n
      → (ltb max_nesting (suc depth) ≡ false
          → (d : Cursor) → length d.rest ≤ length (advance_ascii c).rest
          → Ensures (Exchanged n depth) (items d))
      → Ensures (Exchanged n depth) (array_at to_chars items (suc depth) c)
  array_at-Ensures items n depth c h k =
      Ensures-if (ltb max_nesting (suc depth)) (λ _. rejected)
        (λ shallow.
          let inside : Cursor = skip_ws (advance_ascii c) in
          container-Ensures b']' (λ _. items inside) inside.rest _
            (k shallow inside (skip_ws_left (advance_ascii c)))
            (λ rest e. holds (
              omega (
                arith,
                skip_ws_left (advance_ascii c),
                advance_ascii_left c,
                advance_ascii_left inside,
              ),
              list-IsEncodable to_chars depth shallow [] tt,
            )))

  pub object_at-Ensures :
      (pairs : Cursor → Decoded Value) (n depth : ℕ) (c : Cursor)
      → length c.rest ≤ n
      → (ltb max_nesting (suc depth) ≡ false
          → (d : Cursor) → length d.rest ≤ length (advance_ascii c).rest
          → Ensures (Exchanged n depth) (pairs d))
      → Ensures (Exchanged n depth) (object_at to_chars pairs (suc depth) c)
  object_at-Ensures pairs n depth c h k =
      Ensures-if (ltb max_nesting (suc depth)) (λ _. rejected)
        (λ shallow.
          let inside : Cursor = skip_ws (advance_ascii c) in
          container-Ensures b'}' (λ _. pairs inside) inside.rest _
            (k shallow inside (skip_ws_left (advance_ascii c)))
            (λ rest e. finished-Ensures _ n depth [] shallow tt (
              omega (
                arith,
                skip_ws_left (advance_ascii c),
                advance_ascii_left c,
                advance_ascii_left inside,
              ))))

  pub key_at-Ensures :
      (c : Cursor) (text : Text) → c.rest ≡ text → Ensures (Left (length text)) (key_at c text)
  key_at-Ensures c [] e = rejected
  key_at-Ensures c (ch ∷ text) e =
      Ensures-if (ch == b'"')
        (λ _. Ensures-weaken (parse_string-Ensures c ch text e) (λ s d l. omega arith))
        (λ _. rejected)

  pub colon_at-Ensures :
      (c : Cursor) (text : Text) → c.rest ≡ text → Ensures (Left (length text)) (colon_at c text)
  colon_at-Ensures c [] e = rejected
  colon_at-Ensures c (ch ∷ text) e =
      Ensures-if (ch == b':')
        (λ _.
          holds (omega (arith, skip_ws_left (advance_ascii c), advance_ascii_left c, ap length e)))
        (λ _. rejected)
