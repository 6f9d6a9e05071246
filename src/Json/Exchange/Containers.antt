-- ===== src/Json/Exchange/Containers.antt =====
-- src/json.hpp: arrays and objects of values that the encoder takes are taken by it.
use genia_cpp.Base.{
  ℕ, suc, ◌≡◌, refl, sym, subst, false, ltb, Option, none, some, Bool-cases, inl, inr, List, [],
  ◌∷◌, All,
}
use genia_cpp.Values.Value.{Text, Value, ValueEntries, from_list}
use genia_cpp.Numbers.Fractions.{map_key_encoding}
use genia_cpp.Matching.Equality.{position}
use genia_cpp.Rendering.Numbers.{ToChars}
use genia_cpp.Json.Maps.{
  HostMap, map_has, map_put, put_at, put_text, push_entry, is_some_position, make_map,
}
use genia_cpp.Json.Result.{Result, and_then, max_nesting}
use genia_cpp.Json.Encoder.{encode_at, encode_items, encode_entries, keyed}
use genia_cpp.Json.Decoder.{finish_pairs}
use genia_cpp.Json.Exchange.Numbers.{Succeeds, IsEncodable}

and_then-Succeeds :
    {A B : Type 0} (r : Result A) (f : A → Result B)
    → Succeeds r
    → ((a : A) → Succeeds (f a))
    → Succeeds (and_then r f)
and_then-Succeeds r f (a, e) h = subst (λ q. Succeeds (and_then q f)) (sym e) (h a)

-- One entry more, where the key is a text.
keyed-Succeeds :
    (key : Text) (r : Result Text) (others : Result (List (Text × Text)))
    → Succeeds r
    → Succeeds others
    → Succeeds (keyed (Value.string key) r others)
keyed-Succeeds key r others h k =
    and_then-Succeeds r _ h
      (λ text. and_then-Succeeds others _ k (λ rest. ((key, text) ∷ rest, refl)))

-- The other entries may be replaced.
keyed-others :
    (key : Value) (r : Result Text) (others others' : Result (List (Text × Text)))
    → Succeeds (keyed key r others)
    → (Succeeds others → Succeeds others')
    → Succeeds (keyed key r others')
keyed-others (Value.string key) (Result.ok text) (Result.ok rest) others' h k =
    keyed-Succeeds key (Result.ok text) others' (text, refl) (k (rest, refl))
keyed-others (Value.string key) (Result.ok text) (Result.fail failure) others' (a, e) k = cc
keyed-others (Value.string key) (Result.fail failure) others others' (a, e) k = cc
keyed-others _ r others others' (a, e) k = cc

module _ (to_chars : ToChars) (depth : ℕ) where
  pub encode_items-Succeeds :
      (items : List Value)
      → All (λ v. IsEncodable to_chars v depth) items
      → Succeeds (encode_items to_chars (from_list items) depth)
  unfolding encode_items from_list
  encode_items-Succeeds [] h = ([], refl)
  encode_items-Succeeds (v ∷ items) h =
      and_then-Succeeds (encode_at to_chars v depth) _ h.0 (λ line.
        and_then-Succeeds (encode_items to_chars (from_list items) depth) _
          (encode_items-Succeeds items h.1) (λ lines. (line ∷ lines, refl)))

  push_entry-Succeeds :
      (key : Text) (v : Value) (entries : ValueEntries)
      → Succeeds (encode_entries to_chars entries depth)
      → IsEncodable to_chars v depth
      → Succeeds (encode_entries to_chars (push_entry (Value.string key) v entries) depth)
  unfolding encode_entries push_entry
  push_entry-Succeeds key v ValueEntries.end h k =
      keyed-Succeeds key (encode_at to_chars v depth) (Result.ok []) k h
  push_entry-Succeeds key v (ValueEntries.entry other w entries) h k =
      keyed-others other (encode_at to_chars w depth) (encode_entries to_chars entries depth) _ h
        (λ g. push_entry-Succeeds key v entries g k)

  -- A map that the encoder takes one level above.
  abbrev pub HasEncodable : HostMap → Type 0
  HasEncodable m = Succeeds (encode_entries to_chars m.0 depth)

  put_at-HasEncodable :
      (encoding key : Text) (v : Value) (m : HostMap) (o : Option ℕ)
      → is_some_position o ≡ false
      → HasEncodable m
      → IsEncodable to_chars v depth
      → HasEncodable (put_at encoding (Value.string key) v m o)
  put_at-HasEncodable encoding key v m none e h k = push_entry-Succeeds key v m.0 h k
  put_at-HasEncodable encoding key v m (some i) e h k = cc

  put_text-HasEncodable :
      (key : Text) (v : Value) (m : HostMap)
      → map_has (map_key_encoding (Value.string key)) m ≡ false
      → HasEncodable m
      → IsEncodable to_chars v depth
      → HasEncodable (put_text key v m)
  unfolding map_has map_put
  put_text-HasEncodable key v m e h k =
      put_at-HasEncodable _ key v m (position (map_key_encoding (Value.string key)) m.1) e h k

  pub finish_pairs-HasEncodable :
      (pairs : List (Text × Value)) (m : HostMap) (v : Value)
      → HasEncodable m
      → All (λ p. IsEncodable to_chars p.1 depth) pairs
      → finish_pairs m pairs ≡ Result.ok v
      → (n : HostMap) × (v ≡ make_map n) × HasEncodable n
  unfolding finish_pairs
  finish_pairs-HasEncodable [] m v h all e = (m, cc, h)
  finish_pairs-HasEncodable ((key, w) ∷ pairs) m v h all e =
      elim (Bool-cases (map_has (map_key_encoding (Value.string key)) m)) [
        | inl p ↦ cc (rw p at e)
        | inr p ↦
            finish_pairs-HasEncodable pairs (put_text key w m) v
              (put_text-HasEncodable key w m p h all.0) all.1 (rw p at e)
      ]

module _ (to_chars : ToChars) (depth : ℕ) (shallow : ltb max_nesting (suc depth) ≡ false) where
  pub list-IsEncodable :
      (items : List Value)
      → All (λ v. IsEncodable to_chars v (suc depth)) items
      → IsEncodable to_chars (Value.list (from_list items)) depth
  unfolding encode_at
  list-IsEncodable items h = rw shallow (
      and_then-Succeeds (encode_items to_chars (from_list items) (suc depth)) _
        (encode_items-Succeeds to_chars (suc depth) items h) (λ lines. (_, refl)))

  pub map-IsEncodable :
      (m : HostMap) → HasEncodable to_chars (suc depth) m → IsEncodable to_chars (make_map m) depth
  unfolding encode_at
  map-IsEncodable m h =
      rw shallow
        (and_then-Succeeds (encode_entries to_chars m.0 (suc depth)) _ h (λ pairs. (_, refl)))
