-- ===== src/Matching/Equality.antt =====
-- src/equality.hpp: equality of values.
use genia_cpp.Base.{
  ℕ, zero, suc, Bool, true, false, not, if◌then◌else◌, ◌==◌, Option, none, some, List, [], ◌∷◌,
  length, ◌>>=◌,
}
use genia_cpp.Values.Value.{Text, Value, Values, ValueEntries, to_list}
use genia_cpp.Numbers.Fractions.{is_numeric_kind, NumericOrder, numeric_compare, map_key_encoding}

abbrev pub text_equal : Text → Text → Bool
text_equal [] [] = true
text_equal [] (d ∷ ds) = false
text_equal (c ∷ cs) [] = false
text_equal (c ∷ cs) (d ∷ ds) = if c == d then text_equal cs ds else false

-- The position of a key, and the value of the entry there.
abbrev pub position : Text → List (Text × ℕ) → Option ℕ
position key [] = none
position key ((k, i) ∷ index) = if text_equal k key then some i else position key index

abbrev pub mapped_at : ValueEntries → ℕ → Option Value
mapped_at ValueEntries.end i = none
mapped_at (ValueEntries.entry key value entries) zero = some value
mapped_at (ValueEntries.entry key value entries) (suc i) = mapped_at entries i

-- `OrderedMap::get` on the members of a map.
unfoldable pub map_get : Text → ValueEntries → List (Text × ℕ) → Option Value
map_get key entries index = position key index >>= λ i. mapped_at entries i

abbrev pub count_entries : ValueEntries → ℕ
count_entries ValueEntries.end = 0
count_entries (ValueEntries.entry key value entries) = suc (count_entries entries)

abbrev pub is_equal_order : NumericOrder → Bool
is_equal_order NumericOrder.equal = true
is_equal_order order = false

abbrev pub numbers_equal : Value → Value → Bool
numbers_equal a b = if is_numeric_kind b then is_equal_order (numeric_compare a b) else false

abbrev pub boolean_equal : Bool → Value → Bool
boolean_equal a (Value.boolean b) = if a then b else not b
boolean_equal a v = false

abbrev pub string_equal : Text → Value → Bool
string_equal a (Value.string b) = text_equal a b
string_equal a v = false

abbrev pub bytes_equal : Text → Value → Bool
bytes_equal a (Value.bytes b) = text_equal a b
bytes_equal a v = false

abbrev pub list_equal : ℕ → (List Value → Bool) → Value → Bool
list_equal count items_equal (Value.list items) =
    if count == length (to_list items) then items_equal (to_list items) else false
list_equal count items_equal v = false

abbrev pub map_equal : ℕ → (ValueEntries → List (Text × ℕ) → Bool) → Value → Bool
map_equal count all_equal (Value.map entries index) =
    if count == count_entries entries then all_equal entries index else false
map_equal count all_equal v = false

-- The same entity.
abbrev pub ref_equal : ℕ → Value → Bool
ref_equal a (Value.ref b) = a == b
ref_equal a v = false

abbrev pub cell_equal : ℕ → Value → Bool
cell_equal a (Value.cell b) = a == b
cell_equal a v = false

abbrev pub process_equal : ℕ → Value → Bool
process_equal a (Value.process b) = a == b
process_equal a v = false

abbrev pub flow_equal : ℕ → Value → Bool
flow_equal a (Value.flow b) = a == b
flow_equal a v = false

abbrev pub next_equal : (Value → Bool) → (List Value → Bool) → List Value → Bool
next_equal head_equal rest_equal [] = false
next_equal head_equal rest_equal (y ∷ ys) = if head_equal y then rest_equal ys else false

abbrev pub found_equal : (Value → Bool) → Option Value → Bool
found_equal value_equal none = false
found_equal value_equal (some v) = value_equal v

-- `structural_equal`, with its loops over the items of a list and the entries of a map.
unfoldable mutual
  pub structural_equal : Value → Value → Bool
  structural_equal (Value.integer n) b = numbers_equal (Value.integer n) b
  structural_equal (Value.decimal c e) b = numbers_equal (Value.decimal c e) b
  structural_equal (Value.rational p q) b = numbers_equal (Value.rational p q) b
  structural_equal (Value.float64 bits) b = numbers_equal (Value.float64 bits) b
  structural_equal (Value.boolean a) b = boolean_equal a b
  structural_equal (Value.string a) b = string_equal a b
  structural_equal (Value.bytes a) b = bytes_equal a b
  structural_equal (Value.list items) b =
      list_equal (length (to_list items)) (λ others. items_equal items others) b
  structural_equal (Value.map entries index) b =
      map_equal (count_entries entries) (λ others positions. entries_equal entries others positions)
        b
  structural_equal (Value.outcome_err reason context) b = false
  structural_equal (Value.outcome_some value context) b = false
  structural_equal (Value.outcome_none reason context) b = false
  structural_equal (Value.represented facet value) b = false
  structural_equal (Value.closure a) b = false
  structural_equal (Value.ref a) b = ref_equal a b
  structural_equal (Value.cell a) b = cell_equal a b
  structural_equal (Value.process a) b = process_equal a b
  structural_equal (Value.flow a) b = flow_equal a b
  structural_equal Value.stdin_source b = false
  structural_equal Value.nil b = false
  structural_equal Value.opaque b = false

  pub items_equal : Values → List Value → Bool
  items_equal Values.none_left others = true
  items_equal (Values.cons x xs) others =
      next_equal (λ y. structural_equal x y) (λ ys. items_equal xs ys) others

  pub entries_equal : ValueEntries → ValueEntries → List (Text × ℕ) → Bool
  entries_equal ValueEntries.end others index = true
  entries_equal (ValueEntries.entry key value entries) others index =
      let rest = entries_equal entries others index in
      if found_equal (λ other. structural_equal value other)
        (map_get (map_key_encoding key) others index)
      then rest
      else false
