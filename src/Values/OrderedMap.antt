-- ===== src/Values/OrderedMap.antt =====
-- src/value.hpp, `OrderedMap`: entries in the order of insertion, and an index from the encoding of a
-- key to the position of its entry. The unordered map is a list of pairs, of which the first with a
-- key counts.
pub mod Index
pub mod Laws
use genia_cpp.Base.{
  ℕ, zero, suc, ◌+◌, ◌-◌, Bool, true, false, if◌then◌else◌, Option, none, some, List, [], ◌∷◌, ◌++◌,
  length, get_elem?, map, ltb,
}
use Prim.Native.String.{String}
use text.Mathlib.Text.{◌==◌ as str_eq}

module _ {ℓ} {A : Type ℓ} where
  -- `find` and `operator[]` of an unordered map.
  unfoldable pub find : String → List (String × A) → Option A
  find key [] = none
  find key ((k, a) ∷ rest) = if str_eq k key then some a else find key rest

  -- `erase`.
  unfoldable pub erase : String → List (String × A) → List (String × A)
  erase key [] = []
  erase key ((k, a) ∷ rest) =
      let others = erase key rest in if str_eq k key then others else (k, a) ∷ others

  -- `entries_[i] = ...`.
  unfoldable pub assign_at : ℕ → A → List A → List A
  assign_at i a [] = []
  assign_at zero a (x ∷ xs) = a ∷ xs
  assign_at (suc i) a (x ∷ xs) = x ∷ assign_at i a xs

  -- `entries_.erase(entries_.begin() + i)`.
  unfoldable pub erase_at : ℕ → List A → List A
  erase_at i [] = []
  erase_at zero (x ∷ xs) = xs
  erase_at (suc i) (x ∷ xs) = x ∷ erase_at i xs

-- The loop that moves the positions behind the removed one.
abbrev pub moved : ℕ → ℕ → ℕ
moved removed i = if ltb removed i then i - 1 else i

unfoldable pub shift_index : ℕ → List (String × ℕ) → List (String × ℕ)
shift_index removed [] = []
shift_index removed ((k, i) ∷ rest) = (k, moved removed i) ∷ shift_index removed rest

pub record OrderedMap {ℓ} (V : Type ℓ) : Type ℓ where
  pub entries : List (V × V)
  pub index : List (String × ℕ)

module _ {ℓ} {V : Type ℓ} where
  abbrev pub empty_map : OrderedMap V
  empty_map = record { entries = []; index = [] }

  -- The position of the entry, and the map.
  unfoldable pub put : String → V → V → OrderedMap V → ℕ × OrderedMap V
  put encoding key mapped m = elim (find encoding m.index) [
    | none ↦ (
      length m.entries,
      record {
        entries = m.entries ++ (key, mapped) ∷ [];
        index = (encoding, length m.entries) ∷ m.index;
      },
    )
    | some i ↦ (i, record m { entries = assign_at i (key, mapped) m.entries })
  ]

  unfoldable pub has : String → OrderedMap V → Bool
  has encoding m = elim (find encoding m.index) [ none ↦ false | some i ↦ true ]

  abbrev pub second : Option (V × V) → Option V
  second none = none
  second (some entry) = some entry.1

  -- `none` is the null pointer.
  unfoldable pub get : String → OrderedMap V → Option V
  get encoding m = elim (find encoding m.index) [
    | none ↦ none
    | some i ↦ second (get_elem? m.entries i)
  ]

  unfoldable pub remove : String → OrderedMap V → OrderedMap V
  remove encoding m = elim (find encoding m.index) [
    | none ↦ m
    | some i ↦ record {
      entries = erase_at i m.entries;
      index = shift_index i (erase encoding m.index);
    }
  ]

  abbrev pub count : OrderedMap V → ℕ
  count m = length m.entries
