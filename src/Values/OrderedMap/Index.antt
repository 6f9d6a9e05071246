-- ===== src/Values/OrderedMap/Index.antt =====
-- src/value.hpp, `OrderedMap`: the lists under the entries and the index.
use genia_cpp.Base.{
  ℕ, zero, suc, ◌<◌, ◌≡◌, ◌≢◌, refl, ap, if◌then◌else◌, Option, none, some, List, [], ◌∷◌, ◌++◌,
  length, get_elem?, arith, ◌==◌,
}
use genia_cpp.Values.OrderedMap.{find, erase, assign_at, erase_at, moved, shift_index}
use Prim.Native.String.{String}
use text.Mathlib.Text.{◌==◌ as str_eq}
use text.Mathlib.TextEquality.{eq_iff}

moved-suc : (i j : ℕ) → moved (suc i) (suc j) ≡ suc (moved i j)
moved-suc i j = ground arith

module _ {ℓ} {A : Type ℓ} where
  pub find-erase :
      (k j : String) (xs : List (String × A))
      → find j (erase k xs) ≡ (if str_eq k j then none else find j xs)
  unfolding find erase
  find-erase k j [] = ground arith
  find-erase k j ((i, a) ∷ xs) =
      ground (arith, eq_iff k j, eq_iff i k, eq_iff i j, find-erase k j xs)

  pub length-assign_at : (i : ℕ) (a : A) (xs : List A) → length (assign_at i a xs) ≡ length xs
  unfolding assign_at
  length-assign_at i a [] = refl
  length-assign_at zero a (x ∷ xs) = refl
  length-assign_at (suc i) a (x ∷ xs) = ap suc (length-assign_at i a xs)

  pub get_elem?-assign_at :
      (i j : ℕ) (a : A) (xs : List A)
      → i < length xs
      → get_elem? (assign_at i a xs) j ≡ (if i == j then some a else get_elem? xs j)
  unfolding assign_at
  get_elem?-assign_at i j a [] h = absurd (omega (arith, h))
  get_elem?-assign_at zero zero a (x ∷ xs) h = refl
  get_elem?-assign_at zero (suc j) a (x ∷ xs) h = ground arith
  get_elem?-assign_at (suc i) zero a (x ∷ xs) h = ground arith
  get_elem?-assign_at (suc i) (suc j) a (x ∷ xs) h =
      ground (arith, get_elem?-assign_at i j a xs (omega (arith, h)))

  pub get_elem?-append_last :
      (xs : List A) (a : A) (j : ℕ)
      → get_elem? (xs ++ a ∷ []) j ≡ (if length xs == j then some a else get_elem? xs j)
  get_elem?-append_last [] a zero = refl
  get_elem?-append_last [] a (suc j) = ground arith
  get_elem?-append_last (x ∷ xs) a zero = ground arith
  get_elem?-append_last (x ∷ xs) a (suc j) = ground (arith, get_elem?-append_last xs a j)

  pub length-erase_at :
      (i : ℕ) (xs : List A) → i < length xs → suc (length (erase_at i xs)) ≡ length xs
  unfolding erase_at
  length-erase_at i [] h = absurd (omega (arith, h))
  length-erase_at zero (x ∷ xs) h = refl
  length-erase_at (suc i) (x ∷ xs) h = ap suc (length-erase_at i xs (omega (arith, h)))

  pub get_elem?-erase_at :
      (i j : ℕ) (xs : List A) → i ≢ j → get_elem? (erase_at i xs) (moved i j) ≡ get_elem? xs j
  unfolding erase_at
  get_elem?-erase_at i j [] h = refl
  get_elem?-erase_at zero zero (x ∷ xs) h = absurd (h refl)
  get_elem?-erase_at zero (suc j) (x ∷ xs) h = ground arith
  get_elem?-erase_at (suc i) zero (x ∷ xs) h = ground arith
  get_elem?-erase_at (suc i) (suc j) (x ∷ xs) h =
      let tail = get_elem?-erase_at i j xs (λ e. h (ap suc e)) in rw (moved-suc i j) tail

abbrev pub map_moved : ℕ → Option ℕ → Option ℕ
map_moved removed none = none
map_moved removed (some i) = some (moved removed i)

pub find-shift_index :
    (r : ℕ) (j : String) (xs : List (String × ℕ))
    → find j (shift_index r xs) ≡ map_moved r (find j xs)
unfolding find shift_index
find-shift_index r j [] = refl
find-shift_index r j ((k, i) ∷ xs) = ground (arith, find-shift_index r j xs)
