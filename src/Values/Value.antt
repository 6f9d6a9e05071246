-- ===== src/Values/Value.antt =====
-- src/value.hpp: the values of the host. A text is its bytes, and a `double` its 64 bits. A shared
-- pointer to an entity or a closure is a number; one to a list, a map or another value is what it points
-- to, since these are not changed behind it.
use genia_cpp.Base.{ℕ, Bool, List, [], ◌∷◌}
use genia_cpp.Base.Int.{ℤ}
use genia_cpp.Bignum.{Integer}

abbrev pub Text : Type 0
Text = List ℕ

mutual
  pub data Value : Type 0 where
    integer : Integer → Value
    -- The coefficient and the exponent.
    decimal : Integer → ℤ → Value
    -- The numerator and the denominator.
    rational : Integer → Integer → Value
    float64 : ℕ → Value
    boolean : Bool → Value
    string : Text → Value
    bytes : Text → Value
    list : Values → Value
    -- The entries in the order of insertion, and the index from the encodings of the keys.
    map : ValueEntries → List (Text × ℕ) → Value
    -- The reason, and a context that may be absent.
    outcome_err : Value → MaybeValue → Value
    outcome_some : Value → MaybeValue → Value
    outcome_none : Value → MaybeValue → Value
    -- The facet and the value.
    represented : Text → Value → Value
    closure : ℕ → Value
    ref : ℕ → Value
    cell : ℕ → Value
    process : ℕ → Value
    flow : ℕ → Value
    stdin_source : Value
    nil : Value
    opaque : Value

  -- `std::vector<Value>`.
  pub data Values : Type 0 where
    none_left : Values
    cons : Value → Values → Values

  pub data ValueEntries : Type 0 where
    end : ValueEntries
    entry : Value → Value → ValueEntries → ValueEntries

  -- A pointer that may be null.
  pub data MaybeValue : Type 0 where
    absent : MaybeValue
    present : Value → MaybeValue

-- A vector as a list, and back.
unfoldable pub to_list : Values → List Value
to_list Values.none_left = []
to_list (Values.cons x xs) = x ∷ to_list xs

unfoldable pub from_list : List Value → Values
from_list [] = Values.none_left
from_list (x ∷ xs) = Values.cons x (from_list xs)
