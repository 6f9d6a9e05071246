-- ===== src/Flow/Tests.antt =====
-- src/flow.hpp: the theorems on concrete flows.
use genia_cpp.Base.{zero, suc, ◌≡◌, refl, Bool, true, false, not, some, List, [], ◌∷◌, arith, map}
use genia_cpp.Base.Int.{pos}
use genia_cpp.Bignum.{Integer, from_u64}
use genia_cpp.Bignum.Decimal.{to_decimal_string}
use genia_cpp.Values.Value.{Value, from_list}
use genia_cpp.Values.OrderedMap.{assign_at}
use genia_cpp.Flow.Store.{
  Source, Store, Invoke, Invoked, apply, consume, already_consumed, count_of,
}
use genia_cpp.Flow.Pull.{Pull, start, pull}
use genia_cpp.Flow.Operations.{Outcome, collect, evolve, take}
use genia_cpp.Flow.Streams.{GivesOne}
use genia_cpp.Flow.Yields.{kept, FlowYields, Maps, Yields-list}
use genia_cpp.Flow.Refinement.{map-FlowYields, filter-FlowYields}
use genia_cpp.Flow.Iterates.{iterates, take-FlowYields, collect-take-evolve}
use genia_cpp.Flow.Single.{collect-collect}

-- A callback that negates booleans.
abbrev flip : Value → Value
flip (Value.boolean b) = Value.boolean (not b)
flip v = v

abbrev call : Invoke (Unit {0})
call fn args s = (reply args, s)
  where
    reply : List Value → Invoked
    reply (x ∷ []) = Invoked.returned (flip x)
    reply args = Invoked.missing

abbrev yes_value : Value
yes_value = Value.boolean true

abbrev no_value : Value
no_value = Value.boolean false

abbrev fn : Value
fn = Value.closure 0

abbrev empty_store : Store (Unit {0})
empty_store = record { flows = []; stdin = []; host = tt }

-- A flow of a list, and a flow above it.
abbrev above_list : Source → Store (Unit {0})
above_list source = record {
  flows =
      record { source = Source.list_items (yes_value ∷ no_value ∷ []); consumed = false }
      ∷ record { source = source; consumed = false }
      ∷ [];
  stdin = [];
  host = tt;
}

flip-Maps : (b : Bool) → Maps call fn (Value.boolean b) (Value.boolean (not b))
unfolding apply
flip-Maps b s = refl

three : count_of (Value.integer (from_u64 3)) ≡ some (pos 3)
unfolding count_of from_u64 to_decimal_string genia_cpp.Bignum.is_zero genia_cpp.Bignum.is_empty
    genia_cpp.Bignum.Decimal.join_chunks genia_cpp.Bignum.Decimal.split_chunks
    genia_cpp.Bignum.Decimal.pop_high_zeros genia_cpp.Bignum.Decimal.divide_chunk
    genia_cpp.Bignum.Limbs.pop_zeros genia_cpp.Bignum.Decimal.print_digits
    genia_cpp.Bignum.Decimal.read_digits
three = refl

abbrev is_no : Value → Bool
is_no (Value.boolean b) = not b
is_no v = false

-- The store where the flow above is consumed.
abbrev used : Source → Store (Unit {0})
used source = record {
  flows =
      record { source = Source.list_items (yes_value ∷ no_value ∷ []); consumed = false }
      ∷ record { source = source; consumed = true }
      ∷ [];
  stdin = [];
  host = tt;
}

abbrev all_used : Source → Store (Unit {0})
all_used source = record {
  flows =
      record { source = Source.list_items (yes_value ∷ no_value ∷ []); consumed = true }
      ∷ record { source = source; consumed = true }
      ∷ [];
  stdin = [];
  host = tt;
}

used-FlowYields :
    (source : Source)
    → FlowYields call 1 0 (used source) (yes_value ∷ no_value ∷ []) (all_used source)
unfolding consume assign_at start
used-FlowYields source = (
  Source.list_items (yes_value ∷ no_value ∷ []),
  all_used source,
  refl,
  Yields-list call (yes_value ∷ no_value ∷ []) (all_used source),
)

uses : (source : Source) → consume 1 (above_list source) ≡ (some source, used source)
unfolding consume assign_at
uses source = refl

list_one :
    (x : Value) (xs : List Value) (s : Store (Unit {0}))
    → GivesOne call 1 (Pull.list_pull (x ∷ xs)) s x (Pull.list_pull xs) s
unfolding pull
list_one x xs s zero h = absurd (omega (arith, h))
list_one x xs s (suc n) h = refl

map-FlowYields_example :
    FlowYields call 3 1
      (above_list (Source.map_of fn 0))
      (map flip (yes_value ∷ no_value ∷ []))
      (all_used (Source.map_of fn 0))
map-FlowYields_example =
    map-FlowYields call 1 1 0 fn flip (above_list (Source.map_of fn 0)) (used (Source.map_of fn 0))
      (all_used (Source.map_of fn 0)) (yes_value ∷ no_value ∷ []) (uses (Source.map_of fn 0))
      (used-FlowYields (Source.map_of fn 0)) (flip-Maps true, (flip-Maps false, tt))

filter-FlowYields_example :
    FlowYields call 5 1
      (above_list (Source.filter_of fn 0))
      (kept is_no (yes_value ∷ no_value ∷ []))
      (all_used (Source.filter_of fn 0))
filter-FlowYields_example =
    filter-FlowYields call 1 1 0 fn is_no (above_list (Source.filter_of fn 0))
      (used (Source.filter_of fn 0)) (all_used (Source.filter_of fn 0)) (yes_value ∷ no_value ∷ [])
      (uses (Source.filter_of fn 0)) (used-FlowYields (Source.filter_of fn 0))
      (flip-Maps true, (flip-Maps false, tt))

take-FlowYields_example :
    FlowYields call 3 1
      (above_list (Source.take_of (pos 1) 0))
      (yes_value ∷ [])
      (all_used (Source.take_of (pos 1) 0))
unfolding consume assign_at start
take-FlowYields_example =
    take-FlowYields call 1 1 0 (Source.list_items (yes_value ∷ no_value ∷ []))
      (Pull.list_pull (no_value ∷ [])) (above_list (Source.take_of (pos 1) 0))
      (used (Source.take_of (pos 1) 0)) (all_used (Source.take_of (pos 1) 0))
      (all_used (Source.take_of (pos 1) 0)) (yes_value ∷ []) (uses (Source.take_of (pos 1) 0)) refl
      (
        Pull.list_pull (no_value ∷ []),
        all_used (Source.take_of (pos 1) 0),
        list_one yes_value (no_value ∷ []) (all_used (Source.take_of (pos 1) 0)),
        (refl, refl),
      )

collect-collect_example :
    collect call 5 (Value.flow 0) (collect call 4 (Value.flow 0) (above_list Source.stdin_lines)).1
    ≡ (
      Outcome.error already_consumed,
      (collect call 4 (Value.flow 0) (above_list Source.stdin_lines)).1,
    )
collect-collect_example =
    collect-collect call (λ fn args s id h. h) 0 4 5 (above_list Source.stdin_lines)

collect-take-evolve_example :
    (collect call 9
      (Value.flow 1)
      (take (Value.integer (from_u64 3)) 0 (evolve yes_value fn empty_store).1).1).0
    ≡ Outcome.value (Value.list (from_list (iterates flip yes_value 3)))
unfolding iterates
collect-take-evolve_example =
    (collect-take-evolve call 9 3 yes_value fn (Value.integer (from_u64 3)) flip empty_store refl
      (flip-Maps true, (flip-Maps false, tt)) three (omega arith)).2
