-- ===== src/Flow/Operations.antt =====
-- src/flow.hpp: the operations on flows and the routing of calls to them.
use genia_cpp.Base.{
  ℕ, zero, suc, Bool, true, false, if◌then◌else◌, Option, none, some, List, [], ◌∷◌, ◌++◌, String,
  str_eq, codes,
}
use genia_cpp.Values.Value.{Text, Value, to_list, from_list}
use genia_cpp.Flow.Store.{
  Failure, Source, Store, Invoke, Applied, applied, is_closure, consume, make_flow, count_of,
  already_consumed,
}
use genia_cpp.Flow.Pull.{Pull, Pulled, start, pull}

-- A value, or what is thrown.
pub data Outcome : Type 0 where
  value : Value → Outcome
  error : Failure → Outcome

-- `runtime_type_name`: `none` is an `UnsupportedError`.
unfoldable pub runtime_type_name : Value → Option Text
runtime_type_name (Value.flow id) = some (codes "flow")
runtime_type_name Value.stdin_source = some (codes "stdin")
runtime_type_name (Value.integer n) = some (codes "int")
runtime_type_name (Value.string text) = some (codes "string")
runtime_type_name (Value.list items) = some (codes "list")
runtime_type_name (Value.map entries index) = some (codes "map")
runtime_type_name (Value.boolean b) = some (codes "bool")
runtime_type_name v = none

abbrev pub hint : Value → Text
hint Value.stdin_source = codes " Use stdin |> lines to adapt stdin into a Flow."
hint v = []

abbrev pub seq_message : Text → Value → Option Text → Failure
seq_message name v none = Failure.unsupported
seq_message name v (some type_name) = Failure.flow_error (
    name
    ++ codes " expected a Seq-compatible value (list or Flow); received "
    ++ type_name
    ++ codes "."
    ++ hint v)

unfoldable pub seq_compatible_error : Text → Value → Failure
seq_compatible_error name v = seq_message name v (runtime_type_name v)

abbrev pub received_message : Text → Option Text → Failure
received_message prefix none = Failure.unsupported
received_message prefix (some type_name) = Failure.flow_error (prefix ++ type_name)

abbrev pub is_string : Value → Bool
is_string (Value.string text) = true
is_string v = false

abbrev pub all_strings : List Value → Bool
all_strings [] = true
all_strings (x ∷ xs) = if is_string x then all_strings xs else false

abbrev pub Built : Type 0 → Type 0
Built H = Outcome × Store H

-- The end of a loop over a flow: what it gathered, or what was thrown.
pub data Drained (A : Type 0) : Type 0 where
  finished : A → Drained A
  broken : Failure → Drained A

module _ {H : Type 0} where
  -- A new flow of a source.
  abbrev pub flow_from : Source → Store H → Built H
  flow_from source s = (Outcome.value (make_flow source s).0, (make_flow source s).1)

  unfoldable pub lines : Value → Store H → Built H
  lines Value.stdin_source s = flow_from Source.stdin_lines s
  lines (Value.flow id) s = flow_from (Source.lines_of id) s
  lines (Value.list items) s =
      if all_strings (to_list items)
      then flow_from (Source.list_items (to_list items)) s
      else (Outcome.error Failure.unsupported, s)
  lines v s = (Outcome.error Failure.unsupported, s)

  unfoldable pub evolve : Value → Value → Store H → Built H
  evolve init step s =
      if is_closure step
      then flow_from (Source.evolving init step) s
      else (Outcome.error Failure.unsupported, s)

  -- The source of `map` and the like is a flow.
  unfoldable pub map : Value → ℕ → Store H → Built H
  map fn id s = flow_from (Source.map_of fn id) s

  unfoldable pub filter : Value → ℕ → Store H → Built H
  filter predicate id s = flow_from (Source.filter_of predicate id) s

  unfoldable pub take : Value → ℕ → Store H → Built H
  take count id s = elim (count_of count) [
    | none ↦ (Outcome.error Failure.unsupported, s)
    | some limit ↦ flow_from (Source.take_of limit id) s
  ]

  unfoldable pub drop : Value → ℕ → Store H → Built H
  drop count id s = elim (count_of count) [
    | none ↦ (Outcome.error Failure.unsupported, s)
    | some skip ↦ flow_from (Source.drop_of skip id) s
  ]

  unfoldable pub scan : Value → Value → ℕ → Store H → Built H
  scan step initial id s = flow_from (Source.scan_of step initial id) s

  unfoldable pub keep_some : ℕ → Store H → Built H
  keep_some id s = flow_from (Source.keep_some_of id) s

  -- A source that is neither a list nor a flow does not come here.
  unfoldable pub each : Value → Value → Store H → Built H
  each effect (Value.list items) s = flow_from (Source.each_item effect (to_list items)) s
  each effect (Value.flow id) s = flow_from (Source.each_of effect id) s
  each effect v s = (Outcome.error Failure.unsupported, s)

-- Behind the body of a loop, and behind a pull; `again` is the loop.
abbrev pub drained :
    {H A : Type 0} → (A → Store H → Drained A × Store H) → Drained A × Store H → Drained A × Store H
drained again (Drained.finished acc, s) = again acc s
drained again (Drained.broken failure, s) = (Drained.broken failure, s)

abbrev pub drain_pulled :
    {H A : Type 0}
    → (Pull → A → Store H → Drained A × Store H)
    → (Value → A → Store H → Drained A × Store H)
    → A
    → Pulled × Pull × Store H
    → Drained A × Store H
drain_pulled again step acc (Pulled.item x, p, s) = drained (again p) (step x acc s)
drain_pulled again step acc (Pulled.ended, p, s) = (Drained.finished acc, s)
drain_pulled again step acc (Pulled.stopped failure, p, s) = (Drained.broken failure, s)

module _ {H : Type 0} (invoke : Invoke H) where
  -- The loops of `collect`, `run` and `reduce`: the step is the body.
  unfoldable pub drain :
      {A : Type 0}
      → ℕ
      → (Value → A → Store H → Drained A × Store H)
      → Pull
      → A
      → Store H
      → Drained A × Store H
  drain zero step p acc s = (Drained.broken Failure.no_fuel, s)
  drain (suc fuel) step p acc s =
      drain_pulled (λ q a t. drain fuel step q a t) step acc (pull invoke fuel p s)

  abbrev pub drain_consumed :
      {A : Type 0}
      → ℕ
      → (Value → A → Store H → Drained A × Store H)
      → A
      → Option Source × Store H
      → Drained A × Store H
  drain_consumed fuel step acc (none, s) = (Drained.broken already_consumed, s)
  drain_consumed fuel step acc (some source, s) = drain fuel step (start source) acc s

  abbrev pub push_item : Value → List Value → Store H → Drained (List Value) × Store H
  push_item x items s = (Drained.finished (items ++ x ∷ []), s)

  abbrev pub collected : Drained (List Value) × Store H → Built H
  collected (Drained.finished items, s) = (Outcome.value (Value.list (from_list items)), s)
  collected (Drained.broken failure, s) = (Outcome.error failure, s)

  unfoldable pub collect : ℕ → Value → Store H → Built H
  collect fuel (Value.list items) s = (Outcome.value (Value.list items), s)
  collect fuel (Value.flow id) s = collected (drain_consumed fuel push_item [] (consume id s))
  collect fuel v s = (Outcome.error (seq_compatible_error (codes "collect") v), s)

  abbrev pub ignore_item : Value → Unit {0} → Store H → Drained (Unit {0}) × Store H
  ignore_item x u s = (Drained.finished tt, s)

  abbrev pub ran : Drained (Unit {0}) × Store H → Built H
  ran (Drained.finished u, s) = (Outcome.value Value.nil, s)
  ran (Drained.broken failure, s) = (Outcome.error failure, s)

  unfoldable pub run : ℕ → Value → Store H → Built H
  run fuel (Value.list items) s = (Outcome.value Value.nil, s)
  run fuel (Value.flow id) s = ran (drain_consumed fuel ignore_item tt (consume id s))
  run fuel v s = (Outcome.error (seq_compatible_error (codes "run") v), s)

  abbrev pub reduced : Applied × Store H → Drained Value × Store H
  reduced (Applied.gives next, s) = (Drained.finished next, s)
  reduced (Applied.fails failure, s) = (Drained.broken failure, s)

  -- The reducer is called on whatever the item is.
  abbrev pub reduce_item : Value → Value → Value → Store H → Drained Value × Store H
  reduce_item reducer x acc s =
      if is_closure reducer
      then reduced
          (applied (invoke reducer (acc ∷ x ∷ []) s).0, (invoke reducer (acc ∷ x ∷ []) s).1)
      else (Drained.broken Failure.unsupported, s)

  unfoldable pub reduce_list : Value → List Value → Value → Store H → Drained Value × Store H
  reduce_list reducer [] acc s = (Drained.finished acc, s)
  reduce_list reducer (x ∷ items) acc s =
      drained (λ next t. reduce_list reducer items next t) (reduce_item reducer x acc s)

  abbrev pub reduction : Drained Value × Store H → Built H
  reduction (Drained.finished acc, s) = (Outcome.value acc, s)
  reduction (Drained.broken failure, s) = (Outcome.error failure, s)

  unfoldable pub reduce : ℕ → Value → Value → Value → Store H → Built H
  reduce fuel reducer acc (Value.list items) s =
      reduction (reduce_list reducer (to_list items) acc s)
  reduce fuel reducer acc (Value.flow id) s =
      reduction (drain_consumed fuel (reduce_item reducer) acc (consume id s))
  reduce fuel reducer acc v s = (Outcome.error (seq_compatible_error (codes "reduce") v), s)

  abbrev pub last_flow : List Value → Option ℕ
  last_flow [] = none
  last_flow (Value.flow id ∷ []) = some id
  last_flow (x ∷ []) = none
  last_flow (x ∷ y ∷ args) = last_flow (y ∷ args)

  -- The calls of one argument; `none` leaves the call to ordinary dispatch.
  abbrev pub dispatch_one : ℕ → String → Value → Option ℕ → Store H → Option (Built H)
  dispatch_one fuel name x last s =
      if str_eq name "lines"
      then some (lines x s)
      else if str_eq name "keep_some"
      then elim last [
        | none ↦ some (
          Outcome.error (
              received_message (codes "keep_some expected a flow, received ")
                (runtime_type_name x)),
          s,
        )
        | some id ↦ some (keep_some id s)
      ]
      else if str_eq name "collect"
      then some (collect fuel x s)
      else if str_eq name "run"
      then some (run fuel x s)
      else if str_eq name "_pipe_run"
      then elim last [
        | none ↦ some (
          Outcome.error
              (received_message (codes "run expected a flow, received ") (runtime_type_name x)),
          s,
        )
        | some id ↦ some (run fuel x s)
      ]
      else none

  abbrev pub is_seq : Value → Bool
  is_seq (Value.list items) = true
  is_seq (Value.flow id) = true
  is_seq v = false

  abbrev pub type_error : Value → Value → Store H → Option (Built H)
  type_error (Value.string name) v s = some (Outcome.error (seq_compatible_error name v), s)
  type_error x v s = none

  -- The calls of two arguments, of which `map` to `drop` want a flow behind.
  abbrev pub dispatch_flow : String → Value → ℕ → Store H → Option (Built H)
  dispatch_flow name x id s =
      if str_eq name "map"
      then some (map x id s)
      else if str_eq name "filter"
      then some (filter x id s)
      else if str_eq name "take"
      then some (take x id s)
      else if str_eq name "drop"
      then some (drop x id s)
      else none

  abbrev pub dispatch_two : String → Value → Value → Option ℕ → Store H → Option (Built H)
  dispatch_two name x y last s =
      if str_eq name "evolve"
      then some (evolve x y s)
      else if str_eq name "each"
      then some (
          if is_seq y
          then each x y s
          else (Outcome.error (seq_compatible_error (codes "each") y), s))
      else if str_eq name "_seq_type_error"
      then type_error x y s
      else elim last [ none ↦ none | some id ↦ dispatch_flow name x id s ]

  abbrev pub scan_source : Value → Value → Value → Option ℕ → Store H → Built H
  scan_source step initial z none s =
      if is_seq z
      then (Outcome.error Failure.unsupported, s)
      else (Outcome.error (seq_compatible_error (codes "scan") z), s)
  scan_source step initial z (some id) s = scan step initial id s

  abbrev pub dispatch_three :
      ℕ → String → Value → Value → Value → Option ℕ → Store H → Option (Built H)
  dispatch_three fuel name x y z last s =
      if str_eq name "scan"
      then some (scan_source x y z last s)
      else if str_eq name "_seq_reduce"
      then some (reduce fuel x y z s)
      else none

  -- `dispatch`, which tells the names apart by the number of arguments first.
  unfoldable pub dispatch : ℕ → String → List Value → Store H → Option (Built H)
  dispatch fuel name (x ∷ []) s = dispatch_one fuel name x (last_flow (x ∷ [])) s
  dispatch fuel name (x ∷ y ∷ []) s = dispatch_two name x y (last_flow (y ∷ [])) s
  dispatch fuel name (x ∷ y ∷ z ∷ []) s = dispatch_three fuel name x y z (last_flow (z ∷ [])) s
  dispatch fuel name args s = none
