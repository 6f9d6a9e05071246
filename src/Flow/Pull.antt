-- ===== src/Flow/Pull.antt =====
-- src/flow.hpp: the pull functions, as states. A stage holds what its closure captures and changes.
use genia_cpp.Base.{ℕ, zero, suc, Bool, true, false, Option, none, some, List, [], ◌∷◌}
use genia_cpp.Base.Int.{pos_part}
use genia_cpp.Values.Value.{Text, Value, to_list}
use genia_cpp.Flow.Store.{Failure, Source, Store, Invoke, Applied, apply, consume, already_consumed}

-- A count that is negative counts as 0 in every loop.
pub data Stage : Type 0 where
  strings : Stage
  mapping : Value → Stage
  filtering : Value → Stage
  taking : ℕ → Stage
  dropping : ℕ → Stage
  scanning : Value → Value → Stage
  keeping : Stage
  each : Value → Stage

pub data Pull : Type 0 where
  stdin_pull : Pull
  list_pull : List Value → Pull
  -- The step, whether the next item is the first, and the current item.
  evolve_pull : Value → Bool → Value → Pull
  each_list_pull : Value → List Value → Pull
  -- `lazy`, before and behind its start.
  lazy_pull : Stage → ℕ → Pull
  running : Stage → Pull → Pull

-- What the factory returns.
unfoldable pub start : Source → Pull
start Source.stdin_lines = Pull.stdin_pull
start (Source.list_items items) = Pull.list_pull items
start (Source.evolving init step) = Pull.evolve_pull step true init
start (Source.each_item effect items) = Pull.each_list_pull effect items
start (Source.lines_of id) = Pull.lazy_pull Stage.strings id
start (Source.map_of fn id) = Pull.lazy_pull (Stage.mapping fn) id
start (Source.filter_of predicate id) = Pull.lazy_pull (Stage.filtering predicate) id
start (Source.take_of limit id) = Pull.lazy_pull (Stage.taking (pos_part limit)) id
start (Source.drop_of skip id) = Pull.lazy_pull (Stage.dropping (pos_part skip)) id
start (Source.scan_of step initial id) = Pull.lazy_pull (Stage.scanning step initial) id
start (Source.keep_some_of id) = Pull.lazy_pull Stage.keeping id
start (Source.each_of effect id) = Pull.lazy_pull (Stage.each effect) id

pub data Pulled : Type 0 where
  item : Value → Pulled
  ended : Pulled
  stopped : Failure → Pulled

-- What a stage does with an item: emits, asks for the next one, or fails.
pub data Reaction : Type 0 where
  emits : Value → Stage → Reaction
  skips : Stage → Reaction
  fails : Failure → Stage → Reaction

abbrev pub on_map : Value → Applied → Reaction
on_map fn (Applied.gives value) = Reaction.emits value (Stage.mapping fn)
on_map fn (Applied.fails failure) = Reaction.fails failure (Stage.mapping fn)

abbrev pub on_verdict : Value → Value → Value → Reaction
on_verdict predicate x (Value.boolean true) = Reaction.emits x (Stage.filtering predicate)
on_verdict predicate x (Value.boolean false) = Reaction.skips (Stage.filtering predicate)
on_verdict predicate x verdict = Reaction.fails Failure.unsupported (Stage.filtering predicate)

abbrev pub on_filter : Value → Value → Applied → Reaction
on_filter predicate x (Applied.gives verdict) = on_verdict predicate x verdict
on_filter predicate x (Applied.fails failure) = Reaction.fails failure (Stage.filtering predicate)

-- A list of exactly two values, the new state and the item.
abbrev pub on_scan_pair : Value → Value → List Value → Reaction
on_scan_pair step state (next ∷ emitted ∷ []) = Reaction.emits emitted (Stage.scanning step next)
on_scan_pair step state values = Reaction.fails Failure.unsupported (Stage.scanning step state)

abbrev pub on_scan_value : Value → Value → Value → Reaction
on_scan_value step state (Value.list items) = on_scan_pair step state (to_list items)
on_scan_value step state value = Reaction.fails Failure.unsupported (Stage.scanning step state)

abbrev pub on_scan : Value → Value → Applied → Reaction
on_scan step state (Applied.gives value) = on_scan_value step state value
on_scan step state (Applied.fails failure) = Reaction.fails failure (Stage.scanning step state)

abbrev pub on_keep : Value → Reaction
on_keep (Value.outcome_some value context) = Reaction.emits value Stage.keeping
on_keep (Value.outcome_none reason context) = Reaction.skips Stage.keeping
on_keep value = Reaction.fails Failure.unsupported Stage.keeping

abbrev pub on_each : Value → Value → Applied → Reaction
on_each effect x (Applied.gives ignored) = Reaction.emits x (Stage.each effect)
on_each effect x (Applied.fails failure) = Reaction.fails failure (Stage.each effect)

abbrev pub on_string : Value → Reaction
on_string (Value.string text) = Reaction.emits (Value.string text) Stage.strings
on_string value = Reaction.fails Failure.unsupported Stage.strings

-- A loop of `drop` that fails has counted the item.
abbrev pub at_failure : Stage → Stage
at_failure (Stage.dropping (suc remaining)) = Stage.dropping remaining
at_failure stage = stage

abbrev pub at_end : Stage → Stage
at_end (Stage.taking remaining) = Stage.taking 0
at_end (Stage.dropping remaining) = Stage.dropping 0
at_end stage = stage

module _ {H : Type 0} (invoke : Invoke H) where
  unfoldable pub react : Stage → Value → Store H → Reaction × Store H
  react Stage.strings x s = (on_string x, s)
  react (Stage.mapping fn) x s =
      (on_map fn (apply invoke fn (x ∷ []) s).0, (apply invoke fn (x ∷ []) s).1)
  react (Stage.filtering predicate) x s = (
    on_filter predicate x (apply invoke predicate (x ∷ []) s).0,
    (apply invoke predicate (x ∷ []) s).1,
  )
  react (Stage.taking zero) x s = (Reaction.emits x (Stage.taking zero), s)
  react (Stage.taking (suc remaining)) x s = (Reaction.emits x (Stage.taking remaining), s)
  react (Stage.dropping zero) x s = (Reaction.emits x (Stage.dropping zero), s)
  react (Stage.dropping (suc remaining)) x s = (Reaction.skips (Stage.dropping remaining), s)
  react (Stage.scanning step state) x s = (
    on_scan step state (apply invoke step (state ∷ x ∷ []) s).0,
    (apply invoke step (state ∷ x ∷ []) s).1,
  )
  react Stage.keeping x s = (on_keep x, s)
  react (Stage.each effect) x s =
      (on_each effect x (apply invoke effect (x ∷ []) s).0, (apply invoke effect (x ∷ []) s).1)

  abbrev pub Result : Type 0
  Result = Pulled × Pull × Store H

  -- Behind the reaction to an item; `again` is the loop.
  abbrev pub reacted : (Stage → Pull → Store H → Result) → Pull → Reaction × Store H → Result
  reacted again p (Reaction.emits value stage, s) = (Pulled.item value, Pull.running stage p, s)
  reacted again p (Reaction.skips stage, s) = again stage p s
  reacted again p (Reaction.fails failure stage, s) =
      (Pulled.stopped failure, Pull.running stage p, s)

  -- Behind a pull of the items.
  abbrev pub received : (Stage → Pull → Store H → Result) → Stage → Result → Result
  received again stage (Pulled.item x, p, s) = reacted again p (react stage x s)
  received again stage (Pulled.ended, p, s) = (Pulled.ended, Pull.running (at_end stage) p, s)
  received again stage (Pulled.stopped failure, p, s) =
      (Pulled.stopped failure, Pull.running (at_failure stage) p, s)

  abbrev pub read_line : List Text → Store H → Result
  read_line [] s = (Pulled.ended, Pull.stdin_pull, s)
  read_line (line ∷ lines) s =
      (Pulled.item (Value.string line), Pull.stdin_pull, record s { stdin = lines })

  abbrev pub evolved : Value → Value → Applied × Store H → Result
  evolved step current (Applied.gives next, s) =
      (Pulled.item next, Pull.evolve_pull step false next, s)
  evolved step current (Applied.fails failure, s) =
      (Pulled.stopped failure, Pull.evolve_pull step false current, s)

  -- The index moves before the callback runs.
  abbrev pub visited : Value → Value → List Value → Applied × Store H → Result
  visited effect x items (Applied.gives ignored, s) =
      (Pulled.item x, Pull.each_list_pull effect items, s)
  visited effect x items (Applied.fails failure, s) =
      (Pulled.stopped failure, Pull.each_list_pull effect items, s)

  abbrev pub started :
      (Stage → Pull → Store H → Result) → Stage → ℕ → Option Source × Store H → Result
  started again stage id (none, s) = (Pulled.stopped already_consumed, Pull.lazy_pull stage id, s)
  started again stage id (some source, s) = again stage (start source) s

  -- One call of a pull function, with the function and the store behind it.
  unfoldable pub pull : ℕ → Pull → Store H → Result
  pull zero p s = (Pulled.stopped Failure.no_fuel, p, s)
  pull (suc fuel) Pull.stdin_pull s = read_line s.stdin s
  pull (suc fuel) (Pull.list_pull []) s = (Pulled.ended, Pull.list_pull [], s)
  pull (suc fuel) (Pull.list_pull (x ∷ items)) s = (Pulled.item x, Pull.list_pull items, s)
  pull (suc fuel) (Pull.evolve_pull step true current) s =
      (Pulled.item current, Pull.evolve_pull step false current, s)
  pull (suc fuel) (Pull.evolve_pull step false current) s =
      evolved step current (apply invoke step (current ∷ []) s)
  pull (suc fuel) (Pull.each_list_pull effect []) s =
      (Pulled.ended, Pull.each_list_pull effect [], s)
  pull (suc fuel) (Pull.each_list_pull effect (x ∷ items)) s =
      visited effect x items (apply invoke effect (x ∷ []) s)
  pull (suc fuel) (Pull.lazy_pull stage id) s =
      started (λ st p t. pull fuel (Pull.running st p) t) stage id (consume id s)
  pull (suc fuel) (Pull.running (Stage.taking zero) p) s =
      (Pulled.ended, Pull.running (Stage.taking zero) p, s)
  pull (suc fuel) (Pull.running stage p) s =
      received (λ st q t. pull fuel (Pull.running st q) t) stage (pull fuel p s)
