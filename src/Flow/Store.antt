-- ===== src/Flow/Store.antt =====
-- src/flow.hpp: what a flow is made of, and the state that flows share.
use genia_cpp.Base.{
  ℕ, zero, suc, Bool, true, false, if◌then◌else◌, Option, none, some, List, [], ◌∷◌, ◌++◌, length,
  get_elem?, ltb, codes, ◌^◌, ◌==◌,
}
use genia_cpp.Base.Int.{ℤ, pos, negsuc}
use genia_cpp.Bignum.Decimal.{read_digits, to_decimal_string}
use genia_cpp.Values.Value.{Text, Value}
use genia_cpp.Values.OrderedMap.{assign_at}

-- What ends a pull other than a result: `FlowError` with its message, `UnsupportedError`, an exception
-- of a callback, and a model that ran out of fuel.
pub data Failure : Type 0 where
  flow_error : Text → Failure
  unsupported : Failure
  raised : Failure
  no_fuel : Failure

-- What a factory captures: where the items come from, or a stage and the flow before it.
pub data Source : Type 0 where
  stdin_lines : Source
  list_items : List Value → Source
  evolving : Value → Value → Source
  each_item : Value → List Value → Source
  lines_of : ℕ → Source
  map_of : Value → ℕ → Source
  filter_of : Value → ℕ → Source
  take_of : ℤ → ℕ → Source
  drop_of : ℤ → ℕ → Source
  scan_of : Value → Value → ℕ → Source
  keep_some_of : ℕ → Source
  each_of : Value → ℕ → Source

-- `value::Flow`.
pub record Flow : Type 0 where
  pub source : Source
  pub consumed : Bool

-- The flows that were made, by number, the lines of stdin that were not read, and what else callbacks
-- read and write.
pub record Store (H : Type 0) : Type 0 where
  pub flows : List Flow
  pub stdin : List Text
  pub host : H

-- A callback of the evaluator: no result, a result, or an exception, and the store behind it.
pub data Invoked : Type 0 where
  returned : Value → Invoked
  missing : Invoked
  threw : Invoked

abbrev pub Invoke : Type 0 → Type 0
Invoke H = Value → List Value → Store H → Invoked × Store H

module _ {H : Type 0} where
  -- `make_flow`.
  unfoldable pub make_flow : Source → Store H → Value × Store H
  make_flow source s = (
    Value.flow (length s.flows),
    record s { flows = s.flows ++ record { source = source; consumed = false } ∷ [] },
  )

  abbrev pub consume_flow : ℕ → Store H → Option Flow → Option Source × Store H
  consume_flow id s none = (none, s)
  consume_flow id s (some f) = if f.consumed then (none, s) else (
    some f.source,
    record s { flows = assign_at id (record { source = f.source; consumed = true }) s.flows },
  )

  -- `Flow::consume`: `none` is the error `Flow has already been consumed`.
  unfoldable pub consume : ℕ → Store H → Option Source × Store H
  consume id s = consume_flow id s (get_elem? s.flows id)

abbrev pub already_consumed : Failure
already_consumed = Failure.flow_error (codes "Flow has already been consumed")

-- `apply`: only a closure is called, and on no argument that is a none outcome.
abbrev pub is_none_outcome : Value → Bool
is_none_outcome (Value.outcome_none reason context) = true
is_none_outcome value = false

abbrev pub any_none : List Value → Bool
any_none [] = false
any_none (x ∷ xs) = if is_none_outcome x then true else any_none xs

abbrev pub is_closure : Value → Bool
is_closure (Value.closure id) = true
is_closure value = false

pub data Applied : Type 0 where
  gives : Value → Applied
  fails : Failure → Applied

abbrev pub applied : Invoked → Applied
applied (Invoked.returned value) = Applied.gives value
applied Invoked.missing = Applied.fails Failure.unsupported
applied Invoked.threw = Applied.fails Failure.raised

unfoldable pub apply : {H : Type 0} → Invoke H → Value → List Value → Store H → Applied × Store H
apply invoke fn args s =
    if is_closure fn
    then if any_none args
      then (Applied.fails Failure.unsupported, s)
      else (applied (invoke fn args s).0, (invoke fn args s).1)
    else (Applied.fails Failure.unsupported, s)

-- `text` without its sign.
abbrev pub unsigned_text : Text → Text
unsigned_text [] = []
unsigned_text (c ∷ cs) = if c == b'-' then cs else c ∷ cs

abbrev pub starts_negative : Text → Bool
starts_negative [] = false
starts_negative (c ∷ cs) = c == b'-'

abbrev pub negated : ℕ → ℤ
negated zero = pos 0
negated (suc n) = negsuc n

-- `count_of`: more than 18 digits are 2^62 or its negation. `none` is not an integer.
unfoldable pub count_of : Value → Option ℤ
count_of (Value.integer n) =
    let text = to_decimal_string n in
    let digits = unsigned_text text in
    let size = if ltb 18 (length digits) then 2 ^ 62 else read_digits 0 digits in
    some (if starts_negative text then negated size else pos size)
count_of value = none
