-- ===== src/Matching/Match.antt =====
-- src/pattern_match.hpp: `match_atom` and `match`. `none` is no match.
use genia_cpp.Base.{
  ℕ, Bool, true, false, ◌&&◌, not, if◌then◌else◌, Option, none, some, List, [], ◌∷◌, ◌++◌, ◌>>=◌,
  String, str_eq, codes,
}
use genia_cpp.Bignum.Decimal.{from_unsigned_decimal}
use genia_cpp.Syntax.Pattern.{Pattern, Patterns, PatternEntries}
use genia_cpp.Values.Value.{Text, Value, ValueEntries, MaybeValue, to_list, from_list}
use genia_cpp.Numbers.Fractions.{map_key_encoding}
use genia_cpp.Matching.Equality.{structural_equal, map_get}

abbrev pub Bindings : Type 0
Bindings = List (String × Value)

-- A name is bound to another value.
abbrev pub conflicts : Bindings → String × Value → Bool
conflicts [] b = false
conflicts ((name, value) ∷ into) b =
    if str_eq name b.0 && not (structural_equal value b.1) then true else conflicts into b

unfoldable pub merge_bindings : Bindings → Bindings → Option Bindings
merge_bindings into [] = some into
merge_bindings into (b ∷ from) =
    let rest = merge_bindings (into ++ b ∷ []) from in if conflicts into b then none else rest

-- A match of a part, merged into what there is.
abbrev pub merged : Bindings → Option Bindings → Option Bindings
merged into sub = sub >>= λ from. merge_bindings into from

abbrev pub is_rest : Pattern → Bool
is_rest (Pattern.rest name) = true
is_rest p = false

-- No bindings where the literal is equal.
abbrev pub literal_match : Value → Value → Option Bindings
literal_match literal arg = if structural_equal literal arg then some [] else none

abbrev pub rest_match : String → Value → Option Bindings
rest_match name arg = if str_eq name "" then some [] else some ((name, arg) ∷ [])

abbrev pub list_match : (List Value → Option Bindings) → Value → Option Bindings
list_match items_match (Value.list items) = items_match (to_list items)
list_match items_match v = none

abbrev pub map_match : (ValueEntries → List (Text × ℕ) → Option Bindings) → Value → Option Bindings
map_match keys_match (Value.map entries index) = keys_match entries index
map_match keys_match v = none

-- An error outcome with a context.
abbrev pub err_match :
    (Value → Option Bindings) → (Value → Option Bindings) → Value → Option Bindings
err_match reason_match context_match (Value.outcome_err reason (MaybeValue.present context)) =
    reason_match reason >>= λ bindings. merged bindings (context_match context)
err_match reason_match context_match v = none

-- The context that is matched where there is none.
abbrev pub context_or_false : MaybeValue → Value
context_or_false MaybeValue.absent = Value.boolean false
context_or_false (MaybeValue.present context) = context

abbrev pub some_match :
    (Value → Option Bindings) → (Value → Option Bindings) → Value → Option Bindings
some_match value_match context_match (Value.outcome_some value context) =
    value_match value >>= λ bindings. merged bindings (context_match (context_or_false context))
some_match value_match context_match v = none

-- One element, and then the others.
abbrev pub next_match :
    (Value → Option Bindings)
    → (List Value → Bindings → Option Bindings)
    → List Value
    → Bindings
    → Option Bindings
next_match head_match rest_match [] result = none
next_match head_match rest_match (x ∷ elements) result =
    merged result (head_match x) >>= λ next. rest_match elements next

-- `match_atom` with its loops. A list that is too short or too long is found out at its end: it gives
-- no match in any case. The patterns behind the first rest pattern are not looked at.
unfoldable mutual
  pub match_atom : Pattern → Value → Option Bindings
  match_atom Pattern.wildcard arg = some []
  match_atom (Pattern.bind name) arg = some ((name, arg) ∷ [])
  match_atom (Pattern.rest name) arg = rest_match name arg
  match_atom (Pattern.list items) arg = list_match (λ elements. match_items items elements []) arg
  match_atom (Pattern.map entries) arg =
      map_match (λ candidates index. match_keys entries candidates index []) arg
  match_atom (Pattern.tuple items) arg = none
  match_atom (Pattern.string_literal text) arg = literal_match (Value.string (codes text)) arg
  match_atom (Pattern.decimal_literal digits exponent) arg =
      from_unsigned_decimal (codes digits) >>= λ coefficient.
      literal_match (Value.decimal coefficient exponent) arg
  match_atom (Pattern.integer_literal digits) arg =
      from_unsigned_decimal (codes digits) >>= λ n. literal_match (Value.integer n) arg
  match_atom (Pattern.err reason context) arg =
      err_match (λ v. match_atom reason v) (λ v. match_atom context v) arg
  match_atom (Pattern.some_of value context) arg =
      some_match (λ v. match_atom value v) (λ v. match_atom context v) arg

  pub match_items : Patterns → List Value → Bindings → Option Bindings
  match_items Patterns.nil [] result = some result
  match_items Patterns.nil (x ∷ elements) result = none
  match_items (Patterns.cons p items) elements result =
      if is_rest p
      then merged result (match_atom p (Value.list (from_list elements)))
      else next_match (λ v. match_atom p v) (λ others next. match_items items others next) elements
          result

  pub match_keys : PatternEntries → ValueEntries → List (Text × ℕ) → Bindings → Option Bindings
  match_keys PatternEntries.end candidates index result = some result
  match_keys (PatternEntries.entry key p entries) candidates index result =
      map_get (map_key_encoding (Value.string (codes key))) candidates index >>= λ found.
      merged result (match_atom p found) >>= λ next. match_keys entries candidates index next

-- The positions of a tuple, which are as many as the arguments.
unfoldable pub match_positions : Patterns → List Value → Bindings → Option Bindings
match_positions Patterns.nil [] result = some result
match_positions Patterns.nil (x ∷ args) result = none
match_positions (Patterns.cons p items) args result =
    next_match (match_atom p) (λ others next. match_positions items others next) args result

abbrev pub match_single : Pattern → List Value → Option Bindings
match_single p (x ∷ []) = match_atom p x
match_single p args = none

unfoldable pub match_args : Pattern → List Value → Option Bindings
match_args (Pattern.tuple items) args = match_positions items args []
match_args p args = match_single p args
