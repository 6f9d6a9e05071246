-- ===== src/Matching/Tests.antt =====
-- src/pattern_match.hpp: the theorem on a concrete match.
use genia_cpp.Base.{◌≡◌, refl, true, some, none, List, [], ◌∷◌}
use genia_cpp.Syntax.Pattern.{Pattern, Patterns}
use genia_cpp.Values.Value.{Value, Values, to_list}
use genia_cpp.Matching.Equality.{structural_equal}
use genia_cpp.Matching.Match.{
  Bindings, merge_bindings, match_atom, match_items, match_positions, match_args,
}
use genia_cpp.Matching.Consistent.{IsConsistent, match_args-IsConsistent}

-- `([x, x])`.
abbrev twice : Pattern
twice = Pattern.tuple (
    Patterns.cons
      (Pattern.list
        (Patterns.cons (Pattern.bind "x") (Patterns.cons (Pattern.bind "x") Patterns.nil)))
      Patterns.nil)

abbrev two_values : Value → Value → List Value
two_values a b = Value.list (Values.cons a (Values.cons b Values.none_left)) ∷ []

abbrev yes_value : Value
yes_value = Value.boolean true

abbrev found : Bindings
found = ("x", yes_value) ∷ ("x", yes_value) ∷ []

found_lem : match_args twice (two_values yes_value yes_value) ≡ some found
unfolding match_args match_positions match_items match_atom merge_bindings structural_equal to_list
found_lem = refl

conflict_refused : match_args twice (two_values yes_value Value.nil) ≡ none
unfolding match_args match_positions match_items match_atom merge_bindings structural_equal to_list
conflict_refused = refl

match_args-IsConsistent_example : IsConsistent found
match_args-IsConsistent_example =
    match_args-IsConsistent twice (two_values yes_value yes_value) found found_lem
