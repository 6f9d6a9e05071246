-- ===== src/Values/Tests.antt =====
-- src/value.hpp, src/environment.hpp: the theorems on concrete containers.
use genia_cpp.Base.{ℕ, zero, suc, ◌≡◌, ◌≢◌, if◌then◌else◌, none, some, List, [], ◌∷◌, arith}
use genia_cpp.Values.OrderedMap.{OrderedMap, empty_map, put, remove, get}
use genia_cpp.Values.OrderedMap.Laws.{
  IsIndexed, empty-IsIndexed, put-IsIndexed, get-put, get-remove,
}
use genia_cpp.Values.Environment.{Environment}
use genia_cpp.Values.Environment.Scopes.{IsScoped}
use text.Mathlib.Text.{◌==◌ as str_eq}
use text.Mathlib.TextEquality.{eq_iff}
use Prim.Native.String.{String}

-- a ↦ 1 and b ↦ 2.
abbrev one_entry : OrderedMap ℕ
one_entry = (put "a" 97 1 empty_map).1

abbrev two_entries : OrderedMap ℕ
two_entries = (put "b" 98 2 one_entry).1

one_entry-IsIndexed : IsIndexed one_entry
one_entry-IsIndexed = put-IsIndexed "a" 97 1 empty_map empty-IsIndexed

two_entries-IsIndexed : IsIndexed two_entries
two_entries-IsIndexed = put-IsIndexed "b" 98 2 one_entry one_entry-IsIndexed

get-put_example :
    get "b" (put "a" 97 3 two_entries).1 ≡ (if str_eq "a" "b" then some 3 else get "b" two_entries)
get-put_example = get-put "a" "b" 97 3 two_entries two_entries-IsIndexed

get-remove_example :
    get "b" (remove "a" two_entries) ≡ (if str_eq "a" "b" then none else get "b" two_entries)
get-remove_example = get-remove "a" "b" two_entries two_entries-IsIndexed

-- An outer scope with x, and one in it.
abbrev scopes : List (Environment ℕ)
scopes =
    record { parent = none; bindings = ("x", 5) ∷ [] }
    ∷ record { parent = some 0; bindings = [] }
    ∷ []

scopes-IsScoped : IsScoped scopes
scopes-IsScoped zero p scope e f = cc
scopes-IsScoped (suc zero) p scope e f = ground arith
scopes-IsScoped (suc (suc i)) p scope e f = cc

abbrev x_name : String
x_name = "x"

abbrev y_name : String
y_name = "y"

different : y_name ≢ x_name
different e = ground (arith, eq_iff y_name x_name)
