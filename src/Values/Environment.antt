-- ===== src/Values/Environment.antt =====
-- src/environment.hpp: a scope of bindings, and the scopes that enclose it. A shared pointer to a
-- scope is its number in a list of scopes, since closures share scopes and see later definitions.
-- A scope is made behind its parent, so that the parent has a smaller number.
pub mod Scopes
use genia_cpp.Base.{
  ℕ, zero, suc, Bool, true, false, if◌then◌else◌, Option, none, some, List, [], ◌∷◌, ◌++◌, length,
  get_elem?,
}
use genia_cpp.Values.OrderedMap.{find, assign_at}
use Prim.Native.String.{String}
use text.Mathlib.Text.{◌==◌ as str_eq}

pub record Environment {ℓ} (V : Type ℓ) : Type ℓ where
  pub parent : Option ℕ
  pub bindings : List (String × V)

module _ {ℓ} {V : Type ℓ} where
  -- `bindings_[name] = v` of an unordered map.
  unfoldable pub bind : String → V → List (String × V) → List (String × V)
  bind name v [] = (name, v) ∷ []
  bind name v ((k, a) ∷ rest) =
      let others = bind name v rest in if str_eq k name then (name, v) ∷ rest else (k, a) ∷ others

  -- A new scope, and its number.
  unfoldable pub create : Option ℕ → List (Environment V) → ℕ × List (Environment V)
  create parent scopes = (length scopes, scopes ++ record { parent = parent; bindings = [] } ∷ [])

  unfoldable pub define : ℕ → String → V → List (Environment V) → List (Environment V)
  define env name v scopes = elim (get_elem? scopes env) [
    | none ↦ scopes
    | some scope ↦ assign_at env (record scope { bindings = bind name v scope.bindings }) scopes
  ]

  abbrev pub search_parent : (ℕ → Option V) → Option ℕ → Option V
  search_parent up none = none
  search_parent up (some parent) = up parent

  abbrev pub search_binding : (ℕ → Option V) → Option ℕ → Option V → Option V
  search_binding up parent (some v) = some v
  search_binding up parent none = search_parent up parent

  -- The body of `lookup`, with the call on the parent.
  abbrev pub search : String → (ℕ → Option V) → Option (Environment V) → Option V
  search name up none = none
  search name up (some scope) = search_binding up scope.parent (find name scope.bindings)

  -- The recursion goes to the parent, whose number is smaller: as much fuel as there are scopes is
  -- enough (Values/Environment/Scopes).
  unfoldable pub lookup_from : ℕ → ℕ → String → List (Environment V) → Option V
  lookup_from zero env name scopes = none
  lookup_from (suc fuel) env name scopes =
      search name (λ parent. lookup_from fuel parent name scopes) (get_elem? scopes env)

  unfoldable pub lookup : ℕ → String → List (Environment V) → Option V
  lookup env name scopes = lookup_from (suc env) env name scopes
