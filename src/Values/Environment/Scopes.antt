-- ===== src/Values/Environment/Scopes.antt =====
-- src/environment.hpp: the search through the scopes ends, and finds what was defined last.
use genia_cpp.Base.{
  ℕ, zero, suc, ◌<◌, ◌≡◌, ◌≢◌, refl, ap, sym, ◌∙◌, Bool, true, false, if◌then◌else◌, Option, none,
  some, List, [], ◌∷◌, length, get_elem?, arith, inl, inr, Bool-cases, Option-cases, ◌==◌,
}
use genia_cpp.Values.OrderedMap.{find}
use genia_cpp.Values.OrderedMap.Index.{get_elem?-assign_at, get_elem?-append_last}
use genia_cpp.Values.Environment.{
  Environment, bind, create, define, search, search_binding, lookup_from, lookup,
}
use Prim.Native.String.{String}
use text.Mathlib.Text.{◌==◌ as str_eq}
use text.Mathlib.TextEquality.{eq_iff}

pub get_elem?-bound {ℓ} :
    {A : Type ℓ} (i : ℕ) (a : A) (xs : List A) → get_elem? xs i ≡ some a → i < length xs
get_elem?-bound i a [] e = cc
get_elem?-bound zero a (x ∷ xs) e = omega arith
get_elem?-bound (suc i) a (x ∷ xs) e = omega (arith, get_elem?-bound i a xs e)

in_range {ℓ} : {A : Type ℓ} (i : ℕ) (xs : List A) → i < length xs → get_elem? xs i ≢ none
in_range i [] h e = absurd (omega (arith, h))
in_range zero (x ∷ xs) h e = cc
in_range (suc i) (x ∷ xs) h e = in_range i xs (omega (arith, h)) e

not_same : (j k : String) → j ≢ k → str_eq j k ≡ false
not_same j k h = ground (arith, eq_iff j k)

module _ {ℓ} {V : Type ℓ} where
  pub find-bind :
      (k j : String) (v : V) (xs : List (String × V))
      → find j (bind k v xs) ≡ (if str_eq k j then some v else find j xs)
  unfolding find bind
  find-bind k j v [] = refl
  find-bind k j v ((i, a) ∷ xs) =
      ground (arith, eq_iff k j, eq_iff i k, eq_iff i j, find-bind k j v xs)

  -- The parent of a scope is older.
  abbrev pub IsScoped : List (Environment V) → Type ℓ
  IsScoped scopes =
      (i p : ℕ) (scope : Environment V)
      → get_elem? scopes i ≡ some scope
      → scope.parent ≡ some p
      → p < i

  -- A new scope under one that exists keeps the order of the scopes.
  pub create-IsScoped :
      (parent : ℕ) (scopes : List (Environment V))
      → parent < length scopes
      → IsScoped scopes
      → IsScoped (create (some parent) scopes).1
  unfolding create
  create-IsScoped parent scopes h s i p scope e f = elim (Bool-cases (length scopes == i)) [
    | inl g ↦
        ground
          (arith, get_elem?-append_last scopes (record { parent = some parent; bindings = [] }) i)
    | inr g ↦
        s i p scope
          (ground (
            arith,
            get_elem?-append_last scopes (record { parent = some parent; bindings = [] }) i,
          ))
          f
  ]

  -- A scope behind a definition in it.
  abbrev rebound : String → V → Option (Environment V) → Option (Environment V)
  rebound name v none = none
  rebound name v (some scope) = some (record scope { bindings = bind name v scope.bindings })

  get_elem?-define :
      (env i : ℕ) (name : String) (v : V) (scopes : List (Environment V))
      → get_elem? (define env name v scopes) i
        ≡ (if env == i then rebound name v (get_elem? scopes i) else get_elem? scopes i)
  unfolding define
  get_elem?-define env i name v scopes = elim (Option-cases (get_elem? scopes env)) [
    | inl e ↦ rw (e, define) (ground arith)
    | inr (scope, e) ↦
        rw (e, define)
          (get_elem?-assign_at env i _ scopes (get_elem?-bound env scope scopes e)
            ∙ ground (arith, e))
  ]

  -- A definition keeps the order of the scopes.
  pub define-IsScoped :
      (env : ℕ) (name : String) (v : V) (scopes : List (Environment V))
      → IsScoped scopes
      → IsScoped (define env name v scopes)
  define-IsScoped env name v scopes s i p scope e f =
      let g = sym (get_elem?-define env i name v scopes) ∙ e in
      elim (Bool-cases (env == i)) [
        | inr h ↦ s i p scope (ground arith) f
        | inl h ↦ elim (Option-cases (get_elem? scopes i)) [
          | inl k ↦ absurd (ground arith)
          | inr (old, k) ↦ s i p old k (ground arith)
        ]
      ]

  search_binding-cong :
      (up above : ℕ → Option V) (parent : Option ℕ) (o : Option V)
      → ((p : ℕ) → parent ≡ some p → up p ≡ above p)
      → search_binding up parent o ≡ search_binding above parent o
  search_binding-cong up above parent (some v) h = refl
  search_binding-cong up above none none h = refl
  search_binding-cong up above (some p) none h = h p refl

  search-cong :
      (name : String) (up above : ℕ → Option V) (o : Option (Environment V))
      → ((scope : Environment V) (p : ℕ) → o ≡ some scope → scope.parent ≡ some p → up p ≡ above p)
      → search name up o ≡ search name above o
  search-cong name up above none h = refl
  search-cong name up above (some scope) h =
      search_binding-cong up above scope.parent (find name scope.bindings) (λ p. h scope p refl)

  search_binding-if :
      (up : ℕ → Option V) (parent : Option ℕ) (b : Bool) (v : V) (o : Option V)
      → search_binding up parent (if b then some v else o)
        ≡ (if b then some v else search_binding up parent o)
  search_binding-if up parent true v o = refl
  search_binding-if up parent false v o = refl

  -- More fuel than the number of the scope makes no difference.
  lookup_from-enough :
      (fuel more env : ℕ) (name : String) (scopes : List (Environment V))
      → IsScoped scopes
      → env < fuel
      → env < more
      → lookup_from fuel env name scopes ≡ lookup_from more env name scopes
  unfolding lookup_from
  lookup_from-enough zero more env name scopes s h k = absurd (omega (arith, h))
  lookup_from-enough (suc fuel) zero env name scopes s h k = absurd (omega (arith, k))
  lookup_from-enough (suc fuel) (suc more) env name scopes s h k =
      search-cong name (λ p. lookup_from fuel p name scopes) (λ p. lookup_from more p name scopes)
        (get_elem? scopes env)
        (λ scope p e g.
          let older = s env p scope e g in
          lookup_from-enough fuel more p name scopes s (omega (arith, older, h))
            (omega (arith, older, k)))

  -- The search in a scope: its own binding, or else what the search in its parent finds. It ends.
  pub lookup_lem :
      (env : ℕ) (name : String) (scopes : List (Environment V))
      → IsScoped scopes
      → lookup env name scopes
        ≡ search name (λ parent. lookup parent name scopes) (get_elem? scopes env)
  unfolding lookup lookup_from
  lookup_lem env name scopes s =
      search-cong name (λ p. lookup_from env p name scopes) (λ p. lookup_from (suc p) p name scopes)
        (get_elem? scopes env)
        (λ scope p e g.
          lookup_from-enough env (suc p) p name scopes s (s env p scope e g) (omega arith))

  search-rebound :
      (name other : String) (v : V) (up : ℕ → Option V) (o : Option (Environment V))
      → search other up (rebound name v o) ≡ (
          if str_eq name other
          then elim o [ none ↦ none | some scope ↦ some v ]
          else search other up o)
  search-rebound name other v up none = ground arith
  search-rebound name other v up (some scope) =
      ap (search_binding up scope.parent) (find-bind name other v scope.bindings)
      ∙ search_binding-if up scope.parent (str_eq name other) v (find other scope.bindings)

  -- A name that was defined in a scope is found there.
  pub lookup-define :
      (env : ℕ) (name : String) (v : V) (scopes : List (Environment V))
      → env < length scopes
      → lookup env name (define env name v scopes) ≡ some v
  unfolding lookup lookup_from
  lookup-define env name v scopes h = elim (Option-cases (get_elem? scopes env)) [
    | inl e ↦ absurd (in_range env scopes h e)
    | inr (scope, e) ↦
        let up : ℕ → Option V = λ p. lookup_from env p name (define env name v scopes) in
        let same : (env == env) ≡ true = ground arith in
        let found : str_eq name name ≡ true = ground (arith, eq_iff name name) in
        let hit : get_elem? (define env name v scopes) env ≡ rebound name v (some scope) =
          get_elem?-define env env name v scopes ∙ rw (same, e) refl in
        ap (search name up) hit ∙ search-rebound name name v up (some scope) ∙ rw found refl
  ]

  if_rebound :
      (b : Bool) (name other : String) (v : V) (up : ℕ → Option V) (o : Option (Environment V))
      → name ≢ other
      → search other up (if b then rebound name v o else o) ≡ search other up o
  if_rebound false name other v up o h = refl
  if_rebound true name other v up o h =
      search-rebound name other v up o ∙ rw (not_same name other h) refl

  lookup_from-define_other :
      (fuel env scope : ℕ) (name other : String) (v : V) (scopes : List (Environment V))
      → name ≢ other
      → lookup_from fuel scope other (define env name v scopes)
        ≡ lookup_from fuel scope other scopes
  unfolding lookup_from
  lookup_from-define_other zero env scope name other v scopes h = refl
  lookup_from-define_other (suc fuel) env scope name other v scopes h =
      let up : ℕ → Option V = λ p. lookup_from fuel p other (define env name v scopes) in
      ap (search other up) (get_elem?-define env scope name v scopes)
      ∙ if_rebound (env == scope) name other v up (get_elem? scopes scope) h
      ∙ search-cong other up (λ p. lookup_from fuel p other scopes) (get_elem? scopes scope)
          (λ found p e g. lookup_from-define_other fuel env p name other v scopes h)

  -- A definition, in whatever scope, does not change what another name is found as.
  pub lookup-define_other :
      (env scope : ℕ) (name other : String) (v : V) (scopes : List (Environment V))
      → name ≢ other
      → lookup scope other (define env name v scopes) ≡ lookup scope other scopes
  unfolding lookup
  lookup-define_other env scope name other v scopes h =
      lookup_from-define_other (suc scope) env scope name other v scopes h
