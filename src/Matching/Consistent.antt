-- ===== src/Matching/Consistent.antt =====
-- src/pattern_match.hpp: the bindings of a match agree with each other.
use genia_cpp.Base.{
  ℕ, zero, suc, ◌<◌, ◌≡◌, ◌⊎◌, refl, sym, ap, subst, ◌∙◌, Bool, true, false, ◌&&◌, not,
  if◌then◌else◌, Option, none, some, List, [], ◌∷◌, ◌++◌, ◌>>=◌, String, str_eq, str_eq_iff, arith,
  get_elem?, length, ◌==◌, inl, inr, codes,
}
use genia_cpp.Bignum.Decimal.{from_unsigned_decimal}
use genia_cpp.Syntax.Pattern.{Pattern, Patterns, PatternEntries}
use genia_cpp.Values.Value.{Text, Value, ValueEntries, MaybeValue, to_list, from_list}
use genia_cpp.Values.OrderedMap.Index.{get_elem?-append_last}
use genia_cpp.Numbers.Fractions.{map_key_encoding}
use genia_cpp.Matching.Equality.{structural_equal, map_get}
use genia_cpp.Matching.Match.{
  Bindings, conflicts, merge_bindings, merged, is_rest, literal_match, rest_match, list_match,
  map_match, err_match, some_match, context_or_false, next_match, match_atom, match_items,
  match_keys, match_positions, match_single, match_args,
}

-- Of two bindings of one name, the value of the first equals that of the second.
abbrev pub IsConsistent : Bindings → Type 0
IsConsistent bindings =
    (i j : ℕ) (b c : String × Value)
    → i < j
    → get_elem? bindings i ≡ some b
    → get_elem? bindings j ≡ some c
    → b.0 ≡ c.0
    → structural_equal b.1 c.1 ≡ true

some-value : {A : Type 0} (a b : A) → some a ≡ some b → a ≡ b
some-value a b e = ap (value_or a) e
  where
    value_or : {A : Type 0} → A → Option A → A
    value_or x none = x
    value_or x (some y) = y

equal_here : (s t r : Bool) → (if s && not t then true else r) ≡ false → s ≡ true → t ≡ true
equal_here true true r h e = refl
equal_here true false r h e = absurd (ground (arith, h))
equal_here false t r h e = absurd (ground (arith, e))

free_later : (s r : Bool) → (if s then true else r) ≡ false → r ≡ false
free_later true r h = absurd (ground (arith, h))
free_later false r h = h

elem_below :
    (bindings : Bindings) (i : ℕ) (b : String × Value)
    → get_elem? bindings i ≡ some b
    → i < length bindings
elem_below [] i b e = absurd (ground (arith, e))
elem_below (x ∷ bindings) zero b e = omega arith
elem_below (x ∷ bindings) (suc i) b e = omega (arith, elem_below bindings i b e)

-- The last element, or an earlier one.
snoc-cases :
    (into : Bindings) (b x : String × Value) (i : ℕ)
    → get_elem? (into ++ b ∷ []) i ≡ some x
    → ((length into ≡ i) × (b ≡ x)) ⊎ (get_elem? into i ≡ some x)
snoc-cases into b x i e = by_test (length into == i) refl (sym (get_elem?-append_last into b i) ∙ e)
  where
    by_test :
        (t : Bool)
        → (length into == i) ≡ t
        → (if t then some b else get_elem? into i) ≡ some x
        → ((length into ≡ i) × (b ≡ x)) ⊎ (get_elem? into i ≡ some x)
    by_test true h f = inl (ground (arith, h), some-value b x f)
    by_test false h f = inr f

no_conflict :
    (into : Bindings) (i : ℕ) (b c : String × Value)
    → conflicts into c ≡ false
    → get_elem? into i ≡ some b
    → b.0 ≡ c.0
    → structural_equal b.1 c.1 ≡ true
no_conflict [] i b c h e n = absurd (ground (arith, e))
no_conflict ((name, value) ∷ into) zero b c h e n =
    let same = some-value (name, value) b e in
    subst (λ v. structural_equal v c.1 ≡ true) (ap (λ x. x.1) same)
      (equal_here (str_eq name c.0) (structural_equal value c.1) (conflicts into c) h
        ((str_eq_iff name c.0).1 (ap (λ x. x.0) same ∙ n)))
no_conflict ((name, value) ∷ into) (suc i) b c h e n =
    no_conflict into i b c
      (free_later (str_eq name c.0 && not (structural_equal value c.1)) (conflicts into c) h) e n

empty-IsConsistent : IsConsistent []
empty-IsConsistent i j b c less e f n = absurd (ground (arith, e))

snoc-IsConsistent :
    (into : Bindings) (b : String × Value)
    → IsConsistent into
    → conflicts into b ≡ false
    → IsConsistent (into ++ b ∷ [])
snoc-IsConsistent into b h free i j x y less e f n = elim (snoc-cases into b y j f) [
  | inl (at_end, same) ↦ elim (snoc-cases into b x i e) [
    | inl (also, other) ↦ absurd (omega (arith, less, at_end, also))
    | inr earlier ↦
        subst (λ v. structural_equal x.1 v ≡ true) (ap (λ z. z.1) same)
          (no_conflict into i x b free earlier (n ∙ ap (λ z. z.0) (sym same)))
  ]
  | inr later ↦ elim (snoc-cases into b x i e) [
    | inl (also, other) ↦ absurd (omega (arith, less, also, elem_below into j y later))
    | inr earlier ↦ h i j x y less earlier later n
  ]
]

-- No match, or bindings that agree.
abbrev Agree : Option Bindings → Type 0
Agree none = Unit
Agree (some bindings) = IsConsistent bindings

if-Agree : (b : Bool) (x y : Option Bindings) → Agree x → Agree y → Agree (if b then x else y)
if-Agree true x y h k = h
if-Agree false x y h k = k

if_free : (b : Bool) (r : Option Bindings) → (b ≡ false → Agree r) → Agree (if b then none else r)
if_free true r h = tt
if_free false r h = h refl

merge-Agree : (from into : Bindings) → IsConsistent into → Agree (merge_bindings into from)
unfolding merge_bindings
merge-Agree [] into h = h
merge-Agree (b ∷ from) into h =
    if_free (conflicts into b) (merge_bindings (into ++ b ∷ []) from)
      (λ free. merge-Agree from (into ++ b ∷ []) (snoc-IsConsistent into b h free))

merged-Agree :
    (into : Bindings) (sub : Option Bindings) → IsConsistent into → Agree (merged into sub)
merged-Agree into none h = tt
merged-Agree into (some from) h = merge-Agree from into h

bind-Agree :
    (r : Option Bindings) (f : Bindings → Option Bindings)
    → Agree r
    → ((b : Bindings) → IsConsistent b → Agree (f b))
    → Agree (r >>= f)
bind-Agree none f h k = tt
bind-Agree (some b) f h k = k b h

any-Agree :
    {A : Type 0} (r : Option A) (f : A → Option Bindings)
    → ((a : A) → Agree (f a))
    → Agree (r >>= f)
any-Agree none f k = tt
any-Agree (some a) f k = k a

next-Agree :
    (head : Value → Option Bindings) (rest : List Value → Bindings → Option Bindings)
    → (elements : List Value) (result : Bindings) → IsConsistent result
    → ((others : List Value) (next : Bindings) → IsConsistent next → Agree (rest others next))
    → Agree (next_match head rest elements result)
next-Agree head rest [] result h k = tt
next-Agree head rest (x ∷ elements) result h k =
    bind-Agree (merged result (head x)) (λ next. rest elements next)
      (merged-Agree result (head x) h) (λ next good. k elements next good)

items-Agree :
    (items : Patterns) (elements : List Value) (result : Bindings)
    → IsConsistent result
    → Agree (match_items items elements result)
unfolding match_items
items-Agree Patterns.nil [] result h = h
items-Agree Patterns.nil (x ∷ elements) result h = tt
items-Agree (Patterns.cons p items) elements result h =
    if-Agree (is_rest p) (merged result (match_atom p (Value.list (from_list elements))))
      (next_match (λ v. match_atom p v) (λ others next. match_items items others next) elements
        result)
      (merged-Agree result (match_atom p (Value.list (from_list elements))) h)
      (next-Agree (λ v. match_atom p v) (λ others next. match_items items others next) elements
        result h (λ others next good. items-Agree items others next good))

keys-Agree :
    (entries : PatternEntries) (candidates : ValueEntries) (index : List (Text × ℕ))
    → (result : Bindings) → IsConsistent result
    → Agree (match_keys entries candidates index result)
unfolding match_keys
keys-Agree PatternEntries.end candidates index result h = h
keys-Agree (PatternEntries.entry key p entries) candidates index result h =
    any-Agree (map_get (map_key_encoding (Value.string (codes key))) candidates index)
      (λ found.
        merged result (match_atom p found) >>= λ next. match_keys entries candidates index next)
      (λ found.
        bind-Agree (merged result (match_atom p found))
          (λ next. match_keys entries candidates index next)
          (merged-Agree result (match_atom p found) h)
          (λ next good. keys-Agree entries candidates index next good))

one-IsConsistent : (b : String × Value) → IsConsistent (b ∷ [])
one-IsConsistent b = snoc-IsConsistent [] b empty-IsConsistent refl

rest-Agree : (name : String) (arg : Value) → Agree (rest_match name arg)
rest-Agree name arg =
    if-Agree (str_eq name "") (some []) (some ((name, arg) ∷ [])) empty-IsConsistent
      (one-IsConsistent (name, arg))

literal-Agree : (literal arg : Value) → Agree (literal_match literal arg)
literal-Agree literal arg =
    if-Agree (structural_equal literal arg) (some []) none empty-IsConsistent tt

list-Agree :
    (f : List Value → Option Bindings) (arg : Value)
    → ((elements : List Value) → Agree (f elements))
    → Agree (list_match f arg)
list-Agree f (Value.list items) h = h (to_list items)
list-Agree f v h = tt

map-Agree :
    (f : ValueEntries → List (Text × ℕ) → Option Bindings) (arg : Value)
    → ((entries : ValueEntries) (index : List (Text × ℕ)) → Agree (f entries index))
    → Agree (map_match f arg)
map-Agree f (Value.map entries index) h = h entries index
map-Agree f v h = tt

err-Agree :
    (f g : Value → Option Bindings) (arg : Value)
    → ((v : Value) → Agree (f v))
    → Agree (err_match f g arg)
err-Agree f g (Value.outcome_err reason (MaybeValue.present context)) h =
    bind-Agree (f reason) (λ bindings. merged bindings (g context)) (h reason)
      (λ bindings good. merged-Agree bindings (g context) good)
err-Agree f g v h = tt

some-Agree :
    (f g : Value → Option Bindings) (arg : Value)
    → ((v : Value) → Agree (f v))
    → Agree (some_match f g arg)
some-Agree f g (Value.outcome_some value context) h =
    bind-Agree (f value) (λ bindings. merged bindings (g (context_or_false context))) (h value)
      (λ bindings good. merged-Agree bindings (g (context_or_false context)) good)
some-Agree f g v h = tt

atom-Agree : (p : Pattern) (arg : Value) → Agree (match_atom p arg)
unfolding match_atom
atom-Agree Pattern.wildcard arg = empty-IsConsistent
atom-Agree (Pattern.bind name) arg = one-IsConsistent (name, arg)
atom-Agree (Pattern.rest name) arg = rest-Agree name arg
atom-Agree (Pattern.list items) arg =
    list-Agree (λ elements. match_items items elements []) arg
      (λ elements. items-Agree items elements [] empty-IsConsistent)
atom-Agree (Pattern.map entries) arg =
    map-Agree (λ candidates index. match_keys entries candidates index []) arg
      (λ candidates index. keys-Agree entries candidates index [] empty-IsConsistent)
atom-Agree (Pattern.tuple items) arg = tt
atom-Agree (Pattern.string_literal text) arg = literal-Agree (Value.string (codes text)) arg
atom-Agree (Pattern.decimal_literal digits exponent) arg =
    any-Agree (from_unsigned_decimal (codes digits))
      (λ c. literal_match (Value.decimal c exponent) arg)
      (λ c. literal-Agree (Value.decimal c exponent) arg)
atom-Agree (Pattern.integer_literal digits) arg =
    any-Agree (from_unsigned_decimal (codes digits)) (λ n. literal_match (Value.integer n) arg)
      (λ n. literal-Agree (Value.integer n) arg)
atom-Agree (Pattern.err reason context) arg =
    err-Agree (λ v. match_atom reason v) (λ v. match_atom context v) arg (λ v. atom-Agree reason v)
atom-Agree (Pattern.some_of value context) arg =
    some-Agree (λ v. match_atom value v) (λ v. match_atom context v) arg (λ v. atom-Agree value v)

positions-Agree :
    (items : Patterns) (args : List Value) (result : Bindings)
    → IsConsistent result
    → Agree (match_positions items args result)
unfolding match_positions
positions-Agree Patterns.nil [] result h = h
positions-Agree Patterns.nil (x ∷ args) result h = tt
positions-Agree (Patterns.cons p items) args result h =
    next-Agree (match_atom p) (λ others next. match_positions items others next) args result h
      (λ others next good. positions-Agree items others next good)

single-Agree : (p : Pattern) (args : List Value) → Agree (match_single p args)
single-Agree p [] = tt
single-Agree p (x ∷ []) = atom-Agree p x
single-Agree p (x ∷ y ∷ args) = tt

args-Agree : (p : Pattern) (args : List Value) → Agree (match_args p args)
unfolding match_args
args-Agree (Pattern.tuple items) args = positions-Agree items args [] empty-IsConsistent
args-Agree p args = single-Agree p args

-- The bindings of a match give equal values to equal names: where a name is bound twice, the value of
-- the first binding equals that of the second.
pub match_args-IsConsistent :
    (p : Pattern) (args : List Value) (bindings : Bindings)
    → match_args p args ≡ some bindings
    → IsConsistent bindings
match_args-IsConsistent p args bindings e = subst Agree e (args-Agree p args)
