-- ===== src/Syntax/Lowering/Supported.antt =====
-- src/lowering.hpp: which trees have a lowering.
use genia_cpp.Base.{
  ◌≡◌, refl, ◌∙◌, Bool, true, false, ◌&&◌, ◌||◌, Option, none, some, inl, inr, Bool-cases, ◌>>=◌,
  String, str_eq, arith, List, [], ◌∷◌,
}
use genia_cpp.Syntax.Ast
use genia_cpp.Syntax.CoreIr
use genia_cpp.Syntax.Lowering.{
  lower_op, whole, lower_flat, lower_nodes, lower_node, lower_guards, lower_entries,
}

-- A text is one of a list.
unfoldable pub one_of : List String → String → Bool
one_of [] symbol = false
one_of (s ∷ symbols) symbol = str_eq symbol s || one_of symbols symbol

abbrev pub operators : List String
operators = "+" ∷ "-" ∷ "*" ∷ "/" ∷ "%" ∷ "==" ∷ "!=" ∷ "<" ∷ "<=" ∷ ">" ∷ ">=" ∷ []

-- Every operator is known, where a chain may also have `|>`, and no lambda has clauses.
unfoldable mutual
  pub is_supported : Ast.Node → Bool
  is_supported (Ast.Node.literal digits) = true
  is_supported (Ast.Node.decimal_literal digits exponent) = true
  is_supported (Ast.Node.string_literal text) = true
  is_supported (Ast.Node.bool_literal value) = true
  is_supported (Ast.Node.var name line) = true
  is_supported (Ast.Node.unary symbol left) = one_of operators symbol && is_supported left
  is_supported (Ast.Node.quote left) = is_supported left
  is_supported (Ast.Node.quasi_quote left) = is_supported left
  is_supported (Ast.Node.binary symbol left right access) =
      (str_eq symbol "|>" || one_of operators symbol) && (is_supported left && is_supported right)
  is_supported (Ast.Node.list items) = all_supported items
  is_supported (Ast.Node.block items) = all_supported items
  is_supported (Ast.Node.assign name left) = is_supported left
  is_supported (Ast.Node.call name items line) = all_supported items
  is_supported (Ast.Node.lambda params left) = is_supported left
  is_supported (Ast.Node.lambda_case patterns results) = false
  is_supported (Ast.Node.func_def name header params left docstring) = is_supported left
  is_supported (Ast.Node.func_def_case name header patterns results guards docstring) =
      all_supported results && guards_supported guards
  is_supported (Ast.Node.open_func_def name patterns results guards) =
      all_supported results && guards_supported guards
  is_supported (Ast.Node.map_literal entries) = entries_supported entries
  is_supported (Ast.Node.spread left) = is_supported left

  pub all_supported : Ast.Nodes → Bool
  all_supported Ast.Nodes.nil = true
  all_supported (Ast.Nodes.cons node nodes) = is_supported node && all_supported nodes

  pub guards_supported : Ast.Guards → Bool
  guards_supported Ast.Guards.done = true
  guards_supported (Ast.Guards.unguarded guards) = guards_supported guards
  guards_supported (Ast.Guards.guarded guard guards) = is_supported guard && guards_supported guards

  pub entries_supported : Ast.MapEntries → Bool
  entries_supported Ast.MapEntries.end = true
  entries_supported (Ast.MapEntries.entry key value entries) =
      is_supported value && entries_supported entries

abbrev pub is_some : {A : Type 0} → Option A → Bool
is_some none = false
is_some (some a) = true

is_some-lower_op : (symbol : String) → is_some (lower_op symbol) ≡ one_of operators symbol
unfolding lower_op one_of
is_some-lower_op symbol = ground arith

is_some-whole : (o : Option (CoreIr.Node × CoreIr.Nodes)) → is_some (whole o) ≡ is_some o
is_some-whole none = refl
is_some-whole (some flat) = refl

whole_is :
    (o : Option (CoreIr.Node × CoreIr.Nodes)) (p : Bool) → is_some o ≡ p → is_some (whole o) ≡ p
whole_is o p e = is_some-whole o ∙ e

-- A chain of computations has a result where each part has one.
bind_total :
    {A B : Type 0} (o : Option A) (f : A → Option B) (p q : Bool)
    → is_some o ≡ p
    → ((a : A) → is_some (f a) ≡ q)
    → is_some (o >>= f) ≡ (p && q)
bind_total none f false q e h = refl
bind_total none f true q e h = cc
bind_total (some a) f true q e h = h a
bind_total (some a) f false q e h = cc

and_true : (p : Bool) → (p && true) ≡ p
and_true true = refl
and_true false = refl

bind_one :
    {A B : Type 0} (o : Option A) (f : A → Option B) (p : Bool)
    → is_some o ≡ p
    → ((a : A) → is_some (f a) ≡ true)
    → is_some (o >>= f) ≡ p
bind_one o f p e h = bind_total o f p true e h ∙ and_true p

mutual
  unfolding lower_flat is_supported

  flat_total : (node : Ast.Node) → is_some (lower_flat node) ≡ is_supported node
  flat_total (Ast.Node.literal digits) = refl
  flat_total (Ast.Node.decimal_literal digits exponent) = refl
  flat_total (Ast.Node.string_literal text) = refl
  flat_total (Ast.Node.bool_literal value) = refl
  flat_total (Ast.Node.var name line) = refl
  flat_total (Ast.Node.unary symbol left) =
      bind_total (lower_op symbol) _ _ _ (is_some-lower_op symbol) (λ op.
        bind_one (whole (lower_flat left)) _ _ (whole_is (lower_flat left) _ (flat_total left))
          (λ x. refl))
  flat_total (Ast.Node.quote left) =
      bind_one (whole (lower_flat left)) _ _ (whole_is (lower_flat left) _ (flat_total left))
        (λ x. refl)
  flat_total (Ast.Node.quasi_quote left) =
      bind_one (whole (lower_flat left)) _ _ (whole_is (lower_flat left) _ (flat_total left))
        (λ x. refl)
  flat_total (Ast.Node.binary symbol left right access) = elim (Bool-cases (str_eq symbol "|>")) [
    | inl e ↦ rw e (
        bind_total (lower_flat left) _ _ _ (flat_total left) (λ flat.
          bind_one (whole (lower_flat right)) _ _ (whole_is (lower_flat right) _ (flat_total right))
            (λ x. refl)))
    | inr e ↦ rw e (
        bind_total (lower_op symbol) _ _ _ (is_some-lower_op symbol) (λ op.
          bind_total (whole (lower_flat left)) _ _ _
            (whole_is (lower_flat left) _ (flat_total left))
            (λ x.
              bind_one (whole (lower_flat right)) _ _
                (whole_is (lower_flat right) _ (flat_total right)) (λ y. refl))))
  ]
  flat_total (Ast.Node.list items) =
      bind_one (lower_nodes items) _ _ (nodes_total items) (λ x. refl)
  flat_total (Ast.Node.block items) =
      bind_one (lower_nodes items) _ _ (nodes_total items) (λ x. refl)
  flat_total (Ast.Node.assign name left) =
      bind_one (whole (lower_flat left)) _ _ (whole_is (lower_flat left) _ (flat_total left))
        (λ x. refl)
  flat_total (Ast.Node.call name items line) =
      bind_one (lower_nodes items) _ _ (nodes_total items) (λ x. refl)
  flat_total (Ast.Node.lambda params left) =
      bind_one (whole (lower_flat left)) _ _ (whole_is (lower_flat left) _ (flat_total left))
        (λ x. refl)
  flat_total (Ast.Node.lambda_case patterns results) = refl
  flat_total (Ast.Node.func_def name header params left docstring) =
      bind_one (whole (lower_flat left)) _ _ (whole_is (lower_flat left) _ (flat_total left))
        (λ x. refl)
  flat_total (Ast.Node.func_def_case name header patterns results guards docstring) =
      bind_total (lower_nodes results) _ _ _ (nodes_total results)
        (λ x. bind_one (lower_guards guards) _ _ (guards_total guards) (λ y. refl))
  flat_total (Ast.Node.open_func_def name patterns results guards) =
      bind_total (lower_nodes results) _ _ _ (nodes_total results)
        (λ x. bind_one (lower_guards guards) _ _ (guards_total guards) (λ y. refl))
  flat_total (Ast.Node.map_literal entries) =
      bind_one (lower_entries entries) _ _ (entries_total entries) (λ x. refl)
  flat_total (Ast.Node.spread left) =
      bind_one (whole (lower_flat left)) _ _ (whole_is (lower_flat left) _ (flat_total left))
        (λ x. refl)

  nodes_total : (nodes : Ast.Nodes) → is_some (lower_nodes nodes) ≡ all_supported nodes
  nodes_total Ast.Nodes.nil = refl
  nodes_total (Ast.Nodes.cons node nodes) =
      bind_total (whole (lower_flat node)) _ _ _ (whole_is (lower_flat node) _ (flat_total node))
        (λ x. bind_one (lower_nodes nodes) _ _ (nodes_total nodes) (λ y. refl))

  guards_total : (guards : Ast.Guards) → is_some (lower_guards guards) ≡ guards_supported guards
  guards_total Ast.Guards.done = refl
  guards_total (Ast.Guards.unguarded guards) =
      bind_one (lower_guards guards) _ _ (guards_total guards) (λ x. refl)
  guards_total (Ast.Guards.guarded guard guards) =
      bind_total (whole (lower_flat guard)) _ _ _ (whole_is (lower_flat guard) _ (flat_total guard))
        (λ x. bind_one (lower_guards guards) _ _ (guards_total guards) (λ y. refl))

  entries_total :
      (entries : Ast.MapEntries) → is_some (lower_entries entries) ≡ entries_supported entries
  entries_total Ast.MapEntries.end = refl
  entries_total (Ast.MapEntries.entry key value entries) =
      bind_total (whole (lower_flat value)) _ _ _ (whole_is (lower_flat value) _ (flat_total value))
        (λ x. bind_one (lower_entries entries) _ _ (entries_total entries) (λ y. refl))

-- A node has a lowering exactly where all its operators are known and no lambda has clauses.
pub is_some-lower_node : (node : Ast.Node) → is_some (lower_node node) ≡ is_supported node
unfolding lower_node
is_some-lower_node node = is_some-whole (lower_flat node) ∙ flat_total node
