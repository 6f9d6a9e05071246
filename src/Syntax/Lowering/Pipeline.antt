-- ===== src/Syntax/Lowering/Pipeline.antt =====
-- src/lowering.hpp: a chain is flattened, and then its source and its stages are lowered.
use genia_cpp.Base.{
  ◌≡◌, refl, ap, sym, ◌∙◌, Bool, false, Option, none, some, inl, inr, Bool-cases, ◌>>=◌, String,
  str_eq, List, [], ◌∷◌,
}
use genia_cpp.Syntax.Ast
use genia_cpp.Syntax.CoreIr
use genia_cpp.Syntax.Lowering.{
  lower_op, snoc, snoc_lowered, flatten_pipeline, whole, single, lower_flat, lower_nodes,
  lower_node, lower_guards, lower_entries,
}

-- A result that has no stages is that of the whole node.
pub data IsSingle : Option (CoreIr.Node × CoreIr.Nodes) → Type 0 where
  fails : IsSingle none
  alone : (node : CoreIr.Node) → IsSingle (single node)

-- What the source does with the source and the stages of a chain.
abbrev pub lower_parts :
    Option CoreIr.Node → Option CoreIr.Nodes → Option (CoreIr.Node × CoreIr.Nodes)
lower_parts source stages = source >>= λ s. stages >>= λ st. some (s, st)

single_lem :
    {o : Option (CoreIr.Node × CoreIr.Nodes)}
    → IsSingle o
    → o ≡ lower_parts (whole o) (some CoreIr.Nodes.nil)
single_lem IsSingle.fails = refl
single_lem (IsSingle.alone node) = refl

bind-IsSingle :
    {A : Type 0} (o : Option A) (f : A → Option (CoreIr.Node × CoreIr.Nodes))
    → ((a : A) → IsSingle (f a))
    → IsSingle (o >>= f)
bind-IsSingle none f h = IsSingle.fails
bind-IsSingle (some a) f h = h a

-- A chain with one stage more.
abbrev extend :
    Option CoreIr.Node → Option (CoreIr.Node × CoreIr.Nodes) → Option (CoreIr.Node × CoreIr.Nodes)
extend last chain = chain >>= λ flat. last >>= λ stage. some (flat.0, snoc_lowered flat.1 stage)

chain_lem :
    (source : Option CoreIr.Node) (stages : Option CoreIr.Nodes) (last : Option CoreIr.Node)
    → extend last (lower_parts source stages)
      ≡ lower_parts source (stages >>= λ st. last >>= λ stage. some (snoc_lowered st stage))
chain_lem none stages last = refl
chain_lem (some s) none last = refl
chain_lem (some s) (some st) none = refl
chain_lem (some s) (some st) (some x) = refl

snoc_nil :
    (last : Option CoreIr.Node)
    → (last >>= λ lowered. some CoreIr.Nodes.nil >>= λ rest. some (CoreIr.Nodes.cons lowered rest))
      ≡ (last >>= λ stage. some (snoc_lowered CoreIr.Nodes.nil stage))
unfolding snoc_lowered
snoc_nil none = refl
snoc_nil (some x) = refl

snoc_cons :
    (first : Option CoreIr.Node) (nodes : Option CoreIr.Nodes) (last : Option CoreIr.Node)
    → (first >>= λ lowered.
        (nodes >>= λ st. last >>= λ stage. some (snoc_lowered st stage)) >>= λ rest.
        some (CoreIr.Nodes.cons lowered rest))
      ≡ ((first >>= λ lowered. nodes >>= λ rest. some (CoreIr.Nodes.cons lowered rest)) >>= λ st.
          last >>= λ stage. some (snoc_lowered st stage))
unfolding snoc_lowered
snoc_cons none nodes last = refl
snoc_cons (some x) none last = refl
snoc_cons (some x) (some st) none = refl
snoc_cons (some x) (some st) (some stage) = refl

lower_nodes-snoc :
    (nodes : Ast.Nodes) (last : Ast.Node)
    → lower_nodes (snoc nodes last)
      ≡ (lower_nodes nodes >>= λ st. lower_node last >>= λ stage. some (snoc_lowered st stage))
unfolding lower_flat snoc lower_node
lower_nodes-snoc Ast.Nodes.nil last = snoc_nil (whole (lower_flat last))
lower_nodes-snoc (Ast.Nodes.cons node nodes) last =
    rw (lower_nodes-snoc nodes last)
      (snoc_cons (whole (lower_flat node)) (lower_nodes nodes) (whole (lower_flat last)))

-- A binary node that is no chain has no stages.
binary_lem :
    (o : Option CoreIr.Op) (l r : Option CoreIr.Node) (access : Bool)
    → IsSingle (o >>= λ op. l >>= λ x. r >>= λ y. single (CoreIr.Node.binary op x y access))
binary_lem o l r access =
    bind-IsSingle o _ (λ op. bind-IsSingle l _ (λ x. bind-IsSingle r _ (λ y. IsSingle.alone _)))

plain-IsSingle :
    (symbol : String) (left right : Ast.Node) (access : Bool)
    → str_eq symbol "|>" ≡ false
    → IsSingle (lower_flat (Ast.Node.binary symbol left right access))
unfolding lower_flat
plain-IsSingle symbol left right access e =
    rw e (binary_lem (lower_op symbol) (whole (lower_flat left)) (whole (lower_flat right)) access)

plain_flatten :
    (symbol : String) (left right : Ast.Node) (access : Bool)
    → str_eq symbol "|>" ≡ false
    → flatten_pipeline (Ast.Node.binary symbol left right access)
      ≡ (Ast.Node.binary symbol left right access, Ast.Nodes.nil)
unfolding flatten_pipeline
plain_flatten symbol left right access e = rw e refl

abbrev lower_flattened : Ast.Node × Ast.Nodes → Option (CoreIr.Node × CoreIr.Nodes)
lower_flattened flat = lower_parts (lower_node flat.0) (lower_nodes flat.1)

-- Every node gives the lowered source and stages of its flattening.
flat_lem :
    (node : Ast.Node)
    → lower_flat node
      ≡ lower_parts (lower_node (flatten_pipeline node).0) (lower_nodes (flatten_pipeline node).1)
unfolding lower_flat flatten_pipeline lower_node
flat_lem (Ast.Node.binary symbol left right access) = elim (Bool-cases (str_eq symbol "|>")) [
  | inl e ↦ rw e (
      ap (extend (whole (lower_flat right))) (flat_lem left)
      ∙ chain_lem (lower_node (flatten_pipeline left).0) (lower_nodes (flatten_pipeline left).1)
          (whole (lower_flat right))
      ∙ ap (lower_parts (lower_node (flatten_pipeline left).0))
          (sym (lower_nodes-snoc (flatten_pipeline left).1 right)))
  | inr e ↦
      single_lem (plain-IsSingle symbol left right access e)
      ∙ ap lower_flattened (sym (plain_flatten symbol left right access e))
]
flat_lem (Ast.Node.literal digits) = refl
flat_lem (Ast.Node.decimal_literal digits exponent) = refl
flat_lem (Ast.Node.string_literal text) = refl
flat_lem (Ast.Node.bool_literal value) = refl
flat_lem (Ast.Node.var name line) = refl
flat_lem (Ast.Node.quote left) =
    single_lem (bind-IsSingle (whole (lower_flat left)) _ (λ x. IsSingle.alone _))
flat_lem (Ast.Node.quasi_quote left) =
    single_lem (bind-IsSingle (whole (lower_flat left)) _ (λ x. IsSingle.alone _))
flat_lem (Ast.Node.list items) =
    single_lem (bind-IsSingle (lower_nodes items) _ (λ x. IsSingle.alone _))
flat_lem (Ast.Node.block items) =
    single_lem (bind-IsSingle (lower_nodes items) _ (λ x. IsSingle.alone _))
flat_lem (Ast.Node.assign name left) =
    single_lem (bind-IsSingle (whole (lower_flat left)) _ (λ x. IsSingle.alone _))
flat_lem (Ast.Node.call name items line) =
    single_lem (bind-IsSingle (lower_nodes items) _ (λ x. IsSingle.alone _))
flat_lem (Ast.Node.lambda params left) =
    single_lem (bind-IsSingle (whole (lower_flat left)) _ (λ x. IsSingle.alone _))
flat_lem (Ast.Node.lambda_case patterns results) = single_lem (IsSingle.fails)
flat_lem (Ast.Node.func_def name header params left docstring) =
    single_lem (bind-IsSingle (whole (lower_flat left)) _ (λ x. IsSingle.alone _))
flat_lem (Ast.Node.func_def_case name header patterns results guards docstring) = single_lem (
    bind-IsSingle (lower_nodes results) _
      (λ x. bind-IsSingle (lower_guards guards) _ (λ y. IsSingle.alone _)))
flat_lem (Ast.Node.open_func_def name patterns results guards) = single_lem (
    bind-IsSingle (lower_nodes results) _
      (λ x. bind-IsSingle (lower_guards guards) _ (λ y. IsSingle.alone _)))
flat_lem (Ast.Node.map_literal entries) =
    single_lem (bind-IsSingle (lower_entries entries) _ (λ x. IsSingle.alone _))
flat_lem (Ast.Node.spread left) =
    single_lem (bind-IsSingle (whole (lower_flat left)) _ (λ x. IsSingle.alone _))
flat_lem (Ast.Node.unary symbol left) = single_lem (
    bind-IsSingle (lower_op symbol) _
      (λ x. bind-IsSingle (whole (lower_flat left)) _ (λ y. IsSingle.alone _)))

-- The tree that the parser builds for `source |> stage |> …`, which associates to the left; each
-- stage comes with the flag of its operator's node.
abbrev pub chain : Ast.Node → List (Ast.Node × Bool) → Ast.Node
chain source [] = source
chain source ((stage, access) ∷ stages) = chain (Ast.Node.binary "|>" source stage access) stages

-- The nodes of a list, each lowered, in its order.
abbrev pub lower_each : List (Ast.Node × Bool) → Option CoreIr.Nodes
lower_each [] = some CoreIr.Nodes.nil
lower_each ((stage, access) ∷ stages) = do
  let others = lower_each stages
  lowered ← lower_node stage
  rest ← others
  some (CoreIr.Nodes.cons lowered rest)

abbrev pub is_chain : Ast.Node → Bool
is_chain (Ast.Node.binary op left right access) = str_eq op "|>"
is_chain node = false

stage_nodes : List (Ast.Node × Bool) → Ast.Nodes
stage_nodes [] = Ast.Nodes.nil
stage_nodes ((stage, access) ∷ stages) = Ast.Nodes.cons stage (stage_nodes stages)

join : Ast.Nodes → Ast.Nodes → Ast.Nodes
join Ast.Nodes.nil others = others
join (Ast.Nodes.cons node nodes) others = Ast.Nodes.cons node (join nodes others)

join-nil : (nodes : Ast.Nodes) → join nodes Ast.Nodes.nil ≡ nodes
unfolding join
join-nil Ast.Nodes.nil = refl
join-nil (Ast.Nodes.cons node nodes) = ap (Ast.Nodes.cons node) (join-nil nodes)

join-snoc :
    (nodes : Ast.Nodes) (node : Ast.Node) (others : Ast.Nodes)
    → join (snoc nodes node) others ≡ join nodes (Ast.Nodes.cons node others)
unfolding join snoc
join-snoc Ast.Nodes.nil node others = refl
join-snoc (Ast.Nodes.cons x nodes) node others = ap (Ast.Nodes.cons x) (join-snoc nodes node others)

flatten-chain :
    (source : Ast.Node) (stages : List (Ast.Node × Bool))
    → flatten_pipeline (chain source stages)
      ≡ ((flatten_pipeline source).0, join (flatten_pipeline source).1 (stage_nodes stages))
unfolding flatten_pipeline stage_nodes
flatten-chain source [] =
    ap (λ nodes. ((flatten_pipeline source).0, nodes)) (sym (join-nil (flatten_pipeline source).1))
flatten-chain source ((stage, access) ∷ stages) =
    flatten-chain (Ast.Node.binary "|>" source stage access) stages
    ∙ ap (λ nodes. ((flatten_pipeline source).0, nodes))
        (join-snoc (flatten_pipeline source).1 stage (stage_nodes stages))

flatten-ne-chain :
    (source : Ast.Node)
    → is_chain source ≡ false
    → flatten_pipeline source ≡ (source, Ast.Nodes.nil)
unfolding flatten_pipeline
flatten-ne-chain (Ast.Node.binary op left right access) e = rw e refl
flatten-ne-chain _ e = refl

lower_nodes-stage_nodes :
    (stages : List (Ast.Node × Bool)) → lower_nodes (stage_nodes stages) ≡ lower_each stages
unfolding stage_nodes lower_flat lower_node
lower_nodes-stage_nodes [] = refl
lower_nodes-stage_nodes ((stage, access) ∷ stages) = rw (lower_nodes-stage_nodes stages) refl

-- A pipeline is made where there is a stage.
whole_lem :
    (source first : Option CoreIr.Node) (rest : Option CoreIr.Nodes)
    → whole (
        lower_parts source
          (first >>= λ lowered. rest >>= λ nodes. some (CoreIr.Nodes.cons lowered nodes)))
      ≡ (source >>= λ s.
          (first >>= λ lowered. rest >>= λ nodes. some (CoreIr.Nodes.cons lowered nodes)) >>= λ st.
          some (CoreIr.Node.pipeline s st))
whole_lem none first rest = refl
whole_lem (some s) none rest = refl
whole_lem (some s) (some x) none = refl
whole_lem (some s) (some x) (some xs) = refl

lowered_whole :
    (node : Ast.Node) → lower_node node ≡ whole (lower_flattened (flatten_pipeline node))
unfolding lower_node
lowered_whole node = ap whole (flat_lem node)

lower_joined :
    (stages : List (Ast.Node × Bool))
    → lower_nodes (join Ast.Nodes.nil (stage_nodes stages)) ≡ lower_each stages
unfolding join
lower_joined stages = lower_nodes-stage_nodes stages

-- Where a source that is no chain is followed by one stage or more, the lowering of the tree that
-- nests `|>` to the left is one pipeline: of the lowered source, and of the stages, each lowered, in
-- the order of the text. It has no result where one of them has none.
pub lower_node-chain :
    (source stage : Ast.Node) (access : Bool) (stages : List (Ast.Node × Bool))
    → is_chain source ≡ false
    → lower_node (chain source ((stage, access) ∷ stages)) ≡ (
        lower_node source >>= λ s.
        lower_each ((stage, access) ∷ stages) >>= λ st. some (CoreIr.Node.pipeline s st))
lower_node-chain source stage access stages e =
    let parts =
      flatten-chain source ((stage, access) ∷ stages)
      ∙ ap (λ flat. (flat.0, join flat.1 (stage_nodes ((stage, access) ∷ stages))))
          (flatten-ne-chain source e) in
    lowered_whole (chain source ((stage, access) ∷ stages))
    ∙ ap (λ flat. whole (lower_flattened flat)) parts
    ∙ ap (λ nodes. whole (lower_parts (lower_node source) nodes))
        (lower_joined ((stage, access) ∷ stages))
    ∙ whole_lem (lower_node source) (lower_node stage) (lower_each stages)
