-- ===== src/Syntax/Lowering/Raise/Back.antt =====
-- src/lowering.hpp: a tree that was raised from Core IR lowers to it again.
use genia_cpp.Base.{◌≡◌, refl, ap, ◌∙◌, false, Option, some, ◌>>=◌, str_eq}
use genia_cpp.Syntax.Ast
use genia_cpp.Syntax.CoreIr
use genia_cpp.Syntax.CoreIr.{Op}
use genia_cpp.Syntax.Lowering.{
  lower_op, whole, single, snoc_lowered, lower_flat, lower_nodes, lower_node, lower_guards,
  lower_entries,
}
use genia_cpp.Syntax.Lowering.Raise.{
  op_symbol, raise, raise_nodes, raise_stages, raise_guards, raise_entries, IsSource, IsLowered,
  AreLowered, GuardsLowered, EntriesLowered,
}

lower_op-op_symbol : (op : Op) → lower_op (op_symbol op) ≡ some op
unfolding lower_op op_symbol
lower_op-op_symbol Op.plus = refl
lower_op-op_symbol Op.minus = refl
lower_op-op_symbol Op.star = refl
lower_op-op_symbol Op.slash = refl
lower_op-op_symbol Op.percent = refl
lower_op-op_symbol Op.eq_eq = refl
lower_op-op_symbol Op.not_eq = refl
lower_op-op_symbol Op.lt = refl
lower_op-op_symbol Op.le = refl
lower_op-op_symbol Op.gt = refl
lower_op-op_symbol Op.ge = refl

op_symbol-plain : (op : Op) → str_eq (op_symbol op) "|>" ≡ false
unfolding op_symbol
op_symbol-plain Op.plus = refl
op_symbol-plain Op.minus = refl
op_symbol-plain Op.star = refl
op_symbol-plain Op.slash = refl
op_symbol-plain Op.percent = refl
op_symbol-plain Op.eq_eq = refl
op_symbol-plain Op.not_eq = refl
op_symbol-plain Op.lt = refl
op_symbol-plain Op.le = refl
op_symbol-plain Op.gt = refl
op_symbol-plain Op.ge = refl

-- The source and the stages of a node.
abbrev flat_of : CoreIr.Node → Option (CoreIr.Node × CoreIr.Nodes)
flat_of (CoreIr.Node.pipeline source stages) = some (source, stages)
flat_of node = single node

bind_to :
    {A B : Type 0} (o : Option A) (a : A) (f : A → Option B) (r : Option B)
    → o ≡ some a
    → f a ≡ r
    → (o >>= f) ≡ r
bind_to o a f r e g = ap (λ p. p >>= f) e ∙ g

whole-flat_of : (c : CoreIr.Node) → IsLowered c → whole (flat_of c) ≡ some c
unfolding IsLowered
whole-flat_of (CoreIr.Node.integer_literal digits) h = refl
whole-flat_of (CoreIr.Node.string_literal text) h = refl
whole-flat_of (CoreIr.Node.bool_literal value) h = refl
whole-flat_of (CoreIr.Node.decimal_literal digits exponent) h = refl
whole-flat_of (CoreIr.Node.var name line) h = refl
whole-flat_of (CoreIr.Node.unary op x) h = refl
whole-flat_of (CoreIr.Node.quote x) h = refl
whole-flat_of (CoreIr.Node.quasi_quote x) h = refl
whole-flat_of (CoreIr.Node.binary op l r access) h = refl
whole-flat_of (CoreIr.Node.expr_stmt x) h = refl
whole-flat_of (CoreIr.Node.list items) h = refl
whole-flat_of (CoreIr.Node.block items) h = refl
whole-flat_of (CoreIr.Node.assign name x) h = refl
whole-flat_of (CoreIr.Node.call name items line) h = refl
whole-flat_of (CoreIr.Node.lambda params x) h = refl
whole-flat_of (CoreIr.Node.func_def name header params x docstring) h = refl
whole-flat_of (CoreIr.Node.func_def_case name header patterns results guards docstring) h = refl
whole-flat_of (CoreIr.Node.open_func_def name patterns results guards) h = refl
whole-flat_of (CoreIr.Node.map_literal entries) h = refl
whole-flat_of (CoreIr.Node.spread x) h = refl
whole-flat_of (CoreIr.Node.pipeline source CoreIr.Nodes.nil) h = absurd h.1.1.0
whole-flat_of (CoreIr.Node.pipeline source (CoreIr.Nodes.cons x xs)) h = refl

source-flat_of : (c : CoreIr.Node) → IsSource c → flat_of c ≡ single c
source-flat_of (CoreIr.Node.integer_literal digits) h = refl
source-flat_of (CoreIr.Node.string_literal text) h = refl
source-flat_of (CoreIr.Node.bool_literal value) h = refl
source-flat_of (CoreIr.Node.decimal_literal digits exponent) h = refl
source-flat_of (CoreIr.Node.var name line) h = refl
source-flat_of (CoreIr.Node.unary op x) h = refl
source-flat_of (CoreIr.Node.quote x) h = refl
source-flat_of (CoreIr.Node.quasi_quote x) h = refl
source-flat_of (CoreIr.Node.binary op l r access) h = refl
source-flat_of (CoreIr.Node.expr_stmt x) h = refl
source-flat_of (CoreIr.Node.list items) h = refl
source-flat_of (CoreIr.Node.block items) h = refl
source-flat_of (CoreIr.Node.assign name x) h = refl
source-flat_of (CoreIr.Node.call name items line) h = refl
source-flat_of (CoreIr.Node.lambda params x) h = refl
source-flat_of (CoreIr.Node.func_def name header params x docstring) h = refl
source-flat_of (CoreIr.Node.func_def_case name header patterns results guards docstring) h = refl
source-flat_of (CoreIr.Node.open_func_def name patterns results guards) h = refl
source-flat_of (CoreIr.Node.map_literal entries) h = refl
source-flat_of (CoreIr.Node.spread x) h = refl
source-flat_of (CoreIr.Node.pipeline source stages) h = absurd h

-- One stage after the other goes behind the others.
abbrev append : CoreIr.Nodes → CoreIr.Nodes → CoreIr.Nodes
append acc CoreIr.Nodes.nil = acc
append acc (CoreIr.Nodes.cons x xs) = append (snoc_lowered acc x) xs

append-cons :
    (y : CoreIr.Node) (ys xs : CoreIr.Nodes)
    → append (CoreIr.Nodes.cons y ys) xs ≡ CoreIr.Nodes.cons y (append ys xs)
unfolding snoc_lowered
append-cons y ys CoreIr.Nodes.nil = refl
append-cons y ys (CoreIr.Nodes.cons x xs) = append-cons y (snoc_lowered ys x) xs

append_nil : (xs : CoreIr.Nodes) → append CoreIr.Nodes.nil xs ≡ xs
unfolding snoc_lowered
append_nil CoreIr.Nodes.nil = refl
append_nil (CoreIr.Nodes.cons x xs) =
    append-cons x CoreIr.Nodes.nil xs ∙ ap (CoreIr.Nodes.cons x) (append_nil xs)

mutual
  unfolding lower_flat raise IsLowered

  flat-raise : (c : CoreIr.Node) → IsLowered c → lower_flat (raise c) ≡ flat_of c
  flat-raise (CoreIr.Node.integer_literal digits) h = refl
  flat-raise (CoreIr.Node.string_literal text) h = refl
  flat-raise (CoreIr.Node.bool_literal value) h = refl
  flat-raise (CoreIr.Node.decimal_literal digits exponent) h = refl
  flat-raise (CoreIr.Node.var name line) h = refl
  flat-raise (CoreIr.Node.expr_stmt x) h = absurd h
  flat-raise (CoreIr.Node.quote x) h =
      bind_to _ _ _ _ (ap whole (flat-raise x h) ∙ whole-flat_of x h) refl
  flat-raise (CoreIr.Node.quasi_quote x) h =
      bind_to _ _ _ _ (ap whole (flat-raise x h) ∙ whole-flat_of x h) refl
  flat-raise (CoreIr.Node.assign name x) h =
      bind_to _ _ _ _ (ap whole (flat-raise x h) ∙ whole-flat_of x h) refl
  flat-raise (CoreIr.Node.lambda params x) h =
      bind_to _ _ _ _ (ap whole (flat-raise x h) ∙ whole-flat_of x h) refl
  flat-raise (CoreIr.Node.func_def name header params x docstring) h =
      bind_to _ _ _ _ (ap whole (flat-raise x h) ∙ whole-flat_of x h) refl
  flat-raise (CoreIr.Node.spread x) h =
      bind_to _ _ _ _ (ap whole (flat-raise x h) ∙ whole-flat_of x h) refl
  flat-raise (CoreIr.Node.list items) h = bind_to _ _ _ _ (nodes-raise items h) refl
  flat-raise (CoreIr.Node.block items) h = bind_to _ _ _ _ (nodes-raise items h) refl
  flat-raise (CoreIr.Node.call name items line) h = bind_to _ _ _ _ (nodes-raise items h) refl
  flat-raise (CoreIr.Node.map_literal entries) h = bind_to _ _ _ _ (entries-raise entries h) refl
  flat-raise (CoreIr.Node.unary op x) h =
      bind_to _ _ _ _ (lower_op-op_symbol op)
        (bind_to _ _ _ _ (ap whole (flat-raise x h) ∙ whole-flat_of x h) refl)
  flat-raise (CoreIr.Node.binary op l r access) h = rw (op_symbol-plain op) (
      bind_to _ _ _ _ (lower_op-op_symbol op) (
        bind_to _ _ _ _ (ap whole (flat-raise l h.0) ∙ whole-flat_of l h.0)
          (bind_to _ _ _ _ (ap whole (flat-raise r h.1) ∙ whole-flat_of r h.1) refl)))
  flat-raise (CoreIr.Node.func_def_case name header patterns results guards docstring) h =
      bind_to _ _ _ _ (nodes-raise results h.0) (bind_to _ _ _ _ (guards-raise guards h.1) refl)
  flat-raise (CoreIr.Node.open_func_def name patterns results guards) h =
      bind_to _ _ _ _ (nodes-raise results h.0) (bind_to _ _ _ _ (guards-raise guards h.1) refl)
  flat-raise (CoreIr.Node.pipeline source stages) h =
      stages-raise stages (raise source) source CoreIr.Nodes.nil
        (flat-raise source h.0 ∙ source-flat_of source h.1.0) h.1.1.1
      ∙ ap (λ st. some (source, st)) (append_nil stages)

  stages-raise :
      (stages : CoreIr.Nodes) (chain : Ast.Node) (source : CoreIr.Node) (acc : CoreIr.Nodes)
      → lower_flat chain ≡ some (source, acc)
      → AreLowered stages
      → lower_flat (raise_stages stages chain) ≡ some (source, append acc stages)
  stages-raise CoreIr.Nodes.nil chain source acc e h = e
  stages-raise (CoreIr.Nodes.cons x xs) chain source acc e h =
      stages-raise xs (Ast.Node.binary "|>" chain (raise x) false) source (snoc_lowered acc x)
        (bind_to _ _ _ _ e
          (bind_to _ _ _ _ (ap whole (flat-raise x h.0) ∙ whole-flat_of x h.0) refl))
        h.1

  nodes-raise :
      (nodes : CoreIr.Nodes) → AreLowered nodes → lower_nodes (raise_nodes nodes) ≡ some nodes
  nodes-raise CoreIr.Nodes.nil h = refl
  nodes-raise (CoreIr.Nodes.cons x xs) h =
      bind_to _ _ _ _ (ap whole (flat-raise x h.0) ∙ whole-flat_of x h.0)
        (bind_to _ _ _ _ (nodes-raise xs h.1) refl)

  guards-raise :
      (guards : CoreIr.Guards)
      → GuardsLowered guards
      → lower_guards (raise_guards guards) ≡ some guards
  guards-raise CoreIr.Guards.done h = refl
  guards-raise (CoreIr.Guards.unguarded guards) h = bind_to _ _ _ _ (guards-raise guards h) refl
  guards-raise (CoreIr.Guards.guarded x guards) h =
      bind_to _ _ _ _ (ap whole (flat-raise x h.0) ∙ whole-flat_of x h.0)
        (bind_to _ _ _ _ (guards-raise guards h.1) refl)

  entries-raise :
      (entries : CoreIr.MapEntries)
      → EntriesLowered entries
      → lower_entries (raise_entries entries) ≡ some entries
  entries-raise CoreIr.MapEntries.end h = refl
  entries-raise (CoreIr.MapEntries.entry key x entries) h =
      bind_to _ _ _ _ (ap whole (flat-raise x h.0) ∙ whole-flat_of x h.0)
        (bind_to _ _ _ _ (entries-raise entries h.1) refl)

-- Core IR of the shape that a lowering gives is the lowering of the tree raised from it.
pub lower_node-raise : (c : CoreIr.Node) → IsLowered c → lower_node (raise c) ≡ some c
unfolding lower_node
lower_node-raise c h = ap whole (flat-raise c h) ∙ whole-flat_of c h
