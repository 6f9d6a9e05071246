-- ===== src/Syntax/Lowering/Raise/Image.antt =====
-- src/lowering.hpp: the shape of the Core IR that a lowering gives.
use genia_cpp.Base.{◌≡◌, subst, Option, none, some, ◌>>=◌, str_eq, inl, inr, Bool-cases}
use genia_cpp.Syntax.Ast
use genia_cpp.Syntax.CoreIr
use genia_cpp.Syntax.CoreIr.{Op}
use genia_cpp.Syntax.Lowering.{
  lower_op, whole, snoc_lowered, lower_flat, lower_nodes, lower_node, lower_guards, lower_entries,
}
use genia_cpp.Syntax.Lowering.Raise.{IsSource, IsLowered, AreLowered, GuardsLowered, EntriesLowered}

-- A property of the result, where there is one.
abbrev AllResult : {A : Type 0} → (A → Type 0) → Option A → Type 0
AllResult P none = Unit
AllResult P (some a) = P a

abbrev IsFlat : CoreIr.Node × CoreIr.Nodes → Type 0
IsFlat (source, stages) = IsLowered source × (IsSource source × AreLowered stages)

bind_all :
    {A B : Type 0} (P : A → Type 0) (Q : B → Type 0) (o : Option A) (f : A → Option B)
    → AllResult P o
    → ((a : A) → P a → AllResult Q (f a))
    → AllResult Q (o >>= f)
bind_all P Q none f h k = tt
bind_all P Q (some a) f h k = k a h

whole_all :
    (o : Option (CoreIr.Node × CoreIr.Nodes)) → AllResult IsFlat o → AllResult IsLowered (whole o)
unfolding IsLowered
whole_all none h = tt
whole_all (some (source, CoreIr.Nodes.nil)) h = h.0
whole_all (some (source, CoreIr.Nodes.cons x xs)) h = (h.0, (h.1.0, (tt, h.1.1)))

snoc-AreLowered :
    (xs : CoreIr.Nodes) (x : CoreIr.Node)
    → AreLowered xs
    → IsLowered x
    → AreLowered (snoc_lowered xs x)
unfolding IsLowered snoc_lowered
snoc-AreLowered CoreIr.Nodes.nil x h k = (k, tt)
snoc-AreLowered (CoreIr.Nodes.cons y ys) x h k = (h.0, snoc-AreLowered ys x h.1 k)

no_condition : {A : Type 0} (o : Option A) → AllResult (λ a. Unit) o
no_condition none = tt
no_condition (some a) = tt

mutual
  unfolding lower_flat IsLowered

  IsFlat-all : (node : Ast.Node) → AllResult IsFlat (lower_flat node)
  IsFlat-all (Ast.Node.literal digits) = (tt, (tt, tt))
  IsFlat-all (Ast.Node.decimal_literal digits exponent) = (tt, (tt, tt))
  IsFlat-all (Ast.Node.string_literal text) = (tt, (tt, tt))
  IsFlat-all (Ast.Node.bool_literal value) = (tt, (tt, tt))
  IsFlat-all (Ast.Node.var name line) = (tt, (tt, tt))
  IsFlat-all (Ast.Node.quote left) =
      bind_all IsLowered IsFlat (whole (lower_flat left)) _ (whole_all _ (IsFlat-all left))
        (λ x h. (h, (tt, tt)))
  IsFlat-all (Ast.Node.quasi_quote left) =
      bind_all IsLowered IsFlat (whole (lower_flat left)) _ (whole_all _ (IsFlat-all left))
        (λ x h. (h, (tt, tt)))
  IsFlat-all (Ast.Node.assign name left) =
      bind_all IsLowered IsFlat (whole (lower_flat left)) _ (whole_all _ (IsFlat-all left))
        (λ x h. (h, (tt, tt)))
  IsFlat-all (Ast.Node.lambda params left) =
      bind_all IsLowered IsFlat (whole (lower_flat left)) _ (whole_all _ (IsFlat-all left))
        (λ x h. (h, (tt, tt)))
  IsFlat-all (Ast.Node.func_def name header params left docstring) =
      bind_all IsLowered IsFlat (whole (lower_flat left)) _ (whole_all _ (IsFlat-all left))
        (λ x h. (h, (tt, tt)))
  IsFlat-all (Ast.Node.spread left) =
      bind_all IsLowered IsFlat (whole (lower_flat left)) _ (whole_all _ (IsFlat-all left))
        (λ x h. (h, (tt, tt)))
  IsFlat-all (Ast.Node.list items) =
      bind_all AreLowered IsFlat _ _ (nodes_all items) (λ x h. (h, (tt, tt)))
  IsFlat-all (Ast.Node.block items) =
      bind_all AreLowered IsFlat _ _ (nodes_all items) (λ x h. (h, (tt, tt)))
  IsFlat-all (Ast.Node.call name items line) =
      bind_all AreLowered IsFlat _ _ (nodes_all items) (λ x h. (h, (tt, tt)))
  IsFlat-all (Ast.Node.map_literal entries) =
      bind_all EntriesLowered IsFlat _ _ (entries_all entries) (λ x h. (h, (tt, tt)))
  IsFlat-all (Ast.Node.lambda_case patterns results) = tt
  IsFlat-all (Ast.Node.unary symbol left) =
      bind_all (λ op. Unit) IsFlat (lower_op symbol) _ (no_condition (lower_op symbol))
        (λ op k.
          bind_all IsLowered IsFlat (whole (lower_flat left)) _ (whole_all _ (IsFlat-all left))
            (λ x h. (h, (tt, tt))))
  IsFlat-all (Ast.Node.binary symbol left right access) = elim (Bool-cases (str_eq symbol "|>")) [
    | inl e ↦ rw e (
        bind_all IsFlat IsFlat (lower_flat left) _ (IsFlat-all left) (λ flat h.
          bind_all IsLowered IsFlat (whole (lower_flat right)) _ (whole_all _ (IsFlat-all right))
            (λ x k. (h.0, (h.1.0, snoc-AreLowered flat.1 x h.1.1 k)))))
    | inr e ↦ rw e (
        bind_all (λ op. Unit) IsFlat (lower_op symbol) _ (no_condition (lower_op symbol))
          (λ op u.
            bind_all IsLowered IsFlat (whole (lower_flat left)) _ (whole_all _ (IsFlat-all left))
              (λ x h.
                bind_all IsLowered IsFlat (whole (lower_flat right)) _
                  (whole_all _ (IsFlat-all right)) (λ y k. ((h, k), (tt, tt))))))
  ]
  IsFlat-all (Ast.Node.func_def_case name header patterns results guards docstring) =
      bind_all AreLowered IsFlat (lower_nodes results) _ (nodes_all results) (λ x h.
        bind_all GuardsLowered IsFlat (lower_guards guards) _ (guards_all guards)
          (λ y k. ((h, k), (tt, tt))))
  IsFlat-all (Ast.Node.open_func_def name patterns results guards) =
      bind_all AreLowered IsFlat (lower_nodes results) _ (nodes_all results) (λ x h.
        bind_all GuardsLowered IsFlat (lower_guards guards) _ (guards_all guards)
          (λ y k. ((h, k), (tt, tt))))

  nodes_all : (nodes : Ast.Nodes) → AllResult AreLowered (lower_nodes nodes)
  nodes_all Ast.Nodes.nil = tt
  nodes_all (Ast.Nodes.cons node nodes) =
      bind_all IsLowered AreLowered (whole (lower_flat node)) _ (whole_all _ (IsFlat-all node))
        (λ x h.
          bind_all AreLowered AreLowered (lower_nodes nodes) _ (nodes_all nodes) (λ xs k. (h, k)))

  guards_all : (guards : Ast.Guards) → AllResult GuardsLowered (lower_guards guards)
  guards_all Ast.Guards.done = tt
  guards_all (Ast.Guards.unguarded guards) =
      bind_all GuardsLowered GuardsLowered (lower_guards guards)
        (λ rest. some (CoreIr.Guards.unguarded rest)) (guards_all guards) (λ x h. h)
  guards_all (Ast.Guards.guarded guard guards) =
      bind_all IsLowered GuardsLowered (whole (lower_flat guard)) _ (whole_all _ (IsFlat-all guard))
        (λ x h.
          bind_all GuardsLowered GuardsLowered (lower_guards guards) _ (guards_all guards)
            (λ xs k. (h, k)))

  entries_all : (entries : Ast.MapEntries) → AllResult EntriesLowered (lower_entries entries)
  entries_all Ast.MapEntries.end = tt
  entries_all (Ast.MapEntries.entry key value entries) =
      bind_all IsLowered EntriesLowered (whole (lower_flat value)) _
        (whole_all _ (IsFlat-all value))
        (λ x h.
          bind_all EntriesLowered EntriesLowered (lower_entries entries) _ (entries_all entries)
            (λ xs k. (h, k)))

-- What a lowering gives has no expression statement in it, and its pipelines have a stage at least and a
-- source that is no pipeline.
pub lower_node-IsLowered :
    (node : Ast.Node) (c : CoreIr.Node) → lower_node node ≡ some c → IsLowered c
unfolding lower_node
lower_node-IsLowered node c e =
    subst (AllResult IsLowered) e (whole_all (lower_flat node) (IsFlat-all node))
