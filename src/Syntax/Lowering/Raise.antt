-- ===== src/Syntax/Lowering/Raise.antt =====
-- src/lowering.hpp: which Core IR comes from a lowering, and a tree that it comes from.
pub mod Back
pub mod Image
use genia_cpp.Base.{
  ◌≡◌, refl, ap, sym, ◌∙◌, Bool, true, false, if◌then◌else◌, Option, none, some, inl, inr,
  Bool-cases, ◌>>=◌, >>=-some, String, str_eq, List, [], ◌∷◌,
}
use genia_cpp.Syntax.Ast
use genia_cpp.Syntax.CoreIr
use genia_cpp.Syntax.CoreIr.{Op}
use genia_cpp.Syntax.Lowering.{
  lower_op, whole, assemble, single, snoc_lowered, lower_flat, lower_nodes, lower_node,
  lower_guards, lower_entries,
}

-- The symbol of an operator.
unfoldable pub op_symbol : Op → String
op_symbol Op.plus = "+"
op_symbol Op.minus = "-"
op_symbol Op.star = "*"
op_symbol Op.slash = "/"
op_symbol Op.percent = "%"
op_symbol Op.eq_eq = "=="
op_symbol Op.not_eq = "!="
op_symbol Op.lt = "<"
op_symbol Op.le = "<="
op_symbol Op.gt = ">"
op_symbol Op.ge = ">="

-- A tree for a node of the Core IR. A pipeline is a chain of binary nodes to the left.
unfoldable mutual
  pub raise : CoreIr.Node → Ast.Node
  raise (CoreIr.Node.integer_literal digits) = Ast.Node.literal digits
  raise (CoreIr.Node.string_literal text) = Ast.Node.string_literal text
  raise (CoreIr.Node.bool_literal value) = Ast.Node.bool_literal value
  raise (CoreIr.Node.decimal_literal digits exponent) = Ast.Node.decimal_literal digits exponent
  raise (CoreIr.Node.var name line) = Ast.Node.var name line
  raise (CoreIr.Node.unary op x) = Ast.Node.unary (op_symbol op) (raise x)
  raise (CoreIr.Node.quote x) = Ast.Node.quote (raise x)
  raise (CoreIr.Node.quasi_quote x) = Ast.Node.quasi_quote (raise x)
  raise (CoreIr.Node.binary op l r access) =
      Ast.Node.binary (op_symbol op) (raise l) (raise r) access
  raise (CoreIr.Node.expr_stmt x) = raise x
  raise (CoreIr.Node.list items) = Ast.Node.list (raise_nodes items)
  raise (CoreIr.Node.block items) = Ast.Node.block (raise_nodes items)
  raise (CoreIr.Node.assign name x) = Ast.Node.assign name (raise x)
  raise (CoreIr.Node.call name items line) = Ast.Node.call name (raise_nodes items) line
  raise (CoreIr.Node.lambda params x) = Ast.Node.lambda params (raise x)
  raise (CoreIr.Node.func_def name header params x docstring) =
      Ast.Node.func_def name header params (raise x) docstring
  raise (CoreIr.Node.func_def_case name header patterns results guards docstring) =
      Ast.Node.func_def_case name header patterns (raise_nodes results) (raise_guards guards)
        docstring
  raise (CoreIr.Node.open_func_def name patterns results guards) =
      Ast.Node.open_func_def name patterns (raise_nodes results) (raise_guards guards)
  raise (CoreIr.Node.map_literal entries) = Ast.Node.map_literal (raise_entries entries)
  raise (CoreIr.Node.pipeline source stages) = raise_stages stages (raise source)
  raise (CoreIr.Node.spread x) = Ast.Node.spread (raise x)

  pub raise_nodes : CoreIr.Nodes → Ast.Nodes
  raise_nodes CoreIr.Nodes.nil = Ast.Nodes.nil
  raise_nodes (CoreIr.Nodes.cons x xs) = Ast.Nodes.cons (raise x) (raise_nodes xs)

  pub raise_stages : CoreIr.Nodes → Ast.Node → Ast.Node
  raise_stages CoreIr.Nodes.nil chain = chain
  raise_stages (CoreIr.Nodes.cons x xs) chain =
      raise_stages xs (Ast.Node.binary "|>" chain (raise x) false)

  pub raise_guards : CoreIr.Guards → Ast.Guards
  raise_guards CoreIr.Guards.done = Ast.Guards.done
  raise_guards (CoreIr.Guards.unguarded guards) = Ast.Guards.unguarded (raise_guards guards)
  raise_guards (CoreIr.Guards.guarded x guards) = Ast.Guards.guarded (raise x) (raise_guards guards)

  pub raise_entries : CoreIr.MapEntries → Ast.MapEntries
  raise_entries CoreIr.MapEntries.end = Ast.MapEntries.end
  raise_entries (CoreIr.MapEntries.entry key x entries) =
      Ast.MapEntries.entry key (raise x) (raise_entries entries)

abbrev pub IsSource : CoreIr.Node → Type 0
IsSource (CoreIr.Node.pipeline source stages) = ⊥
IsSource node = Unit

abbrev pub IsFilled : CoreIr.Nodes → Type 0
IsFilled CoreIr.Nodes.nil = ⊥
IsFilled (CoreIr.Nodes.cons x xs) = Unit

-- The Core IR of expressions: no expression statement inside, and a pipeline has a stage at least, and
-- a source that is no pipeline.
unfoldable mutual
  pub IsLowered : CoreIr.Node → Type 0
  IsLowered (CoreIr.Node.integer_literal digits) = Unit
  IsLowered (CoreIr.Node.string_literal text) = Unit
  IsLowered (CoreIr.Node.bool_literal value) = Unit
  IsLowered (CoreIr.Node.decimal_literal digits exponent) = Unit
  IsLowered (CoreIr.Node.var name line) = Unit
  IsLowered (CoreIr.Node.unary op x) = IsLowered x
  IsLowered (CoreIr.Node.quote x) = IsLowered x
  IsLowered (CoreIr.Node.quasi_quote x) = IsLowered x
  IsLowered (CoreIr.Node.binary op l r access) = IsLowered l × IsLowered r
  IsLowered (CoreIr.Node.expr_stmt x) = ⊥
  IsLowered (CoreIr.Node.list items) = AreLowered items
  IsLowered (CoreIr.Node.block items) = AreLowered items
  IsLowered (CoreIr.Node.assign name x) = IsLowered x
  IsLowered (CoreIr.Node.call name items line) = AreLowered items
  IsLowered (CoreIr.Node.lambda params x) = IsLowered x
  IsLowered (CoreIr.Node.func_def name header params x docstring) = IsLowered x
  IsLowered (CoreIr.Node.func_def_case name header patterns results guards docstring) =
      AreLowered results × GuardsLowered guards
  IsLowered (CoreIr.Node.open_func_def name patterns results guards) =
      AreLowered results × GuardsLowered guards
  IsLowered (CoreIr.Node.map_literal entries) = EntriesLowered entries
  IsLowered (CoreIr.Node.pipeline source stages) =
      IsLowered source × (IsSource source × (IsFilled stages × AreLowered stages))
  IsLowered (CoreIr.Node.spread x) = IsLowered x

  pub AreLowered : CoreIr.Nodes → Type 0
  AreLowered CoreIr.Nodes.nil = Unit
  AreLowered (CoreIr.Nodes.cons x xs) = IsLowered x × AreLowered xs

  pub GuardsLowered : CoreIr.Guards → Type 0
  GuardsLowered CoreIr.Guards.done = Unit
  GuardsLowered (CoreIr.Guards.unguarded guards) = GuardsLowered guards
  GuardsLowered (CoreIr.Guards.guarded x guards) = IsLowered x × GuardsLowered guards

  pub EntriesLowered : CoreIr.MapEntries → Type 0
  EntriesLowered CoreIr.MapEntries.end = Unit
  EntriesLowered (CoreIr.MapEntries.entry key x entries) = IsLowered x × EntriesLowered entries
