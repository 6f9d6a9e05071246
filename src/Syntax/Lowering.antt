-- ===== src/Syntax/Lowering.antt =====
-- src/lowering.hpp: from the parser's tree to the Core IR. `none` is a shape that is not supported.
pub mod Pipeline
pub mod Supported
pub mod Raise
pub mod Program
use genia_cpp.Base.{
  Bool, true, false, if◌then◌else◌, Option, none, some, List, [], ◌∷◌, ◌>>=◌, String, str_eq,
}
use genia_cpp.Syntax.Ast
use genia_cpp.Syntax.CoreIr
use genia_cpp.Syntax.CoreIr.{Op}

unfoldable pub lower_op : String → Option Op
lower_op symbol =
    if str_eq symbol "+"
    then some Op.plus
    else if str_eq symbol "-"
    then some Op.minus
    else if str_eq symbol "*"
    then some Op.star
    else if str_eq symbol "/"
    then some Op.slash
    else if str_eq symbol "%"
    then some Op.percent
    else if str_eq symbol "=="
    then some Op.eq_eq
    else if str_eq symbol "!="
    then some Op.not_eq
    else if str_eq symbol "<"
    then some Op.lt
    else if str_eq symbol "<="
    then some Op.le
    else if str_eq symbol ">"
    then some Op.gt
    else if str_eq symbol ">="
    then some Op.ge
    else none

-- `push_back`.
unfoldable pub snoc : Ast.Nodes → Ast.Node → Ast.Nodes
snoc Ast.Nodes.nil x = Ast.Nodes.cons x Ast.Nodes.nil
snoc (Ast.Nodes.cons y ys) x = Ast.Nodes.cons y (snoc ys x)

unfoldable pub snoc_lowered : CoreIr.Nodes → CoreIr.Node → CoreIr.Nodes
snoc_lowered CoreIr.Nodes.nil x = CoreIr.Nodes.cons x CoreIr.Nodes.nil
snoc_lowered (CoreIr.Nodes.cons y ys) x = CoreIr.Nodes.cons y (snoc_lowered ys x)

-- A chain `a |> b |> c` as its source and its stages. It has a result in any case.
unfoldable pub flatten_pipeline : Ast.Node → Ast.Node × Ast.Nodes
flatten_pipeline (Ast.Node.binary op left right access) =
    let flattened = flatten_pipeline left in
    if str_eq op "|>"
    then (flattened.0, snoc flattened.1 right)
    else (Ast.Node.binary op left right access, Ast.Nodes.nil)
flatten_pipeline node = (node, Ast.Nodes.nil)

-- A source with its stages is a pipeline. A node that is no chain has no stages.
abbrev pub assemble : CoreIr.Node × CoreIr.Nodes → CoreIr.Node
assemble (source, CoreIr.Nodes.nil) = source
assemble (source, CoreIr.Nodes.cons stage stages) =
    CoreIr.Node.pipeline source (CoreIr.Nodes.cons stage stages)

abbrev pub whole : Option (CoreIr.Node × CoreIr.Nodes) → Option CoreIr.Node
whole none = none
whole (some flat) = some (assemble flat)

abbrev pub single : CoreIr.Node → Option (CoreIr.Node × CoreIr.Nodes)
single node = some (node, CoreIr.Nodes.nil)

-- `lower_node`, with the flattening of pipelines in the same recursion, which is then structural: a
-- chain gives its lowered source and stages, any other node gives itself and no stages
-- (Syntax/Lowering/Pipeline has the two steps of the source).
unfoldable mutual
  pub lower_flat : Ast.Node → Option (CoreIr.Node × CoreIr.Nodes)
  lower_flat (Ast.Node.literal digits) = single (CoreIr.Node.integer_literal digits)
  lower_flat (Ast.Node.decimal_literal digits exponent) =
      single (CoreIr.Node.decimal_literal digits exponent)
  lower_flat (Ast.Node.string_literal text) = single (CoreIr.Node.string_literal text)
  lower_flat (Ast.Node.bool_literal value) = single (CoreIr.Node.bool_literal value)
  lower_flat (Ast.Node.var name line) = single (CoreIr.Node.var name line)
  lower_flat (Ast.Node.unary symbol left) = do
    let lowered = whole (lower_flat left)
    op ← lower_op symbol
    operand ← lowered
    single (CoreIr.Node.unary op operand)
  lower_flat (Ast.Node.quote left) = do
    inner ← whole (lower_flat left)
    single (CoreIr.Node.quote inner)
  lower_flat (Ast.Node.quasi_quote left) = do
    inner ← whole (lower_flat left)
    single (CoreIr.Node.quasi_quote inner)
  lower_flat (Ast.Node.binary symbol left right access) =
      let flat_left = lower_flat left in
      let lowered_right = whole (lower_flat right) in
      if str_eq symbol "|>"
      then (flat_left >>= λ flat.
          lowered_right >>= λ stage. some (flat.0, snoc_lowered flat.1 stage))
      else (lower_op symbol >>= λ op.
          whole flat_left >>= λ l. lowered_right >>= λ r. single (CoreIr.Node.binary op l r access))
  lower_flat (Ast.Node.list items) = do
    lowered ← lower_nodes items
    single (CoreIr.Node.list lowered)
  lower_flat (Ast.Node.block items) = do
    lowered ← lower_nodes items
    single (CoreIr.Node.block lowered)
  lower_flat (Ast.Node.assign name left) = do
    value ← whole (lower_flat left)
    single (CoreIr.Node.assign name value)
  lower_flat (Ast.Node.call name items line) = do
    args ← lower_nodes items
    single (CoreIr.Node.call name args line)
  lower_flat (Ast.Node.lambda params left) = do
    body ← whole (lower_flat left)
    single (CoreIr.Node.lambda params body)
  lower_flat (Ast.Node.lambda_case patterns results) = none
  lower_flat (Ast.Node.func_def name header params left docstring) = do
    body ← whole (lower_flat left)
    single (CoreIr.Node.func_def name header params body docstring)
  lower_flat (Ast.Node.func_def_case name header patterns results guards docstring) = do
    let lowered_guards = lower_guards guards
    lowered ← lower_nodes results
    conditions ← lowered_guards
    single (CoreIr.Node.func_def_case name header patterns lowered conditions docstring)
  lower_flat (Ast.Node.open_func_def name patterns results guards) = do
    let lowered_guards = lower_guards guards
    lowered ← lower_nodes results
    conditions ← lowered_guards
    single (CoreIr.Node.open_func_def name patterns lowered conditions)
  lower_flat (Ast.Node.map_literal entries) = do
    lowered ← lower_entries entries
    single (CoreIr.Node.map_literal lowered)
  lower_flat (Ast.Node.spread left) = do
    inner ← whole (lower_flat left)
    single (CoreIr.Node.spread inner)

  pub lower_nodes : Ast.Nodes → Option CoreIr.Nodes
  lower_nodes Ast.Nodes.nil = some CoreIr.Nodes.nil
  lower_nodes (Ast.Nodes.cons node nodes) = do
    let others = lower_nodes nodes
    lowered ← whole (lower_flat node)
    rest ← others
    some (CoreIr.Nodes.cons lowered rest)

  pub lower_guards : Ast.Guards → Option CoreIr.Guards
  lower_guards Ast.Guards.done = some CoreIr.Guards.done
  lower_guards (Ast.Guards.unguarded guards) = do
    rest ← lower_guards guards
    some (CoreIr.Guards.unguarded rest)
  lower_guards (Ast.Guards.guarded guard guards) = do
    let others = lower_guards guards
    expression ← whole (lower_flat guard)
    rest ← others
    some (CoreIr.Guards.guarded expression rest)

  pub lower_entries : Ast.MapEntries → Option CoreIr.MapEntries
  lower_entries Ast.MapEntries.end = some CoreIr.MapEntries.end
  lower_entries (Ast.MapEntries.entry key value entries) = do
    let others = lower_entries entries
    lowered_value ← whole (lower_flat value)
    rest ← others
    some (CoreIr.MapEntries.entry key lowered_value rest)

unfoldable pub lower_node : Ast.Node → Option CoreIr.Node
lower_node node = whole (lower_flat node)

-- Assignments and definitions stand for themselves, other nodes are expression statements.
abbrev pub statement : CoreIr.Node → CoreIr.Node
statement (CoreIr.Node.assign name value) = CoreIr.Node.assign name value
statement (CoreIr.Node.func_def name header params body docstring) =
    CoreIr.Node.func_def name header params body docstring
statement (CoreIr.Node.func_def_case name header patterns results guards docstring) =
    CoreIr.Node.func_def_case name header patterns results guards docstring
statement (CoreIr.Node.open_func_def name patterns results guards) =
    CoreIr.Node.open_func_def name patterns results guards
statement node = CoreIr.Node.expr_stmt node

unfoldable pub lower_program : Ast.Program → Option (List CoreIr.Node)
lower_program [] = some []
lower_program (node ∷ program) = do
  let others = lower_program program
  lowered ← lower_node node
  rest ← others
  some (statement lowered ∷ rest)
