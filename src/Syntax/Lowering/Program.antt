-- ===== src/Syntax/Lowering/Program.antt =====
-- src/lowering.hpp, `lower_program`: the statements of a program.
use genia_cpp.Base.{
  suc, ◌≡◌, refl, ap, subst, Option, none, some, List, [], ◌∷◌, >>=-some, length, All,
}
use genia_cpp.Syntax.Ast
use genia_cpp.Syntax.CoreIr
use genia_cpp.Syntax.Lowering.{lower_node, statement, lower_program}
use genia_cpp.Syntax.Lowering.Raise.{IsLowered}
use genia_cpp.Syntax.Lowering.Raise.Image.{lower_node-IsLowered}

unfoldable pub IsExpression : CoreIr.Node → Type 0
IsExpression (CoreIr.Node.assign name value) = ⊥
IsExpression (CoreIr.Node.func_def name header params body docstring) = ⊥
IsExpression (CoreIr.Node.func_def_case name header patterns results guards docstring) = ⊥
IsExpression (CoreIr.Node.open_func_def name patterns results guards) = ⊥
IsExpression node = Unit

-- A statement is an assignment or a definition of lowered parts, or an expression statement of a lowered
-- expression that is none of these.
unfoldable pub IsStatement : CoreIr.Node → Type 0
IsStatement (CoreIr.Node.expr_stmt x) = IsLowered x × IsExpression x
IsStatement (CoreIr.Node.assign name value) = IsLowered value
IsStatement (CoreIr.Node.func_def name header params body docstring) = IsLowered body
IsStatement (CoreIr.Node.func_def_case name header patterns results guards docstring) =
    IsLowered (CoreIr.Node.func_def_case name header patterns results guards docstring)
IsStatement (CoreIr.Node.open_func_def name patterns results guards) =
    IsLowered (CoreIr.Node.open_func_def name patterns results guards)
IsStatement node = ⊥

statement-IsStatement : (node : CoreIr.Node) → IsLowered node → IsStatement (statement node)
unfolding IsStatement IsLowered IsExpression
statement-IsStatement (CoreIr.Node.integer_literal digits) h = (h, tt)
statement-IsStatement (CoreIr.Node.string_literal text) h = (h, tt)
statement-IsStatement (CoreIr.Node.bool_literal value) h = (h, tt)
statement-IsStatement (CoreIr.Node.decimal_literal digits exponent) h = (h, tt)
statement-IsStatement (CoreIr.Node.var name line) h = (h, tt)
statement-IsStatement (CoreIr.Node.unary op x) h = (h, tt)
statement-IsStatement (CoreIr.Node.quote x) h = (h, tt)
statement-IsStatement (CoreIr.Node.quasi_quote x) h = (h, tt)
statement-IsStatement (CoreIr.Node.binary op l r access) h = (h, tt)
statement-IsStatement (CoreIr.Node.list items) h = (h, tt)
statement-IsStatement (CoreIr.Node.block items) h = (h, tt)
statement-IsStatement (CoreIr.Node.call name items line) h = (h, tt)
statement-IsStatement (CoreIr.Node.lambda params x) h = (h, tt)
statement-IsStatement (CoreIr.Node.map_literal entries) h = (h, tt)
statement-IsStatement (CoreIr.Node.pipeline source stages) h = (h, tt)
statement-IsStatement (CoreIr.Node.spread x) h = (h, tt)
statement-IsStatement (CoreIr.Node.expr_stmt x) h = absurd h
statement-IsStatement (CoreIr.Node.assign name value) h = h
statement-IsStatement (CoreIr.Node.func_def name header params body docstring) h = h
statement-IsStatement (CoreIr.Node.func_def_case name header patterns results guards docstring) h =
    h
statement-IsStatement (CoreIr.Node.open_func_def name patterns results guards) h = h

abbrev result_or_nil : Option (List CoreIr.Node) → List CoreIr.Node
result_or_nil none = []
result_or_nil (some nodes) = nodes

-- A lowered program has as many statements as the program has nodes, and each is an assignment, a
-- definition, or an expression statement of another lowered expression.
pub lower_program-IsStatement :
    (program : Ast.Program) (lowered : List CoreIr.Node)
    → lower_program program ≡ some lowered
    → (length lowered ≡ length program) × All IsStatement lowered
unfolding lower_program
lower_program-IsStatement [] lowered e =
    subst (λ r. (length r ≡ 0) × All IsStatement r) (ap result_or_nil e) (refl, tt)
lower_program-IsStatement (node ∷ program) lowered e =
    let (first, f, g) = >>=-some (lower_node node) _ lowered e in
    let (rest, h, k) = >>=-some (lower_program program) _ lowered g in
    let (size, all) = lower_program-IsStatement program rest h in
    subst (λ r. (length r ≡ suc (length program)) × All IsStatement r) (ap result_or_nil k)
      (ap suc size, (statement-IsStatement first (lower_node-IsLowered node first f), all))
