-- ===== src/Syntax/CoreIr.antt =====
-- src/core_ir.hpp: the tree that the evaluator runs.
use genia_cpp.Base.{ℕ, Bool, Option, List, String}
use genia_cpp.Base.Int.{ℤ}
use genia_cpp.Syntax.Pattern.{Pattern}

pub data Op : Type 0 where
  plus minus star slash percent eq_eq not_eq lt le gt ge : Op

unfoldable pub op_token_name : Op → String
op_token_name Op.plus = "PLUS"
op_token_name Op.minus = "MINUS"
op_token_name Op.star = "STAR"
op_token_name Op.slash = "SLASH"
op_token_name Op.percent = "PERCENT"
op_token_name Op.eq_eq = "EQEQ"
op_token_name Op.not_eq = "NE"
op_token_name Op.lt = "LT"
op_token_name Op.le = "LE"
op_token_name Op.gt = "GT"
op_token_name Op.ge = "GE"

mutual
  pub data Node : Type 0 where
    integer_literal : String → Node
    string_literal : String → Node
    bool_literal : Bool → Node
    decimal_literal : String → ℤ → Node
    var : String → ℕ → Node
    unary : Op → Node → Node
    quote : Node → Node
    quasi_quote : Node → Node
    binary : Op → Node → Node → Bool → Node
    expr_stmt : Node → Node
    list : Nodes → Node
    block : Nodes → Node
    assign : String → Node → Node
    call : String → Nodes → ℕ → Node
    lambda : List Pattern → Node → Node
    func_def : String → List String → List Pattern → Node → Option String → Node
    func_def_case : String → List String → List Pattern → Nodes → Guards → Option String → Node
    open_func_def : String → List Pattern → Nodes → Guards → Node
    map_literal : MapEntries → Node
    -- The source, and the stages in their order.
    pipeline : Node → Nodes → Node
    spread : Node → Node

  pub data Nodes : Type 0 where
    nil : Nodes
    cons : Node → Nodes → Nodes

  pub data Guards : Type 0 where
    done : Guards
    unguarded : Guards → Guards
    guarded : Node → Guards → Guards

  pub data MapEntries : Type 0 where
    end : MapEntries
    entry : String → Node → MapEntries → MapEntries
