-- ===== src/Syntax/Ast.antt =====
-- src/ast.hpp: the tree that the parser builds. The last argument of `var` and `call` is the source
-- line. A function's documentation is its last argument.
use genia_cpp.Base.{ℕ, Bool, Option, List, String}
use genia_cpp.Base.Int.{ℤ}
use genia_cpp.Syntax.Pattern.{Pattern}

mutual
  pub data Node : Type 0 where
    literal : String → Node
    decimal_literal : String → ℤ → Node
    string_literal : String → Node
    bool_literal : Bool → Node
    var : String → ℕ → Node
    unary : String → Node → Node
    quote : Node → Node
    quasi_quote : Node → Node
    -- The operator, the operands, and whether it is a named access.
    binary : String → Node → Node → Bool → Node
    list : Nodes → Node
    block : Nodes → Node
    assign : String → Node → Node
    call : String → Nodes → ℕ → Node
    lambda : List Pattern → Node → Node
    -- A lambda with clauses, which the parser does not make.
    lambda_case : List Pattern → Nodes → Node
    func_def : String → List String → List Pattern → Node → Option String → Node
    func_def_case : String → List String → List Pattern → Nodes → Guards → Option String → Node
    open_func_def : String → List Pattern → Nodes → Guards → Node
    map_literal : MapEntries → Node
    spread : Node → Node

  -- `std::vector<Node>`.
  pub data Nodes : Type 0 where
    nil : Nodes
    cons : Node → Nodes → Nodes

  -- The guards of the clauses, of which some are null.
  pub data Guards : Type 0 where
    done : Guards
    unguarded : Guards → Guards
    guarded : Node → Guards → Guards

  -- `std::vector<MapEntry>`.
  pub data MapEntries : Type 0 where
    end : MapEntries
    entry : String → Node → MapEntries → MapEntries

-- `Program`.
abbrev pub Program : Type 0
Program = List Node
