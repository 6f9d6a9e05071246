-- ===== src/Syntax/Tests.antt =====
-- src/lowering.hpp: the theorems on concrete trees.
use genia_cpp.Base.{◌≡◌, refl, false, none, some, List, [], ◌∷◌, ◌>>=◌}
use genia_cpp.Syntax.Ast
use genia_cpp.Syntax.CoreIr
use genia_cpp.Syntax.CoreIr.{Op}
use genia_cpp.Syntax.Lowering.{lower_node, lower_flat, lower_op, lower_program, snoc_lowered}
use genia_cpp.Syntax.Lowering.Pipeline.{lower_each, lower_node-chain}
use genia_cpp.Syntax.Lowering.Supported.{is_some, is_supported, is_some-lower_node}
use genia_cpp.Syntax.Lowering.Raise.{raise, IsLowered}
use genia_cpp.Syntax.Lowering.Raise.Back.{lower_node-raise}
use genia_cpp.Syntax.Lowering.Raise.Image.{lower_node-IsLowered}

-- `1 |> f |> g`.
abbrev chain : Ast.Node
chain =
    Ast.Node.binary "|>" (Ast.Node.binary "|>" (Ast.Node.literal "1") (Ast.Node.var "f" 1) false)
      (Ast.Node.var "g" 1) false

abbrev chain_ir : CoreIr.Node
chain_ir = CoreIr.Node.pipeline (CoreIr.Node.integer_literal "1") (
    CoreIr.Nodes.cons (CoreIr.Node.var "f" 1)
      (CoreIr.Nodes.cons (CoreIr.Node.var "g" 1) CoreIr.Nodes.nil))

chain_lowers : lower_node chain ≡ some chain_ir
unfolding lower_node lower_flat snoc_lowered
chain_lowers = refl

-- `1 + 2` and an unknown operator.
sum_lowers :
    lower_node (Ast.Node.binary "+" (Ast.Node.literal "1") (Ast.Node.literal "2") false)
    ≡ some (
        CoreIr.Node.binary Op.plus
          (CoreIr.Node.integer_literal "1")
          (CoreIr.Node.integer_literal "2")
          false)
unfolding lower_node lower_flat lower_op
sum_lowers = refl

unknown_refused :
    lower_node (Ast.Node.binary "**" (Ast.Node.literal "1") (Ast.Node.literal "2") false) ≡ none
unfolding lower_node lower_flat lower_op
unknown_refused = refl

lower_node-chain_example : lower_node chain ≡ (
    lower_node (Ast.Node.literal "1") >>= λ source.
    lower_each ((Ast.Node.var "f" 1, false) ∷ (Ast.Node.var "g" 1, false) ∷ []) >>= λ stages.
    some (CoreIr.Node.pipeline source stages))
lower_node-chain_example =
    lower_node-chain (Ast.Node.literal "1") (Ast.Node.var "f" 1) false
      ((Ast.Node.var "g" 1, false) ∷ []) refl

is_some-lower_node_example : is_some (lower_node chain) ≡ is_supported chain
is_some-lower_node_example = is_some-lower_node chain

chain_ir-IsLowered : IsLowered chain_ir
unfolding IsLowered
chain_ir-IsLowered = (tt, (tt, (tt, (tt, (tt, tt)))))

lower_node-raise_example : lower_node (raise chain_ir) ≡ some chain_ir
lower_node-raise_example = lower_node-raise chain_ir chain_ir-IsLowered

lower_node-IsLowered_example : IsLowered chain_ir
lower_node-IsLowered_example = lower_node-IsLowered chain chain_ir chain_lowers

abbrev program : Ast.Program
program = Ast.Node.assign "x" (Ast.Node.literal "1") ∷ chain ∷ []

abbrev program_ir : List CoreIr.Node
program_ir =
    CoreIr.Node.assign "x" (CoreIr.Node.integer_literal "1") ∷ CoreIr.Node.expr_stmt chain_ir ∷ []

program_lowers : lower_program program ≡ some program_ir
unfolding lower_program lower_node lower_flat snoc_lowered
program_lowers = refl
