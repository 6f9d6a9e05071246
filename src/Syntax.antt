-- ===== src/Syntax.antt =====
-- src/pattern.hpp, src/ast.hpp, src/core_ir.hpp, src/lowering.hpp: the trees of the front end, and the
-- lowering from one to the other. A struct with a kind and the fields that the kind selects is a data
-- type with a constructor for each kind.
pub mod Pattern
pub mod Ast
pub mod CoreIr
pub mod Lowering
mod Tests
