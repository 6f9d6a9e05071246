-- ===== src/Syntax/Pattern.antt =====
-- src/pattern.hpp: patterns, shared by both trees. The source line of a pattern, which is metadata of
-- diagnostics, is left out.
use genia_cpp.Base.{String}
use genia_cpp.Base.Int.{ℤ}

mutual
  pub data Pattern : Type 0 where
    bind : String → Pattern
    wildcard : Pattern
    rest : String → Pattern
    integer_literal : String → Pattern
    decimal_literal : String → ℤ → Pattern
    string_literal : String → Pattern
    list : Patterns → Pattern
    tuple : Patterns → Pattern
    map : PatternEntries → Pattern
    err : Pattern → Pattern → Pattern
    some_of : Pattern → Pattern → Pattern

  -- `std::vector<Pattern>`.
  pub data Patterns : Type 0 where
    nil : Patterns
    cons : Pattern → Patterns → Patterns

  -- `std::vector<PatternMapEntry>`.
  pub data PatternEntries : Type 0 where
    end : PatternEntries
    entry : String → Pattern → PatternEntries → PatternEntries
