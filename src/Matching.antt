-- ===== src/Matching.antt =====
-- src/equality.hpp and src/pattern_match.hpp: equality of values, and patterns against values.
pub mod Equality
pub mod Match
pub mod Consistent
mod Tests
