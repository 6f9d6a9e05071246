-- ===== src/Numbers.antt =====
-- src/equality.hpp, src/rational.hpp and src/arithmetic.hpp: the exact numbers.
pub mod Signs
pub mod StandsFor
pub mod Fractions
pub mod Rational
pub mod Arithmetic
pub mod Float64
mod Tests
