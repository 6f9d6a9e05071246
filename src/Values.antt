-- ===== src/Values.antt =====
-- src/value.hpp, src/environment.hpp, src/rational.hpp: values and the containers that hold them.
pub mod OrderedMap
pub mod Environment
pub mod Value
mod Tests
