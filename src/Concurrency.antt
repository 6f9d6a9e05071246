-- ===== src/Concurrency.antt =====
-- src/r25_quiescence.hpp, src/ref.hpp, src/cell.hpp, src/process.hpp: the entities that work
-- concurrently, as state machines whose steps are the sections that the source runs under a lock.
pub mod Quiescence
pub mod Ref
pub mod Cell
pub mod Process
pub mod World
mod Tests
