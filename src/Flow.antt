-- ===== src/Flow.antt =====
-- src/flow.hpp: flows, which are lazy, are pulled and are used once.
pub mod Store
pub mod Pull
pub mod Operations
pub mod Streams
pub mod Yields
pub mod Laws
pub mod Refinement
pub mod Iterates
pub mod Single
mod Tests
