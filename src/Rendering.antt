-- ===== src/Rendering.antt =====
-- src/render.hpp: the text of numbers and of values.
pub mod Numbers
pub mod Display
pub mod Unquoted
pub mod Quoted
mod Tests
