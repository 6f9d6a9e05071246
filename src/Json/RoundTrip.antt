-- ===== src/Json/RoundTrip.antt =====
-- src/json.hpp: the decoder reads what the encoder writes.
pub mod Reads
pub mod Escapes
pub mod Strings
pub mod Numbers
pub mod Layout
pub mod Plain
pub mod Steps
pub mod Containers
pub mod Entries
pub mod Behind
pub mod Values
pub mod Documents
