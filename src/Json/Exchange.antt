-- ===== src/Json/Exchange.antt =====
-- src/json.hpp: what the decoder returns is what the encoder accepts.
pub mod Numbers
pub mod Containers
pub mod Steps
pub mod Documents
pub mod Height
