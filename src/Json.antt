-- ===== src/Json.antt =====
-- src/json.hpp: the strict JSON decoder and encoder.
pub mod Result
pub mod Numbers
pub mod Maps
pub mod Decoder
pub mod Encoder
pub mod Bounds
pub mod Exchange
pub mod RoundTrip
mod Tests
