-- ===== src/Embedded.antt =====
-- The library for microcontrollers, src/embedded.
pub mod Encode
pub mod Decode
pub mod RoundTrip
