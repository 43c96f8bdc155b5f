-- ===== src/Cpp.antt =====
-- The C++ binding over the core, src/cpp.
pub mod Coordinator
pub mod Decoder
pub mod Encoder
pub mod RoundTrip
