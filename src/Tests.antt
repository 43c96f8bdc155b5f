-- ===== src/Tests.antt =====
-- Runs on concrete inputs, and each theorem at an input that meets its hypotheses.
mod Headers
mod Sending
mod Receiving
mod Commands
mod Encoding
mod Decoding
mod Binding
mod CommandLine
mod Sessions
