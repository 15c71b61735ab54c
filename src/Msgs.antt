-- ===== src/Msgs.antt =====
-- crates/tls/core/src/msgs: the TLS wire formats and the stages between a byte stream and messages.
pub mod Reader
pub mod Codec
pub mod Enums
pub mod Base
pub mod Message
pub mod Deframer
pub mod Fragmenter
pub mod Alert
pub mod Handshake
pub mod Joiner
