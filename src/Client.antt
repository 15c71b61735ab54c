-- ===== src/Client.antt =====
-- The TLS client, crates/tls/client/src.
pub mod Vecbuf
pub mod Records
pub mod Cache
