-- ===== src/Msgs/Enums/Defs.antt =====
-- The two conversions that the macro `enum_builder` of crates/tls/core/src/msgs/macros.rs generates.
use tlsn.Common.{ℕ}

-- `get_u8` or `get_u16`, and `From<u8>` or `From<u16>`.
pub record WireEnum (E : Type 0) : Type 0 where
  pub get : E → ℕ
  pub from : ℕ → E
