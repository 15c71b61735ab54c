-- ===== src/Msgs/Enums.antt =====
-- crates/tls/core/src/msgs/macros.rs and enums.rs: enumerations that stand on the wire for one or
-- two bytes, with a case for the numbers that are not listed. What the macro generates for every
-- enumeration is here, over the two conversions that it generates for each.
pub mod Defs
pub mod Content
pub mod Version
pub mod Handshakes
pub mod Alerts
pub mod Groups
pub mod Curves
pub mod Signatures
pub mod Extensions
pub mod Modes
pub mod Laws
pub mod Lossless
use tlsn.Common.{ℕ, Option, none, some, List, [], ◌∷◌, ◌++◌, be16}
use tlsn.Msgs.Enums.Defs.{WireEnum}
use tlsn.Msgs.Reader.{Reader, Read}
use tlsn.Msgs.Codec.{Codec, read_u8, read_u16, u8_codec, u16_codec}

module _ {E : Type 0} (w : WireEnum E) where
  map_from : Option (ℕ × Reader) → Option (E × Reader)
  map_from none = none
  map_from (some (x, r)) = some (w.from x, r)

  -- `u8::read(r).map(from)`
  unfoldable pub read_enum_u8 : Read E
  unfolding map_from
  read_enum_u8 r = map_from (read_u8 r)

  unfoldable pub read_enum_u16 : Read E
  unfolding map_from
  read_enum_u16 r = map_from (read_u16 r)

  abbrev pub enum_u8_codec : Codec E
  enum_u8_codec = record { encode = λ x. u8_codec.encode (w.get x); read = read_enum_u8 }

  abbrev pub enum_u16_codec : Codec E
  enum_u16_codec = record { encode = λ x. u16_codec.encode (w.get x); read = read_enum_u16 }
