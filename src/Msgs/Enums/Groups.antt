-- ===== src/Msgs/Enums/Groups.antt =====
-- `NamedGroup`, `EcPointFormat` of crates/tls/core/src/msgs/enums.rs.
use tlsn.Common.{ℕ, ◌==◌, if◌then◌else◌}
use tlsn.Msgs.Enums.Defs.{WireEnum}

pub data NamedGroup : Type 0 where
  secp256r1 secp384r1 secp521r1 x25519 x448 : NamedGroup
  ffdhe2048 ffdhe3072 ffdhe4096 ffdhe6144 ffdhe8192 : NamedGroup
  unknown : ℕ → NamedGroup

abbrev pub named_group_get : NamedGroup → ℕ
named_group_get NamedGroup.secp256r1 = 0x0017
named_group_get NamedGroup.secp384r1 = 0x0018
named_group_get NamedGroup.secp521r1 = 0x0019
named_group_get NamedGroup.x25519 = 0x001d
named_group_get NamedGroup.x448 = 0x001e
named_group_get NamedGroup.ffdhe2048 = 0x0100
named_group_get NamedGroup.ffdhe3072 = 0x0101
named_group_get NamedGroup.ffdhe4096 = 0x0102
named_group_get NamedGroup.ffdhe6144 = 0x0103
named_group_get NamedGroup.ffdhe8192 = 0x0104
named_group_get (NamedGroup.unknown x) = x

unfoldable pub named_group_from : ℕ → NamedGroup
named_group_from x =
    if x == 0x0017
    then NamedGroup.secp256r1
    else if x == 0x0018
    then NamedGroup.secp384r1
    else if x == 0x0019
    then NamedGroup.secp521r1
    else if x == 0x001d
    then NamedGroup.x25519
    else if x == 0x001e
    then NamedGroup.x448
    else if x == 0x0100
    then NamedGroup.ffdhe2048
    else if x == 0x0101
    then NamedGroup.ffdhe3072
    else if x == 0x0102
    then NamedGroup.ffdhe4096
    else if x == 0x0103
    then NamedGroup.ffdhe6144
    else if x == 0x0104
    then NamedGroup.ffdhe8192
    else NamedGroup.unknown x

abbrev pub named_group_enum : WireEnum NamedGroup
named_group_enum = record { get = named_group_get; from = named_group_from }

pub data EcPointFormat : Type 0 where
  uncompressed ansix962_compressed_prime ansix962_compressed_char2 : EcPointFormat
  unknown : ℕ → EcPointFormat

abbrev pub ec_point_format_get : EcPointFormat → ℕ
ec_point_format_get EcPointFormat.uncompressed = 0x00
ec_point_format_get EcPointFormat.ansix962_compressed_prime = 0x01
ec_point_format_get EcPointFormat.ansix962_compressed_char2 = 0x02
ec_point_format_get (EcPointFormat.unknown x) = x

unfoldable pub ec_point_format_from : ℕ → EcPointFormat
ec_point_format_from x =
    if x == 0x00
    then EcPointFormat.uncompressed
    else if x == 0x01
    then EcPointFormat.ansix962_compressed_prime
    else if x == 0x02
    then EcPointFormat.ansix962_compressed_char2
    else EcPointFormat.unknown x

abbrev pub ec_point_format_enum : WireEnum EcPointFormat
ec_point_format_enum = record { get = ec_point_format_get; from = ec_point_format_from }
