-- ===== src/Msgs/Enums/Version.antt =====
-- `ProtocolVersion` of crates/tls/core/src/msgs/enums.rs.
use tlsn.Common.{ℕ, ◌==◌, if◌then◌else◌}
use tlsn.Msgs.Enums.Defs.{WireEnum}

pub data ProtocolVersion : Type 0 where
  ssl_v2 ssl_v3 tls_v1_0 tls_v1_1 tls_v1_2 tls_v1_3 dtls_v1_0 dtls_v1_2 : ProtocolVersion
  unknown : ℕ → ProtocolVersion

abbrev pub protocol_version_get : ProtocolVersion → ℕ
protocol_version_get ProtocolVersion.ssl_v2 = 0x0200
protocol_version_get ProtocolVersion.ssl_v3 = 0x0300
protocol_version_get ProtocolVersion.tls_v1_0 = 0x0301
protocol_version_get ProtocolVersion.tls_v1_1 = 0x0302
protocol_version_get ProtocolVersion.tls_v1_2 = 0x0303
protocol_version_get ProtocolVersion.tls_v1_3 = 0x0304
protocol_version_get ProtocolVersion.dtls_v1_0 = 0xfeff
protocol_version_get ProtocolVersion.dtls_v1_2 = 0xfefd
protocol_version_get (ProtocolVersion.unknown x) = x

unfoldable pub protocol_version_from : ℕ → ProtocolVersion
protocol_version_from x =
    if x == 0x0200
    then ProtocolVersion.ssl_v2
    else if x == 0x0300
    then ProtocolVersion.ssl_v3
    else if x == 0x0301
    then ProtocolVersion.tls_v1_0
    else if x == 0x0302
    then ProtocolVersion.tls_v1_1
    else if x == 0x0303
    then ProtocolVersion.tls_v1_2
    else if x == 0x0304
    then ProtocolVersion.tls_v1_3
    else if x == 0xfeff
    then ProtocolVersion.dtls_v1_0
    else if x == 0xfefd
    then ProtocolVersion.dtls_v1_2
    else ProtocolVersion.unknown x

abbrev pub protocol_version_enum : WireEnum ProtocolVersion
protocol_version_enum = record { get = protocol_version_get; from = protocol_version_from }
