-- ===== src/Msgs/Enums/Content.antt =====
-- `ContentType` of crates/tls/core/src/msgs/enums.rs.
use tlsn.Common.{ℕ, ◌==◌, if◌then◌else◌}
use tlsn.Msgs.Enums.Defs.{WireEnum}

pub data ContentType : Type 0 where
  change_cipher_spec alert handshake application_data heartbeat : ContentType
  unknown : ℕ → ContentType

abbrev pub content_type_get : ContentType → ℕ
content_type_get ContentType.change_cipher_spec = 0x14
content_type_get ContentType.alert = 0x15
content_type_get ContentType.handshake = 0x16
content_type_get ContentType.application_data = 0x17
content_type_get ContentType.heartbeat = 0x18
content_type_get (ContentType.unknown x) = x

unfoldable pub content_type_from : ℕ → ContentType
content_type_from x =
    if x == 0x14
    then ContentType.change_cipher_spec
    else if x == 0x15
    then ContentType.alert
    else if x == 0x16
    then ContentType.handshake
    else if x == 0x17
    then ContentType.application_data
    else if x == 0x18
    then ContentType.heartbeat
    else ContentType.unknown x

abbrev pub content_type_enum : WireEnum ContentType
content_type_enum = record { get = content_type_get; from = content_type_from }
