-- ===== src/Msgs/Message.antt =====
-- crates/tls/core/src/msgs/message.rs: TLS frames, and what `OpaqueMessage::read` accepts.
pub mod Wire
pub mod Header
pub mod Verdicts
use tlsn.Common.{
  ℕ, ◌+◌, ◌%◌, List, [], ◌∷◌, ◌++◌, Option, none, some, Bool, true, false, not, ◌&&◌, ◌==◌, leb,
  if◌then◌else◌, length, bit_and, be16, Result, ok, err, ok_or,
}
use tlsn.Msgs.Reader.{Reader, Read, sub}
use tlsn.Msgs.Codec.{Codec, u16_codec, read_u16}
use tlsn.Msgs.Base.{read_payload, payload_codec}
use tlsn.Msgs.Enums.{enum_u8_codec, enum_u16_codec, read_enum_u8, read_enum_u16}
use tlsn.Msgs.Enums.Content.{ContentType, content_type_enum}
use tlsn.Msgs.Enums.Version.{ProtocolVersion, protocol_version_enum}

pub record OpaqueMessage : Type 0 where
  pub typ : ContentType
  pub version : ProtocolVersion
  pub payload : List ℕ

pub record PlainMessage : Type 0 where
  pub typ : ContentType
  pub version : ProtocolVersion
  pub payload : List ℕ

pub data MessageError : Type 0 where
  too_short_for_header too_short_for_length illegal_length : MessageError
  illegal_content_type illegal_protocol_version : MessageError

abbrev pub max_payload : ℕ
max_payload = 16384 + 2048

abbrev pub header_size : ℕ
header_size = 1 + 2 + 2

abbrev pub max_wire_size : ℕ
max_wire_size = max_payload + header_size

-- `typ != ContentType::ApplicationData` is the derived inequality: `Unknown(0x17)` differs too.
abbrev pub is_application_data : ContentType → Bool
is_application_data ContentType.application_data = true
is_application_data _ = false

abbrev pub is_unknown : ContentType → Bool
is_unknown (ContentType.unknown x) = true
is_unknown _ = false

-- `ProtocolVersion::Unknown(ref v) if (v & 0xff00) != 0x0300`
abbrev pub is_foreign_version : ProtocolVersion → Bool
is_foreign_version (ProtocolVersion.unknown v) = not (bit_and v 0xff00 == 0x0300)
is_foreign_version _ = false

infixl 5 ◌>>=◌
abbrev ◌>>=◌ {ℓ κ} :
    {A : Type ℓ} {B : Type κ}
    → Result A MessageError
    → (A → Result B MessageError)
    → Result B MessageError
ok a >>= f = f a
err e >>= f = err e

-- The three reads of the header.
unfoldable pub read_header :
    Reader → Result (ContentType × ProtocolVersion × ℕ × Reader) MessageError
read_header r = do
  (typ, r1) ← ok_or (read_enum_u8 content_type_enum r) too_short_for_header
  (version, r2) ← ok_or (read_enum_u16 protocol_version_enum r1) too_short_for_header
  (len, r3) ← ok_or (read_u16 r2) too_short_for_header
  ok (typ, version, len, r3)

-- The checks on a header, in the order of the source.
unfoldable pub check_header : ContentType → ProtocolVersion → ℕ → Option MessageError
check_header typ version len =
    if not (is_application_data typ) && (len == 0)
    then some illegal_length
    else if leb max_payload len
    then some illegal_length
    else if is_unknown typ
    then some illegal_content_type
    else if is_foreign_version version
    then some illegal_protocol_version
    else none

refused : Option MessageError → Result (Unit {0}) MessageError
refused none = ok tt
refused (some e) = err e

-- `OpaqueMessage::read`, with the moved cursor beside the message.
unfoldable pub read_opaque : Reader → Result (OpaqueMessage × Reader) MessageError
unfolding refused read_payload
read_opaque r = do
  (typ, version, len, r3) ← read_header r
  _ ← refused (check_header typ version len)
  (inner, r4) ← ok_or (sub len r3) too_short_for_length
  ok (record { typ = typ; version = version; payload = (read_payload inner).0 }, r4)

-- `OpaqueMessage::encode`
unfoldable pub encode_opaque : OpaqueMessage → List ℕ
encode_opaque m =
    let buf = (enum_u8_codec content_type_enum).encode m.typ [] in
    let buf = (enum_u16_codec protocol_version_enum).encode m.version buf in
    let buf = u16_codec.encode (length m.payload % 65536) buf in payload_codec.encode m.payload buf

-- `OpaqueMessage::into_plain_message`
abbrev pub into_plain_message : OpaqueMessage → PlainMessage
into_plain_message m = record { typ = m.typ; version = m.version; payload = m.payload }

-- `PlainMessage::into_unencrypted_opaque`
abbrev pub into_unencrypted_opaque : PlainMessage → OpaqueMessage
into_unencrypted_opaque m = record { typ = m.typ; version = m.version; payload = m.payload }
