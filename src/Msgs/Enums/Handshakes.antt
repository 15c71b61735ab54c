-- ===== src/Msgs/Enums/Handshakes.antt =====
-- `HandshakeType` of crates/tls/core/src/msgs/enums.rs.
use tlsn.Common.{ℕ, ◌==◌, if◌then◌else◌}
use tlsn.Msgs.Enums.Defs.{WireEnum}

pub data HandshakeType : Type 0 where
  hello_request client_hello server_hello hello_verify_request : HandshakeType
  new_session_ticket end_of_early_data hello_retry_request : HandshakeType
  encrypted_extensions certificate server_key_exchange : HandshakeType
  certificate_request server_hello_done certificate_verify : HandshakeType
  client_key_exchange finished certificate_url certificate_status : HandshakeType
  key_update message_hash : HandshakeType
  unknown : ℕ → HandshakeType

abbrev pub handshake_type_get : HandshakeType → ℕ
handshake_type_get HandshakeType.hello_request = 0x00
handshake_type_get HandshakeType.client_hello = 0x01
handshake_type_get HandshakeType.server_hello = 0x02
handshake_type_get HandshakeType.hello_verify_request = 0x03
handshake_type_get HandshakeType.new_session_ticket = 0x04
handshake_type_get HandshakeType.end_of_early_data = 0x05
handshake_type_get HandshakeType.hello_retry_request = 0x06
handshake_type_get HandshakeType.encrypted_extensions = 0x08
handshake_type_get HandshakeType.certificate = 0x0b
handshake_type_get HandshakeType.server_key_exchange = 0x0c
handshake_type_get HandshakeType.certificate_request = 0x0d
handshake_type_get HandshakeType.server_hello_done = 0x0e
handshake_type_get HandshakeType.certificate_verify = 0x0f
handshake_type_get HandshakeType.client_key_exchange = 0x10
handshake_type_get HandshakeType.finished = 0x14
handshake_type_get HandshakeType.certificate_url = 0x15
handshake_type_get HandshakeType.certificate_status = 0x16
handshake_type_get HandshakeType.key_update = 0x18
handshake_type_get HandshakeType.message_hash = 0xfe
handshake_type_get (HandshakeType.unknown x) = x

unfoldable pub handshake_type_from : ℕ → HandshakeType
handshake_type_from x =
    if x == 0x00
    then HandshakeType.hello_request
    else if x == 0x01
    then HandshakeType.client_hello
    else if x == 0x02
    then HandshakeType.server_hello
    else if x == 0x03
    then HandshakeType.hello_verify_request
    else if x == 0x04
    then HandshakeType.new_session_ticket
    else if x == 0x05
    then HandshakeType.end_of_early_data
    else if x == 0x06
    then HandshakeType.hello_retry_request
    else if x == 0x08
    then HandshakeType.encrypted_extensions
    else if x == 0x0b
    then HandshakeType.certificate
    else if x == 0x0c
    then HandshakeType.server_key_exchange
    else if x == 0x0d
    then HandshakeType.certificate_request
    else if x == 0x0e
    then HandshakeType.server_hello_done
    else if x == 0x0f
    then HandshakeType.certificate_verify
    else if x == 0x10
    then HandshakeType.client_key_exchange
    else if x == 0x14
    then HandshakeType.finished
    else if x == 0x15
    then HandshakeType.certificate_url
    else if x == 0x16
    then HandshakeType.certificate_status
    else if x == 0x18
    then HandshakeType.key_update
    else if x == 0xfe
    then HandshakeType.message_hash
    else HandshakeType.unknown x

abbrev pub handshake_type_enum : WireEnum HandshakeType
handshake_type_enum = record { get = handshake_type_get; from = handshake_type_from }
