-- ===== src/Msgs/Enums/Modes.antt =====
-- `PskKeyExchangeMode`, `KeyUpdateRequest`, `Compression`, `HeartbeatMessageType`, `HeartbeatMode` of crates/tls/core/src/msgs/enums.rs.
use tlsn.Common.{ℕ, ◌==◌, if◌then◌else◌}
use tlsn.Msgs.Enums.Defs.{WireEnum}

pub data PskKeyExchangeMode : Type 0 where
  psk_ke psk_dhe_ke : PskKeyExchangeMode
  unknown : ℕ → PskKeyExchangeMode

abbrev pub psk_key_exchange_mode_get : PskKeyExchangeMode → ℕ
psk_key_exchange_mode_get PskKeyExchangeMode.psk_ke = 0x00
psk_key_exchange_mode_get PskKeyExchangeMode.psk_dhe_ke = 0x01
psk_key_exchange_mode_get (PskKeyExchangeMode.unknown x) = x

unfoldable pub psk_key_exchange_mode_from : ℕ → PskKeyExchangeMode
psk_key_exchange_mode_from x =
    if x == 0x00
    then PskKeyExchangeMode.psk_ke
    else if x == 0x01
    then PskKeyExchangeMode.psk_dhe_ke
    else PskKeyExchangeMode.unknown x

abbrev pub psk_key_exchange_mode_enum : WireEnum PskKeyExchangeMode
psk_key_exchange_mode_enum = record {
  get = psk_key_exchange_mode_get;
  from = psk_key_exchange_mode_from;
}

pub data KeyUpdateRequest : Type 0 where
  update_not_requested update_requested : KeyUpdateRequest
  unknown : ℕ → KeyUpdateRequest

abbrev pub key_update_request_get : KeyUpdateRequest → ℕ
key_update_request_get KeyUpdateRequest.update_not_requested = 0x00
key_update_request_get KeyUpdateRequest.update_requested = 0x01
key_update_request_get (KeyUpdateRequest.unknown x) = x

unfoldable pub key_update_request_from : ℕ → KeyUpdateRequest
key_update_request_from x =
    if x == 0x00
    then KeyUpdateRequest.update_not_requested
    else if x == 0x01
    then KeyUpdateRequest.update_requested
    else KeyUpdateRequest.unknown x

abbrev pub key_update_request_enum : WireEnum KeyUpdateRequest
key_update_request_enum = record { get = key_update_request_get; from = key_update_request_from }

pub data Compression : Type 0 where
  null deflate lsz : Compression
  unknown : ℕ → Compression

abbrev pub compression_get : Compression → ℕ
compression_get Compression.null = 0x00
compression_get Compression.deflate = 0x01
compression_get Compression.lsz = 0x40
compression_get (Compression.unknown x) = x

unfoldable pub compression_from : ℕ → Compression
compression_from x =
    if x == 0x00
    then Compression.null
    else if x == 0x01
    then Compression.deflate
    else if x == 0x40
    then Compression.lsz
    else Compression.unknown x

abbrev pub compression_enum : WireEnum Compression
compression_enum = record { get = compression_get; from = compression_from }

pub data HeartbeatMessageType : Type 0 where
  request response : HeartbeatMessageType
  unknown : ℕ → HeartbeatMessageType

abbrev pub heartbeat_message_type_get : HeartbeatMessageType → ℕ
heartbeat_message_type_get HeartbeatMessageType.request = 0x01
heartbeat_message_type_get HeartbeatMessageType.response = 0x02
heartbeat_message_type_get (HeartbeatMessageType.unknown x) = x

unfoldable pub heartbeat_message_type_from : ℕ → HeartbeatMessageType
heartbeat_message_type_from x =
    if x == 0x01
    then HeartbeatMessageType.request
    else if x == 0x02
    then HeartbeatMessageType.response
    else HeartbeatMessageType.unknown x

abbrev pub heartbeat_message_type_enum : WireEnum HeartbeatMessageType
heartbeat_message_type_enum = record {
  get = heartbeat_message_type_get;
  from = heartbeat_message_type_from;
}

pub data HeartbeatMode : Type 0 where
  peer_allowed_to_send peer_not_allowed_to_send : HeartbeatMode
  unknown : ℕ → HeartbeatMode

abbrev pub heartbeat_mode_get : HeartbeatMode → ℕ
heartbeat_mode_get HeartbeatMode.peer_allowed_to_send = 0x01
heartbeat_mode_get HeartbeatMode.peer_not_allowed_to_send = 0x02
heartbeat_mode_get (HeartbeatMode.unknown x) = x

unfoldable pub heartbeat_mode_from : ℕ → HeartbeatMode
heartbeat_mode_from x =
    if x == 0x01
    then HeartbeatMode.peer_allowed_to_send
    else if x == 0x02
    then HeartbeatMode.peer_not_allowed_to_send
    else HeartbeatMode.unknown x

abbrev pub heartbeat_mode_enum : WireEnum HeartbeatMode
heartbeat_mode_enum = record { get = heartbeat_mode_get; from = heartbeat_mode_from }
