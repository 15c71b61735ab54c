-- ===== src/Msgs/Enums/Lossless.antt =====
-- The conversions of each enumeration fit each other.
use tlsn.Common.{arith}
use tlsn.Msgs.Enums.Laws.{IsLossless}
use tlsn.Msgs.Enums.Content.{content_type_from, content_type_enum}
use tlsn.Msgs.Enums.Version.{protocol_version_from, protocol_version_enum}
use tlsn.Msgs.Enums.Handshakes.{handshake_type_from, handshake_type_enum}
use tlsn.Msgs.Enums.Alerts.{
  alert_level_from, alert_level_enum, alert_description_from, alert_description_enum,
}
use tlsn.Msgs.Enums.Groups.{
  named_group_from, named_group_enum, ec_point_format_from, ec_point_format_enum,
}
use tlsn.Msgs.Enums.Curves.{
  named_curve_from, named_curve_enum, ec_curve_type_from, ec_curve_type_enum,
}
use tlsn.Msgs.Enums.Signatures.{
  signature_scheme_from, signature_scheme_enum, hash_algorithm_from, hash_algorithm_enum,
  signature_algorithm_from, signature_algorithm_enum, client_certificate_type_from,
  client_certificate_type_enum,
}
use tlsn.Msgs.Enums.Extensions.{
  extension_type_from, extension_type_enum, server_name_type_from, server_name_type_enum,
  certificate_status_type_from, certificate_status_type_enum,
}
use tlsn.Msgs.Enums.Modes.{
  psk_key_exchange_mode_from, psk_key_exchange_mode_enum, key_update_request_from,
  key_update_request_enum, compression_from, compression_enum, heartbeat_message_type_from,
  heartbeat_message_type_enum, heartbeat_mode_from, heartbeat_mode_enum,
}

pub content_type-IsLossless : IsLossless content_type_enum
unfolding content_type_from
content_type-IsLossless = record { get-from = λ n. ground arith }

pub protocol_version-IsLossless : IsLossless protocol_version_enum
unfolding protocol_version_from
protocol_version-IsLossless = record { get-from = λ n. ground arith }

pub handshake_type-IsLossless : IsLossless handshake_type_enum
unfolding handshake_type_from
handshake_type-IsLossless = record { get-from = λ n. ground arith }

pub alert_level-IsLossless : IsLossless alert_level_enum
unfolding alert_level_from
alert_level-IsLossless = record { get-from = λ n. ground arith }

pub alert_description-IsLossless : IsLossless alert_description_enum
unfolding alert_description_from
alert_description-IsLossless = record { get-from = λ n. ground arith }

pub named_group-IsLossless : IsLossless named_group_enum
unfolding named_group_from
named_group-IsLossless = record { get-from = λ n. ground arith }

pub named_curve-IsLossless : IsLossless named_curve_enum
unfolding named_curve_from
named_curve-IsLossless = record { get-from = λ n. ground arith }

pub ec_point_format-IsLossless : IsLossless ec_point_format_enum
unfolding ec_point_format_from
ec_point_format-IsLossless = record { get-from = λ n. ground arith }

pub ec_curve_type-IsLossless : IsLossless ec_curve_type_enum
unfolding ec_curve_type_from
ec_curve_type-IsLossless = record { get-from = λ n. ground arith }

pub signature_scheme-IsLossless : IsLossless signature_scheme_enum
unfolding signature_scheme_from
signature_scheme-IsLossless = record { get-from = λ n. ground arith }

pub hash_algorithm-IsLossless : IsLossless hash_algorithm_enum
unfolding hash_algorithm_from
hash_algorithm-IsLossless = record { get-from = λ n. ground arith }

pub signature_algorithm-IsLossless : IsLossless signature_algorithm_enum
unfolding signature_algorithm_from
signature_algorithm-IsLossless = record { get-from = λ n. ground arith }

pub client_certificate_type-IsLossless : IsLossless client_certificate_type_enum
unfolding client_certificate_type_from
client_certificate_type-IsLossless = record { get-from = λ n. ground arith }

pub extension_type-IsLossless : IsLossless extension_type_enum
unfolding extension_type_from
extension_type-IsLossless = record { get-from = λ n. ground arith }

pub server_name_type-IsLossless : IsLossless server_name_type_enum
unfolding server_name_type_from
server_name_type-IsLossless = record { get-from = λ n. ground arith }

pub certificate_status_type-IsLossless : IsLossless certificate_status_type_enum
unfolding certificate_status_type_from
certificate_status_type-IsLossless = record { get-from = λ n. ground arith }

pub psk_key_exchange_mode-IsLossless : IsLossless psk_key_exchange_mode_enum
unfolding psk_key_exchange_mode_from
psk_key_exchange_mode-IsLossless = record { get-from = λ n. ground arith }

pub key_update_request-IsLossless : IsLossless key_update_request_enum
unfolding key_update_request_from
key_update_request-IsLossless = record { get-from = λ n. ground arith }

pub compression-IsLossless : IsLossless compression_enum
unfolding compression_from
compression-IsLossless = record { get-from = λ n. ground arith }

pub heartbeat_message_type-IsLossless : IsLossless heartbeat_message_type_enum
unfolding heartbeat_message_type_from
heartbeat_message_type-IsLossless = record { get-from = λ n. ground arith }

pub heartbeat_mode-IsLossless : IsLossless heartbeat_mode_enum
unfolding heartbeat_mode_from
heartbeat_mode-IsLossless = record { get-from = λ n. ground arith }
