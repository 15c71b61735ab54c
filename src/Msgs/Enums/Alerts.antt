-- ===== src/Msgs/Enums/Alerts.antt =====
-- `AlertLevel` and `AlertDescription` of crates/tls/core/src/msgs/enums.rs.
use tlsn.Common.{ℕ, ◌==◌, if◌then◌else◌}
use tlsn.Msgs.Enums.Defs.{WireEnum}

pub data AlertLevel : Type 0 where
  warning fatal : AlertLevel
  unknown : ℕ → AlertLevel

abbrev pub alert_level_get : AlertLevel → ℕ
alert_level_get AlertLevel.warning = 0x01
alert_level_get AlertLevel.fatal = 0x02
alert_level_get (AlertLevel.unknown x) = x

unfoldable pub alert_level_from : ℕ → AlertLevel
alert_level_from x =
    if x == 0x01
    then AlertLevel.warning
    else if x == 0x02
    then AlertLevel.fatal
    else AlertLevel.unknown x

abbrev pub alert_level_enum : WireEnum AlertLevel
alert_level_enum = record { get = alert_level_get; from = alert_level_from }

pub data AlertDescription : Type 0 where
  close_notify unexpected_message bad_record_mac decryption_failed : AlertDescription
  record_overflow decompression_failure handshake_failure no_certificate : AlertDescription
  bad_certificate unsupported_certificate certificate_revoked : AlertDescription
  certificate_expired certificate_unknown illegal_parameter unknown_ca : AlertDescription
  access_denied decode_error decrypt_error export_restriction : AlertDescription
  protocol_version insufficient_security internal_error : AlertDescription
  inappropriate_fallback user_canceled no_renegotiation : AlertDescription
  missing_extension unsupported_extension certificate_unobtainable : AlertDescription
  unrecognised_name bad_certificate_status_response : AlertDescription
  bad_certificate_hash_value unknown_psk_identity certificate_required : AlertDescription
  no_application_protocol : AlertDescription
  unknown : ℕ → AlertDescription

abbrev pub alert_description_get : AlertDescription → ℕ
alert_description_get AlertDescription.close_notify = 0x00
alert_description_get AlertDescription.unexpected_message = 0x0a
alert_description_get AlertDescription.bad_record_mac = 0x14
alert_description_get AlertDescription.decryption_failed = 0x15
alert_description_get AlertDescription.record_overflow = 0x16
alert_description_get AlertDescription.decompression_failure = 0x1e
alert_description_get AlertDescription.handshake_failure = 0x28
alert_description_get AlertDescription.no_certificate = 0x29
alert_description_get AlertDescription.bad_certificate = 0x2a
alert_description_get AlertDescription.unsupported_certificate = 0x2b
alert_description_get AlertDescription.certificate_revoked = 0x2c
alert_description_get AlertDescription.certificate_expired = 0x2d
alert_description_get AlertDescription.certificate_unknown = 0x2e
alert_description_get AlertDescription.illegal_parameter = 0x2f
alert_description_get AlertDescription.unknown_ca = 0x30
alert_description_get AlertDescription.access_denied = 0x31
alert_description_get AlertDescription.decode_error = 0x32
alert_description_get AlertDescription.decrypt_error = 0x33
alert_description_get AlertDescription.export_restriction = 0x3c
alert_description_get AlertDescription.protocol_version = 0x46
alert_description_get AlertDescription.insufficient_security = 0x47
alert_description_get AlertDescription.internal_error = 0x50
alert_description_get AlertDescription.inappropriate_fallback = 0x56
alert_description_get AlertDescription.user_canceled = 0x5a
alert_description_get AlertDescription.no_renegotiation = 0x64
alert_description_get AlertDescription.missing_extension = 0x6d
alert_description_get AlertDescription.unsupported_extension = 0x6e
alert_description_get AlertDescription.certificate_unobtainable = 0x6f
alert_description_get AlertDescription.unrecognised_name = 0x70
alert_description_get AlertDescription.bad_certificate_status_response = 0x71
alert_description_get AlertDescription.bad_certificate_hash_value = 0x72
alert_description_get AlertDescription.unknown_psk_identity = 0x73
alert_description_get AlertDescription.certificate_required = 0x74
alert_description_get AlertDescription.no_application_protocol = 0x78
alert_description_get (AlertDescription.unknown x) = x

unfoldable pub alert_description_from : ℕ → AlertDescription
alert_description_from x =
    if x == 0x00
    then AlertDescription.close_notify
    else if x == 0x0a
    then AlertDescription.unexpected_message
    else if x == 0x14
    then AlertDescription.bad_record_mac
    else if x == 0x15
    then AlertDescription.decryption_failed
    else if x == 0x16
    then AlertDescription.record_overflow
    else if x == 0x1e
    then AlertDescription.decompression_failure
    else if x == 0x28
    then AlertDescription.handshake_failure
    else if x == 0x29
    then AlertDescription.no_certificate
    else if x == 0x2a
    then AlertDescription.bad_certificate
    else if x == 0x2b
    then AlertDescription.unsupported_certificate
    else if x == 0x2c
    then AlertDescription.certificate_revoked
    else if x == 0x2d
    then AlertDescription.certificate_expired
    else if x == 0x2e
    then AlertDescription.certificate_unknown
    else if x == 0x2f
    then AlertDescription.illegal_parameter
    else if x == 0x30
    then AlertDescription.unknown_ca
    else if x == 0x31
    then AlertDescription.access_denied
    else if x == 0x32
    then AlertDescription.decode_error
    else if x == 0x33
    then AlertDescription.decrypt_error
    else if x == 0x3c
    then AlertDescription.export_restriction
    else if x == 0x46
    then AlertDescription.protocol_version
    else if x == 0x47
    then AlertDescription.insufficient_security
    else if x == 0x50
    then AlertDescription.internal_error
    else if x == 0x56
    then AlertDescription.inappropriate_fallback
    else if x == 0x5a
    then AlertDescription.user_canceled
    else if x == 0x64
    then AlertDescription.no_renegotiation
    else if x == 0x6d
    then AlertDescription.missing_extension
    else if x == 0x6e
    then AlertDescription.unsupported_extension
    else if x == 0x6f
    then AlertDescription.certificate_unobtainable
    else if x == 0x70
    then AlertDescription.unrecognised_name
    else if x == 0x71
    then AlertDescription.bad_certificate_status_response
    else if x == 0x72
    then AlertDescription.bad_certificate_hash_value
    else if x == 0x73
    then AlertDescription.unknown_psk_identity
    else if x == 0x74
    then AlertDescription.certificate_required
    else if x == 0x78
    then AlertDescription.no_application_protocol
    else AlertDescription.unknown x

abbrev pub alert_description_enum : WireEnum AlertDescription
alert_description_enum = record { get = alert_description_get; from = alert_description_from }
