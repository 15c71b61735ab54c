-- ===== src/Msgs/Enums/Extensions.antt =====
-- `ExtensionType`, `ServerNameType`, `CertificateStatusType` of crates/tls/core/src/msgs/enums.rs.
use tlsn.Common.{ℕ, ◌==◌, if◌then◌else◌}
use tlsn.Msgs.Enums.Defs.{WireEnum}

pub data ExtensionType : Type 0 where
  server_name max_fragment_length client_certificate_url trusted_ca_keys truncated_hmac :
      ExtensionType
  status_request user_mapping client_authz server_authz certificate_type : ExtensionType
  elliptic_curves ec_point_formats srp signature_algorithms use_srtp : ExtensionType
  heartbeat al_protocol_negotiation sct padding extended_master_secret : ExtensionType
  session_ticket pre_shared_key early_data supported_versions cookie : ExtensionType
  psk_key_exchange_modes ticket_early_data_info certificate_authorities oid_filters
        post_handshake_auth :
      ExtensionType
  signature_algorithms_cert key_share transport_parameters next_protocol_negotiation channel_id :
      ExtensionType
  renegotiation_info transport_parameters_draft : ExtensionType
  unknown : ℕ → ExtensionType

abbrev pub extension_type_get : ExtensionType → ℕ
extension_type_get ExtensionType.server_name = 0x0000
extension_type_get ExtensionType.max_fragment_length = 0x0001
extension_type_get ExtensionType.client_certificate_url = 0x0002
extension_type_get ExtensionType.trusted_ca_keys = 0x0003
extension_type_get ExtensionType.truncated_hmac = 0x0004
extension_type_get ExtensionType.status_request = 0x0005
extension_type_get ExtensionType.user_mapping = 0x0006
extension_type_get ExtensionType.client_authz = 0x0007
extension_type_get ExtensionType.server_authz = 0x0008
extension_type_get ExtensionType.certificate_type = 0x0009
extension_type_get ExtensionType.elliptic_curves = 0x000a
extension_type_get ExtensionType.ec_point_formats = 0x000b
extension_type_get ExtensionType.srp = 0x000c
extension_type_get ExtensionType.signature_algorithms = 0x000d
extension_type_get ExtensionType.use_srtp = 0x000e
extension_type_get ExtensionType.heartbeat = 0x000f
extension_type_get ExtensionType.al_protocol_negotiation = 0x0010
extension_type_get ExtensionType.sct = 0x0012
extension_type_get ExtensionType.padding = 0x0015
extension_type_get ExtensionType.extended_master_secret = 0x0017
extension_type_get ExtensionType.session_ticket = 0x0023
extension_type_get ExtensionType.pre_shared_key = 0x0029
extension_type_get ExtensionType.early_data = 0x002a
extension_type_get ExtensionType.supported_versions = 0x002b
extension_type_get ExtensionType.cookie = 0x002c
extension_type_get ExtensionType.psk_key_exchange_modes = 0x002d
extension_type_get ExtensionType.ticket_early_data_info = 0x002e
extension_type_get ExtensionType.certificate_authorities = 0x002f
extension_type_get ExtensionType.oid_filters = 0x0030
extension_type_get ExtensionType.post_handshake_auth = 0x0031
extension_type_get ExtensionType.signature_algorithms_cert = 0x0032
extension_type_get ExtensionType.key_share = 0x0033
extension_type_get ExtensionType.transport_parameters = 0x0039
extension_type_get ExtensionType.next_protocol_negotiation = 0x3374
extension_type_get ExtensionType.channel_id = 0x754f
extension_type_get ExtensionType.renegotiation_info = 0xff01
extension_type_get ExtensionType.transport_parameters_draft = 0xffa5
extension_type_get (ExtensionType.unknown x) = x

unfoldable pub extension_type_from : ℕ → ExtensionType
extension_type_from x =
    if x == 0x0000
    then ExtensionType.server_name
    else if x == 0x0001
    then ExtensionType.max_fragment_length
    else if x == 0x0002
    then ExtensionType.client_certificate_url
    else if x == 0x0003
    then ExtensionType.trusted_ca_keys
    else if x == 0x0004
    then ExtensionType.truncated_hmac
    else if x == 0x0005
    then ExtensionType.status_request
    else if x == 0x0006
    then ExtensionType.user_mapping
    else if x == 0x0007
    then ExtensionType.client_authz
    else if x == 0x0008
    then ExtensionType.server_authz
    else if x == 0x0009
    then ExtensionType.certificate_type
    else if x == 0x000a
    then ExtensionType.elliptic_curves
    else if x == 0x000b
    then ExtensionType.ec_point_formats
    else if x == 0x000c
    then ExtensionType.srp
    else if x == 0x000d
    then ExtensionType.signature_algorithms
    else if x == 0x000e
    then ExtensionType.use_srtp
    else if x == 0x000f
    then ExtensionType.heartbeat
    else if x == 0x0010
    then ExtensionType.al_protocol_negotiation
    else if x == 0x0012
    then ExtensionType.sct
    else if x == 0x0015
    then ExtensionType.padding
    else if x == 0x0017
    then ExtensionType.extended_master_secret
    else if x == 0x0023
    then ExtensionType.session_ticket
    else if x == 0x0029
    then ExtensionType.pre_shared_key
    else if x == 0x002a
    then ExtensionType.early_data
    else if x == 0x002b
    then ExtensionType.supported_versions
    else if x == 0x002c
    then ExtensionType.cookie
    else if x == 0x002d
    then ExtensionType.psk_key_exchange_modes
    else if x == 0x002e
    then ExtensionType.ticket_early_data_info
    else if x == 0x002f
    then ExtensionType.certificate_authorities
    else if x == 0x0030
    then ExtensionType.oid_filters
    else if x == 0x0031
    then ExtensionType.post_handshake_auth
    else if x == 0x0032
    then ExtensionType.signature_algorithms_cert
    else if x == 0x0033
    then ExtensionType.key_share
    else if x == 0x0039
    then ExtensionType.transport_parameters
    else if x == 0x3374
    then ExtensionType.next_protocol_negotiation
    else if x == 0x754f
    then ExtensionType.channel_id
    else if x == 0xff01
    then ExtensionType.renegotiation_info
    else if x == 0xffa5
    then ExtensionType.transport_parameters_draft
    else ExtensionType.unknown x

abbrev pub extension_type_enum : WireEnum ExtensionType
extension_type_enum = record { get = extension_type_get; from = extension_type_from }

pub data ServerNameType : Type 0 where
  host_name : ServerNameType
  unknown : ℕ → ServerNameType

abbrev pub server_name_type_get : ServerNameType → ℕ
server_name_type_get ServerNameType.host_name = 0x00
server_name_type_get (ServerNameType.unknown x) = x

unfoldable pub server_name_type_from : ℕ → ServerNameType
server_name_type_from x = if x == 0x00 then ServerNameType.host_name else ServerNameType.unknown x

abbrev pub server_name_type_enum : WireEnum ServerNameType
server_name_type_enum = record { get = server_name_type_get; from = server_name_type_from }

pub data CertificateStatusType : Type 0 where
  ocsp : CertificateStatusType
  unknown : ℕ → CertificateStatusType

abbrev pub certificate_status_type_get : CertificateStatusType → ℕ
certificate_status_type_get CertificateStatusType.ocsp = 0x01
certificate_status_type_get (CertificateStatusType.unknown x) = x

unfoldable pub certificate_status_type_from : ℕ → CertificateStatusType
certificate_status_type_from x =
    if x == 0x01 then CertificateStatusType.ocsp else CertificateStatusType.unknown x

abbrev pub certificate_status_type_enum : WireEnum CertificateStatusType
certificate_status_type_enum = record {
  get = certificate_status_type_get;
  from = certificate_status_type_from;
}
