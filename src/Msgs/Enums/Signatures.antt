-- ===== src/Msgs/Enums/Signatures.antt =====
-- `SignatureScheme`, `HashAlgorithm`, `SignatureAlgorithm`, `ClientCertificateType` of crates/tls/core/src/msgs/enums.rs.
use tlsn.Common.{ℕ, ◌==◌, if◌then◌else◌}
use tlsn.Msgs.Enums.Defs.{WireEnum}

pub data SignatureScheme : Type 0 where
  rsa_pkcs1_sha1 ecdsa_sha1_legacy rsa_pkcs1_sha256 ecdsa_nistp256_sha256 rsa_pkcs1_sha384 :
      SignatureScheme
  ecdsa_nistp384_sha384 rsa_pkcs1_sha512 ecdsa_nistp521_sha512 rsa_pss_sha256 rsa_pss_sha384 :
      SignatureScheme
  rsa_pss_sha512 ed25519 ed448 : SignatureScheme
  unknown : ℕ → SignatureScheme

abbrev pub signature_scheme_get : SignatureScheme → ℕ
signature_scheme_get SignatureScheme.rsa_pkcs1_sha1 = 0x0201
signature_scheme_get SignatureScheme.ecdsa_sha1_legacy = 0x0203
signature_scheme_get SignatureScheme.rsa_pkcs1_sha256 = 0x0401
signature_scheme_get SignatureScheme.ecdsa_nistp256_sha256 = 0x0403
signature_scheme_get SignatureScheme.rsa_pkcs1_sha384 = 0x0501
signature_scheme_get SignatureScheme.ecdsa_nistp384_sha384 = 0x0503
signature_scheme_get SignatureScheme.rsa_pkcs1_sha512 = 0x0601
signature_scheme_get SignatureScheme.ecdsa_nistp521_sha512 = 0x0603
signature_scheme_get SignatureScheme.rsa_pss_sha256 = 0x0804
signature_scheme_get SignatureScheme.rsa_pss_sha384 = 0x0805
signature_scheme_get SignatureScheme.rsa_pss_sha512 = 0x0806
signature_scheme_get SignatureScheme.ed25519 = 0x0807
signature_scheme_get SignatureScheme.ed448 = 0x0808
signature_scheme_get (SignatureScheme.unknown x) = x

unfoldable pub signature_scheme_from : ℕ → SignatureScheme
signature_scheme_from x =
    if x == 0x0201
    then SignatureScheme.rsa_pkcs1_sha1
    else if x == 0x0203
    then SignatureScheme.ecdsa_sha1_legacy
    else if x == 0x0401
    then SignatureScheme.rsa_pkcs1_sha256
    else if x == 0x0403
    then SignatureScheme.ecdsa_nistp256_sha256
    else if x == 0x0501
    then SignatureScheme.rsa_pkcs1_sha384
    else if x == 0x0503
    then SignatureScheme.ecdsa_nistp384_sha384
    else if x == 0x0601
    then SignatureScheme.rsa_pkcs1_sha512
    else if x == 0x0603
    then SignatureScheme.ecdsa_nistp521_sha512
    else if x == 0x0804
    then SignatureScheme.rsa_pss_sha256
    else if x == 0x0805
    then SignatureScheme.rsa_pss_sha384
    else if x == 0x0806
    then SignatureScheme.rsa_pss_sha512
    else if x == 0x0807
    then SignatureScheme.ed25519
    else if x == 0x0808
    then SignatureScheme.ed448
    else SignatureScheme.unknown x

abbrev pub signature_scheme_enum : WireEnum SignatureScheme
signature_scheme_enum = record { get = signature_scheme_get; from = signature_scheme_from }

pub data HashAlgorithm : Type 0 where
  none md5 sha1 sha224 sha256 : HashAlgorithm
  sha384 sha512 : HashAlgorithm
  unknown : ℕ → HashAlgorithm

abbrev pub hash_algorithm_get : HashAlgorithm → ℕ
hash_algorithm_get HashAlgorithm.none = 0x00
hash_algorithm_get HashAlgorithm.md5 = 0x01
hash_algorithm_get HashAlgorithm.sha1 = 0x02
hash_algorithm_get HashAlgorithm.sha224 = 0x03
hash_algorithm_get HashAlgorithm.sha256 = 0x04
hash_algorithm_get HashAlgorithm.sha384 = 0x05
hash_algorithm_get HashAlgorithm.sha512 = 0x06
hash_algorithm_get (HashAlgorithm.unknown x) = x

unfoldable pub hash_algorithm_from : ℕ → HashAlgorithm
hash_algorithm_from x =
    if x == 0x00
    then HashAlgorithm.none
    else if x == 0x01
    then HashAlgorithm.md5
    else if x == 0x02
    then HashAlgorithm.sha1
    else if x == 0x03
    then HashAlgorithm.sha224
    else if x == 0x04
    then HashAlgorithm.sha256
    else if x == 0x05
    then HashAlgorithm.sha384
    else if x == 0x06
    then HashAlgorithm.sha512
    else HashAlgorithm.unknown x

abbrev pub hash_algorithm_enum : WireEnum HashAlgorithm
hash_algorithm_enum = record { get = hash_algorithm_get; from = hash_algorithm_from }

pub data SignatureAlgorithm : Type 0 where
  anonymous rsa dsa ecdsa ed25519 : SignatureAlgorithm
  ed448 : SignatureAlgorithm
  unknown : ℕ → SignatureAlgorithm

abbrev pub signature_algorithm_get : SignatureAlgorithm → ℕ
signature_algorithm_get SignatureAlgorithm.anonymous = 0x00
signature_algorithm_get SignatureAlgorithm.rsa = 0x01
signature_algorithm_get SignatureAlgorithm.dsa = 0x02
signature_algorithm_get SignatureAlgorithm.ecdsa = 0x03
signature_algorithm_get SignatureAlgorithm.ed25519 = 0x07
signature_algorithm_get SignatureAlgorithm.ed448 = 0x08
signature_algorithm_get (SignatureAlgorithm.unknown x) = x

unfoldable pub signature_algorithm_from : ℕ → SignatureAlgorithm
signature_algorithm_from x =
    if x == 0x00
    then SignatureAlgorithm.anonymous
    else if x == 0x01
    then SignatureAlgorithm.rsa
    else if x == 0x02
    then SignatureAlgorithm.dsa
    else if x == 0x03
    then SignatureAlgorithm.ecdsa
    else if x == 0x07
    then SignatureAlgorithm.ed25519
    else if x == 0x08
    then SignatureAlgorithm.ed448
    else SignatureAlgorithm.unknown x

abbrev pub signature_algorithm_enum : WireEnum SignatureAlgorithm
signature_algorithm_enum = record { get = signature_algorithm_get; from = signature_algorithm_from }

pub data ClientCertificateType : Type 0 where
  rsa_sign dss_sign rsa_fixed_dh dss_fixed_dh rsa_ephemeral_dh : ClientCertificateType
  dss_ephemeral_dh fortezza_dms ecdsa_sign rsa_fixed_ecdh ecdsa_fixed_ecdh : ClientCertificateType
  unknown : ℕ → ClientCertificateType

abbrev pub client_certificate_type_get : ClientCertificateType → ℕ
client_certificate_type_get ClientCertificateType.rsa_sign = 0x01
client_certificate_type_get ClientCertificateType.dss_sign = 0x02
client_certificate_type_get ClientCertificateType.rsa_fixed_dh = 0x03
client_certificate_type_get ClientCertificateType.dss_fixed_dh = 0x04
client_certificate_type_get ClientCertificateType.rsa_ephemeral_dh = 0x05
client_certificate_type_get ClientCertificateType.dss_ephemeral_dh = 0x06
client_certificate_type_get ClientCertificateType.fortezza_dms = 0x14
client_certificate_type_get ClientCertificateType.ecdsa_sign = 0x40
client_certificate_type_get ClientCertificateType.rsa_fixed_ecdh = 0x41
client_certificate_type_get ClientCertificateType.ecdsa_fixed_ecdh = 0x42
client_certificate_type_get (ClientCertificateType.unknown x) = x

unfoldable pub client_certificate_type_from : ℕ → ClientCertificateType
client_certificate_type_from x =
    if x == 0x01
    then ClientCertificateType.rsa_sign
    else if x == 0x02
    then ClientCertificateType.dss_sign
    else if x == 0x03
    then ClientCertificateType.rsa_fixed_dh
    else if x == 0x04
    then ClientCertificateType.dss_fixed_dh
    else if x == 0x05
    then ClientCertificateType.rsa_ephemeral_dh
    else if x == 0x06
    then ClientCertificateType.dss_ephemeral_dh
    else if x == 0x14
    then ClientCertificateType.fortezza_dms
    else if x == 0x40
    then ClientCertificateType.ecdsa_sign
    else if x == 0x41
    then ClientCertificateType.rsa_fixed_ecdh
    else if x == 0x42
    then ClientCertificateType.ecdsa_fixed_ecdh
    else ClientCertificateType.unknown x

abbrev pub client_certificate_type_enum : WireEnum ClientCertificateType
client_certificate_type_enum = record {
  get = client_certificate_type_get;
  from = client_certificate_type_from;
}
