-- ===== src/Transcript/Connection.antt =====
-- crates/core/src/connection.rs, and `PublicKey` of crates/tls/core/src/key.rs: what a transcript says of
-- the handshake.
use tlsn.Common.{ℕ, List, Option, none, some}
use tlsn.Msgs.Enums.Groups.{NamedGroup}
use tlsn.Msgs.Enums.Version.{ProtocolVersion}

pub record PublicKey : Type 0 where
  pub group : NamedGroup
  pub key : List ℕ

pub data TlsVersion : Type 0 where
  v1_2 v1_3 : TlsVersion

-- `TryFrom<ProtocolVersion> for TlsVersion`
abbrev pub tls_version : ProtocolVersion → Option TlsVersion
tls_version ProtocolVersion.tls_v1_2 = some TlsVersion.v1_2
tls_version ProtocolVersion.tls_v1_3 = some TlsVersion.v1_3
tls_version _ = none

pub data KeyType : Type 0 where
  secp256r1 : KeyType

pub record ServerEphemKey : Type 0 where
  pub typ : KeyType
  pub key : List ℕ

ephem_key : NamedGroup → List ℕ → Option ServerEphemKey
ephem_key NamedGroup.secp256r1 key = some (record { typ = KeyType.secp256r1; key = key })
ephem_key _ key = none

-- `TryFrom<PublicKey> for ServerEphemKey`
unfoldable pub server_ephem_key : PublicKey → Option ServerEphemKey
unfolding ephem_key
server_ephem_key k = ephem_key k.group k.key

pub data SignatureAlgorithm : Type 0 where
  ecdsa_nistp256_sha256 ecdsa_nistp256_sha384 : SignatureAlgorithm
  ecdsa_nistp384_sha256 ecdsa_nistp384_sha384 : SignatureAlgorithm
  ed25519 : SignatureAlgorithm
  rsa_pkcs1_2048_8192_sha256 rsa_pkcs1_2048_8192_sha384 : SignatureAlgorithm
  rsa_pkcs1_2048_8192_sha512 : SignatureAlgorithm
  rsa_pss_2048_8192_sha256_legacy_key : SignatureAlgorithm
  rsa_pss_2048_8192_sha384_legacy_key : SignatureAlgorithm
  rsa_pss_2048_8192_sha512_legacy_key : SignatureAlgorithm

pub record ServerSignature : Type 0 where
  pub alg : SignatureAlgorithm
  pub sig : List ℕ

-- `CertBinding`, whose one case is `CertBindingV1_2`.
pub record CertBinding : Type 0 where
  pub client_random : List ℕ
  pub server_random : List ℕ
  pub server_ephemeral_key : ServerEphemKey

-- A certificate is its bytes.
pub record HandshakeData : Type 0 where
  pub certs : List (List ℕ)
  pub sig : ServerSignature
  pub binding : CertBinding
