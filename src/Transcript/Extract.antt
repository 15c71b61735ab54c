-- ===== src/Transcript/Extract.antt =====
-- crates/core/src/transcript/tls/builder.rs: what the builder takes from the messages of a handshake.
use tlsn.Common.{ℕ, List, [], ◌∷◌, Option, none, some, Bool, Result, ok, err, ok_or}
use tlsn.Msgs.Enums.Groups.{NamedGroup}
use tlsn.Msgs.Enums.Signatures.{SignatureScheme}
use tlsn.Msgs.Enums.Version.{ProtocolVersion}
use tlsn.Msgs.Handshake.{HandshakeMessagePayload}
use tlsn.Transcript.{TlsTranscriptError, parse}
use tlsn.Transcript.Connection.{
  TlsVersion, tls_version, KeyType, ServerEphemKey, SignatureAlgorithm, ServerSignature,
  HandshakeData,
}

infixl 5 ◌>>=◌
abbrev ◌>>=◌ {ℓ κ} :
    {A : Type ℓ} {B : Type κ}
    → Result A TlsTranscriptError
    → (A → Result B TlsTranscriptError)
    → Result B TlsTranscriptError
ok a >>= f = f a
err e >>= f = err e

pub record ServerHello : Type 0 where
  pub legacy_version : ProtocolVersion
  pub random : List ℕ

-- `ECDHEServerKeyExchange`, as far as it is looked at.
pub record ServerKeyExchange : Type 0 where
  pub named_group : NamedGroup
  pub public : List ℕ
  pub scheme : SignatureScheme
  pub sig : List ℕ

-- What the builder looks at in a payload: `B` is `HandshakePayload`. A `ServerKeyExchange` may hold
-- parameters that do not parse as ECDHE.
pub record Payloads (B : Type 0) : Type 0 where
  pub server_hello : B → Option ServerHello
  pub client_random : B → Option (List ℕ)
  pub certificate : B → Option (List (List ℕ))
  pub server_key_exchange : B → Option (Option ServerKeyExchange)
  pub is_finished : B → Bool

-- The curve of a certificate's key, as the X.509 library reads it.
pub data Curve : Type 0 where
  secp256r1 secp384r1 other : Curve

abbrev pub CurveOf : Type 0
CurveOf = List ℕ → Option Curve

module _ {B : Type 0} where
  -- `iter().find_map(..)`
  unfoldable pub find_map :
      {A : Type 0} → (B → Option A) → List (HandshakeMessagePayload B) → Option A
  find_map f [] = none
  find_map f (m ∷ ms) =
      let rest = find_map f ms in elim (f m.payload) [ none ↦ rest | some a ↦ some a ]

first_cert : List (List ℕ) → Result (List ℕ) TlsTranscriptError
first_cert [] = err parse
first_cert (cert ∷ certs) = ok cert

-- `extract_ec_curve_oid`
unfoldable pub extract_ec_curve_oid : CurveOf → List (List ℕ) → Result Curve TlsTranscriptError
unfolding first_cert
extract_ec_curve_oid curve_of certs = do cert ← first_cert certs; ok_or (curve_of cert) parse

ecdsa :
    SignatureAlgorithm → SignatureAlgorithm → Curve → Result SignatureAlgorithm TlsTranscriptError
ecdsa on_p256 on_p384 Curve.secp256r1 = ok on_p256
ecdsa on_p256 on_p384 Curve.secp384r1 = ok on_p384
ecdsa on_p256 on_p384 Curve.other = err parse

-- `map_signature_scheme`
unfoldable pub map_signature_scheme :
    CurveOf → SignatureScheme → List (List ℕ) → Result SignatureAlgorithm TlsTranscriptError
unfolding ecdsa
map_signature_scheme curve_of SignatureScheme.rsa_pkcs1_sha256 certs =
    ok SignatureAlgorithm.rsa_pkcs1_2048_8192_sha256
map_signature_scheme curve_of SignatureScheme.rsa_pkcs1_sha384 certs =
    ok SignatureAlgorithm.rsa_pkcs1_2048_8192_sha384
map_signature_scheme curve_of SignatureScheme.rsa_pkcs1_sha512 certs =
    ok SignatureAlgorithm.rsa_pkcs1_2048_8192_sha512
map_signature_scheme curve_of SignatureScheme.rsa_pss_sha256 certs =
    ok SignatureAlgorithm.rsa_pss_2048_8192_sha256_legacy_key
map_signature_scheme curve_of SignatureScheme.rsa_pss_sha384 certs =
    ok SignatureAlgorithm.rsa_pss_2048_8192_sha384_legacy_key
map_signature_scheme curve_of SignatureScheme.rsa_pss_sha512 certs =
    ok SignatureAlgorithm.rsa_pss_2048_8192_sha512_legacy_key
map_signature_scheme curve_of SignatureScheme.ed25519 certs = ok SignatureAlgorithm.ed25519
map_signature_scheme curve_of SignatureScheme.ecdsa_nistp256_sha256 certs = do
  curve ← extract_ec_curve_oid curve_of certs
  ecdsa SignatureAlgorithm.ecdsa_nistp256_sha256 SignatureAlgorithm.ecdsa_nistp384_sha256 curve
map_signature_scheme curve_of SignatureScheme.ecdsa_nistp384_sha384 certs = do
  curve ← extract_ec_curve_oid curve_of certs
  ecdsa SignatureAlgorithm.ecdsa_nistp256_sha384 SignatureAlgorithm.ecdsa_nistp384_sha384 curve
map_signature_scheme curve_of _ certs = err parse

is_secp256r1 : NamedGroup → Result KeyType TlsTranscriptError
is_secp256r1 NamedGroup.secp256r1 = ok KeyType.secp256r1
is_secp256r1 _ = err parse

module _ {B : Type 0} (p : Payloads B) (curve_of : CurveOf) where
  -- `extract_server_hello_data`
  unfoldable pub extract_server_hello_data :
      List (HandshakeMessagePayload B) → Result (TlsVersion × List ℕ) TlsTranscriptError
  extract_server_hello_data recv_hs = do
    hello ← ok_or (find_map p.server_hello recv_hs) parse
    version ← ok_or (tls_version hello.legacy_version) parse
    ok (version, hello.random)

  -- `extract_client_random`
  unfoldable pub extract_client_random :
      List (HandshakeMessagePayload B) → Result (List ℕ) TlsTranscriptError
  extract_client_random sent_hs = ok_or (find_map p.client_random sent_hs) parse

  -- `extract_certs`
  unfoldable pub extract_certs :
      List (HandshakeMessagePayload B) → Result (List (List ℕ)) TlsTranscriptError
  extract_certs recv_hs = ok_or (find_map p.certificate recv_hs) parse

  -- `extract_server_key_exchange`
  unfoldable pub extract_server_key_exchange :
      List (HandshakeMessagePayload B)
      → List (List ℕ)
      → Result (ServerEphemKey × ServerSignature) TlsTranscriptError
  unfolding is_secp256r1
  extract_server_key_exchange recv_hs certs = do
    ske ← ok_or (find_map p.server_key_exchange recv_hs) parse
    ecdhe ← ok_or ske parse
    typ ← is_secp256r1 ecdhe.named_group
    alg ← map_signature_scheme curve_of ecdhe.scheme certs
    ok (record { typ = typ; key = ecdhe.public }, record { alg = alg; sig = ecdhe.sig })

  -- `extract_handshake`
  unfoldable pub extract_handshake :
      List (HandshakeMessagePayload B)
      → List (HandshakeMessagePayload B)
      → Result (TlsVersion × HandshakeData) TlsTranscriptError
  extract_handshake sent_hs recv_hs = do
    (version, server_random) ← extract_server_hello_data recv_hs
    client_random ← extract_client_random sent_hs
    certs ← extract_certs recv_hs
    (key, sig) ← extract_server_key_exchange recv_hs certs
    ok (
      version,
      record {
        certs = certs;
        sig = sig;
        binding = record {
          client_random = client_random;
          server_random = server_random;
          server_ephemeral_key = key;
        };
      },
    )
