-- ===== src/Mpc/Leader.antt =====
-- crates/mpc-tls/src/leader.rs: the leader, as the backend that the TLS client calls. The key exchange,
-- the PRF, the clock, the connection to the follower and the virtual machine are arguments: the
-- outcome of each call. What is sent to the follower is returned beside the state.
pub mod Setup
pub mod Fields
pub mod Records
pub mod Close
pub mod Acts
pub mod Private
use tlsn.Common.{
  ℕ, List, [], ◌∷◌, ◌++◌, Option, none, some, Bool, true, false, not, ◌==◌, length, Result, ok, err,
  ok_or, if◌then◌else◌,
}
use tlsn.Msgs.Enums.Groups.{NamedGroup}
use tlsn.Msgs.Enums.Signatures.{SignatureScheme}
use tlsn.Msgs.Enums.Version.{ProtocolVersion}
use tlsn.Transcript.Connection.{PublicKey, SignatureAlgorithm}
use tlsn.Transcript.Builder.{TlsTranscript}
use tlsn.Mpc.Ops.{MpcTlsError, Role, Decoded, Vm, ◌>>=◌}
use tlsn.Mpc.Layer
use tlsn.Mpc.Layer.{RecordLayer, AllocOutcome, alloc}
use tlsn.Mpc.Messages.{Message}
use tlsn.Mpc.Follower.{Sizes, received_vd}

-- crates/tls/core/src/cert.rs and ke.rs. A certificate is its bytes.
pub record ServerCertDetails : Type 0 where
  pub cert_chain : List (List ℕ)
  pub ocsp_response : List ℕ
  pub scts : Option (List (List ℕ))

pub record ServerKxDetails : Type 0 where
  pub kx_params : List ℕ
  pub scheme : SignatureScheme
  pub sig : List ℕ

-- The state in the handshake. A cipher suite is its number.
pub record Handshake : Type 0 where
  pub record_layer : RecordLayer
  pub time : Option ℕ
  pub protocol_version : Option ProtocolVersion
  pub cipher_suite : Option ℕ
  pub client_random : List ℕ
  pub server_random : Option (List ℕ)
  pub server_cert_details : Option ServerCertDetails
  pub server_key : Option PublicKey
  pub server_kx_details : Option ServerKxDetails

pub record Active : Type 0 where
  pub record_layer : RecordLayer
  pub cf_vd : Option (List ℕ)
  pub sf_vd : Option (List ℕ)
  pub time : ℕ
  pub protocol_version : ProtocolVersion
  pub client_random : List ℕ
  pub server_random : List ℕ
  pub server_cert_details : ServerCertDetails
  pub server_key : PublicKey
  pub server_kx_details : ServerKxDetails

pub data LeaderState : Type 0 where
  init : RecordLayer → LeaderState
  setup : RecordLayer → List ℕ → LeaderState
  handshake : Handshake → LeaderState
  active : Active → LeaderState
  closed : RecordLayer → TlsTranscript → LeaderState
  error : LeaderState

-- `notified` is whether the backend's notification is set.
pub record Leader : Type 0 where
  pub sizes : Sizes
  pub state : LeaderState
  pub notified : Bool
  pub is_decrypting : Bool

-- `new`
abbrev pub new_leader : Bool → Sizes → Leader
new_leader defer_decryption sizes = record {
  sizes = sizes;
  state = LeaderState.init (Layer.new Role.leader);
  notified = false;
  is_decrypting = not defer_decryption;
}

pub data BackendError : Type 0 where
  invalid_state unsupported_protocol_version unsupported_ciphersuite : BackendError
  unsupported_curve_group invalid_config invalid_server_key internal_error : BackendError
  encryption_error decryption_error : BackendError

-- The outcomes of what one operation calls.
pub record LeaderCalls : Type 0 where
  pub now : ℕ
  pub send : Message → Result (Unit {0}) MpcTlsError
  pub lock : Result (Unit {0}) MpcTlsError
  pub before_alloc : Result (Unit {0}) MpcTlsError
  pub client_random : List ℕ
  pub preprocessed : Result (Unit {0}) MpcTlsError
  pub prf_server_random : Result (Unit {0}) MpcTlsError
  pub prf_hash : List ℕ → Result (Unit {0}) MpcTlsError
  pub prf_flushed : Result (Unit {0}) MpcTlsError
  pub finished_vd : Decoded
  pub parse_key : List ℕ → Result (Unit {0}) MpcTlsError
  pub set_server_key : Bool
  pub compute_shares : Result (Unit {0}) MpcTlsError
  pub assign : Result (Unit {0}) MpcTlsError
  pub finalize : Result (Unit {0}) MpcTlsError
  pub setup : Result (Unit {0}) MpcTlsError
  pub vm : Vm
  pub determine_alg : List ℕ → List ℕ → ServerKxDetails → Option SignatureAlgorithm

-- What an operation returns: its result, the leader, and what it has sent.
abbrev pub Reply : Type 0 → Type 0
Reply A = Result A BackendError × Leader × List Message

-- `From<MpcTlsError> for BackendError`
abbrev pub into_backend {ℓ} : {A : Type ℓ} → Result A MpcTlsError → Result A BackendError
into_backend (ok a) = ok a
into_backend (err e) = err BackendError.internal_error

abbrev pub in_state : Leader → LeaderState → Leader
in_state l s = record l { state = s }

-- `map_err(MpcTlsError::hs)`
abbrev pub as_handshake : Result (Unit {0}) MpcTlsError → Result (Unit {0}) MpcTlsError
as_handshake (ok u) = ok u
as_handshake (err e) = err MpcTlsError.handshake

abbrev pub wrong_state : {A : Type 0} → Leader → Reply A
wrong_state l = (err BackendError.internal_error, l, [])

-- `enable_decryption`
abbrev pub enable_decryption : Bool → Leader → Leader
enable_decryption enable l = record l { is_decrypting = enable; notified = enable }
