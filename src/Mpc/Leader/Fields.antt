-- ===== src/Mpc/Leader/Fields.antt =====
-- crates/mpc-tls/src/leader.rs: what the client tells the leader in the handshake.
use tlsn.Common.{
  ℕ, List, [], ◌∷◌, some, Bool, true, false, not, ◌==◌, length, Result, ok, err, if◌then◌else◌,
}
use tlsn.Msgs.Enums.Groups.{NamedGroup}
use tlsn.Msgs.Enums.Version.{ProtocolVersion}
use tlsn.Transcript.Connection.{PublicKey}
use tlsn.Mpc.Ops.{MpcTlsError, ◌>>=◌}
use tlsn.Mpc.Messages.{Message}
use tlsn.Mpc.Follower.{received_vd}
use tlsn.Mpc.Leader.{
  ServerCertDetails, ServerKxDetails, Handshake, Active, LeaderState, Leader, BackendError,
  LeaderCalls, Reply, into_backend, in_state, as_handshake, wrong_state,
}

-- The operations of the handshake that only store what they are given.
set_handshake : (Handshake → Handshake) → Leader → LeaderState → Reply (Unit {0})
set_handshake f l (LeaderState.handshake h) = (ok tt, in_state l (LeaderState.handshake (f h)), [])
set_handshake f l s = wrong_state l

unfoldable pub set_protocol_version : ProtocolVersion → Leader → Reply (Unit {0})
unfolding set_handshake
set_protocol_version v l =
    set_handshake (λ (h : Handshake). record h { protocol_version = some v }) l l.state

unfoldable pub set_cipher_suite : ℕ → Leader → Reply (Unit {0})
unfolding set_handshake
set_cipher_suite suite l =
    set_handshake (λ (h : Handshake). record h { cipher_suite = some suite }) l l.state

unfoldable pub set_server_cert_details : ServerCertDetails → Leader → Reply (Unit {0})
unfolding set_handshake
set_server_cert_details details l =
    set_handshake (λ (h : Handshake). record h { server_cert_details = some details }) l l.state

unfoldable pub set_server_kx_details : ServerKxDetails → Leader → Reply (Unit {0})
unfolding set_handshake
set_server_kx_details details l =
    set_handshake (λ (h : Handshake). record h { server_kx_details = some details }) l l.state

-- `set_server_random`: the time is set before anything is sent.
unfoldable pub server_random_sent :
    LeaderCalls → List ℕ → Handshake → Result (Unit {0}) MpcTlsError × Handshake × List Message
server_random_sent c random h =
    let start = Message.start_handshake c.now in
    let set = Message.set_server_random random in
    let h' = record h { time = some c.now } in
    elim (c.send start) [
      | err e ↦ (err e, h', [])
      | ok u ↦ elim (c.send set) [
        | err e ↦ (err e, h', start ∷ [])
        | ok u ↦ elim (as_handshake c.prf_server_random) [
          | err e ↦ (err e, h', start ∷ set ∷ [])
          | ok u ↦ (ok tt, record h' { server_random = some random }, start ∷ set ∷ [])
        ]
      ]
    ]

set_random_state : LeaderCalls → List ℕ → Leader → LeaderState → Reply (Unit {0})
unfolding server_random_sent
set_random_state c random l (LeaderState.handshake h) =
    let (r, h', sent) = server_random_sent c random h in
    (into_backend r, in_state l (LeaderState.handshake h'), sent)
set_random_state c random l s = wrong_state l

unfoldable pub set_server_random : LeaderCalls → List ℕ → Leader → Reply (Unit {0})
unfolding set_random_state
set_server_random c random l = set_random_state c random l l.state

pub is_secp256r1 : NamedGroup → Bool
is_secp256r1 NamedGroup.secp256r1 = true
is_secp256r1 _ = false

-- `set_server_key_share`
set_key_state : LeaderCalls → PublicKey → Leader → LeaderState → Reply (Unit {0})
unfolding is_secp256r1
set_key_state c key l (LeaderState.handshake h) =
    if not (is_secp256r1 key.group)
    then (err BackendError.invalid_server_key, l, [])
    else elim (c.send (Message.set_server_key key)) [
      | err e ↦ (err BackendError.internal_error, l, [])
      | ok u ↦ (
        ok tt,
        in_state l (LeaderState.handshake (record h { server_key = some key })),
        Message.set_server_key key ∷ [],
      )
    ]
set_key_state c key l s = wrong_state l

unfoldable pub set_server_key_share : LeaderCalls → PublicKey → Leader → Reply (Unit {0})
unfolding set_key_state
set_server_key_share c key l = set_key_state c key l l.state

-- `get_server_finished_vd` and `get_client_finished_vd`: the message, and how the verify data is stored.
unfoldable pub finished_state :
    LeaderCalls
    → (List ℕ → Message)
    → (List ℕ → Active → Active)
    → List ℕ
    → Leader
    → LeaderState
    → Reply (List ℕ)
finished_state c message store hash l (LeaderState.active a) =
    if not (length hash == 32)
    then (err BackendError.internal_error, l, [])
    else elim (c.send (message hash)) [
      | err e ↦ (err BackendError.internal_error, l, [])
      | ok u ↦
          elim (c.lock >>= λ u.
          c.prf_hash hash >>= λ u. c.prf_flushed >>= λ u. received_vd c.finished_vd) [
            | err e ↦ (err BackendError.internal_error, l, message hash ∷ [])
            | ok vd ↦ (ok vd, in_state l (LeaderState.active (store vd a)), message hash ∷ [])
          ]
    ]
finished_state c message store hash l s = wrong_state l

unfoldable pub get_server_finished_vd : LeaderCalls → List ℕ → Leader → Reply (List ℕ)
unfolding finished_state
get_server_finished_vd c hash l =
    finished_state c Message.server_finished_vd (λ vd a. record a { sf_vd = some vd }) hash l
      l.state

unfoldable pub get_client_finished_vd : LeaderCalls → List ℕ → Leader → Reply (List ℕ)
unfolding finished_state
get_client_finished_vd c hash l =
    finished_state c Message.client_finished_vd (λ vd a. record a { cf_vd = some vd }) hash l
      l.state
