-- ===== src/Mpc/Leader/Setup.antt =====
-- crates/mpc-tls/src/leader.rs: from a new leader to a state in which records are protected.
use tlsn.Common.{List, [], ◌∷◌, none, not, Result, ok, err, ok_or, if◌then◌else◌}
use tlsn.Mpc.Ops.{MpcTlsError, ◌>>=◌}
use tlsn.Mpc.Layer.{AllocOutcome, alloc}
use tlsn.Mpc.Messages.{Message}
use tlsn.Mpc.Leader.{
  Handshake, Active, LeaderState, Leader, BackendError, LeaderCalls, Reply, into_backend, in_state,
  as_handshake,
}

-- `alloc`
unfoldable pub alloc_state :
    LeaderCalls → AllocOutcome → Leader → LeaderState → Result (Unit {0}) MpcTlsError × Leader
alloc_state c out l (LeaderState.init rl) =
    let (r, rl') = alloc out l.sizes.max_sent l.sizes.max_recv_online l.sizes.max_recv rl in
    elim (c.lock >>= λ u. c.before_alloc >>= λ u. r) [
      | ok u ↦ (ok tt, in_state l (LeaderState.setup rl' c.client_random))
      | err e ↦ (err e, in_state l LeaderState.error)
    ]
alloc_state c out l s = (err MpcTlsError.state, in_state l LeaderState.error)

unfoldable pub alloc_leader :
    LeaderCalls → AllocOutcome → Leader → Result (Unit {0}) MpcTlsError × Leader
unfolding alloc_state
alloc_leader c out l = alloc_state c out l l.state

-- `preprocess`
unfoldable pub preprocess_state :
    LeaderCalls → Leader → LeaderState → Result (Unit {0}) MpcTlsError × Leader × List Message
preprocess_state c l (LeaderState.setup rl random) =
    elim (c.lock >>= λ u. c.preprocessed >>= λ u. c.send (Message.set_client_random random)) [
      | ok u ↦ (
        ok tt,
        in_state l (
            LeaderState.handshake (record {
              record_layer = rl;
              time = none;
              protocol_version = none;
              cipher_suite = none;
              client_random = random;
              server_random = none;
              server_cert_details = none;
              server_key = none;
              server_kx_details = none;
            })),
        Message.set_client_random random ∷ [],
      )
      | err e ↦ (err e, in_state l LeaderState.error, [])
    ]
preprocess_state c l s = (err MpcTlsError.state, in_state l LeaderState.error, [])

unfoldable pub preprocess_leader :
    LeaderCalls → Leader → Result (Unit {0}) MpcTlsError × Leader × List Message
unfolding preprocess_state
preprocess_leader c l = preprocess_state c l l.state

-- The values that `prepare_encryption` needs.
unfoldable pub active_of : Handshake → Result Active MpcTlsError
active_of h = do
  time ← ok_or h.time MpcTlsError.handshake
  protocol_version ← ok_or h.protocol_version MpcTlsError.handshake
  server_random ← ok_or h.server_random MpcTlsError.handshake
  server_cert_details ← ok_or h.server_cert_details MpcTlsError.handshake
  server_key ← ok_or h.server_key MpcTlsError.handshake
  server_kx_details ← ok_or h.server_kx_details MpcTlsError.handshake
  ok (record {
    record_layer = h.record_layer;
    cf_vd = none;
    sf_vd = none;
    time = time;
    protocol_version = protocol_version;
    client_random = h.client_random;
    server_random = server_random;
    server_cert_details = server_cert_details;
    server_key = server_key;
    server_kx_details = server_kx_details;
  })

-- The calls of `prepare_encryption`, in order.
pub prepared : LeaderCalls → Active → Result (Unit {0}) BackendError
prepared c a = elim (as_handshake (c.parse_key a.server_key.key)) [
  | err e ↦ err BackendError.internal_error
  | ok u ↦
      if not c.set_server_key
      then err BackendError.invalid_state
      else into_backend (
          c.compute_shares >>= λ u.
          c.lock >>= λ u. c.assign >>= λ u. c.prf_flushed >>= λ u. c.finalize >>= λ u. c.setup)
]

unfoldable pub prepare_state : LeaderCalls → Leader → LeaderState → Reply (Unit {0})
unfolding active_of prepared
prepare_state c l (LeaderState.handshake h) = elim (active_of h) [
  | err e ↦ (err BackendError.internal_error, in_state l LeaderState.error, [])
  | ok a ↦ elim (prepared c a) [
    | err e ↦ (err e, in_state l LeaderState.error, [])
    | ok u ↦ (ok tt, in_state l (LeaderState.active a), [])
  ]
]
prepare_state c l s = (err BackendError.internal_error, in_state l LeaderState.error, [])

-- `prepare_encryption`
unfoldable pub prepare_encryption : LeaderCalls → Leader → Reply (Unit {0})
unfolding prepare_state
prepare_encryption c l = prepare_state c l l.state
