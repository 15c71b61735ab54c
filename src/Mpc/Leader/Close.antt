-- ===== src/Mpc/Leader/Close.antt =====
-- crates/mpc-tls/src/leader.rs: closing the connection.
use tlsn.Common.{
  ℕ, List, [], ◌∷◌, ◌++◌, Option, none, some, true, not, Result, ok, err, ok_or, if◌then◌else◌,
}
use tlsn.Msgs.Enums.Version.{ProtocolVersion}
use tlsn.Msgs.Handshake.{ReadBody}
use tlsn.Transcript.{Record}
use tlsn.Transcript.Connection.{TlsVersion, SignatureAlgorithm, ServerEphemKey, server_ephem_key}
use tlsn.Transcript.Extract.{Payloads, CurveOf}
use tlsn.Transcript.Builder.{
  Ending, ended, panicked, unfinished, TlsTranscript, TlsTranscriptBuilder, build,
}
use tlsn.Mpc.Ops.{MpcTlsError}
use tlsn.Mpc.Layer
use tlsn.Mpc.Layer.{RecordLayer}
use tlsn.Mpc.Commit.{commit}
use tlsn.Mpc.Messages.{Message}
use tlsn.Mpc.Utils.{Fallible, ◌>>=◌, check_transcript}
use tlsn.Mpc.Follower.Close.{expected, built}
use tlsn.Mpc.Leader.{Active, LeaderState, Leader, LeaderCalls, in_state}

-- `match protocol_version { .. panic!(..) }`
abbrev pub closing_version : ProtocolVersion → Fallible TlsVersion
closing_version ProtocolVersion.tls_v1_2 = ended (ok TlsVersion.v1_2)
closing_version _ = panicked

-- `cert_chain()[0]`
abbrev pub end_entity : List (List ℕ) → Option (List ℕ)
end_entity [] = none
end_entity (cert ∷ certs) = some cert

abbrev pub leader_builder :
    Active
    → TlsVersion
    → SignatureAlgorithm
    → ServerEphemKey
    → List Record
    → List Record
    → TlsTranscriptBuilder
leader_builder a version alg key sent recv = record {
  time = some a.time;
  version = some version;
  tls_sent = none;
  tls_recv = none;
  app_sent = none;
  app_recv = none;
  records_sent = some sent;
  records_recv = some recv;
  server_signature = some (record { alg = alg; sig = a.server_kx_details.sig });
  server_cert_chain = some a.server_cert_details.cert_chain;
  certificate_binding = some (record {
    client_random = a.client_random;
    server_random = a.server_random;
    server_ephemeral_key = key;
  });
}

module _ {B : Type 0} (read_body : ReadBody B) (p : Payloads B) (curve_of : CurveOf)
    (sha256 : List ℕ → List ℕ) where
  -- Behind the commit of `close_connection`.
  unfoldable pub closing_transcript :
      LeaderCalls → Active → List Record × List Record → Fallible TlsTranscript
  closing_transcript c a (sent, recv) = do
    cf ← ended (ok_or a.cf_vd MpcTlsError.state)
    sf ← ended (ok_or a.sf_vd MpcTlsError.state)
    version ← closing_version a.protocol_version
    cert ← expected (end_entity a.server_cert_details.cert_chain)
    alg ← expected (
        c.determine_alg cert (a.client_random ++ (a.server_random ++ a.server_kx_details.kx_params))
          a.server_kx_details)
    key ← expected (server_ephem_key a.server_key)
    t ← built (build read_body p curve_of sha256 (leader_builder a version alg key sent recv))
    _ ← check_transcript cf sf t
    ended (ok t)

  -- The leader is notified if records are left for the client.
  abbrev notify : RecordLayer → Leader → Leader
  notify rl l = if not (Layer.is_empty rl) then record l { notified = true } else l

  abbrev pub closed_with :
      Leader
      → RecordLayer
      → Result TlsTranscript MpcTlsError
      → Result (Unit {0}) MpcTlsError × Leader
  closed_with l rl (ok t) = (ok tt, in_state (notify rl l) (LeaderState.closed rl t))
  closed_with l rl (err e) = (err e, in_state (notify rl l) LeaderState.error)

  unfoldable pub close_with :
      Leader
      → RecordLayer
      → Fallible TlsTranscript
      → Ending (Result (Unit {0}) MpcTlsError × Leader × List Message)
  close_with l rl (ended r) =
      let (q, l') = closed_with l rl r in ended (q, l', Message.close_connection ∷ [])
  close_with l rl panicked = panicked
  close_with l rl unfinished = unfinished

  unfoldable pub close_active :
      LeaderCalls → Leader → Active → Ending (Result (Unit {0}) MpcTlsError × Leader × List Message)
  unfolding close_with
  close_active c l a =
      let (r, rl) = commit c.vm a.record_layer in
      elim (c.send Message.close_connection) [
        | err e ↦ ended (err e, in_state l LeaderState.error, [])
        | ok u ↦ elim r [
          | err e ↦ ended (err e, in_state l LeaderState.error, Message.close_connection ∷ [])
          | ok records ↦ close_with l rl (closing_transcript c a records)
        ]
      ]

  -- `close_connection`
  unfoldable pub close_connection :
      LeaderCalls → Leader → Ending (Result (Unit {0}) MpcTlsError × Leader × List Message)
  unfolding close_active
  close_connection c l = elim l.state [
    | LeaderState.active a ↦ close_active c l a
    | _ ↦ ended (err MpcTlsError.state, in_state l LeaderState.error, [])
  ]

-- `finish`
unfoldable pub finish : Leader → Option TlsTranscript × Leader
finish l = elim l.state [
  | LeaderState.closed rl t ↦ (some t, in_state l LeaderState.error)
  | _ ↦ (none, l)
]
