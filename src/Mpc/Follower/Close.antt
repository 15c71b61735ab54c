-- ===== src/Mpc/Follower/Close.antt =====
-- crates/mpc-tls/src/follower.rs: the end of `run`, behind the loop.
use tlsn.Common.{ℕ, List, Option, none, some, Result, ok, err, ok_or}
use tlsn.Msgs.Handshake.{ReadBody}
use tlsn.Transcript.{Record, TlsTranscriptError}
use tlsn.Transcript.Connection.{ServerEphemKey, TlsVersion, server_ephem_key}
use tlsn.Transcript.Extract.{Payloads, CurveOf}
use tlsn.Transcript.Builder.{
  Ending, ended, panicked, unfinished, TlsTranscript, TlsTranscriptBuilder, build,
}
use tlsn.Mpc.Ops.{MpcTlsError, Vm}
use tlsn.Mpc.Commit.{commit}
use tlsn.Mpc.Utils.{Fallible, ◌>>=◌, check_transcript}
use tlsn.Mpc.Messages.{Message}
use tlsn.Mpc.Follower.{Calls, Session, run_loop}

-- `expect`
abbrev pub expected {ℓ} : {A : Type ℓ} → Option A → Ending (Result A MpcTlsError)
expected none = panicked
expected (some a) = ended (ok a)

-- `map_err(MpcTlsError::other)`
abbrev pub built : Ending (Result TlsTranscript TlsTranscriptError) → Fallible TlsTranscript
built (ended (ok t)) = ended (ok t)
built (ended (err e)) = ended (err MpcTlsError.other)
built panicked = panicked
built unfinished = unfinished

abbrev pub follower_builder :
    ℕ → List ℕ → List ℕ → ServerEphemKey → List Record → List Record → TlsTranscriptBuilder
follower_builder time client_random server_random key sent recv = record {
  time = some time;
  version = some TlsVersion.v1_2;
  tls_sent = none;
  tls_recv = none;
  app_sent = none;
  app_recv = none;
  records_sent = some sent;
  records_recv = some recv;
  server_signature = none;
  server_cert_chain = none;
  certificate_binding = some (record {
    client_random = client_random;
    server_random = server_random;
    server_ephemeral_key = key;
  });
}

module _ {B : Type 0} (read_body : ReadBody B) (p : Payloads B) (curve_of : CurveOf)
    (sha256 : List ℕ → List ℕ) where
  -- Behind the loop of `run`.
  unfoldable pub finish_session : Vm → Session → Fallible TlsTranscript
  finish_session vm s = do
    (sent, recv) ← ended (commit vm s.record_layer).0
    time ← ended (ok_or s.time MpcTlsError.handshake)
    server_key ← ended (ok_or s.server_key MpcTlsError.handshake)
    client_random ← ended (ok_or s.client_random MpcTlsError.handshake)
    server_random ← ended (ok_or s.server_random MpcTlsError.handshake)
    cf ← ended (ok_or s.expected_cf_vd MpcTlsError.handshake)
    sf ← ended (ok_or s.expected_sf_vd MpcTlsError.handshake)
    key ← expected (server_ephem_key server_key)
    t ← built (
        build read_body p curve_of sha256
          (follower_builder time client_random server_random key sent recv))
    _ ← check_transcript cf sf t
    ended (ok t)

  -- `run`, from the state that it starts in.
  unfoldable pub run_session : Vm → List (Calls × Message) → Session → Fallible TlsTranscript
  run_session vm msgs s = do s' ← ended (run_loop msgs s); finish_session vm s'
