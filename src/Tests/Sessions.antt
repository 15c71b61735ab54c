-- ===== src/Tests/Sessions.antt =====
-- crates/mpc-tls: a whole session of a leader and a follower, from the allocation to the transcripts.
use tlsn.Common.{ℕ, ◌≡◌, refl, List, [], ◌∷◌, ◌++◌, Option, none, some, true, false, Result, ok}
use tlsn.Msgs.Base.{read_payload}
use tlsn.Msgs.Enums.Content.{ContentType}
use tlsn.Msgs.Enums.Version.{ProtocolVersion}
use tlsn.Msgs.Enums.Groups.{NamedGroup}
use tlsn.Msgs.Enums.Signatures.{SignatureScheme}
use tlsn.Msgs.Handshake.{ReadBody}
use tlsn.Transcript.Extract.{Payloads, CurveOf, Curve}
use tlsn.Transcript.Builder.{Ending, ended, panicked, unfinished, TlsTranscript}
use tlsn.Mpc.Ops.{MpcTlsError, Role}
use tlsn.Mpc.Layer
use tlsn.Mpc.Layer.{RecordLayer, alloc}
use tlsn.Mpc.Layer.{allocated as layer_allocated}
use tlsn.Mpc.Messages.{Message}
use tlsn.Mpc.Follower.{
  Session, FollowerState, start_session, handle, alloc_follower, preprocess_follower,
}
use tlsn.Mpc.Leader.Setup.{alloc_leader, preprocess_leader}
use tlsn.Transcript.Connection.{PublicKey, TlsVersion, KeyType}
use tlsn.Mpc.Follower.Close.{finish_session}
use tlsn.Mpc.Leader.{Leader, LeaderState}
use tlsn.Mpc.Leader.Acts.{Act, perform}
use tlsn.Mpc.Leader.Close.{close_connection}
use tlsn.Mpc.Joint.Agree.{Prepared, Joint}
use tlsn.Mpc.Joint.Closed.{SameTranscripts, close_connection-finish_session}
use tlsn.Tests.Parties.{
  plain_vm, vd, leader_calls, follower_calls, sizes, out, allocated, prepared, follower_setup,
  follower_ready, play, play-Joint, hear,
}

abbrev layer_of : FollowerState → RecordLayer
layer_of (FollowerState.init rl) = rl
layer_of (FollowerState.setup rl) = rl
layer_of (FollowerState.ready rl) = rl
layer_of FollowerState.error = Layer.new Role.follower

abbrev pub started : Session
started = record {
  record_layer = layer_of follower_ready;
  time = none;
  client_random = none;
  server_random = none;
  server_key = none;
  expected_cf_vd = none;
  expected_sf_vd = none;
}

abbrev pub ready : Session
ready = record started { client_random = some (4 ∷ []) }

prepared_ready : Prepared prepared ready
unfolding alloc_leader alloc_follower preprocess_leader preprocess_follower start_session alloc
    layer_allocated handle
prepared_ready = record {
  defer = false;
  sizes = sizes;
  calls = leader_calls;
  out = out;
  first = allocated;
  allocated = refl;
  later_calls = leader_calls;
  msgs = Message.set_client_random (4 ∷ []) ∷ [];
  preprocessed = refl;
  before = ok tt;
  follower_out = out;
  follower_sizes = sizes;
  setup = follower_setup;
  follower_allocated = refl;
  done = ok tt;
  ready = follower_ready;
  follower_preprocessed = refl;
  start = started;
  started = refl;
  heard = (follower_calls, ready, refl, refl);
}

-- A finished message with the verify data, and 8 or 16 bytes.
abbrev pub finished : List ℕ
finished = 20 ∷ 0 ∷ 0 ∷ 3 ∷ vd

abbrev eight : List ℕ
eight = 0 ∷ 0 ∷ 0 ∷ 0 ∷ 0 ∷ 0 ∷ 0 ∷ 0 ∷ []

abbrev hash : List ℕ
hash = eight ++ (eight ++ (eight ++ eight))

abbrev key : PublicKey
key = record { group = NamedGroup.secp256r1; key = 6 ∷ [] }

abbrev incoming : ContentType → List ℕ → Act
incoming typ bytes = Act.push_incoming (record {
  typ = typ;
  version = ProtocolVersion.tls_v1_2;
  payload = eight ++ (bytes ++ (eight ++ eight));
})

abbrev outgoing : ContentType → List ℕ → Act
outgoing typ bytes =
    Act.push_outgoing (record { typ = typ; version = ProtocolVersion.tls_v1_2; payload = bytes })

abbrev pub acts : List Act
acts =
    Act.set_protocol_version ProtocolVersion.tls_v1_2
    ∷ Act.set_server_random (5 ∷ [])
    ∷ Act.set_server_cert_details
        (record { cert_chain = (9 ∷ []) ∷ []; ocsp_response = []; scts = none })
    ∷ Act.set_server_kx_details
        (record { kx_params = 8 ∷ []; scheme = SignatureScheme.ed25519; sig = 3 ∷ [] })
    ∷ Act.set_server_key_share key
    ∷ Act.prepare_encryption
    ∷ Act.get_client_finished_vd hash
    ∷ outgoing ContentType.handshake finished
    ∷ incoming ContentType.handshake finished
    ∷ Act.get_server_finished_vd hash
    ∷ outgoing ContentType.application_data (72 ∷ [])
    ∷ Act.flush
    ∷ Act.enable_decryption false
    ∷ incoming ContentType.application_data (73 ∷ [])
    ∷ []

abbrev ended_with : Option (Leader × Session) → Leader × Session
ended_with none = (prepared, ready)
ended_with (some end) = end

abbrev pub end : Leader × Session
end = ended_with (play acts prepared ready)

pub joint : Joint end.0 end.1
unfolding play hear perform handle tlsn.Mpc.Leader.Fields.set_protocol_version
    tlsn.Mpc.Leader.Fields.set_server_random tlsn.Mpc.Leader.Fields.set_server_cert_details
    tlsn.Mpc.Leader.Fields.set_server_kx_details tlsn.Mpc.Leader.Fields.set_server_key_share
    tlsn.Mpc.Leader.Fields.get_client_finished_vd tlsn.Mpc.Leader.Fields.get_server_finished_vd
    tlsn.Mpc.Leader.Setup.prepare_encryption tlsn.Mpc.Leader.Records.push_outgoing
    tlsn.Mpc.Leader.Records.push_incoming tlsn.Mpc.Leader.Records.flush Layer.push_encrypt
    Layer.push_decrypt tlsn.Mpc.Utils.opaque_into_parts tlsn.Mpc.Flush.flush tlsn.Mpc.Flush.process
    tlsn.Mpc.Flush.before_application_data tlsn.Mpc.Flush.emit_encrypts tlsn.Mpc.Flush.emit_decrypts
    tlsn.Mpc.Ops.new_encrypt_op tlsn.Mpc.Ops.encrypt tlsn.Mpc.Ops.queue_encrypt
    tlsn.Mpc.Ops.decrypt_mpc tlsn.Mpc.Ops.private_mpc tlsn.Mpc.Ops.public_mpc
    tlsn.Mpc.Ops.try_encrypt tlsn.Mpc.Ops.try_decrypt alloc_leader alloc_follower preprocess_leader
    preprocess_follower start_session alloc layer_allocated
joint = play-Joint acts prepared end.0 ready end.1 (Joint.begin prepared ready prepared_ready) refl

-- Every body is its bytes, and a finished message.
abbrev pub read_any : ReadBody (List ℕ)
read_any typ version r = some ((typ, (read_payload r).0), (read_payload r).1)

abbrev pub payloads : Payloads (List ℕ)
payloads = record {
  server_hello = λ b. none;
  client_random = λ b. none;
  certificate = λ b. none;
  server_key_exchange = λ b. none;
  is_finished = λ b. true;
}

abbrev pub curve_of : CurveOf
curve_of cert = some Curve.secp256r1

abbrev pub sha256 : List ℕ → List ℕ
sha256 bytes = bytes

abbrev left_by : Ending (Result (Unit {0}) MpcTlsError × Leader × List Message) → Leader
left_by (ended (r, l, ms)) = l
left_by panicked = prepared
left_by unfinished = prepared

abbrev closed : Leader
closed = left_by (close_connection read_any payloads curve_of sha256 leader_calls end.0)

abbrev returned : Ending (Result TlsTranscript MpcTlsError) → Option TlsTranscript
returned (ended (ok t)) = some t
returned _ = none

abbrev transcript_of : Option TlsTranscript → TlsTranscript
transcript_of (some t) = t
transcript_of none = record {
  time = 0;
  version = TlsVersion.v1_2;
  server_signature = none;
  server_cert_chain = none;
  certificate_binding = record {
    client_random = [];
    server_random = [];
    server_ephemeral_key = record { typ = KeyType.secp256r1; key = [] };
  };
  sent = [];
  recv = [];
  cf_hash = none;
  session_hash = none;
  sf_hash = none;
}

abbrev transcript : TlsTranscript
transcript =
    transcript_of (returned (finish_session read_any payloads curve_of sha256 plain_vm end.1))

close_connection-finish_session_example :
    (layer : RecordLayer) × (t : TlsTranscript) × (closed.state ≡ LeaderState.closed layer t)
    × SameTranscripts t transcript
unfolding tlsn.Msgs.Enums.read_enum_u8 tlsn.Msgs.Codec.read_u8 tlsn.Msgs.Reader.take_bytes
    tlsn.Msgs.Codec.read_u24 tlsn.Msgs.Reader.sub read_payload close_connection finish_session
    tlsn.Mpc.Leader.Close.closing_transcript tlsn.Mpc.Commit.commit tlsn.Mpc.Ops.decrypt_local
    tlsn.Transcript.Builder.build tlsn.Transcript.Builder.direction_records
    tlsn.Transcript.Builder.validate_finished_record tlsn.Transcript.Parse.validate_seq
    tlsn.Transcript.Builder.cf_vd tlsn.Transcript.Builder.sf_vd tlsn.Mpc.Utils.check_transcript
    tlsn.Mpc.Utils.check_close_notify tlsn.Transcript.Connection.server_ephem_key
    tlsn.Msgs.Handshake.read_version play hear perform handle
    tlsn.Mpc.Leader.Fields.set_protocol_version tlsn.Mpc.Leader.Fields.set_server_random
    tlsn.Mpc.Leader.Fields.set_server_cert_details tlsn.Mpc.Leader.Fields.set_server_kx_details
    tlsn.Mpc.Leader.Fields.set_server_key_share tlsn.Mpc.Leader.Fields.get_client_finished_vd
    tlsn.Mpc.Leader.Fields.get_server_finished_vd tlsn.Mpc.Leader.Setup.prepare_encryption
    tlsn.Mpc.Leader.Records.push_outgoing tlsn.Mpc.Leader.Records.push_incoming
    tlsn.Mpc.Leader.Records.flush Layer.push_encrypt Layer.push_decrypt
    tlsn.Mpc.Utils.opaque_into_parts tlsn.Mpc.Flush.flush tlsn.Mpc.Flush.process
    tlsn.Mpc.Flush.before_application_data tlsn.Mpc.Flush.emit_encrypts tlsn.Mpc.Flush.emit_decrypts
    tlsn.Mpc.Ops.new_encrypt_op tlsn.Mpc.Ops.encrypt tlsn.Mpc.Ops.queue_encrypt
    tlsn.Mpc.Ops.decrypt_mpc tlsn.Mpc.Ops.private_mpc tlsn.Mpc.Ops.public_mpc
    tlsn.Mpc.Ops.try_encrypt tlsn.Mpc.Ops.try_decrypt alloc_leader alloc_follower preprocess_leader
    preprocess_follower start_session alloc layer_allocated
close_connection-finish_session_example =
    close_connection-finish_session read_any payloads curve_of sha256 leader_calls plain_vm end.0
      closed end.1 (Message.close_connection ∷ []) transcript joint refl refl
