-- ===== src/Tests/Transcripts.antt =====
-- crates/core/src/transcript/tls/builder.rs and crates/mpc-tls on small inputs.
use tlsn.Common.{
  ℕ, ◌≡◌, ◌≢◌, ◌↔◌, ◌<◌, ◌≤◌, ◌⊎◌, refl, List, [], ◌∷◌, ◌++◌, Option, none, some, ok, length, arith,
  All, IsByte, IsU24,
}
use tlsn.Msgs.Enums.Content.{ContentType}
use tlsn.Msgs.Enums.Version.{ProtocolVersion}
use tlsn.Msgs.Enums.Handshakes.{HandshakeType}
use tlsn.Msgs.Message.{OpaqueMessage}
use tlsn.Msgs.Message.Wire.{IsWire}
use tlsn.Msgs.Deframer.Delivery.{wire}
use tlsn.Transcript.{RecordType, Record}
use tlsn.Transcript.Connection.{TlsVersion, CertBinding, KeyType}
use tlsn.Transcript.Parse.{
  HandshakeMsgInfo, parse_raw_records, scan_handshake_messages, parse_records, parse_finished,
  parse_loop, split_into_record, cut_record, with_plaintext, validate_seq, behind_ccs,
}
use tlsn.Transcript.Parse.Frames.{parse_raw_records_iff}
use tlsn.Transcript.Parse.Scan.{stream, infos, Scanned, scan_handshake_messages_iff}
use tlsn.Transcript.Parse.Numbered.{IsParsed, parse_records_lem}
use tlsn.Transcript.Builder.{
  ended, panicked, unfinished, TlsTranscript, TlsTranscriptBuilder, build, cf_vd, sf_vd,
}
use tlsn.Transcript.Builder.Built.{IsDirection, build-IsDirection}
use tlsn.Transcript.Builder.Ends.{NoRecords, build_ends}
use tlsn.Mpc.Utils.{opaque_into_parts}
use tlsn.Mpc.Utils.Split.{opaque_into_parts_lem}
use tlsn.Mpc.Messages.{Message}
use tlsn.Mpc.Follower.{Calls, Session, handle, run_loop}
use tlsn.Mpc.Follower.Once.{ToldOnce, run_loop-ToldOnce}
use tlsn.Mpc.Leader.Records.{push_outgoing}
use tlsn.Mpc.Leader.Private.{Alike, push_outgoing_private}
use tlsn.Tests.Parties.{leader_calls, follower_calls, prepared}
use tlsn.Tests.Sessions.{read_any, payloads, curve_of, sha256, finished, started}

abbrev hello : OpaqueMessage
hello = record {
  typ = ContentType.handshake;
  version = ProtocolVersion.tls_v1_2;
  payload = 1 ∷ 0 ∷ 0 ∷ 1 ∷ 5 ∷ [];
}

abbrev hello_bytes : List ℕ
hello_bytes = 22 ∷ 3 ∷ 3 ∷ 0 ∷ 5 ∷ 1 ∷ 0 ∷ 0 ∷ 1 ∷ 5 ∷ []

hello_IsByte : All IsByte hello_bytes
hello_IsByte = (
  omega arith,
  (
    omega arith,
    (
      omega arith,
      (
        omega arith,
        (
          omega arith,
          (omega arith, (omega arith, (omega arith, (omega arith, (omega arith, tt))))),
        ),
      ),
    ),
  ),
)

parse_raw_records_iff_example :
    (parse_raw_records hello_bytes ≢ none)
    × ((parse_raw_records hello_bytes ≡ some (ok (hello ∷ [])))
        ↔ (All IsWire (hello ∷ []) × (hello_bytes ≡ wire (hello ∷ []))))
parse_raw_records_iff_example = parse_raw_records_iff hello_bytes (hello ∷ []) hello_IsByte

abbrev message_bytes : List ℕ
message_bytes = 1 ∷ 0 ∷ 0 ∷ 1 ∷ 5 ∷ []

abbrev message_ends : List HandshakeMsgInfo
message_ends = record { typ = HandshakeType.client_hello; end = 5 } ∷ []

scan_handshake_messages_iff_example :
    (scan_handshake_messages message_bytes ≢ unfinished)
    × (scan_handshake_messages message_bytes ≢ panicked)
    × ((scan_handshake_messages message_bytes ≡ ended (ok message_ends))
        → Scanned message_bytes 0 message_ends)
    × ((ms : List (ℕ × List ℕ))
        → All (λ (m : ℕ × List ℕ). IsU24 (length m.1)) ms
        → message_bytes ≡ stream ms
        → scan_handshake_messages message_bytes ≡ ended (ok (infos 0 ms)))
scan_handshake_messages_iff_example =
    scan_handshake_messages_iff message_bytes message_ends
      (omega arith, (omega arith, (omega arith, (omega arith, (omega arith, tt)))))

abbrev eight : List ℕ
eight = 0 ∷ 0 ∷ 0 ∷ 0 ∷ 0 ∷ 0 ∷ 0 ∷ 0 ∷ []

abbrev frame : ContentType → List ℕ → OpaqueMessage
frame typ payload = record { typ = typ; version = ProtocolVersion.tls_v1_2; payload = payload }

abbrev frames : List OpaqueMessage
frames =
    hello
    ∷ frame ContentType.change_cipher_spec (1 ∷ [])
    ∷ frame ContentType.handshake (eight ++ (7 ∷ (eight ++ eight)))
    ∷ frame ContentType.application_data (eight ++ (9 ∷ (eight ++ eight)))
    ∷ []

abbrev frame_records : List Record
frame_records =
    record {
      seq = 0;
      typ = RecordType.handshake;
      plaintext = none;
      explicit_nonce = eight;
      ciphertext = 7 ∷ [];
      tag = some (eight ++ eight);
    }
    ∷ record {
      seq = 1;
      typ = RecordType.application_data;
      plaintext = none;
      explicit_nonce = eight;
      ciphertext = 9 ∷ [];
      tag = some (eight ++ eight);
    }
    ∷ []

parse_records_lem_example : IsParsed frames none frame_records
unfolding parse_records parse_finished parse_loop split_into_record cut_record with_plaintext
    behind_ccs tlsn.Transcript.Ending.slice tlsn.Transcript.Ending.slice_from
    tlsn.Transcript.Ending.minus
parse_records_lem_example = parse_records_lem frames none frame_records refl

abbrev short : List ℕ
short = 1 ∷ 2 ∷ []

opaque_into_parts_lem_example :
    (24 ≤ length short
      → (nonce : List ℕ) × (ciphertext : List ℕ) × (tag : List ℕ) × (opaque_into_parts short
          ≡ ended (ok (nonce, ciphertext, tag)))
        × (nonce ++ (ciphertext ++ tag) ≡ short)
        × (length nonce ≡ 8)
        × (length tag ≡ 16))
    × (length short < 24 → opaque_into_parts short ≡ panicked)
opaque_into_parts_lem_example = opaque_into_parts_lem short

-- A transcript from the records of a connection.
abbrev direction : List Record
direction =
    record {
      seq = 0;
      typ = RecordType.handshake;
      plaintext = some finished;
      explicit_nonce = eight;
      ciphertext = 7 ∷ [];
      tag = none;
    }
    ∷ []

abbrev binding : CertBinding
binding = record {
  client_random = 1 ∷ [];
  server_random = 2 ∷ [];
  server_ephemeral_key = record { typ = KeyType.secp256r1; key = 3 ∷ [] };
}

abbrev builder : TlsTranscriptBuilder
builder = record {
  time = some 9;
  version = some TlsVersion.v1_2;
  tls_sent = none;
  tls_recv = none;
  app_sent = none;
  app_recv = none;
  records_sent = some direction;
  records_recv = some direction;
  server_signature = none;
  server_cert_chain = none;
  certificate_binding = some binding;
}

abbrev transcript : TlsTranscript
transcript = record {
  time = 9;
  version = TlsVersion.v1_2;
  server_signature = none;
  server_cert_chain = none;
  certificate_binding = binding;
  sent = direction;
  recv = direction;
  cf_hash = none;
  session_hash = none;
  sf_hash = none;
}

build-IsDirection_example :
    IsDirection transcript.sent
    × IsDirection transcript.recv
    × ((vd : Option (List ℕ)) × (cf_vd transcript ≡ ended vd))
    × ((vd : Option (List ℕ)) × (sf_vd transcript ≡ ended vd))
unfolding build tlsn.Transcript.Builder.direction_records
    tlsn.Transcript.Builder.validate_finished_record validate_seq tlsn.Msgs.Handshake.read_version
    tlsn.Msgs.Enums.read_enum_u8 tlsn.Msgs.Codec.read_u8 tlsn.Msgs.Reader.take_bytes
    tlsn.Msgs.Codec.read_u24 tlsn.Msgs.Reader.sub tlsn.Msgs.Base.read_payload
build-IsDirection_example =
    build-IsDirection read_any payloads curve_of sha256 builder transcript refl

build_ends_example :
    (build read_any payloads curve_of sha256 builder ≢ unfinished)
    × ((build read_any payloads curve_of sha256 builder ≡ panicked)
        → NoRecords builder.records_sent ⊎ NoRecords builder.records_recv)
build_ends_example = build_ends read_any payloads curve_of sha256 builder

abbrev told : List (Calls × Message)
told =
    (follower_calls, Message.set_client_random (4 ∷ []))
    ∷ (follower_calls, Message.start_handshake 1000)
    ∷ (follower_calls, Message.close_connection)
    ∷ []

run_loop-ToldOnce_example :
    ToldOnce told started (record started { client_random = some (4 ∷ []); time = some 1000 })
unfolding run_loop handle tlsn.Mpc.Follower.is_close tlsn.Mpc.Follower.alloc_follower
    tlsn.Mpc.Follower.preprocess_follower tlsn.Mpc.Layer.alloc tlsn.Mpc.Layer.allocated
run_loop-ToldOnce_example =
    run_loop-ToldOnce told started
      (record started { client_random = some (4 ∷ []); time = some 1000 }) refl

push_outgoing_private_example :
    Alike
      (push_outgoing leader_calls
        (record {
          typ = ContentType.application_data;
          version = ProtocolVersion.tls_v1_2;
          payload = 1 ∷ [];
        })
        prepared)
      (push_outgoing leader_calls
        (record {
          typ = ContentType.application_data;
          version = ProtocolVersion.tls_v1_2;
          payload = 2 ∷ [];
        })
        prepared)
push_outgoing_private_example =
    push_outgoing_private leader_calls ProtocolVersion.tls_v1_2 (1 ∷ []) (2 ∷ []) prepared refl
