-- ===== src/Transcript/Builder.antt =====
-- crates/core/src/transcript/tls/builder.rs and tls.rs: building the transcript of a connection, from
-- records or from the bytes on the wire, and what it is asked for.
pub mod Built
pub mod Given
pub mod Ends
use tlsn.Common.{
  ℕ, zero, suc, List, [], ◌∷◌, ◌++◌, Option, none, some, is_some, Bool, true, false, not, ◌==◌, leb,
  if◌then◌else◌, length, drop, Result, ok, err, ok_or,
}
use tlsn.Msgs.Reader.{Reader, init, any_left}
use tlsn.Msgs.Enums.Handshakes.{HandshakeType}
use tlsn.Msgs.Enums.Version.{ProtocolVersion}
use tlsn.Msgs.Handshake.{ReadBody, HandshakeMessagePayload, read_version}
use tlsn.Msgs.Message.{OpaqueMessage}
use tlsn.Transcript.{RecordType, Record, TlsTranscriptError, parse, missing, validation}
use tlsn.Transcript.Connection.{TlsVersion, ServerSignature, CertBinding, HandshakeData}
use tlsn.Transcript.Extract.{Payloads, CurveOf, extract_handshake}
use tlsn.Transcript.Hashes.{SfHashInput, compute_handshake_hashes}
use tlsn.Transcript.Parse.{
  pushed, parse_raw_records, collect_handshake_bytes_pre_ccs, HandshakeMsgInfo,
  scan_handshake_messages, parse_records, validate_seq,
}
pub use tlsn.Transcript.Ending.{Ending, ended, panicked, unfinished, Fallible, ◌>>=◌, looped}
use tlsn.Transcript.Ending.{slice, slice_from}

pub record TlsTranscript : Type 0 where
  pub time : ℕ
  pub version : TlsVersion
  pub server_signature : Option ServerSignature
  pub server_cert_chain : Option (List (List ℕ))
  pub certificate_binding : CertBinding
  pub sent : List Record
  pub recv : List Record
  pub cf_hash : Option (List ℕ)
  pub session_hash : Option (List ℕ)
  pub sf_hash : Option SfHashInput

pub record TlsTranscriptBuilder : Type 0 where
  pub time : Option ℕ
  pub version : Option TlsVersion
  pub tls_sent : Option (List ℕ)
  pub tls_recv : Option (List ℕ)
  pub app_sent : Option (List ℕ)
  pub app_recv : Option (List ℕ)
  pub records_sent : Option (List Record)
  pub records_recv : Option (List Record)
  pub server_signature : Option ServerSignature
  pub server_cert_chain : Option (List (List ℕ))
  pub certificate_binding : Option CertBinding

-- `client_finished` and `server_finished`, which panic on a transcript without records.
abbrev pub first_record : List Record → Ending Record
first_record [] = panicked
first_record (r ∷ rs) = ended r

-- `plain.get(4..)`
abbrev behind_header : List ℕ → Option (List ℕ)
behind_header plain = if leb 4 (length plain) then some (drop 4 plain) else none

verify_data : Ending Record → Ending (Option (List ℕ))
verify_data (ended r) = ended (elim r.plaintext [ none ↦ none | some plain ↦ behind_header plain ])
verify_data panicked = panicked
verify_data unfinished = unfinished

unfoldable pub cf_vd : TlsTranscript → Ending (Option (List ℕ))
unfolding verify_data
cf_vd t = verify_data (first_record t.sent)

unfoldable pub sf_vd : TlsTranscript → Ending (Option (List ℕ))
unfolding verify_data
sf_vd t = verify_data (first_record t.recv)

abbrev is_record_handshake : RecordType → Bool
is_record_handshake RecordType.handshake = true
is_record_handshake _ = false

module _ (sha256 : List ℕ → List ℕ) where
  sf_hash_of : SfHashInput → List ℕ → Fallible (Option (List ℕ))
  sf_hash_of i cf_vd = do
    client_hello ← slice 0 i.sent_ch_end i.sent_hs_bytes
    server_flight ← slice 0 i.recv_shd_end i.recv_hs_bytes
    client_rest ← slice_from i.sent_ch_end i.sent_hs_bytes
    server_rest ← slice_from i.recv_shd_end i.recv_hs_bytes
    ended (
        ok (
          some (
            sha256 (
              client_hello
              ++ (server_flight
                  ++ (client_rest ++ (0x14 ∷ 0x00 ∷ 0x00 ∷ 0x0c ∷ (cf_vd ++ server_rest))))))))

  -- `sf_hash`, which returns no error.
  unfoldable pub sf_hash : TlsTranscript → List ℕ → Fallible (Option (List ℕ))
  unfolding sf_hash_of
  sf_hash t cf_vd = elim t.sf_hash [ none ↦ ended (ok none) | some i ↦ sf_hash_of i cf_vd ]

abbrev pub raw_of : Option (List ℕ) → Fallible (Option (List OpaqueMessage))
raw_of none = ended (ok none)
raw_of (some bytes) = do records ← looped (parse_raw_records bytes); ended (ok (some records))

-- A field that was set stays.
abbrev or_else : {A : Type 0} → Option A → A → Option A
or_else none a = some a
or_else (some old) a = some old

abbrev hash_of : {A C : Type 0} → (A → C) → Option A → Option C
hash_of f none = none
hash_of f (some a) = some (f a)

module _ {B : Type 0} (read_body : ReadBody B) (p : Payloads B) where
  next_message :
      (Reader → Option (Result (List (HandshakeMessagePayload B)) TlsTranscriptError))
      → Option (HandshakeMessagePayload B × Reader)
      → Option (Result (List (HandshakeMessagePayload B)) TlsTranscriptError)
  next_message loop none = some (err parse)
  next_message loop (some (msg, r)) = pushed msg (loop r)

  -- The loop of `parse_handshake_stream`.
  unfoldable pub messages_loop :
      ℕ → Reader → Option (Result (List (HandshakeMessagePayload B)) TlsTranscriptError)
  unfolding next_message
  messages_loop zero r = none
  messages_loop (suc fuel) r =
      let more =
        next_message (messages_loop fuel) (read_version read_body ProtocolVersion.tls_v1_2 r) in
      if any_left r then more else some (ok [])

  -- `parse_handshake_stream`, without the bytes that it passes on.
  unfoldable pub parse_handshake_stream : List ℕ → Fallible (List (HandshakeMessagePayload B))
  parse_handshake_stream bytes = looped (messages_loop (suc (length bytes)) (init bytes))

  finished_payload :
      Option (HandshakeMessagePayload B × Reader) → Result (Unit {0}) TlsTranscriptError
  finished_payload none = err validation
  finished_payload (some (m, r)) = if p.is_finished m.payload then ok tt else err validation

  -- `validate_finished_record`
  unfoldable pub validate_finished_record : Record → Result (Unit {0}) TlsTranscriptError
  unfolding finished_payload
  validate_finished_record r =
      if not (is_record_handshake r.typ)
      then err validation
      else if not (r.seq == 0)
      then err validation
      else elim r.plaintext [
        | none ↦ ok tt
        | some payload ↦
            finished_payload (read_version read_body ProtocolVersion.tls_v1_2 (init payload))
      ]

  pub checked_first : Ending Record → Fallible (Unit {0})
  checked_first (ended r) = ended (validate_finished_record r)
  checked_first panicked = panicked
  checked_first unfinished = unfinished

  -- The records of one direction: those that are given, or those in the bytes.
  unfoldable pub direction_records :
      Option (List Record) → Option (List OpaqueMessage) → Option (List ℕ) → Fallible (List Record)
  unfolding checked_first
  direction_records (some records) raw app = do
    _ ← checked_first (first_record records)
    _ ← ended (validate_seq records)
    ended (ok records)
  direction_records none (some raw) app = do
    records ← parse_records raw app
    _ ← ended (validate_seq records)
    ended (ok records)
  direction_records none none app = ended (err missing)

  module _ (curve_of : CurveOf) (sha256 : List ℕ → List ℕ) where
    -- `parse_handshake_components`
    unfoldable pub parse_handshake_components :
        TlsTranscriptBuilder
        → List OpaqueMessage
        → List OpaqueMessage
        → Fallible (TlsTranscriptBuilder × (List ℕ × List ℕ × SfHashInput))
    parse_handshake_components b sent_records recv_records = do
      let sent_bytes = collect_handshake_bytes_pre_ccs sent_records
      sent_hs ← parse_handshake_stream sent_bytes
      let recv_bytes = collect_handshake_bytes_pre_ccs recv_records
      recv_hs ← parse_handshake_stream recv_bytes
      (version, handshake) ← ended (extract_handshake p curve_of sent_hs recv_hs)
      sent_msgs ← scan_handshake_messages sent_bytes
      recv_msgs ← scan_handshake_messages recv_bytes
      hashes ← compute_handshake_hashes sha256 sent_bytes recv_bytes sent_msgs recv_msgs
      ended (
          ok (
            record b {
              version = or_else b.version version;
              server_signature = or_else b.server_signature handshake.sig;
              server_cert_chain = or_else b.server_cert_chain handshake.certs;
              certificate_binding = or_else b.certificate_binding handshake.binding;
            },
            hashes,
          ))

    components :
        TlsTranscriptBuilder
        → Option (List OpaqueMessage)
        → Option (List OpaqueMessage)
        → Fallible (TlsTranscriptBuilder × Option (List ℕ × List ℕ × SfHashInput))
    components b (some sent_raw) (some recv_raw) = do
      (b', hashes) ← parse_handshake_components b sent_raw recv_raw
      ended (ok (b', some hashes))
    components b none recv_raw = ended (ok (b, none))
    components b (some sent_raw) none = ended (ok (b, none))

    -- `build`
    unfoldable pub build : TlsTranscriptBuilder → Fallible TlsTranscript
    unfolding components
    build b = do
      time ← ended (ok_or b.time missing)
      sent_raw ← raw_of b.tls_sent
      recv_raw ← raw_of b.tls_recv
      (b', hashes) ← components b sent_raw recv_raw
      sent ← direction_records b'.records_sent sent_raw b'.app_sent
      recv ← direction_records b'.records_recv recv_raw b'.app_recv
      version ← ended (ok_or b'.version missing)
      binding ← ended (ok_or b'.certificate_binding missing)
      ended (
          ok (record {
            time = time;
            version = version;
            server_signature = b'.server_signature;
            server_cert_chain = b'.server_cert_chain;
            certificate_binding = binding;
            sent = sent;
            recv = recv;
            cf_hash = hash_of (λ (h : List ℕ × List ℕ × SfHashInput). h.0) hashes;
            session_hash = hash_of (λ (h : List ℕ × List ℕ × SfHashInput). h.1) hashes;
            sf_hash = hash_of (λ (h : List ℕ × List ℕ × SfHashInput). h.2) hashes;
          }))
