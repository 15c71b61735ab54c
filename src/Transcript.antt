-- ===== src/Transcript.antt =====
-- crates/core/src/transcript/tls.rs: the records of a TLS connection.
pub mod AppData
pub mod Parse
pub mod Connection
pub mod Extract
pub mod Ending
pub mod Hashes
pub mod Builder
use tlsn.Common.{
  ℕ, List, [], ◌∷◌, ◌++◌, Option, none, some, Bool, true, false, Result, ok, err, if◌then◌else◌,
}
use tlsn.Msgs.Enums.Content.{ContentType}

-- `ContentType` of this file, a copy of the one that the TLS library has.
pub data RecordType : Type 0 where
  change_cipher_spec alert handshake application_data heartbeat : RecordType
  unknown : ℕ → RecordType

-- `From<tls_core::msgs::enums::ContentType> for ContentType`
abbrev pub record_type : ContentType → RecordType
record_type ContentType.change_cipher_spec = RecordType.change_cipher_spec
record_type ContentType.alert = RecordType.alert
record_type ContentType.handshake = RecordType.handshake
record_type ContentType.application_data = RecordType.application_data
record_type ContentType.heartbeat = RecordType.heartbeat
record_type (ContentType.unknown id) = RecordType.unknown id

-- `From<ContentType> for tls_core::msgs::enums::ContentType`
abbrev pub content_type : RecordType → ContentType
content_type RecordType.change_cipher_spec = ContentType.change_cipher_spec
content_type RecordType.alert = ContentType.alert
content_type RecordType.handshake = ContentType.handshake
content_type RecordType.application_data = ContentType.application_data
content_type RecordType.heartbeat = ContentType.heartbeat
content_type (RecordType.unknown id) = ContentType.unknown id

pub record Record : Type 0 where
  pub seq : ℕ
  pub typ : RecordType
  pub plaintext : Option (List ℕ)
  pub explicit_nonce : List ℕ
  pub ciphertext : List ℕ
  pub tag : Option (List ℕ)

pub data Direction : Type 0 where
  sent received : Direction

-- `ErrorRepr`, without the texts.
pub data TlsTranscriptError : Type 0 where
  parse missing validation : TlsTranscriptError
  incomplete : Direction → ℕ → TlsTranscriptError

abbrev pub is_app_data : RecordType → Bool
is_app_data RecordType.application_data = true
is_app_data _ = false

-- A record's plaintext before those that follow, or the first error.
joined :
    Direction
    → ℕ
    → Option (List ℕ)
    → Result (List ℕ) TlsTranscriptError
    → Result (List ℕ) TlsTranscriptError
joined direction seq none rest = err (incomplete direction seq)
joined direction seq (some plaintext) (ok bytes) = ok (plaintext ++ bytes)
joined direction seq (some plaintext) (err e) = err e

-- One of the two loops of `to_transcript`.
unfoldable pub app_data : Direction → List Record → Result (List ℕ) TlsTranscriptError
unfolding joined
app_data direction [] = ok []
app_data direction (r ∷ rs) =
    let rest = app_data direction rs in
    if is_app_data r.typ then joined direction r.seq r.plaintext rest else rest

both :
    Result (List ℕ) TlsTranscriptError
    → Result (List ℕ) TlsTranscriptError
    → Result (List ℕ × List ℕ) TlsTranscriptError
both (err e) r = err e
both (ok s) (err e) = err e
both (ok s) (ok r) = ok (s, r)

-- `to_transcript`, on the sent and the received records: the two halves of the transcript.
unfoldable pub to_transcript :
    List Record → List Record → Result (List ℕ × List ℕ) TlsTranscriptError
unfolding both
to_transcript sent_records recv_records =
    both (app_data Direction.sent sent_records) (app_data Direction.received recv_records)
