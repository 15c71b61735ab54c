-- ===== src/Transcript/Parse.antt =====
-- crates/core/src/transcript/tls/builder.rs: reading the bytes of a connection as records, the
-- handshake messages in front, and the checks on records.
pub mod Frames
pub mod Cut
pub mod Supply
pub mod Numbered
pub mod Header
pub mod Within
pub mod Safe
pub mod Scan
use tlsn.Common.{
  ℕ, zero, suc, ◌≡◌, refl, ◌+◌, ◌-◌, ◌*◌, List, [], ◌∷◌, ◌++◌, Option, none, some, Bool, true,
  false, not, ◌==◌, leb, ltb, if◌then◌else◌, length, take, drop, get_elem?, Result, ok, err, ok_or,
}
use tlsn.Msgs.Reader.{Reader, init, any_left}
use tlsn.Msgs.Enums.Content.{ContentType}
use tlsn.Msgs.Enums.Handshakes.{HandshakeType, handshake_type_from}
use tlsn.Msgs.Message.{OpaqueMessage, MessageError, read_opaque, is_application_data}
use tlsn.Transcript.{
  RecordType, Record, TlsTranscriptError, parse, missing, validation, record_type, is_app_data,
}
use tlsn.Transcript.Ending.{
  Ending, ended, panicked, unfinished, Fallible, ◌>>=◌, slice, slice_from, minus,
}

-- An element in front of what a loop adds later.
abbrev pub pushed {ℓ} :
    {A : Type ℓ}
    → A
    → Option (Result (List A) TlsTranscriptError)
    → Option (Result (List A) TlsTranscriptError)
pushed a none = none
pushed a (some (err e)) = some (err e)
pushed a (some (ok rest)) = some (ok (a ∷ rest))

pub pushed_ok :
    {A : Type 0} (a : A) (o : Option (Result (List A) TlsTranscriptError)) (xs : List A)
    → pushed a o ≡ some (ok xs)
    → (rest : List A) × (o ≡ some (ok rest)) × (xs ≡ a ∷ rest)
pushed_ok a none xs e = absurd (cc)
pushed_ok a (some (err x)) xs e = absurd (cc)
pushed_ok a (some (ok rest)) xs e = (rest, refl, cc)

pub pushed_none :
    {A : Type 0} (a : A) (o : Option (Result (List A) TlsTranscriptError))
    → pushed a o ≡ none
    → o ≡ none
pushed_none a none e = refl
pushed_none a (some (err x)) e = absurd (cc)
pushed_none a (some (ok rest)) e = absurd (cc)

next_record :
    (Reader → Option (Result (List OpaqueMessage) TlsTranscriptError))
    → Result (OpaqueMessage × Reader) MessageError
    → Option (Result (List OpaqueMessage) TlsTranscriptError)
next_record loop (err e) = some (err parse)
next_record loop (ok (msg, r)) = pushed msg (loop r)

-- The loop of `parse_raw_records`; `none` means that the fuel ran out.
unfoldable pub raw_records_loop :
    ℕ → Reader → Option (Result (List OpaqueMessage) TlsTranscriptError)
unfolding next_record
raw_records_loop zero r = none
raw_records_loop (suc fuel) r =
    let more = next_record (raw_records_loop fuel) (read_opaque r) in
    if any_left r then more else some (ok [])

-- `parse_raw_records`
unfoldable pub parse_raw_records : List ℕ → Option (Result (List OpaqueMessage) TlsTranscriptError)
parse_raw_records bytes = raw_records_loop (suc (length bytes)) (init bytes)

abbrev pub is_change_cipher_spec : ContentType → Bool
is_change_cipher_spec ContentType.change_cipher_spec = true
is_change_cipher_spec _ = false

abbrev pub is_handshake : ContentType → Bool
is_handshake ContentType.handshake = true
is_handshake _ = false

-- `collect_handshake_bytes_pre_ccs`
unfoldable pub collect_handshake_bytes_pre_ccs : List OpaqueMessage → List ℕ
collect_handshake_bytes_pre_ccs [] = []
collect_handshake_bytes_pre_ccs (r ∷ rs) =
    let rest = collect_handshake_bytes_pre_ccs rs in
    if is_change_cipher_spec r.typ
    then []
    else if is_handshake r.typ
    then r.payload ++ rest
    else rest

pub record HandshakeMsgInfo : Type 0 where
  pub typ : HandshakeType
  pub end : ℕ

four_bytes : Option ℕ → Option ℕ → Option ℕ → Option ℕ → Ending (ℕ × ℕ)
four_bytes (some typ) (some a) (some b) (some c) = ended (typ, (a * 256 + b) * 256 + c)
four_bytes _ _ _ _ = panicked

-- `bytes[pos]`, and `u32::from_be_bytes([0, bytes[pos + 1], bytes[pos + 2], bytes[pos + 3]])`
unfoldable pub header_at : List ℕ → ℕ → Ending (ℕ × ℕ)
unfolding four_bytes
header_at bytes pos =
    four_bytes (get_elem? bytes pos) (get_elem? bytes (pos + 1)) (get_elem? bytes (pos + 2))
      (get_elem? bytes (pos + 3))

-- A message, and what the loop adds from its end on.
scan_message :
    (ℕ → Fallible (List HandshakeMsgInfo))
    → ℕ
    → ℕ
    → Ending (ℕ × ℕ)
    → Fallible (List HandshakeMsgInfo)
scan_message loop size pos (ended (typ, len)) =
    let msg_end = pos + 4 + len in
    let info : HandshakeMsgInfo = record { typ = handshake_type_from typ; end = msg_end } in
    let more = loop msg_end >>= λ rest. ended (ok (info ∷ rest)) in
    if ltb size msg_end then ended (err parse) else more
scan_message loop size pos panicked = panicked
scan_message loop size pos unfinished = unfinished

-- The loop of `scan_handshake_messages`.
unfoldable pub scan_loop : ℕ → List ℕ → ℕ → Fallible (List HandshakeMsgInfo)
unfolding scan_message
scan_loop zero bytes pos = unfinished
scan_loop (suc fuel) bytes pos =
    let more = scan_message (scan_loop fuel bytes) (length bytes) pos (header_at bytes pos) in
    if leb (length bytes) pos
    then ended (ok [])
    else if ltb (length bytes - pos) 4
    then ended (err parse)
    else more

-- `scan_handshake_messages`
unfoldable pub scan_handshake_messages : List ℕ → Fallible (List HandshakeMsgInfo)
scan_handshake_messages bytes = scan_loop (suc (length bytes)) bytes 0

abbrev pub nonce_len : ℕ
nonce_len = 8

abbrev pub tag_len : ℕ
tag_len = 16

-- The record that a payload is cut into.
unfoldable pub cut_record : ℕ → RecordType → List ℕ → Fallible Record
cut_record seq typ payload = do
  explicit_nonce ← slice 0 nonce_len payload
  tag_start ← minus (length payload) tag_len
  ciphertext ← slice nonce_len tag_start payload
  tag ← slice_from tag_start payload
  ended (
      ok (record {
        seq = seq;
        typ = typ;
        plaintext = none;
        explicit_nonce = explicit_nonce;
        ciphertext = ciphertext;
        tag = some tag;
      }))

-- `split_into_record`
unfoldable pub split_into_record : ℕ → List ℕ → ContentType → Fallible Record
split_into_record seq payload typ =
    if ltb (length payload) (nonce_len + tag_len)
    then ended (err parse)
    else cut_record seq (record_type typ) payload

take_plaintext : Record → List ℕ → Fallible (Record × Option (List ℕ))
take_plaintext rec app_data = do
  plaintext ← slice 0 (length rec.ciphertext) app_data
  left ← slice_from (length rec.ciphertext) app_data
  ended (ok (record rec { plaintext = some plaintext }, some left))

-- The plaintext of a record of application data is cut from the front of what is left of
-- `app_data`; without `app_data` records stay as they are.
unfoldable pub with_plaintext : Record → Option (List ℕ) → Fallible (Record × Option (List ℕ))
unfolding take_plaintext
with_plaintext rec none = ended (ok (rec, none))
with_plaintext rec (some app_data) =
    if not (is_app_data rec.typ)
    then ended (ok (rec, some app_data))
    else if leb (length rec.ciphertext) (length app_data)
    then take_plaintext rec app_data
    else ended (err parse)

-- The loop of `parse_records`: `app_data` is the part from `consumed` on.
unfoldable pub parse_loop : ℕ → Option (List ℕ) → List OpaqueMessage → Fallible (List Record)
parse_loop seq app_data [] = ended (ok [])
parse_loop seq app_data (r ∷ rs) = do
  rec ← split_into_record seq r.payload r.typ
  (rec, left) ← with_plaintext rec app_data
  rest ← parse_loop (suc seq) left rs
  ended (ok (rec ∷ rest))

-- `position` of the first change of the cipher, and the records behind it.
unfoldable pub behind_ccs : List OpaqueMessage → Option (List OpaqueMessage)
behind_ccs [] = none
behind_ccs (r ∷ rs) = if is_change_cipher_spec r.typ then some rs else behind_ccs rs

-- The first record behind it.
unfoldable pub parse_finished : Option (List ℕ) → List OpaqueMessage → Fallible (List Record)
parse_finished app_data [] = ended (err parse)
parse_finished app_data (finished ∷ rs) =
    if ltb (length finished.payload) (nonce_len + tag_len)
    then ended (err parse)
    else if not (is_handshake finished.typ)
    then ended (err validation)
    else cut_record 0 RecordType.handshake finished.payload >>= λ first.
        parse_loop 1 app_data rs >>= λ rest. ended (ok (first ∷ rest))

-- `parse_records`
unfoldable pub parse_records : List OpaqueMessage → Option (List ℕ) → Fallible (List Record)
unfolding parse_finished
parse_records records app_data = do
  rs ← ended (ok_or (behind_ccs records) missing)
  parse_finished app_data rs

-- `validate_seq`, over the pairs of neighbours.
unfoldable pub validate_seq : List Record → Result (Unit {0}) TlsTranscriptError
validate_seq [] = ok tt
validate_seq (a ∷ []) = ok tt
validate_seq (a ∷ b ∷ rs) = if leb b.seq a.seq then err validation else validate_seq (b ∷ rs)
