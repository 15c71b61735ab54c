-- ===== src/Msgs/Message/Header.antt =====
-- `OpaqueMessage::read` of crates/tls/core/src/msgs/message.rs against a description of the header by the
-- numbers that its bytes write.
use tlsn.Common.{
  ℕ, ◌+◌, ◌*◌, ◌/◌, ◌<◌, ◌≤◌, ◌≡◌, ◌⊎◌, inl, inr, refl, ap, ◌∙◌, Option, none, some, List, [], ◌∷◌,
  arith, length, take, length-take, Result, ok, err, Bool, true, false, not, ◌&&◌, ◌||◌, ◌==◌, ltb,
  leb, if◌then◌else◌, Bool-cases, ge→ltb, IsByte, IsU16, All,
}
use tlsn.Common.Bits.{bit_and-0xff00}
use tlsn.Msgs.Reader.{Reader}
use tlsn.Msgs.Reader.Unread.{unread, advance}
use tlsn.Msgs.Enums.Content.{ContentType, content_type_from}
use tlsn.Msgs.Enums.Version.{ProtocolVersion, protocol_version_from}
use tlsn.Msgs.Message.{
  OpaqueMessage, MessageError, too_short_for_header, too_short_for_length, illegal_length,
  illegal_content_type, illegal_protocol_version, check_header, is_application_data, is_unknown,
  is_foreign_version, read_opaque,
}
use tlsn.Msgs.Message.Verdicts.{frame_of, with_cursor, read_opaque-frame_of}

-- 20 to 24: change of the cipher, alert, handshake, application data and heartbeat.
abbrev listed_type : ℕ → Bool
listed_type kind = leb 20 kind && leb kind 24

-- 0x03XX, SSLv2, DTLSv1.0 and DTLSv1.2.
abbrev known_version : ℕ → Bool
known_version v = (((v / 256) == 3) || (v == 0x0200)) || ((v == 0xfeff) || (v == 0xfefd))

-- What is wrong with a header: an empty frame that is not application data, one of 18432 bytes or
-- more, a type that is not listed, a version that is not known; the first of these counts.
unfoldable pub header_fault : ℕ → ℕ → ℕ → Option MessageError
header_fault kind v len =
    if (len == 0) && not (kind == 23)
    then some illegal_length
    else if leb 18432 len
    then some illegal_length
    else if not (listed_type kind)
    then some illegal_content_type
    else if not (known_version v)
    then some illegal_protocol_version
    else none

abbrev of_fault :
    ContentType
    → ProtocolVersion
    → ℕ
    → List ℕ
    → Option MessageError
    → Result OpaqueMessage MessageError
of_fault typ version len body (some e) = err e
of_fault typ version len body none =
    if ltb (length body) len
    then err too_short_for_length
    else ok (record { typ = typ; version = version; payload = take len body })

-- The frame at the front of a stream, or what stands against it: a header of less than five bytes, the
-- fault of the header, or a body that is shorter than announced.
unfoldable pub verdict : List ℕ → Result OpaqueMessage MessageError
verdict (a ∷ b ∷ c ∷ d ∷ e ∷ body) =
    of_fault (content_type_from a) (protocol_version_from (b * 256 + c)) (d * 256 + e) body
      (header_fault a (b * 256 + c) (d * 256 + e))
verdict _ = err too_short_for_header

application_data_number : (kind : ℕ) → is_application_data (content_type_from kind) ≡ (kind == 23)
unfolding content_type_from
application_data_number kind = ground arith

unknown_number : (kind : ℕ) → is_unknown (content_type_from kind) ≡ not (listed_type kind)
unfolding content_type_from
unknown_number kind = ground arith

foreign_number :
    (v : ℕ) → IsU16 v → is_foreign_version (protocol_version_from v) ≡ not (known_version v)
unfolding protocol_version_from
foreign_number v h = ground (arith, bit_and-0xff00 v h)

and_comm : (p q : Bool) → (p && q) ≡ (q && p)
and_comm p q = ground arith

-- The checks of the source find the same fault.
check_header-header_fault :
    (kind v len : ℕ)
    → IsU16 v
    → check_header (content_type_from kind) (protocol_version_from v) len ≡ header_fault kind v len
unfolding check_header header_fault
check_header-header_fault kind v len h = rw (
  application_data_number kind,
  unknown_number kind,
  foreign_number v h,
  and_comm (not (kind == 23)) (len == 0),
)

frame_of-verdict : (bytes : List ℕ) → All IsByte bytes → frame_of bytes ≡ verdict bytes
unfolding frame_of verdict
frame_of-verdict [] h = refl
frame_of-verdict (a ∷ []) h = refl
frame_of-verdict (a ∷ b ∷ []) h = refl
frame_of-verdict (a ∷ b ∷ c ∷ []) h = refl
frame_of-verdict (a ∷ b ∷ c ∷ d ∷ []) h = refl
frame_of-verdict (a ∷ b ∷ c ∷ d ∷ e ∷ body) (ha, (hb, (hc, hs))) =
    rw (check_header-header_fault a (b * 256 + c) (d * 256 + e) (omega arith)) refl

-- Wherever the cursor stands, the reader decides by the unread bytes alone, and finds the frame with
-- the cursor behind it, or the first of these faults: less than five bytes of header, a length of
-- nothing where the type is not application data, a length of 18432 or more, a type that is not listed,
-- a version other than 0x03XX, 0x0200, 0xFEFF and 0xFEFD, and a body that is shorter than announced.
pub read_opaque-verdict :
    (bytes : List ℕ) (r : Reader)
    → All IsByte bytes
    → unread r ≡ bytes
    → read_opaque r ≡ with_cursor r (verdict bytes)
read_opaque-verdict bytes r h e =
    read_opaque-frame_of bytes r e ∙ ap (with_cursor r) (frame_of-verdict bytes h)

-- The version numbers that are let through.
abbrev pub IsVersion : ℕ → Type 0
IsVersion v = (v / 256 ≡ 3) ⊎ ((v ≡ 0x0200) ⊎ ((v ≡ 0xfeff) ⊎ (v ≡ 0xfefd)))

known_version_yes : (v : ℕ) → known_version v ≡ true → IsVersion v
known_version_yes v h = ground arith

known_version_no : (v : ℕ) → known_version v ≡ false → ¬ (IsVersion v)
known_version_no v h (inl e) = absurd (ground arith)
known_version_no v h (inr (inl e)) = absurd (ground arith)
known_version_no v h (inr (inr (inl e))) = absurd (ground arith)
known_version_no v h (inr (inr (inr e))) = absurd (ground arith)

no_fault :
    (kind v len : ℕ)
    → 20 ≤ kind
    → kind ≤ 24
    → 0 < len
    → len < 18432
    → known_version v ≡ true
    → header_fault kind v len ≡ none
unfolding header_fault
no_fault kind v len low high some_there small known = ground arith

foreign_fault :
    (kind v len : ℕ)
    → 20 ≤ kind
    → kind ≤ 24
    → 0 < len
    → len < 18432
    → known_version v ≡ false
    → header_fault kind v len ≡ some illegal_protocol_version
unfolding header_fault
foreign_fault kind v len low high some_there small foreign = ground arith

no_fault-verdict :
    (a b c d e : ℕ) (body : List ℕ)
    → known_version (b * 256 + c) ≡ true
    → 20 ≤ a
    → a ≤ 24
    → 0 < d * 256 + e
    → d * 256 + e < 18432
    → d * 256 + e ≤ length body
    → verdict (a ∷ b ∷ c ∷ d ∷ e ∷ body)
      ≡ ok (record {
        typ = content_type_from a;
        version = protocol_version_from (b * 256 + c);
        payload = take (d * 256 + e) body;
      })
unfolding verdict
no_fault-verdict a b c d e body known low high some_there small whole =
    rw
      (
        no_fault a (b * 256 + c) (d * 256 + e) low high some_there small known,
        ge→ltb (length body) (d * 256 + e) whole,
      )
      refl

foreign_fault-verdict :
    (a b c d e : ℕ) (body : List ℕ)
    → known_version (b * 256 + c) ≡ false
    → 20 ≤ a
    → a ≤ 24
    → 0 < d * 256 + e
    → d * 256 + e < 18432
    → verdict (a ∷ b ∷ c ∷ d ∷ e ∷ body) ≡ err illegal_protocol_version
unfolding verdict
foreign_fault-verdict a b c d e body foreign low high some_there small =
    rw (foreign_fault a (b * 256 + c) (d * 256 + e) low high some_there small foreign) refl

-- A whole frame of a listed type and an admissible length, not empty, is returned if its version is
-- 0x03XX or one of 0x0200, 0xFEFF and 0xFEFD, and refused for its version if not.
pub version_accepted :
    (a b c d e : ℕ) (body : List ℕ) (r : Reader)
    → All IsByte (a ∷ b ∷ c ∷ d ∷ e ∷ body)
    → unread r ≡ a ∷ b ∷ c ∷ d ∷ e ∷ body
    → 20 ≤ a
    → a ≤ 24
    → 0 < d * 256 + e
    → d * 256 + e < 18432
    → d * 256 + e ≤ length body
    → (IsVersion (b * 256 + c)
        × (read_opaque r
            ≡ ok (
              record {
                typ = content_type_from a;
                version = protocol_version_from (b * 256 + c);
                payload = take (d * 256 + e) body;
              },
              advance (5 + (d * 256 + e)) r,
            )))
      ⊎ ((¬ (IsVersion (b * 256 + c))) × (read_opaque r ≡ err illegal_protocol_version))
version_accepted a b c d e body r bytes h low high some_there small whole =
    let read = read_opaque-verdict (a ∷ b ∷ c ∷ d ∷ e ∷ body) r bytes h in
    let v = b * 256 + c in
    let len = d * 256 + e in
    elim (Bool-cases (known_version v)) [
      | inl known ↦ inl (
        known_version_yes v known,
        read
            ∙ ap (with_cursor r)
                (no_fault-verdict a b c d e body known low high some_there small whole)
            ∙ ap
                (λ (n : ℕ). ok (
                  record {
                    typ = content_type_from a;
                    version = protocol_version_from v;
                    payload = take len body;
                  },
                  advance (5 + n) r,
                ))
                (omega (arith, length-take len body)),
      )
      | inr foreign ↦ inr (
        known_version_no v foreign,
        read
            ∙ ap (with_cursor r)
                (foreign_fault-verdict a b c d e body foreign low high some_there small),
      )
    ]
