-- ===== src/Msgs/Message/Wire.antt =====
-- Frames on the wire: what is accepted, and that encoding and reading are inverse to each other.
use tlsn.Common.{
  ℕ, ◌+◌, ◌*◌, ◌/◌, ◌%◌, ◌<◌, ◌≤◌, ◌≡◌, refl, sym, ap, ap₂, ◌∙◌, none, List, [], ◌∷◌, ◌++◌, arith,
  length, take, drop, take-append-drop, drop-drop, length-take, length-append, take-append, Result,
  ok, err, false, ge→ltb, IsByte, IsU16, All,
}
use tlsn.Msgs.Reader.{Reader, init}
use tlsn.Msgs.Reader.Unread.{unread, advance}
use tlsn.Msgs.Enums.Laws.{IsCanonical}
use tlsn.Msgs.Enums.Content.{ContentType, content_type_from, content_type_get}
use tlsn.Msgs.Enums.Version.{
  ProtocolVersion, protocol_version_from, protocol_version_get, protocol_version_enum,
}
use tlsn.Msgs.Enums.Lossless.{content_type-IsLossless, protocol_version-IsLossless}
use tlsn.Msgs.Message.{
  OpaqueMessage, MessageError, check_header, is_foreign_version, is_unknown, read_opaque,
  encode_opaque, max_payload,
}
use tlsn.Msgs.Message.Verdicts.{frame_of, with_cursor, read_opaque-frame_of}

-- The messages that a receiver accepts: the header passes the checks, and the version is one that
-- two bytes can carry and that reads back as itself.
pub record IsWire (m : OpaqueMessage) : Type 0 where
  pub accepted : check_header m.typ m.version (length m.payload) ≡ none
  pub version_canonical : IsCanonical protocol_version_enum m.version
  pub version_fits : IsU16 (protocol_version_get m.version)

-- An accepted header announces less than `max_payload`, and a listed content type.
pub check_header_bounds :
    (typ : ContentType) (version : ProtocolVersion) (len : ℕ)
    → check_header typ version len ≡ none
    → (len < max_payload) × (is_unknown typ ≡ false) × (is_foreign_version version ≡ false)
unfolding check_header
check_header_bounds typ version len h = ground arith

content_type_canonical :
    (typ : ContentType) → is_unknown typ ≡ false → content_type_from (content_type_get typ) ≡ typ
unfolding content_type_from
content_type_canonical typ h = ground arith

be16_back : (v : ℕ) → IsU16 v → v / 256 % 256 * 256 + v % 256 ≡ v
be16_back v h = omega arith

pub frame_of-encode :
    (m : OpaqueMessage) (ys : List ℕ) → IsWire m → frame_of (encode_opaque m ++ ys) ≡ ok m
unfolding frame_of encode_opaque
frame_of-encode m ys w =
    let (small, known, own) = check_header_bounds m.typ m.version (length m.payload) w.accepted in
    let size = length m.payload in
    let len_back : size % 65536 / 256 % 256 * 256 + size % 65536 % 256 ≡ size = omega arith in
    let version_back = be16_back (protocol_version_get m.version) w.version_fits in
    rw (
      len_back,
      version_back,
      content_type_canonical m.typ known,
      w.version_canonical,
      w.accepted,
      ge→ltb (length (m.payload ++ ys)) size (omega (arith, length-append m.payload ys)),
      take-append m.payload ys size refl,
    )

pub length-encode_opaque : (m : OpaqueMessage) → length (encode_opaque m) ≡ 5 + length m.payload
unfolding encode_opaque
length-encode_opaque m = omega arith

encoded_size :
    (m : OpaqueMessage) (r : Reader)
    → with_cursor r (ok m) ≡ ok (m, advance (length (encode_opaque m)) r)
unfolding encode_opaque
encoded_size m r = ground arith

-- An acceptable frame is returned from its encoding, when that stands behind the cursor, with
-- whatever follows left unread.
pub read_opaque-encode :
    (m : OpaqueMessage) (r : Reader) (ys : List ℕ)
    → IsWire m
    → unread r ≡ encode_opaque m ++ ys
    → read_opaque r ≡ ok (m, advance (length (encode_opaque m)) r)
read_opaque-encode m r ys w e =
    read_opaque-frame_of (encode_opaque m ++ ys) r e
    ∙ rw (frame_of-encode m ys w) (encoded_size m r)

-- Where each part of a frame comes from.
frame_of_parts :
    (a b c d e : ℕ) (body : List ℕ) (m : OpaqueMessage)
    → frame_of (a ∷ b ∷ c ∷ d ∷ e ∷ body) ≡ ok m
    → (check_header m.typ m.version (d * 256 + e) ≡ none)
      × (m.typ ≡ content_type_from a)
      × (m.version ≡ protocol_version_from (b * 256 + c))
      × (m.payload ≡ take (d * 256 + e) body)
      × (d * 256 + e ≤ length body)
unfolding frame_of
frame_of_parts a b c d e body m q = ground arith

pub frame_of_needs_header :
    (bytes : List ℕ) (m : OpaqueMessage) → frame_of bytes ≡ ok m → 5 ≤ length bytes
unfolding frame_of
frame_of_needs_header [] m q = cc
frame_of_needs_header (a ∷ []) m q = cc
frame_of_needs_header (a ∷ b ∷ []) m q = cc
frame_of_needs_header (a ∷ b ∷ c ∷ []) m q = cc
frame_of_needs_header (a ∷ b ∷ c ∷ d ∷ []) m q = cc
frame_of_needs_header (a ∷ b ∷ c ∷ d ∷ e ∷ body) m q = omega arith

-- A frame that was read is accepted, and lies in the stream as its own encoding.
pub encode-frame_of :
    (bytes : List ℕ) (m : OpaqueMessage)
    → All IsByte bytes
    → frame_of bytes ≡ ok m
    → IsWire m
      × (length (encode_opaque m) ≡ 5 + length m.payload)
      × (encode_opaque m ++ drop (5 + length m.payload) bytes ≡ bytes)
unfolding encode_opaque
encode-frame_of [] m h q = absurd (omega (arith, frame_of_needs_header [] m q))
encode-frame_of (a ∷ []) m h q = absurd (omega (arith, frame_of_needs_header (a ∷ []) m q))
encode-frame_of (a ∷ b ∷ []) m h q = absurd (omega (arith, frame_of_needs_header (a ∷ b ∷ []) m q))
encode-frame_of (a ∷ b ∷ c ∷ []) m h q =
    absurd (omega (arith, frame_of_needs_header (a ∷ b ∷ c ∷ []) m q))
encode-frame_of (a ∷ b ∷ c ∷ d ∷ []) m h q =
    absurd (omega (arith, frame_of_needs_header (a ∷ b ∷ c ∷ d ∷ []) m q))
encode-frame_of (a ∷ b ∷ c ∷ d ∷ e ∷ body) m (ha, (hb, (hc, (hd, (he, hs))))) q =
    let (checked, typ, version, payload, long) = frame_of_parts a b c d e body m q in
    let size : length m.payload ≡ d * 256 + e =
      omega (arith, ap length payload, length-take (d * 256 + e) body) in
    let number : protocol_version_get m.version ≡ b * 256 + c =
      ap protocol_version_get version ∙ protocol_version-IsLossless.get-from (b * 256 + c) in
    let kind : content_type_get m.typ ≡ a =
      ap content_type_get typ ∙ content_type-IsLossless.get-from a in
    let n = d * 256 + e in
    let v = protocol_version_get m.version in
    let tail : m.payload ++ drop (5 + length m.payload) (a ∷ b ∷ c ∷ d ∷ e ∷ body) ≡ body =
      ap₂ (λ s t. s ++ t) payload
        (sym (drop-drop 5 (length m.payload) (5 + length m.payload) (a ∷ b ∷ c ∷ d ∷ e ∷ body) refl)
          ∙ ap (λ (t : ℕ). drop t body) size)
      ∙ take-append-drop n body in
    let b' : v / 256 % 256 ≡ b = omega arith in
    let c' : v % 256 ≡ c = omega arith in
    let d' : length m.payload % 65536 / 256 % 256 ≡ d = omega arith in
    let e' : length m.payload % 65536 % 256 ≡ e = omega arith in
    (
      record {
        accepted = rw size checked;
        version_canonical = ap protocol_version_from number ∙ sym version;
        version_fits = omega arith;
      },
      omega arith,
      cc (kind, b', c', d', e', tail),
    )

pub with_cursor_ok :
    (r r' : Reader) (v : Result OpaqueMessage MessageError) (m : OpaqueMessage)
    → with_cursor r v ≡ ok (m, r')
    → (v ≡ ok m) × (r' ≡ advance (5 + length m.payload) r)
with_cursor_ok r r' (err e) m h = absurd (cc)
with_cursor_ok r r' (ok m') m h =
    let same : m' ≡ m = cc in
    (ap ok same, sym (cc) ∙ ap (λ (x : OpaqueMessage). advance (5 + length x.payload) r) same)

-- The same wherever the cursor stands.
pub encode-read_opaque-unread :
    (m : OpaqueMessage) (r r' : Reader)
    → All IsByte (unread r)
    → read_opaque r ≡ ok (m, r')
    → IsWire m
      × (encode_opaque m ++ drop (5 + length m.payload) (unread r) ≡ unread r)
      × (r' ≡ advance (5 + length m.payload) r)
encode-read_opaque-unread m r r' h e =
    let (framed, there) =
      with_cursor_ok r r' (frame_of (unread r)) m
        (sym (read_opaque-frame_of (unread r) r refl) ∙ e) in
    let (wire, size, whole) = encode-frame_of (unread r) m h framed in (wire, whole, there)

-- A message that the reader returns is one it would accept again, and the bytes that it took are
-- the message's encoding, of a header and the payload.
pub encode-read_opaque :
    (bytes : List ℕ) (m : OpaqueMessage) (r : Reader)
    → All IsByte bytes
    → read_opaque (init bytes) ≡ ok (m, r)
    → IsWire m
      × (encode_opaque m ++ drop (5 + length m.payload) bytes ≡ bytes)
      × (r ≡ advance (5 + length m.payload) (init bytes))
encode-read_opaque bytes m r h e = encode-read_opaque-unread m (init bytes) r h e
