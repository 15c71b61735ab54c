-- ===== src/Msgs/Message/Verdicts.antt =====
-- What `OpaqueMessage::read` answers, as a function of the unread bytes alone.
use tlsn.Common.{
  ℕ, ◌+◌, ◌*◌, ◌<◌, ◌≤◌, ◌≡◌, refl, sym, ap, ◌∙◌, Option, none, some, List, [], ◌∷◌, ◌++◌, arith,
  length, take, drop, take-append-drop, length-take, Result, ok, err, ltb, if◌then◌else◌,
  Bool-cases, Option-cases, inl, inr, length-append, take-append_le, Bool, ltb→lt, true, false,
}
use tlsn.Msgs.Reader.{Reader}
use tlsn.Msgs.Reader.Unread.{
  unread, advance, advance-advance, unread-advance, take_bytes-unread, sub-unread, sub_short,
}
use tlsn.Msgs.Codec.{read_u8, read_u16}
use tlsn.Msgs.Codec.Integers.{read_u8_short, read_u16_short}
use tlsn.Msgs.Enums.{read_enum_u8, read_enum_u16}
use tlsn.Msgs.Enums.Content.{ContentType, content_type_from}
use tlsn.Msgs.Enums.Version.{ProtocolVersion, protocol_version_from}
use tlsn.Msgs.Message.{
  OpaqueMessage, MessageError, too_short_for_header, too_short_for_length, check_header,
  read_header, read_opaque,
}

-- `Err(TooShortForHeader) | Err(TooShortForLength)` of the deframer: more bytes may help.
abbrev pub is_too_short : MessageError → Bool
is_too_short too_short_for_header = true
is_too_short too_short_for_length = true
is_too_short _ = false

-- The frame at the front of `body`, behind a header that was accepted.
abbrev frame_of_body :
    ContentType
    → ProtocolVersion
    → ℕ
    → List ℕ
    → Option MessageError
    → Result OpaqueMessage MessageError
frame_of_body typ version len body (some e) = err e
frame_of_body typ version len body none =
    if ltb (length body) len
    then err too_short_for_length
    else ok (record { typ = typ; version = version; payload = take len body })

-- The frame at the front of a stream: five bytes of header, the checks, and the body.
unfoldable pub frame_of : List ℕ → Result OpaqueMessage MessageError
frame_of (a ∷ b ∷ c ∷ d ∷ e ∷ body) =
    let typ = content_type_from a in
    let version = protocol_version_from (b * 256 + c) in
    let len = d * 256 + e in frame_of_body typ version len body (check_header typ version len)
frame_of _ = err too_short_for_header

abbrev pub with_cursor :
    Reader → Result OpaqueMessage MessageError → Result (OpaqueMessage × Reader) MessageError
with_cursor r (ok m) = ok (m, advance (5 + length m.payload) r)
with_cursor r (err e) = err e

read_u8_cons :
    (a : ℕ) (ys : List ℕ) (r : Reader) → unread r ≡ a ∷ ys → read_u8 r ≡ some (a, advance 1 r)
unfolding read_u8
read_u8_cons a ys r e = rw (take_bytes-unread 1 (a ∷ []) ys r refl e)

read_u16_cons :
    (a b : ℕ) (ys : List ℕ) (r : Reader)
    → unread r ≡ a ∷ b ∷ ys
    → read_u16 r ≡ some (a * 256 + b, advance 2 r)
unfolding read_u16
read_u16_cons a b ys r e = rw (take_bytes-unread 2 (a ∷ b ∷ []) ys r refl e)

read_header_full :
    (a b c d e : ℕ) (body : List ℕ) (r : Reader)
    → unread r ≡ a ∷ b ∷ c ∷ d ∷ e ∷ body
    → read_header r
      ≡ ok (content_type_from a, protocol_version_from (b * 256 + c), d * 256 + e, advance 5 r)
unfolding read_header read_enum_u8 read_enum_u16
read_header_full a b c d e body r h =
    let u1 = unread-advance 1 (a ∷ []) (b ∷ c ∷ d ∷ e ∷ body) r refl h in
    let u2 = unread-advance 2 (b ∷ c ∷ []) (d ∷ e ∷ body) (advance 1 r) refl u1 in
    rw
      (
        read_u8_cons a _ r h,
        read_u16_cons b c _ (advance 1 r) u1,
        read_u16_cons d e _ (advance 2 (advance 1 r)) u2,
      )
      (ap (λ t. ok (content_type_from a, protocol_version_from (b * 256 + c), d * 256 + e, t))
        moved)
  where
    moved : advance 2 (advance 2 (advance 1 r)) ≡ advance 5 r
    moved = ground arith

-- Fewer bytes than a header has.
read_header_short :
    (bytes : List ℕ) (r : Reader)
    → unread r ≡ bytes
    → length bytes < 5
    → read_header r ≡ err too_short_for_header
unfolding read_header read_enum_u8 read_enum_u16
read_header_short [] r h s = rw (read_u8_short r (omega (arith, ap length h)))
read_header_short (a ∷ []) r h s =
    let u1 = unread-advance 1 (a ∷ []) [] r refl h in
    rw (read_u8_cons a _ r h, read_u16_short (advance 1 r) (omega (arith, ap length u1)))
read_header_short (a ∷ b ∷ []) r h s =
    let u1 = unread-advance 1 (a ∷ []) (b ∷ []) r refl h in
    rw (read_u8_cons a _ r h, read_u16_short (advance 1 r) (omega (arith, ap length u1)))
read_header_short (a ∷ b ∷ c ∷ ys) r h s =
    let u1 = unread-advance 1 (a ∷ []) (b ∷ c ∷ ys) r refl h in
    let u2 = unread-advance 2 (b ∷ c ∷ []) ys (advance 1 r) refl u1 in
    rw (
      read_u8_cons a _ r h,
      read_u16_cons b c _ (advance 1 r) u1,
      read_u16_short (advance 2 (advance 1 r)) (omega (arith, ap length u2)),
    )

-- The reader decides by the unread bytes alone: the same verdict as `frame_of`, and on success the
-- cursor stands behind the frame.
pub read_opaque-frame_of :
    (bytes : List ℕ) (r : Reader)
    → unread r ≡ bytes
    → read_opaque r ≡ with_cursor r (frame_of bytes)
unfolding read_opaque frame_of
read_opaque-frame_of [] r h = rw (read_header_short [] r h (omega arith))
read_opaque-frame_of (a ∷ []) r h = rw (read_header_short (a ∷ []) r h (omega arith))
read_opaque-frame_of (a ∷ b ∷ []) r h = rw (read_header_short (a ∷ b ∷ []) r h (omega arith))
read_opaque-frame_of (a ∷ b ∷ c ∷ []) r h =
    rw (read_header_short (a ∷ b ∷ c ∷ []) r h (omega arith))
read_opaque-frame_of (a ∷ b ∷ c ∷ d ∷ []) r h =
    rw (read_header_short (a ∷ b ∷ c ∷ d ∷ []) r h (omega arith))
read_opaque-frame_of (a ∷ b ∷ c ∷ d ∷ e ∷ body) r h =
    rw (read_header_full a b c d e body r h) (elim (Option-cases check) [
      | inr (er, q) ↦ rw q
      | inl q ↦ elim (Bool-cases (ltb (length body) len)) [
        | inl short ↦ rw (
          q,
          sub_short len (advance 5 r) (omega (arith, ap length behind, ltb→lt _ _ short)),
          short,
        )
        | inr long ↦
            rw
              (
                q,
                sub-unread len (take len body) (drop len body) (advance 5 r) (size long)
                    (behind ∙ sym (take-append-drop len body)),
                long,
              )
              (ap (λ s. ok (record { typ = typ; version = version; payload = take len body }, s))
                (advance-advance 5 len (5 + length (take len body)) r (omega (arith, size long))))
      ]
    ])
  where
    typ : ContentType
    typ = content_type_from a

    version : ProtocolVersion
    version = protocol_version_from (b * 256 + c)

    len : ℕ
    len = d * 256 + e

    check : Option MessageError
    check = check_header typ version len

    behind : unread (advance 5 r) ≡ body
    behind = unread-advance 5 (a ∷ b ∷ c ∷ d ∷ e ∷ []) body r refl h

    size : ltb (length body) len ≡ false → length (take len body) ≡ len
    size long = omega (arith, length-take len body, not_shorter long)
      where
        not_shorter : ltb (length body) len ≡ false → len ≤ length body
        not_shorter q = ground arith

-- A frame lies within the bytes that it was read from.
pub frame_of-length :
    (bytes : List ℕ) (m : OpaqueMessage)
    → frame_of bytes ≡ ok m
    → 5 + length m.payload ≤ length bytes
unfolding frame_of
frame_of-length [] m q = cc
frame_of-length (a ∷ []) m q = cc
frame_of-length (a ∷ b ∷ []) m q = cc
frame_of-length (a ∷ b ∷ c ∷ []) m q = cc
frame_of-length (a ∷ b ∷ c ∷ d ∷ []) m q = cc
frame_of-length (a ∷ b ∷ c ∷ d ∷ e ∷ body) m q = ground (arith, length-take (d * 256 + e) body)

-- More bytes behind a frame do not change it.
pub frame_of-append_ok :
    (bytes more : List ℕ) (m : OpaqueMessage)
    → frame_of bytes ≡ ok m
    → frame_of (bytes ++ more) ≡ ok m
unfolding frame_of
frame_of-append_ok [] more m q = cc
frame_of-append_ok (a ∷ []) more m q = cc
frame_of-append_ok (a ∷ b ∷ []) more m q = cc
frame_of-append_ok (a ∷ b ∷ c ∷ []) more m q = cc
frame_of-append_ok (a ∷ b ∷ c ∷ d ∷ []) more m q = cc
frame_of-append_ok (a ∷ b ∷ c ∷ d ∷ e ∷ body) more m q =
    ground (arith, length-append body more, take-append_le body more (d * 256 + e))

-- More bytes do not mend a refusal that is not for their lack.
pub frame_of-append_err :
    (bytes more : List ℕ) (e : MessageError)
    → frame_of bytes ≡ err e
    → is_too_short e ≡ false
    → frame_of (bytes ++ more) ≡ err e
unfolding frame_of
frame_of-append_err [] more x q n = cc
frame_of-append_err (a ∷ []) more x q n = cc
frame_of-append_err (a ∷ b ∷ []) more x q n = cc
frame_of-append_err (a ∷ b ∷ c ∷ []) more x q n = cc
frame_of-append_err (a ∷ b ∷ c ∷ d ∷ []) more x q n = cc
frame_of-append_err (a ∷ b ∷ c ∷ d ∷ e ∷ body) more x q n = ground arith
