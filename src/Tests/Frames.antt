-- ===== src/Tests/Frames.antt =====
-- crates/tls/core/src/msgs/message.rs and fragmenter.rs on small messages.
use tlsn.Common.{
  ℕ, ◌≡◌, ◌⊎◌, ◌*◌, refl, List, [], ◌∷◌, ◌++◌, arith, length, take, drop, ok, err, concat, All, ◌+◌,
}
use tlsn.Msgs.Reader.{init}
use tlsn.Msgs.Reader.Unread.{advance}
use tlsn.Msgs.Enums.Content.{ContentType, content_type_from}
use tlsn.Msgs.Enums.Version.{ProtocolVersion, protocol_version_from}
use tlsn.Msgs.Message.{
  OpaqueMessage, PlainMessage, illegal_protocol_version, read_opaque, encode_opaque, check_header,
}
use tlsn.Msgs.Message.Verdicts.{with_cursor}
use tlsn.Msgs.Message.Header.{verdict, read_opaque-verdict, IsVersion, version_accepted}
use tlsn.Msgs.Message.Wire.{IsWire, read_opaque-encode, encode-read_opaque}
use tlsn.Msgs.Fragmenter.{MessageFragmenter, fragment}
use tlsn.Msgs.Fragmenter.Pieces.{IsValid, IsPiece, payloads, fragment_lem}

abbrev hello : OpaqueMessage
hello = record {
  typ = ContentType.handshake;
  version = ProtocolVersion.tls_v1_2;
  payload = 1 ∷ 0 ∷ 0 ∷ [];
}

hello-IsWire : IsWire hello
unfolding check_header protocol_version_from
hello-IsWire = record { accepted = refl; version_canonical = refl; version_fits = omega arith }

abbrev hello_bytes : List ℕ
hello_bytes = 22 ∷ 3 ∷ 3 ∷ 0 ∷ 3 ∷ 1 ∷ 0 ∷ 0 ∷ []

read_opaque-encode_example :
    read_opaque (init (hello_bytes ++ (21 ∷ [])))
    ≡ ok (hello, advance (length (encode_opaque hello)) (init (hello_bytes ++ (21 ∷ []))))
unfolding encode_opaque
read_opaque-encode_example =
    read_opaque-encode hello (init (hello_bytes ++ (21 ∷ []))) (21 ∷ []) hello-IsWire refl

read_opaque-verdict_example :
    read_opaque (init (22 ∷ 3 ∷ 3 ∷ 0 ∷ 0 ∷ []))
    ≡ with_cursor (init (22 ∷ 3 ∷ 3 ∷ 0 ∷ 0 ∷ [])) (verdict (22 ∷ 3 ∷ 3 ∷ 0 ∷ 0 ∷ []))
read_opaque-verdict_example =
    read_opaque-verdict (22 ∷ 3 ∷ 3 ∷ 0 ∷ 0 ∷ []) (init (22 ∷ 3 ∷ 3 ∷ 0 ∷ 0 ∷ []))
      (omega arith, (omega arith, (omega arith, (omega arith, (omega arith, tt))))) refl

hello_read :
    read_opaque (init hello_bytes)
    ≡ ok (hello, advance (length (encode_opaque hello)) (init hello_bytes))
unfolding encode_opaque
hello_read = read_opaque-encode hello (init hello_bytes) [] hello-IsWire refl

encode-read_opaque_example :
    IsWire hello
    × (encode_opaque hello ++ drop (5 + length hello.payload) hello_bytes ≡ hello_bytes)
    × (advance (length (encode_opaque hello)) (init hello_bytes)
        ≡ advance (5 + length hello.payload) (init hello_bytes))
encode-read_opaque_example =
    encode-read_opaque hello_bytes hello (advance (length (encode_opaque hello)) (init hello_bytes))
      (
        omega arith,
        (
          omega arith,
          (
            omega arith,
            (omega arith, (omega arith, (omega arith, (omega arith, (omega arith, tt))))),
          ),
        ),
      )
      hello_read

-- A frame of version 0x0399.
abbrev later_version : List ℕ
later_version = 22 ∷ 3 ∷ 153 ∷ 0 ∷ 1 ∷ 7 ∷ []

version_accepted_example :
    (IsVersion (3 * 256 + 153)
      × (read_opaque (init later_version)
          ≡ ok (
            record {
              typ = content_type_from 22;
              version = protocol_version_from (3 * 256 + 153);
              payload = take (0 * 256 + 1) (7 ∷ []);
            },
            advance (5 + (0 * 256 + 1)) (init later_version),
          )))
    ⊎ ((¬ (IsVersion (3 * 256 + 153)))
        × (read_opaque (init later_version) ≡ err illegal_protocol_version))
version_accepted_example =
    version_accepted 22 3 153 0 1 (7 ∷ []) (init later_version)
      (omega arith, (omega arith, (omega arith, (omega arith, (omega arith, (omega arith, tt))))))
      refl (omega arith) (omega arith) (omega arith) (omega arith) (omega arith)

abbrev small : MessageFragmenter
small = record { max_frag = 27 }

small-IsValid : IsValid small
small-IsValid = record { lower = omega arith; upper = omega arith }

abbrev counted : List ℕ
counted =
    0 ∷ 1 ∷ 2 ∷ 3 ∷ 4 ∷ 5 ∷ 6 ∷ 7 ∷ 8 ∷ 9 ∷ 10 ∷ 11 ∷ 12 ∷ 13 ∷ 14 ∷ 15 ∷ 16 ∷ 17 ∷ 18 ∷ 19 ∷ 20
    ∷ 21 ∷ 22 ∷ 23 ∷ 24 ∷ 25 ∷ 26 ∷ 27 ∷ 28 ∷ []

abbrev long : PlainMessage
long = record {
  typ = ContentType.application_data;
  version = ProtocolVersion.tls_v1_2;
  payload = counted;
}

abbrev empty : PlainMessage
empty = record {
  typ = ContentType.application_data;
  version = ProtocolVersion.tls_v1_2;
  payload = [];
}

fragment_lem_example :
    (ps : List PlainMessage) × (fragment small long (empty ∷ []) ≡ (empty ∷ []) ++ ps)
    × (concat (payloads ps) ≡ counted)
    × All (IsPiece long 27) ps
fragment_lem_example = fragment_lem small long (empty ∷ []) small-IsValid
