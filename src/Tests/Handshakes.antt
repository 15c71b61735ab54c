-- ===== src/Tests/Handshakes.antt =====
-- crates/tls/core/src/msgs/hsjoiner.rs and the frame of handshake.rs on two small messages, with a
-- reader of bodies that takes whatever there is.
use tlsn.Common.{ℕ, ◌+◌, ◌≡◌, refl, some, List, [], ◌∷◌, ◌++◌, arith, length, Bool}
use tlsn.Msgs.Reader.{init, take_bytes, sub}
use tlsn.Msgs.Base.{read_payload}
use tlsn.Msgs.Message.{PlainMessage}
use tlsn.Msgs.Enums.Content.{ContentType}
use tlsn.Msgs.Enums.Version.{ProtocolVersion}
use tlsn.Msgs.Enums.Handshakes.{HandshakeType, handshake_type_from}
use tlsn.Msgs.Handshake.{ReadBody, read_version}
use tlsn.Msgs.Handshake.Frame.{message_of, with_reader, read_version-message_of}
use tlsn.Msgs.Joiner.{
  HandshakeMessage, HandshakeJoiner, new, take_message, deframe_one, buf_contains_message,
  join_loop,
}
use tlsn.Msgs.Joiner.Front.{Joins}
use tlsn.Msgs.Joiner.Stream.{count_of, take_message_lem}
use tlsn.Msgs.Joiner.Split.{take_message-take_message}
use tlsn.Msgs.Codec.{decode_u24, read_u8, read_u24}
use tlsn.Msgs.Enums.{read_enum_u8}

-- Every body is its bytes.
abbrev read_any : ReadBody (List ℕ)
read_any typ version r = some ((typ, (read_payload r).0), (read_payload r).1)

abbrev framed : List ℕ → PlainMessage
framed bytes = record {
  typ = ContentType.handshake;
  version = ProtocolVersion.tls_v1_2;
  payload = bytes;
}

abbrev start : List ℕ
start = 20 ∷ 0 ∷ 0 ∷ []

abbrev finish : List ℕ
finish = 2 ∷ 7 ∷ 8 ∷ 14 ∷ 0 ∷ 0 ∷ 0 ∷ []

abbrev waiting : HandshakeJoiner (List ℕ)
waiting = record { frames = []; buf = start }

abbrev finished : HandshakeMessage (List ℕ)
finished = record {
  version = ProtocolVersion.tls_v1_2;
  payload = record { typ = HandshakeType.finished; payload = 7 ∷ 8 ∷ [] };
}

abbrev hello_done : HandshakeMessage (List ℕ)
hello_done = record {
  version = ProtocolVersion.tls_v1_2;
  payload = record { typ = HandshakeType.server_hello_done; payload = [] };
}

abbrev joined : HandshakeJoiner (List ℕ)
joined = record { frames = finished ∷ hello_done ∷ []; buf = [] }

take_start : take_message read_any (framed start) new ≡ some (some 0, waiting)
unfolding take_message buf_contains_message join_loop
take_start = refl

take_finish : take_message read_any (framed finish) waiting ≡ some (some 2, joined)
unfolding take_message buf_contains_message deframe_one read_version handshake_type_from
    read_payload join_loop decode_u24 read_enum_u8 read_u8 take_bytes read_u24 sub
take_finish = refl

read_version-message_of_example :
    read_version read_any ProtocolVersion.tls_v1_2 (init (20 ∷ 0 ∷ 0 ∷ 1 ∷ 7 ∷ 8 ∷ []))
    ≡ with_reader
        (record { buf = 20 ∷ 0 ∷ 0 ∷ 1 ∷ 7 ∷ 8 ∷ []; offs = 5 })
        (message_of read_any ProtocolVersion.tls_v1_2 20 (7 ∷ []))
read_version-message_of_example =
    read_version-message_of read_any ProtocolVersion.tls_v1_2 20 0 0 1 (7 ∷ 8 ∷ []) (omega arith)

take_message_lem_example :
    (j' : HandshakeJoiner (List ℕ)) × (ms : List (HandshakeMessage (List ℕ))) × (fine : Bool)
    × (take_message read_any (framed finish) waiting ≡ some (count_of fine (length ms), j'))
    × Joins read_any ProtocolVersion.tls_v1_2 (start ++ finish) ms j'.buf fine
    × (j'.frames ≡ [] ++ ms)
take_message_lem_example =
    take_message_lem read_any ProtocolVersion.tls_v1_2 waiting finish ContentType.handshake

take_message-take_message_example :
    take_message read_any (framed (start ++ finish)) new ≡ some (some (0 + 2), joined)
take_message-take_message_example =
    take_message-take_message read_any ProtocolVersion.tls_v1_2 new waiting joined start finish
      ContentType.handshake 0 2 take_start take_finish
