-- ===== src/Tests/Streams.antt =====
-- crates/tls/core/src/msgs/deframer.rs on a stream that arrives after a failed read.
use tlsn.Common.{
  ℕ, ◌+◌, ◌≡◌, ◌≤◌, ◌<◌, refl, ap, some, List, [], ◌∷◌, ◌++◌, arith, length, false, err, concat,
  map, inr,
}
use tlsn.Msgs.Enums.Content.{ContentType}
use tlsn.Msgs.Enums.Version.{ProtocolVersion, protocol_version_from}
use tlsn.Msgs.Message.{
  OpaqueMessage, PlainMessage, encode_opaque, check_header, max_wire_size, into_plain_message,
  into_unencrypted_opaque,
}
use tlsn.Msgs.Message.Wire.{IsWire}
use tlsn.Msgs.Deframer.{MessageDeframer, new, read, failed, has_pending}
use tlsn.Msgs.Deframer.Steps.{pending, length-pending}
use tlsn.Msgs.Deframer.Stream.{Deframes, Unharmed, read_received, read_failed}
use tlsn.Msgs.Deframer.Delivery.{
  Reads, next, retry, done, delivery, delivery_whole, room_left, wire, new-IsValid,
}
use tlsn.Msgs.Fragmenter.{MessageFragmenter, fragment}
use tlsn.Msgs.Fragmenter.Pieces.{IsValid, payloads}
use tlsn.Msgs.Fragmenter.Transfer.{IsSendable, transfer}

abbrev message : PlainMessage
message = record {
  typ = ContentType.handshake;
  version = ProtocolVersion.tls_v1_2;
  payload = 1 ∷ 0 ∷ 0 ∷ [];
}

abbrev frame : OpaqueMessage
frame = into_unencrypted_opaque message

abbrev bytes : List ℕ
bytes = 22 ∷ 3 ∷ 3 ∷ 0 ∷ 3 ∷ 1 ∷ 0 ∷ 0 ∷ []

frame-IsWire : IsWire frame
unfolding check_header protocol_version_from
frame-IsWire = record { accepted = refl; version_canonical = refl; version_fits = omega arith }

room : new.filled + length bytes ≤ max_wire_size
unfolding new
room = omega arith

abbrev lost : List ℕ
lost = 1 ∷ 2 ∷ []

some_room : new.filled + length lost ≤ max_wire_size
unfolding new
some_room = omega arith

-- The state after a read that fails behind two bytes, and the state after the read that follows it.
abbrev first : MessageDeframer
first = (read_failed {E = Unit {0}} new tt lost new-IsValid some_room).0

first-Unharmed : Unharmed new first
first-Unharmed = (read_failed {E = Unit {0}} new tt lost new-IsValid some_room).2

room_first : first.filled + length bytes ≤ max_wire_size
room_first = omega (
  arith,
  room,
  length-pending first first-Unharmed.kept,
  ap length first-Unharmed.waiting,
  length-pending new new-IsValid,
)

abbrev second : MessageDeframer
second = (read_received {E = Unit {0}} first bytes first-Unharmed.kept room_first).0

reads : Reads (Unit {0}) new (bytes ∷ []) second
reads = retry tt lost some_room (read_failed {E = Unit {0}} new tt lost new-IsValid some_room).1 (
    next bytes room_first
      (read_received {E = Unit {0}} first bytes first-Unharmed.kept room_first).1 done)

wired : concat (bytes ∷ []) ≡ wire (frame ∷ [])
unfolding encode_opaque
wired = refl

read_failed_example :
    (d' : MessageDeframer) × (read {E = Unit {0}} new (failed tt lost) ≡ some (err tt, d'))
    × Unharmed new d'
read_failed_example = read_failed {E = Unit {0}} new tt lost new-IsValid some_room

delivery_example :
    (more : List OpaqueMessage) × (second.frames ≡ (frame ∷ []) ++ more)
    × Deframes [] more (pending second) second.desynced
unfolding encode_opaque
delivery_example =
    delivery {E = Unit {0}} second (bytes ∷ []) (frame ∷ []) [] reads (frame-IsWire, tt) wired

delivery_whole_example :
    (second.frames ≡ frame ∷ []) × (second.filled ≡ 0) × (second.desynced ≡ false)
delivery_whole_example =
    delivery_whole {E = Unit {0}} second (bytes ∷ []) (frame ∷ []) reads (frame-IsWire, tt) wired

room_left_example : second.filled < max_wire_size
room_left_example =
    room_left {E = Unit {0}} second (bytes ∷ []) reads
      (delivery_whole {E = Unit {0}} second (bytes ∷ []) (frame ∷ []) reads (frame-IsWire, tt)
        wired).2

abbrev fragmenter : MessageFragmenter
fragmenter = record { max_frag = 27 }

fragmenter-IsValid : IsValid fragmenter
fragmenter-IsValid = record { lower = omega arith; upper = omega arith }

message-IsSendable : IsSendable message
unfolding protocol_version_from
message-IsSendable = record {
  listed = refl;
  own_version = refl;
  version_canonical = refl;
  version_fits = omega arith;
  not_empty = inr (omega arith);
}

fragment_wired :
    concat (bytes ∷ []) ≡ wire (map into_unencrypted_opaque (fragment fragmenter message []))
unfolding fragment encode_opaque
fragment_wired = refl

transfer_example :
    (map into_plain_message second.frames ≡ fragment fragmenter message [])
    × (concat (payloads (map into_plain_message second.frames)) ≡ message.payload)
    × (has_pending (record second { frames = [] }) ≡ false)
    × (second.desynced ≡ false)
transfer_example =
    transfer {E = Unit {0}} fragmenter message second (bytes ∷ []) fragmenter-IsValid
      message-IsSendable reads fragment_wired
