-- ===== src/Msgs/Joiner.antt =====
-- crates/tls/core/src/msgs/hsjoiner.rs: handshake messages, put together from the payloads of frames.
pub mod Front
pub mod Stream
pub mod Split
use tlsn.Common.{
  ℕ, zero, suc, ◌+◌, Option, none, some, List, [], ◌∷◌, ◌++◌, Bool, true, false, ltb, leb,
  if◌then◌else◌, length, take, drop,
}
use tlsn.Msgs.Reader.{Reader, init, used}
use tlsn.Msgs.Codec.{decode_u24}
use tlsn.Msgs.Message.{PlainMessage}
use tlsn.Msgs.Enums.Content.{ContentType}
use tlsn.Msgs.Enums.Version.{ProtocolVersion}
use tlsn.Msgs.Handshake.{ReadBody, HandshakeMessagePayload, read_version}

abbrev pub header_size : ℕ
header_size = 1 + 3

abbrev pub max_handshake_size : ℕ
max_handshake_size = 0xffff

-- `Message`, whose payload is here always `MessagePayload::Handshake`.
pub record HandshakeMessage (B : Type 0) : Type 0 where
  pub version : ProtocolVersion
  pub payload : HandshakeMessagePayload B

pub record HandshakeJoiner (B : Type 0) : Type 0 where
  pub frames : List (HandshakeMessage B)
  pub buf : List ℕ

pub data BufferState : Type 0 where
  message_too_large one_message needs_more_data : BufferState

abbrev pub new : {B : Type 0} → HandshakeJoiner B
new = record { frames = []; buf = [] }

-- `want_message`
abbrev pub want_message : PlainMessage → Bool
want_message msg = elim msg.typ [ ContentType.handshake ↦ true | _ ↦ false ]

abbrev pub is_empty : {B : Type 0} → HandshakeJoiner B → Bool
is_empty j = leb (length j.buf) 0

-- The three arms of `buf_contains_message`, on the decoded length and on what follows the header.
sized : Option ℕ → List ℕ → BufferState
sized none rest = needs_more_data
sized (some len) rest =
    if ltb max_handshake_size len
    then message_too_large
    else if leb len (length rest)
    then one_message
    else needs_more_data

unfoldable pub buf_contains_message : List ℕ → BufferState
unfolding sized
buf_contains_message buf =
    if ltb (length buf) header_size
    then needs_more_data
    else sized (decode_u24 (drop 1 (take header_size buf))) (drop header_size buf)

module _ {B : Type 0} (read_body : ReadBody B) where
  deframed :
      HandshakeJoiner B
      → ProtocolVersion
      → Option (HandshakeMessagePayload B × Reader)
      → Bool × HandshakeJoiner B
  deframed j version none = (false, j)
  deframed j version (some (payload, rd)) = (
    true,
    record {
      frames = j.frames ++ (record { version = version; payload = payload } ∷ []);
      buf = drop (used rd) j.buf;
    },
  )

  unfoldable pub deframe_one : ProtocolVersion → HandshakeJoiner B → Bool × HandshakeJoiner B
  unfolding deframed
  deframe_one version j = deframed j version (read_version read_body version (init j.buf))

  -- A result of `take_message`: `Some(count)` or `None`, with the joiner as it then is.
  abbrev pub Taken : Type 0
  Taken = Option ℕ × HandshakeJoiner B

  after_deframe : (HandshakeJoiner B → Option Taken) → Bool × HandshakeJoiner B → Option Taken
  after_deframe again (false, j) = some (none, j)
  after_deframe again (true, j) = again j

  after_look :
      (HandshakeJoiner B → Option Taken)
      → ProtocolVersion
      → ℕ
      → HandshakeJoiner B
      → BufferState
      → Option Taken
  unfolding after_deframe
  after_look again version count j message_too_large = some (none, j)
  after_look again version count j needs_more_data = some (some count, j)
  after_look again version count j one_message = after_deframe again (deframe_one version j)

  -- The loop of `take_message` on fuel; `none` in the first place means that the fuel ran out.
  unfoldable pub join_loop : ℕ → ProtocolVersion → ℕ → HandshakeJoiner B → Option Taken
  unfolding after_look
  join_loop zero version count j = none
  join_loop (suc fuel) version count j =
      after_look (join_loop fuel version (count + 1)) version count j (buf_contains_message j.buf)

  -- Appending to an empty buffer is taking the payload over, which the source does in that case. A
  -- round of the loop takes a header at least.
  unfoldable pub take_message : PlainMessage → HandshakeJoiner B → Option Taken
  take_message msg j =
      let buf = j.buf ++ msg.payload in
      join_loop (suc (length buf)) msg.version 0 (record j { buf = buf })
