-- ===== src/Mpc/Leader/Records.antt =====
-- crates/mpc-tls/src/leader.rs: the records that the client pushes and takes.
use tlsn.Common.{
  ℕ, List, [], ◌∷◌, ◌++◌, Option, none, some, Bool, true, not, length, Result, ok, err,
  if◌then◌else◌,
}
use tlsn.Msgs.Enums.Content.{ContentType}
use tlsn.Msgs.Message.{OpaqueMessage, PlainMessage}
use tlsn.Transcript.Builder.{Ending, ended, panicked, unfinished}
use tlsn.Mpc.Ops.{MpcTlsError, EncryptMode, DecryptMode}
use tlsn.Mpc.Layer
use tlsn.Mpc.Layer.{
  RecordLayer, PlainRecord, EncryptedRecord, push_encrypt, push_decrypt, next_encrypted,
  next_decrypted, wants_flush,
}
use tlsn.Mpc.Flush
use tlsn.Mpc.Messages.{Message}
use tlsn.Mpc.Utils.{opaque_into_parts}
use tlsn.Mpc.Leader.{
  LeaderState, Leader, BackendError, LeaderCalls, Reply, into_backend, in_state, wrong_state,
}

-- The record layer of a state in which records can be pushed, and of one in which they can be taken.
abbrev pub pushable : LeaderState → Option RecordLayer
pushable (LeaderState.handshake h) = some h.record_layer
pushable (LeaderState.active a) = some a.record_layer
pushable s = none

abbrev pub takeable : LeaderState → Option RecordLayer
takeable (LeaderState.handshake h) = some h.record_layer
takeable (LeaderState.active a) = some a.record_layer
takeable (LeaderState.closed rl t) = some rl
takeable s = none

-- The state with another record layer.
abbrev pub put_layer : RecordLayer → LeaderState → LeaderState
put_layer rl (LeaderState.init old) = LeaderState.init rl
put_layer rl (LeaderState.setup old random) = LeaderState.setup rl random
put_layer rl (LeaderState.handshake h) = LeaderState.handshake (record h { record_layer = rl })
put_layer rl (LeaderState.active a) = LeaderState.active (record a { record_layer = rl })
put_layer rl (LeaderState.closed old t) = LeaderState.closed rl t
put_layer rl LeaderState.error = LeaderState.error

abbrev pub in_layer : Leader → RecordLayer → Leader
in_layer l rl = in_state l (put_layer rl l.state)

-- The end of a push: the message is sent if the record layer has taken the record.
unfoldable pub pushed :
    LeaderCalls → Leader → Message → Result (Unit {0}) MpcTlsError × RecordLayer → Reply (Unit {0})
pushed c l msg (err e, rl) = (err BackendError.internal_error, in_layer l rl, [])
pushed c l msg (ok u, rl) = elim (c.send msg) [
  | err e ↦ (err BackendError.internal_error, in_layer l rl, [])
  | ok u ↦ (ok tt, in_layer l rl, msg ∷ [])
]

pub decrypt_mode : ContentType → DecryptMode
decrypt_mode ContentType.application_data = DecryptMode.private
decrypt_mode _ = DecryptMode.public

pub encrypt_mode : ContentType → EncryptMode
encrypt_mode ContentType.application_data = EncryptMode.private
encrypt_mode _ = EncryptMode.public

unfoldable pub push_parts :
    LeaderCalls
    → OpaqueMessage
    → Leader
    → RecordLayer
    → Ending (Result (List ℕ × List ℕ × List ℕ) MpcTlsError)
    → Ending (Reply (Unit {0}))
unfolding pushed decrypt_mode
push_parts c msg l rl panicked = panicked
push_parts c msg l rl unfinished = unfinished
push_parts c msg l rl (ended (err e)) = ended (err BackendError.internal_error, l, [])
push_parts c msg l rl (ended (ok (explicit_nonce, ciphertext, tag))) =
    let mode = decrypt_mode msg.typ in
    ended (
      pushed c l
        (Message.decrypt (record {
          typ = msg.typ;
          version = msg.version;
          explicit_nonce = explicit_nonce;
          ciphertext = ciphertext;
          tag = tag;
          mode = mode;
        }))
        (push_decrypt msg.typ msg.version explicit_nonce ciphertext tag mode rl))

-- `push_incoming`
unfoldable pub push_incoming : LeaderCalls → OpaqueMessage → Leader → Ending (Reply (Unit {0}))
unfolding push_parts
push_incoming c msg l = elim (pushable l.state) [
  | none ↦ ended (wrong_state l)
  | some rl ↦ push_parts c msg l rl (opaque_into_parts msg.payload)
]

-- The follower is not told a private plaintext.
pub told : EncryptMode → List ℕ → Option (List ℕ)
told EncryptMode.private plaintext = none
told EncryptMode.public plaintext = some plaintext

-- `push_outgoing`
unfoldable pub push_outgoing : LeaderCalls → PlainMessage → Leader → Reply (Unit {0})
unfolding pushed encrypt_mode told
push_outgoing c msg l = elim (pushable l.state) [
  | none ↦ wrong_state l
  | some rl ↦
      let mode = encrypt_mode msg.typ in
      pushed c l
        (Message.encrypt (record {
          typ = msg.typ;
          version = msg.version;
          len = length msg.payload;
          plaintext = told mode msg.payload;
          mode = mode;
        }))
        (push_encrypt msg.typ msg.version (length msg.payload) (some msg.payload) mode rl)
]

-- A record that the leader has decrypted has a plaintext, which is expected to be known.
pub plain_message : Option PlainRecord → Ending (Option PlainMessage)
plain_message none = ended none
plain_message (some r) = elim r.plaintext [
  | none ↦ panicked
  | some payload ↦ ended (some (record { typ = r.typ; version = r.version; payload = payload }))
]

pub opaque_message : Option EncryptedRecord → Ending (Option OpaqueMessage)
opaque_message none = ended none
opaque_message (some r) = elim r.tag [
  | none ↦ panicked
  | some tag ↦ ended (
      some (record {
        typ = r.typ;
        version = r.version;
        payload = r.explicit_nonce ++ (r.ciphertext ++ tag);
      }))
]

-- `next_incoming`, with the leader that it leaves.
unfoldable pub next_incoming : Leader → Result (Ending (Option PlainMessage)) BackendError × Leader
unfolding plain_message
next_incoming l = elim (takeable l.state) [
  | none ↦ (err BackendError.internal_error, l)
  | some rl ↦ let (r, rl') = next_decrypted rl in (ok (plain_message r), in_layer l rl')
]

-- `next_outgoing`
unfoldable pub next_outgoing : Leader → Result (Ending (Option OpaqueMessage)) BackendError × Leader
unfolding opaque_message
next_outgoing l = elim (takeable l.state) [
  | none ↦ (err BackendError.internal_error, l)
  | some rl ↦ let (r, rl') = next_encrypted rl in (ok (opaque_message r), in_layer l rl')
]

start_state : LeaderCalls → Leader → LeaderState → Reply (Unit {0})
start_state c l (LeaderState.active a) =
    let l' = in_layer l (Layer.start_traffic a.record_layer) in
    elim (c.send Message.start_traffic) [
      | err e ↦ (err BackendError.internal_error, l', [])
      | ok u ↦ (ok tt, l', Message.start_traffic ∷ [])
    ]
start_state c l s = wrong_state l

-- `start_traffic`
unfoldable pub start_traffic : LeaderCalls → Leader → Reply (Unit {0})
unfolding start_state
start_traffic c l = start_state c l l.state

flush_layer : LeaderCalls → Leader → RecordLayer → Reply (Unit {0})
flush_layer c l rl =
    let msg = Message.flush l.is_decrypting in
    let (r, rl') = Flush.flush c.vm l.is_decrypting rl in
    if not (wants_flush rl) then (ok tt, l, []) else elim (c.send msg) [
      | err e ↦ (err BackendError.internal_error, l, [])
      | ok u ↦ (into_backend r, in_layer l rl', msg ∷ [])
    ]

flush_state : LeaderCalls → Leader → LeaderState → Reply (Unit {0})
unfolding flush_layer
flush_state c l (LeaderState.handshake h) = (ok tt, l, [])
flush_state c l (LeaderState.active a) = flush_layer c l a.record_layer
flush_state c l (LeaderState.closed rl t) = flush_layer c l rl
flush_state c l s = wrong_state l

-- `flush`
unfoldable pub flush : LeaderCalls → Leader → Reply (Unit {0})
unfolding flush_state
flush c l = flush_state c l l.state

-- `is_empty`
unfoldable pub is_empty : Leader → Bool
is_empty l = elim l.state [
  | LeaderState.active a ↦ Layer.is_empty a.record_layer
  | LeaderState.closed rl t ↦ Layer.is_empty rl
  | _ ↦ true
]
