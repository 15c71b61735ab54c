-- ===== src/Lib.antt =====
-- TLSNotary: two parties, a prover and a verifier, run a TLS session with a server as one client, so
-- that the verifier can attest to what the server sent. The repository holds a fork of a TLS library
-- (crates/tls), the protocol that runs the record layer between the two parties (crates/mpc-tls), the
-- data model of transcripts and attestations (crates/core, crates/attestation) and the programs on top.
--
-- This development models the bytes on the wire and the record layer that the two parties share.
-- crates/tls/core/src/msgs cuts messages into frames (fragmenter), encodes them (message, codec), finds
-- frames in a stream of bytes (deframer), and joins the payloads of frames to handshake messages
-- (hsjoiner, handshake). The client in crates/tls/client keeps the bytes in between in queues (vecbuf),
-- and sessions in a cache that evicts the oldest (limited_cache). crates/mpc-tls/src/record_layer.rs
-- gives records their sequence numbers, lets a virtual machine that both parties run encrypt and decrypt
-- them, and returns the records as a transcript, from which crates/core/src/transcript/tls.rs takes the
-- application data. crates/mpc-tls/src/leader.rs is the prover's side of that protocol: the TLS client calls
-- it as its backend, and it tells the verifier's side, follower.rs, by messages (msg.rs) what to do with
-- the follower's own record layer. At the end both build a transcript (transcript/tls/builder.rs) from the
-- records and check the verify data in it.
--
-- - Common: lists cut and measured by native numbers, Boolean tests, results, bytes of integers.
-- - Msgs.Reader, Msgs.Codec: msgs/codec.rs. A `Reader` is its buffer and offset; a function that moves
--   the cursor returns the moved one. Encoders take the buffer and return the longer one. `encode_vec_*`
--   write a placeholder of the length and patch it, as the source does.
-- - Msgs.Enums: msgs/macros.rs and msgs/enums.rs, all enumerations but the cipher suites.
-- - Msgs.Alert: msgs/alert.rs and ccs.rs.
-- - Msgs.Base: msgs/base.rs, the payloads with a length in front.
-- - Msgs.Message: msgs/message.rs, `OpaqueMessage::read` with each of its errors, and `encode`.
--   `frame_of` in Msgs.Message.Verdicts is the same on lists, with the checks of the source, and `verdict`
--   in Msgs.Message.Header the description that names the faults by the numbers on the wire.
-- - Msgs.Deframer: msgs/deframer.rs. The field `used` of the source is called `filled`, since the reader
--   has a function `used`. The outcome of the caller's reader is the argument `ReadOutcome`.
--   `Deframes` in Msgs.Deframer.Stream is the specification on the whole stream.
-- - Msgs.Fragmenter: msgs/fragmenter.rs, with `slice::chunks` written out.
-- - Msgs.Handshake, Msgs.Joiner: the frame of a handshake message in msgs/handshake.rs, and
--   msgs/hsjoiner.rs. `Joins` in Msgs.Joiner.Front is the specification on the whole stream.
-- - Client.Vecbuf: crates/tls/client/src/vecbuf.rs, the queue of bytes in front of the record layer.
-- - Client.Records: crates/tls/client/src/record_layer.rs. The answers of the backend are arguments. A
--   flag says if the build has debug assertions, and their panic is `none`.
-- - Client.Cache: crates/tls/client/src/limited_cache.rs, the cache of sessions.
-- - Transcript: crates/core/src/transcript/tls.rs, records and `to_transcript`.
-- - Transcript.Parse, Transcript.Extract, Transcript.Hashes, Transcript.Builder: the functions of
--   crates/core/src/transcript/tls/builder.rs, from the bytes of a connection or from records to a
--   transcript. `Ending` in Transcript.Ending tells a result from a panic, of `expect` or of a slice
--   or a byte out of range, and from fuel that ran out. What a body of a handshake message holds is the parameter
--   `Payloads`, and the curve of a certificate and SHA-256 are functions.
-- - Transcript.Connection: the data of crates/core/src/connection.rs that a transcript holds.
-- - Mpc.Ops: crates/mpc-tls/src/record_layer/encrypt.rs and decrypt.rs. The virtual machine of mpz and
--   the ciphers on it are the record `Vm`, with the outcome of each call as a function of the operation.
-- - Mpc.Layer, Mpc.Flush, Mpc.Commit: crates/mpc-tls/src/record_layer.rs. The lines of `flush` and
--   `commit` that can fail are functions one behind the other, so that each error leaves the state as the
--   source does. The sums of `u64` and `usize` wrap around.
-- - Mpc.Messages, Mpc.Utils: crates/mpc-tls/src/msg.rs and utils.rs.
-- - Mpc.Follower: crates/mpc-tls/src/follower.rs. `handle` is one round of the loop of `run`, `run_loop` the
--   loop over the messages that arrive, and `finish_session` what follows it.
-- - Mpc.Leader: crates/mpc-tls/src/leader.rs, one function for each operation of the backend; `perform` in
--   Mpc.Leader.Acts is all of them as one. What is sent is returned beside the leader. The outcomes of the
--   key exchange, the PRF and the connection are the record `LeaderCalls`, for the follower `Calls`.
-- - Mpc.Joint: both parties side by side. `Joint` in Mpc.Joint.Agree is the relation of a leader and a
--   follower's session that calls and messages reach from their setup, and `Mirrors` what the two
--   record layers have in common.
-- - Mpc.Order: the record layer as a state machine, `Step` and `Run` in Mpc.Order.Reach.
-- - Tests: the theorems at concrete inputs.
--
-- Loops run on fuel, and a result of a loop is an `Option` in which `none` means that the fuel ran out, or
-- an `Ending` in which `unfinished` does;
-- the theorems show that it does not. The deframer's loop gets the number of filled bytes and one, since
-- each round takes a frame, and the joiner's loop the length of the buffer and one, since each round
-- takes a header; the loops over the bytes of a connection and of its handshake get the number of bytes
-- and one, since each round takes a header; the loop of the byte queue gets the number of chunks and two, since each round takes a
-- chunk or fills the slice; the readers of vectors get the number of unread bytes and one, since each item takes a
-- byte. A buffer of the deframer has `MAX_WIRE_SIZE` bytes, as in the source. Arithmetic on offsets into
-- buffers is on numbers without a bound: every such sum stays below the length of a buffer in memory.
--
-- Not modelled: the bodies of handshake messages are read by a parameter, so far; the connection's state
-- machine in crates/tls/client, the commitments and attestations above the transcript, and everything above
-- them; the mpz virtual machine, ring and webpki are libraries that the repository only calls. The tasks
-- of the two parties run one message after the other, as the stream between them orders them. The
-- debug assertions of the deframer and of the codec's vectors are not part of the functions; the theorems
-- have what they assert as the invariant.
pub mod Client
pub mod Common
pub mod Mpc
pub mod Msgs
pub mod Tests
pub mod Transcript
