-- ===== src/Mpc/Joint.antt =====
-- crates/mpc-tls/src/leader.rs and follower.rs together: two record layers that stand for the same
-- records.
pub mod Layers
pub mod Sessions
pub mod Heard
pub mod Steps
pub mod Agree
pub mod Transcripts
pub mod Closed
use tlsn.Common.{ℕ, ◌≡◌, List, map}
use tlsn.Transcript.{Record}
use tlsn.Mpc.Layer.{RecordLayer}
use tlsn.Mpc.Flush.Emit.{sent_of, recv_of}
use tlsn.Mpc.Flush.Marks.{sent_mark, recv_mark, encrypt_mark}

-- Equal but for what the follower is not told: the plaintexts, and the results that only one party
-- has.
pub record Mirrors (l f : RecordLayer) : Type 0 where
  pub write_seq : l.write_seq ≡ f.write_seq
  pub read_seq : l.read_seq ≡ f.read_seq
  pub encrypts : map encrypt_mark l.encrypt_buffer ≡ map encrypt_mark f.encrypt_buffer
  pub decrypts : l.decrypt_buffer ≡ f.decrypt_buffer
  pub sent : map sent_mark (sent_of l.state) ≡ map sent_mark (sent_of f.state)
  pub recv : map recv_mark (recv_of l.state) ≡ map recv_mark (recv_of f.state)
