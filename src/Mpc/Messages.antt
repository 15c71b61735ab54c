-- ===== src/Mpc/Messages.antt =====
-- crates/mpc-tls/src/msg.rs: what the leader tells the follower.
use tlsn.Common.{ℕ, List, Option, Bool}
use tlsn.Msgs.Enums.Content.{ContentType}
use tlsn.Msgs.Enums.Version.{ProtocolVersion}
use tlsn.Transcript.Connection.{PublicKey}
use tlsn.Mpc.Ops.{EncryptMode, DecryptMode}

pub record Decrypt : Type 0 where
  pub typ : ContentType
  pub version : ProtocolVersion
  pub explicit_nonce : List ℕ
  pub ciphertext : List ℕ
  pub tag : List ℕ
  pub mode : DecryptMode

pub record Encrypt : Type 0 where
  pub typ : ContentType
  pub version : ProtocolVersion
  pub len : ℕ
  pub plaintext : Option (List ℕ)
  pub mode : EncryptMode

pub data Message : Type 0 where
  set_client_random set_server_random : List ℕ → Message
  start_handshake : ℕ → Message
  set_server_key : PublicKey → Message
  client_finished_vd server_finished_vd : List ℕ → Message
  encrypt : Encrypt → Message
  decrypt : Decrypt → Message
  start_traffic close_connection : Message
  flush : Bool → Message
