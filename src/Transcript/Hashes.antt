-- ===== src/Transcript/Hashes.antt =====
-- crates/core/src/transcript/tls/builder.rs: the hashes of a handshake, over any SHA-256.
use tlsn.Common.{ℕ, List, [], ◌∷◌, ◌++◌, Bool, true, false, if◌then◌else◌, Result, ok, err}
use tlsn.Msgs.Enums.Handshakes.{HandshakeType}
use tlsn.Transcript.{TlsTranscriptError, parse}
use tlsn.Transcript.Ending.{ended, Fallible, ◌>>=◌, slice, slice_from}
use tlsn.Transcript.Parse.{HandshakeMsgInfo}

pub record SfHashInput : Type 0 where
  pub sent_hs_bytes : List ℕ
  pub recv_hs_bytes : List ℕ
  pub sent_ch_end : ℕ
  pub recv_shd_end : ℕ

abbrev pub is_client_hello : HandshakeType → Bool
is_client_hello HandshakeType.client_hello = true
is_client_hello _ = false

abbrev pub is_client_key_exchange : HandshakeType → Bool
is_client_key_exchange HandshakeType.client_key_exchange = true
is_client_key_exchange _ = false

abbrev pub is_server_hello : HandshakeType → Bool
is_server_hello HandshakeType.server_hello = true
is_server_hello _ = false

abbrev pub is_server_hello_done : HandshakeType → Bool
is_server_hello_done HandshakeType.server_hello_done = true
is_server_hello_done _ = false

-- The end of the first message of a type.
unfoldable pub find_end :
    (HandshakeType → Bool) → List HandshakeMsgInfo → Result ℕ TlsTranscriptError
find_end is_typ [] = err parse
find_end is_typ (m ∷ ms) = if is_typ m.typ then ok m.end else find_end is_typ ms

abbrev pub first_end : List HandshakeMsgInfo → Result ℕ TlsTranscriptError
first_end [] = err parse
first_end (m ∷ ms) = if is_client_hello m.typ then ok m.end else err parse

module _ (sha256 : List ℕ → List ℕ) where
  -- `compute_handshake_hashes`
  unfoldable pub compute_handshake_hashes :
      List ℕ
      → List ℕ
      → List HandshakeMsgInfo
      → List HandshakeMsgInfo
      → Fallible (List ℕ × List ℕ × SfHashInput)
  compute_handshake_hashes sent recv sent_msgs recv_msgs = do
    ch_end ← ended (first_end sent_msgs)
    ckx_end ← ended (find_end is_client_key_exchange sent_msgs)
    _ ← ended (find_end is_server_hello recv_msgs)
    shd_end ← ended (find_end is_server_hello_done recv_msgs)
    session_ch ← slice 0 ch_end sent
    session_ckx ← slice ch_end ckx_end sent
    cf_ch ← slice 0 ch_end sent
    cf_shd ← slice 0 shd_end recv
    cf_rest ← slice_from ch_end sent
    ended (
        ok (
          sha256 (cf_ch ++ (cf_shd ++ cf_rest)),
          sha256 (session_ch ++ (recv ++ session_ckx)),
          record {
            sent_hs_bytes = sent;
            recv_hs_bytes = recv;
            sent_ch_end = ch_end;
            recv_shd_end = shd_end;
          },
        ))
