-- ===== src/Mpc/Leader/Acts.antt =====
-- crates/mpc-tls/src/leader.rs: the calls of the backend that the TLS client makes, as one function.
use tlsn.Common.{ℕ, List, [], Bool, Result, ok, err}
use tlsn.Msgs.Enums.Version.{ProtocolVersion}
use tlsn.Msgs.Message.{OpaqueMessage, PlainMessage}
use tlsn.Transcript.Connection.{PublicKey}
use tlsn.Transcript.Builder.{Ending, ended, panicked, unfinished}
use tlsn.Mpc.Leader.{
  ServerCertDetails, ServerKxDetails, Leader, BackendError, LeaderCalls, Reply,
  enable_decryption as enabled,
}
use tlsn.Mpc.Leader.Setup
use tlsn.Mpc.Leader.Fields
use tlsn.Mpc.Leader.Records

pub data Act : Type 0 where
  set_protocol_version : ProtocolVersion → Act
  set_cipher_suite : ℕ → Act
  set_server_cert_details : ServerCertDetails → Act
  set_server_kx_details : ServerKxDetails → Act
  set_server_random get_server_finished_vd get_client_finished_vd : List ℕ → Act
  set_server_key_share : PublicKey → Act
  push_incoming : OpaqueMessage → Act
  push_outgoing : PlainMessage → Act
  enable_decryption : Bool → Act
  prepare_encryption next_incoming next_outgoing start_traffic flush : Act

-- Without the value that is returned.
abbrev pub plainly : {A : Type 0} → Reply A → Reply (Unit {0})
plainly (ok a, l, sent) = (ok tt, l, sent)
plainly (err e, l, sent) = (err e, l, sent)

abbrev pub taken :
    {A : Type 0} → Result (Ending A) BackendError × Leader → Ending (Reply (Unit {0}))
taken (err e, l) = ended (err e, l, [])
taken (ok (ended a), l) = ended (ok tt, l, [])
taken (ok panicked, l) = panicked
taken (ok unfinished, l) = unfinished

unfoldable pub perform : LeaderCalls → Act → Leader → Ending (Reply (Unit {0}))
perform c (Act.set_protocol_version v) l = ended (Fields.set_protocol_version v l)
perform c (Act.set_cipher_suite suite) l = ended (Fields.set_cipher_suite suite l)
perform c (Act.set_server_cert_details details) l = ended (Fields.set_server_cert_details details l)
perform c (Act.set_server_kx_details details) l = ended (Fields.set_server_kx_details details l)
perform c (Act.set_server_random random) l = ended (Fields.set_server_random c random l)
perform c (Act.get_server_finished_vd hash) l =
    ended (plainly (Fields.get_server_finished_vd c hash l))
perform c (Act.get_client_finished_vd hash) l =
    ended (plainly (Fields.get_client_finished_vd c hash l))
perform c (Act.set_server_key_share key) l = ended (Fields.set_server_key_share c key l)
perform c (Act.push_incoming msg) l = Records.push_incoming c msg l
perform c (Act.push_outgoing msg) l = ended (Records.push_outgoing c msg l)
perform c (Act.enable_decryption enable) l = ended (ok tt, enabled enable l, [])
perform c Act.prepare_encryption l = ended (Setup.prepare_encryption c l)
perform c Act.next_incoming l = taken (Records.next_incoming l)
perform c Act.next_outgoing l = taken (Records.next_outgoing l)
perform c Act.start_traffic l = ended (Records.start_traffic c l)
perform c Act.flush l = ended (Records.flush c l)
