-- ===== src/Mpc/Commit.antt =====
-- crates/mpc-tls/src/record_layer.rs: `commit`, which ends the record layer and returns the transcript.
pub mod Records
pub mod Marks
use tlsn.Common.{
  List, [], ◌++◌, Option, none, some, Bool, true, false, not, Result, ok, err, if◌then◌else◌,
}
use tlsn.Transcript.{Record}
use tlsn.Mpc.Ops.{MpcTlsError, DecryptOp, DecryptOutput, Vm, decrypt_local}
use tlsn.Mpc.Layer.{State, RecordLayer, PlainRecord, is_nil}
use tlsn.Mpc.Flush.{emit_decrypts}

abbrev Committed : Type 0
Committed = Result (List Record × List Record) MpcTlsError × RecordLayer

finish_commit :
    RecordLayer
    → List Record
    → List Record
    → Option MpcTlsError × List PlainRecord × List Record
    → Committed
finish_commit l sent recv (some stop, out, records) =
    (err stop, record l { decrypted_buffer = l.decrypted_buffer ++ out })
finish_commit l sent recv (none, out, records) = (
  ok (sent, recv ++ records),
  record l { decrypted_buffer = l.decrypted_buffer ++ out; state = State.complete },
)

executed :
    RecordLayer
    → List Record
    → List Record
    → List DecryptOp
    → List DecryptOutput
    → Result (Unit {0}) MpcTlsError
    → Committed
unfolding finish_commit
executed l sent recv ops outs (err e) = (err e, l)
executed l sent recv ops outs (ok u) = finish_commit l sent recv (emit_decrypts ops outs)

queued_local :
    Vm
    → RecordLayer
    → List Record
    → List Record
    → List DecryptOp
    → Result (List DecryptOutput) MpcTlsError
    → Committed
unfolding executed
queued_local vm l sent recv ops (err e) = (err e, l)
queued_local vm l sent recv ops (ok outs) = executed l sent recv ops outs vm.execute

with_key :
    Vm
    → RecordLayer
    → List Record
    → List Record
    → List DecryptOp
    → Result (Unit {0}) MpcTlsError
    → Committed
unfolding queued_local
with_key vm l sent recv ops (err e) = (err e, l)
with_key vm l sent recv ops (ok u) = queued_local vm l sent recv ops (decrypt_local l.role vm ops)

-- `self.state.take()` has left `Error` behind.
commit_state : Vm → RecordLayer → State → Committed
unfolding with_key
commit_state vm l (State.online otp sent recv) =
    if not (is_nil l.encrypt_buffer)
    then (err MpcTlsError.state, l)
    else if not vm.unlocked
    then (err MpcTlsError.record_layer, l)
    else with_key vm (record l { decrypt_buffer = [] }) sent recv l.decrypt_buffer vm.decode_key
commit_state vm l s = (err MpcTlsError.state, l)

-- `commit`
unfoldable pub commit :
    Vm → RecordLayer → Result (List Record × List Record) MpcTlsError × RecordLayer
unfolding commit_state
commit vm l = commit_state vm (record l { state = State.error }) l.state
