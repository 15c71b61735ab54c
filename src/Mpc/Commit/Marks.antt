-- ===== src/Mpc/Commit/Marks.antt =====
-- What a commit that succeeds returns, up to the plaintexts.
use tlsn.Common.{
  ◌≡◌, refl, ap, ◌∙◌, List, [], ◌++◌, Option, none, some, Bool, true, false, not, Bool-cases, inl,
  inr, Result, Result-cases, ok, err, if◌then◌else◌, length, map, subst,
}
use tlsn.Transcript.{Record}
use tlsn.Mpc.Ops.{MpcTlsError, DecryptOp, DecryptOutput, Vm, decrypt_local}
use tlsn.Mpc.Ops.Lengths.{length-decrypt_local}
use tlsn.Mpc.Layer.{State, RecordLayer, PlainRecord, is_nil}
use tlsn.Mpc.Flush.{emit_decrypts}
use tlsn.Mpc.Flush.Emit.{sent_of, recv_of}
use tlsn.Mpc.Flush.Marks.{recv_mark, decrypt_mark, emit_decrypts-marks}
use tlsn.Mpc.Commit.{finish_commit, executed, queued_local, with_key, commit_state, commit}
use mathlib.Core.List.{map-append}

-- The records sent are those of the state; those received are followed by what waited to be decrypted.
pub record CommittedOk (sent recv : List Record) (ops : List DecryptOp)
    (t : List Record × List Record) : Type 0 where
  pub sent_same : t.0 ≡ sent
  pub recv_marks : map recv_mark t.1 ≡ map recv_mark recv ++ map decrypt_mark ops

finish_commit-CommittedOk :
    (l : RecordLayer) (sent recv : List Record) (ops : List DecryptOp)
    (t : List Record × List Record) (r : Option MpcTlsError × List PlainRecord × List Record)
    → (r.0 ≡ none → map recv_mark r.2 ≡ map decrypt_mark ops)
    → (finish_commit l sent recv r).0 ≡ ok t
    → CommittedOk sent recv ops t
unfolding finish_commit
finish_commit-CommittedOk l sent recv ops t (some stop, out, records) m h = absurd (cc)
finish_commit-CommittedOk l sent recv ops t (none, out, records) m h =
    let same : (sent, recv ++ records) ≡ t = cc in
    subst (λ (x : List Record × List Record). CommittedOk sent recv ops x) same
      (record {
        sent_same = refl;
        recv_marks = map-append recv_mark recv records ∙ ap (λ x. map recv_mark recv ++ x) (m refl);
      })

executed-CommittedOk :
    (l : RecordLayer) (sent recv : List Record) (ops : List DecryptOp) (outs : List DecryptOutput)
    (t : List Record × List Record) (u : Result (Unit {0}) MpcTlsError)
    → length outs ≡ length ops
    → (executed l sent recv ops outs u).0 ≡ ok t
    → CommittedOk sent recv ops t
unfolding executed
executed-CommittedOk l sent recv ops outs t (err e) n h = absurd (cc)
executed-CommittedOk l sent recv ops outs t (ok u) n h =
    finish_commit-CommittedOk l sent recv ops t (emit_decrypts ops outs)
      (emit_decrypts-marks ops outs n) h

with_key-CommittedOk :
    (vm : Vm) (l : RecordLayer) (sent recv : List Record) (ops : List DecryptOp)
    (t : List Record × List Record) (u : Result (Unit {0}) MpcTlsError)
    → (with_key vm l sent recv ops u).0 ≡ ok t
    → CommittedOk sent recv ops t
unfolding with_key queued_local
with_key-CommittedOk vm l sent recv ops t (err e) h = absurd (cc)
with_key-CommittedOk vm l sent recv ops t (ok u) h =
    elim (Result-cases (decrypt_local l.role vm ops)) [
      | inr (stop, q) ↦ absurd (let no : err stop ≡ ok t = rw q at h in cc)
      | inl (outs, q) ↦
          executed-CommittedOk l sent recv ops outs t vm.execute
            (length-decrypt_local l.role vm ops outs q) (rw q at h)
    ]

-- A commit that succeeds has found nothing left to encrypt.
pub commit-CommittedOk :
    (vm : Vm) (l : RecordLayer) (t : List Record × List Record)
    → (commit vm l).0 ≡ ok t
    → CommittedOk (sent_of l.state) (recv_of l.state) l.decrypt_buffer t
unfolding commit commit_state
commit-CommittedOk vm l t h = of_state l.state h
  where
    unlocked :
        (u : Bool) (o : Result (List Record × List Record) MpcTlsError × RecordLayer)
        → (if not u then (err MpcTlsError.record_layer, record l { state = State.error }) else o).0
          ≡ ok t
        → o.0 ≡ ok t
    unlocked true o h = h
    unlocked false o h = absurd (cc)

    of_state :
        (s : State)
        → (commit_state vm (record l { state = State.error }) s).0 ≡ ok t
        → CommittedOk (sent_of s) (recv_of s) l.decrypt_buffer t
    of_state State.init h = absurd (cc)
    of_state State.complete h = absurd (cc)
    of_state State.error h = absurd (cc)
    of_state (State.online otp sent recv) h = elim (Bool-cases (is_nil l.encrypt_buffer)) [
      | inr some_op ↦ absurd (let no : err MpcTlsError.state ≡ ok t = rw some_op at h in cc)
      | inl no_op ↦
          let l0 = record l { state = State.error; decrypt_buffer = [] } in
          with_key-CommittedOk vm l0 sent recv l.decrypt_buffer t vm.decode_key (
            unlocked vm.unlocked (with_key vm l0 sent recv l.decrypt_buffer vm.decode_key)
              (rw no_op at h))
    ]
