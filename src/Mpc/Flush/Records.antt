-- ===== src/Mpc/Flush/Records.antt =====
-- What `flush` records, whatever the virtual machine answers.
use tlsn.Common.{
  ℕ, ◌≤◌, ◌≡◌, ◌⊎◌, inl, inr, refl, sym, ap, subst, ◌∙◌, List, [], ◌∷◌, ◌++◌, append-nil, arith,
  Option, none, some, Bool, true, false, ◌&&◌, Bool-cases, Result, Result-cases, ok, err, ltb,
  length,
}
use tlsn.Transcript.{Record}
use tlsn.Mpc.Ops.{
  MpcTlsError, EncryptOp, DecryptOp, Vm, EncryptOutput, DecryptOutput, encrypt, decrypt_mpc,
  verify_tags,
}
use tlsn.Mpc.Ops.Lengths.{length-encrypt, length-decrypt_mpc}
use tlsn.Mpc.Layer.{State, RecordLayer, PlainRecord, EncryptedRecord, is_nil, add64}
use tlsn.Mpc.Flush.{
  Outcome, emit_encrypts, emit_decrypts, finish_decrypts, finish_encrypts, run_vm, verify_and_run,
  queued_decrypts, queued_encrypts, process, ciphertext_len,
}
use tlsn.Mpc.Flush.Emit.{
  record_seqs, encrypt_seqs, decrypt_seqs, sent_of, recv_of, Front, emit_encrypts-Front,
  emit_decrypts-Front,
}

-- The outcome of running operations whose sequence numbers are given: everything but the state and the
-- two buffers of results is as before; the records are kept, and those that follow them stand for a
-- front of the operations, in order, which is all of them unless there was an error.
pub record Ran (l : RecordLayer) (sent recv : List Record) (encrypts decrypts : List ℕ)
    (o : Outcome) : Type 0 where
  pub kept : o.1 ≡ record l {
    state = o.1.state;
    encrypted_buffer = o.1.encrypted_buffer;
    decrypted_buffer = o.1.decrypted_buffer;
  }
  pub new_sent : List Record
  pub new_recv : List Record
  pub sent_records : sent_of o.1.state ≡ sent ++ new_sent
  pub recv_records : recv_of o.1.state ≡ recv ++ new_recv
  pub sent_rest : List ℕ
  pub recv_rest : List ℕ
  pub sent_front : encrypts ≡ record_seqs new_sent ++ sent_rest
  pub recv_front : decrypts ≡ record_seqs new_recv ++ recv_rest
  pub complete : ((stop : MpcTlsError) × (o.0 ≡ err stop)) ⊎ ((sent_rest ≡ []) × (recv_rest ≡ []))

-- An error before anything was recorded.
Ran-stopped :
    (l : RecordLayer) (otp : Option (List ℕ)) (sent recv : List Record) (encrypts decrypts : List ℕ)
    (stop : MpcTlsError)
    → Ran l sent recv encrypts decrypts (err stop, record l { state = State.online otp sent recv })
Ran-stopped l otp sent recv encrypts decrypts stop = record {
  kept = refl;
  new_sent = [];
  new_recv = [];
  sent_records = sym (append-nil sent);
  recv_records = sym (append-nil recv);
  sent_rest = encrypts;
  recv_rest = decrypts;
  sent_front = refl;
  recv_front = refl;
  complete = inl (stop, refl);
}

-- All ciphertexts were recorded; then the plaintexts.
finish_decrypts-Ran :
    (l : RecordLayer) (otp : Option (List ℕ)) (sent recv new_sent : List Record)
    (out : List EncryptedRecord) (encrypts decrypts : List ℕ)
    (r : Option MpcTlsError × List PlainRecord × List Record)
    → Front none encrypts (record_seqs new_sent)
    → Front r.0 decrypts (record_seqs r.2)
    → Ran l sent recv encrypts decrypts (
        finish_decrypts
          (record l { encrypted_buffer = l.encrypted_buffer ++ out })
          otp
          (sent ++ new_sent)
          recv
          r)
unfolding finish_decrypts
finish_decrypts-Ran l otp sent recv new_sent out encrypts decrypts (e, plain, records) f g =
    record {
      kept = refl;
      new_sent = new_sent;
      new_recv = records;
      sent_records = refl;
      recv_records = refl;
      sent_rest = f.rest;
      recv_rest = g.rest;
      sent_front = f.parts;
      recv_front = g.parts;
      complete = elim g.complete [
        | inl (stop, q) ↦ inl (stop, rw q)
        | inr whole ↦ elim f.complete [ inl (stop, q) ↦ absurd (cc) | inr all ↦ inr (all, whole) ]
      ];
    }

finish_encrypts-Ran :
    (l : RecordLayer) (otp : Option (List ℕ)) (sent recv : List Record)
    (decrypt_ops : List DecryptOp) (outs : List DecryptOutput) (encrypts : List ℕ)
    (r : Option MpcTlsError × List EncryptedRecord × List Record)
    → length outs ≡ length decrypt_ops
    → Front r.0 encrypts (record_seqs r.2)
    → Ran l sent recv encrypts
        (decrypt_seqs decrypt_ops)
        (finish_encrypts l otp sent recv decrypt_ops outs r)
unfolding finish_encrypts
finish_encrypts-Ran l otp sent recv decrypt_ops outs encrypts (some stop, out, records) h f =
    record {
      kept = refl;
      new_sent = records;
      new_recv = [];
      sent_records = refl;
      recv_records = sym (append-nil recv);
      sent_rest = f.rest;
      recv_rest = decrypt_seqs decrypt_ops;
      sent_front = f.parts;
      recv_front = refl;
      complete = inl (stop, refl);
    }
finish_encrypts-Ran l otp sent recv decrypt_ops outs encrypts (none, out, records) h f =
    finish_decrypts-Ran l otp sent recv records out encrypts (decrypt_seqs decrypt_ops)
      (emit_decrypts decrypt_ops outs) f (emit_decrypts-Front decrypt_ops outs h)

run_vm-Ran :
    (l : RecordLayer) (otp : Option (List ℕ)) (sent recv : List Record)
    (encrypt_ops : List EncryptOp) (decrypt_ops : List DecryptOp) (encrypts : List EncryptOutput)
    (decrypts : List DecryptOutput) (tags : Result (Option (List (List ℕ))) MpcTlsError)
    → length encrypts ≡ length encrypt_ops
    → length decrypts ≡ length decrypt_ops
    → Ran l sent recv
        (encrypt_seqs encrypt_ops)
        (decrypt_seqs decrypt_ops)
        (run_vm l otp sent recv encrypt_ops decrypt_ops encrypts decrypts tags)
unfolding run_vm
run_vm-Ran l otp sent recv encrypt_ops decrypt_ops encrypts decrypts (err e) h k =
    Ran-stopped l otp sent recv (encrypt_seqs encrypt_ops) (decrypt_seqs decrypt_ops) e
run_vm-Ran l otp sent recv encrypt_ops decrypt_ops encrypts decrypts (ok tags) h k =
    finish_encrypts-Ran l otp sent recv decrypt_ops decrypts (encrypt_seqs encrypt_ops)
      (emit_encrypts tags encrypt_ops encrypts) k (emit_encrypts-Front tags encrypt_ops encrypts h)

queued_decrypts-Ran :
    (vm : Vm) (l : RecordLayer) (sent recv : List Record) (encrypt_ops : List EncryptOp)
    (decrypt_ops : List DecryptOp) (encrypts : List EncryptOutput)
    (q : Result (List DecryptOutput) MpcTlsError × Option (List ℕ))
    → length encrypts ≡ length encrypt_ops
    → ((decrypts : List DecryptOutput) → q.0 ≡ ok decrypts → length decrypts ≡ length decrypt_ops)
    → Ran l sent recv
        (encrypt_seqs encrypt_ops)
        (decrypt_seqs decrypt_ops)
        (queued_decrypts vm l sent recv encrypt_ops decrypt_ops encrypts q)
unfolding queued_decrypts verify_and_run
queued_decrypts-Ran vm l sent recv encrypt_ops decrypt_ops encrypts (err e, otp) h k =
    Ran-stopped l otp sent recv (encrypt_seqs encrypt_ops) (decrypt_seqs decrypt_ops) e
queued_decrypts-Ran vm l sent recv encrypt_ops decrypt_ops encrypts (ok decrypts, otp) h k =
    elim (Result-cases (verify_tags vm decrypt_ops)) [
      | inl (u, e) ↦ rw e (
          run_vm-Ran l otp sent recv encrypt_ops decrypt_ops encrypts decrypts vm.run h
            (k decrypts refl))
      | inr (stop, e) ↦
          rw e
            (Ran-stopped l otp sent recv (encrypt_seqs encrypt_ops) (decrypt_seqs decrypt_ops) stop)
    ]

queued_encrypts-Ran :
    (vm : Vm) (l : RecordLayer) (otp : Option (List ℕ)) (sent recv : List Record)
    (encrypt_ops : List EncryptOp) (decrypt_ops : List DecryptOp)
    → l.state ≡ State.online otp sent recv
    → Ran l sent recv
        (encrypt_seqs encrypt_ops)
        (decrypt_seqs decrypt_ops)
        (queued_encrypts vm l otp sent recv encrypt_ops decrypt_ops (encrypt vm encrypt_ops))
unfolding queued_encrypts
queued_encrypts-Ran vm l otp sent recv encrypt_ops decrypt_ops s =
    elim (Result-cases (encrypt vm encrypt_ops)) [
      | inl (encrypts, e) ↦ rw e (
          queued_decrypts-Ran vm l sent recv encrypt_ops decrypt_ops encrypts
            (decrypt_mpc vm otp decrypt_ops) (length-encrypt vm encrypt_ops encrypts e)
            (λ decrypts q. length-decrypt_mpc vm otp decrypt_ops decrypts q))
      | inr (stop, e) ↦ rw e (
          subst
            (λ (x : RecordLayer).
              Ran l sent recv (encrypt_seqs encrypt_ops) (decrypt_seqs decrypt_ops) (err stop, x))
            (ap (λ (t : State). record l { state = t }) (sym s))
            (Ran-stopped l otp sent recv (encrypt_seqs encrypt_ops) (decrypt_seqs decrypt_ops)
              stop))
    ]

-- The same of `process`, where the count of bytes decrypted online stays or is within its limit.
pub record Processed (l : RecordLayer) (sent recv : List Record) (encrypts decrypts : List ℕ)
    (o : Outcome) : Type 0 where
  pub online : ℕ
  pub online_fits : (online ≡ l.recv_online) ⊎ (online ≤ l.max_recv_online)
  pub ran : Ran (record l { recv_online = online }) sent recv encrypts decrypts o

process_full :
    (vm : Vm) (is_decrypting : Bool) (l : RecordLayer) (otp : Option (List ℕ))
    (sent recv : List Record) (encrypt_ops : List EncryptOp) (decrypt_ops : List DecryptOp)
    → l.state ≡ State.online otp sent recv
    → (is_nil encrypt_ops && is_nil decrypt_ops) ≡ false
    → Processed l sent recv
        (encrypt_seqs encrypt_ops)
        (decrypt_seqs decrypt_ops)
        (process vm is_decrypting l otp sent recv encrypt_ops decrypt_ops)
unfolding process
process_full vm true l otp sent recv encrypt_ops decrypt_ops s some_op =
    let online = add64 l.recv_online (ciphertext_len decrypt_ops) in
    elim (Bool-cases (ltb l.max_recv_online online)) [
      | inl over ↦
          rw (some_op, over)
            (record {
              online = l.recv_online;
              online_fits = inl refl;
              ran =
                  subst
                    (λ (x : RecordLayer).
                      Ran l sent recv (encrypt_seqs encrypt_ops) (decrypt_seqs decrypt_ops)
                        (err MpcTlsError.record_layer, x))
                    (ap (λ (t : State). record l { state = t }) (sym s))
                    (Ran-stopped l otp sent recv (encrypt_seqs encrypt_ops)
                      (decrypt_seqs decrypt_ops) MpcTlsError.record_layer);
            })
      | inr within ↦
          rw (some_op, within)
            (record {
              online = online;
              online_fits = inr (ground arith);
              ran =
                  queued_encrypts-Ran vm (record l { recv_online = online }) otp sent recv
                    encrypt_ops decrypt_ops s;
            })
    ]
process_full vm false l otp sent recv encrypt_ops decrypt_ops s some_op = rw some_op (record {
  online = l.recv_online;
  online_fits = inl refl;
  ran = queued_encrypts-Ran vm l otp sent recv encrypt_ops decrypt_ops s;
})

pub process-Processed :
    (vm : Vm) (is_decrypting : Bool) (l : RecordLayer) (otp : Option (List ℕ))
    (sent recv : List Record) (encrypt_ops : List EncryptOp) (decrypt_ops : List DecryptOp)
    → l.state ≡ State.online otp sent recv
    → Processed l sent recv
        (encrypt_seqs encrypt_ops)
        (decrypt_seqs decrypt_ops)
        (process vm is_decrypting l otp sent recv encrypt_ops decrypt_ops)
unfolding process
process-Processed vm is_decrypting l otp sent recv [] [] s = record {
  online = l.recv_online;
  online_fits = inl refl;
  ran = record {
    kept = refl;
    new_sent = [];
    new_recv = [];
    sent_records = ap sent_of s ∙ sym (append-nil sent);
    recv_records = ap recv_of s ∙ sym (append-nil recv);
    sent_rest = [];
    recv_rest = [];
    sent_front = refl;
    recv_front = refl;
    complete = inr (refl, refl);
  };
}
process-Processed vm is_decrypting l otp sent recv [] (op ∷ ops) s =
    process_full vm is_decrypting l otp sent recv [] (op ∷ ops) s refl
process-Processed vm is_decrypting l otp sent recv (op ∷ ops) decrypt_ops s =
    process_full vm is_decrypting l otp sent recv (op ∷ ops) decrypt_ops s refl
