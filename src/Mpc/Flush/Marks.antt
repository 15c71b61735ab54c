-- ===== src/Mpc/Flush/Marks.antt =====
-- What both parties know of a record: which they recorded in a flush that succeeded.
use tlsn.Common.{
  ℕ, ◌≡◌, refl, ap, ◌∙◌, List, [], ◌∷◌, ◌++◌, Option, none, some, inl, inr, Result, Result-cases,
  ok, err, arith, length, map,
}
use tlsn.Transcript.{Record, record_type}
use tlsn.Mpc.Ops.{
  MpcTlsError, EncryptOp, DecryptOp, Vm, EncryptOutput, DecryptOutput, try_encrypt, try_decrypt,
  encrypt, decrypt_mpc, verify_tags,
}
use tlsn.Mpc.Ops.Lengths.{length-encrypt, length-decrypt_mpc}
use tlsn.Mpc.Layer.{State, RecordLayer, PlainRecord, EncryptedRecord}
use tlsn.Mpc.Flush.{
  emit_encrypt, emit_encrypts, emit_decrypt, emit_decrypts, next_tag, finish_decrypts,
  finish_encrypts, run_vm, verify_and_run, queued_decrypts, queued_encrypts,
}
use tlsn.Mpc.Flush.Emit.{sent_of, recv_of}
use mathlib.Core.List.{map-append}

-- Of a record that was sent: its number, type and nonce.
abbrev pub sent_mark : Record → Record
sent_mark r = record r { plaintext = none; ciphertext = []; tag = none }

-- Of a record that was received: all but the plaintext.
abbrev pub recv_mark : Record → Record
recv_mark r = record r { plaintext = none }

abbrev pub encrypt_mark : EncryptOp → Record
encrypt_mark op = record {
  seq = op.seq;
  typ = record_type op.typ;
  plaintext = none;
  explicit_nonce = op.explicit_nonce;
  ciphertext = [];
  tag = none;
}

abbrev pub decrypt_mark : DecryptOp → Record
decrypt_mark op = record {
  seq = op.seq;
  typ = record_type op.typ;
  plaintext = none;
  explicit_nonce = op.explicit_nonce;
  ciphertext = op.ciphertext;
  tag = some op.tag;
}

emit_encrypts-marks :
    (tags : Option (List (List ℕ))) (ops : List EncryptOp) (outs : List EncryptOutput)
    → length outs ≡ length ops
    → (emit_encrypts tags ops outs).0 ≡ none
    → map sent_mark (emit_encrypts tags ops outs).2 ≡ map encrypt_mark ops
unfolding emit_encrypts emit_encrypt
emit_encrypts-marks tags [] outs h e = refl
emit_encrypts-marks tags (op ∷ ops) [] h e = absurd (omega arith)
emit_encrypts-marks tags (op ∷ ops) (out ∷ outs) h e = elim (Result-cases (try_encrypt out)) [
  | inl (c, q) ↦
      let rest = (emit_encrypts-marks (next_tag tags).1 ops outs (omega arith) (rw q at e)) in
      rw q (ap (λ t. encrypt_mark op ∷ t) rest)
  | inr (stop, q) ↦ absurd (let no : some stop ≡ none = rw q at e in cc)
]

pub emit_decrypts-marks :
    (ops : List DecryptOp) (outs : List DecryptOutput)
    → length outs ≡ length ops
    → (emit_decrypts ops outs).0 ≡ none
    → map recv_mark (emit_decrypts ops outs).2 ≡ map decrypt_mark ops
unfolding emit_decrypts emit_decrypt
emit_decrypts-marks [] outs h e = refl
emit_decrypts-marks (op ∷ ops) [] h e = absurd (omega arith)
emit_decrypts-marks (op ∷ ops) (out ∷ outs) h e = elim (Result-cases (try_decrypt out)) [
  | inl (c, q) ↦
      let rest = emit_decrypts-marks ops outs (omega arith) (rw q at e) in
      rw q (ap (λ t. decrypt_mark op ∷ t) rest)
  | inr (stop, q) ↦ absurd (let no : some stop ≡ none = rw q at e in cc)
]

-- The state behind a flush that took these operations.
pub record Marked (sent recv : List Record) (encrypts : List EncryptOp) (decrypts : List DecryptOp)
    (s : State) : Type 0 where
  pub sent_marks : map sent_mark (sent_of s) ≡ map sent_mark sent ++ map encrypt_mark encrypts
  pub recv_marks : map recv_mark (recv_of s) ≡ map recv_mark recv ++ map decrypt_mark decrypts

finish_decrypts-Marked :
    (l : RecordLayer) (otp : Option (List ℕ)) (sent recv new_sent : List Record)
    (encrypts : List EncryptOp) (decrypts : List DecryptOp)
    (r : Option MpcTlsError × List PlainRecord × List Record)
    → map sent_mark new_sent ≡ map encrypt_mark encrypts
    → (r.0 ≡ none → map recv_mark r.2 ≡ map decrypt_mark decrypts)
    → (finish_decrypts l otp (sent ++ new_sent) recv r).0 ≡ ok tt
    → Marked sent recv encrypts decrypts (finish_decrypts l otp (sent ++ new_sent) recv r).1.state
unfolding finish_decrypts
finish_decrypts-Marked l otp sent recv new_sent encrypts decrypts (some stop, out, records) m k e =
    absurd (cc)
finish_decrypts-Marked l otp sent recv new_sent encrypts decrypts (none, out, records) m k e =
    record {
      sent_marks = map-append sent_mark sent new_sent ∙ ap (λ t. map sent_mark sent ++ t) m;
      recv_marks = map-append recv_mark recv records ∙ ap (λ t. map recv_mark recv ++ t) (k refl);
    }

finish_encrypts-Marked :
    (l : RecordLayer) (otp : Option (List ℕ)) (sent recv : List Record) (encrypts : List EncryptOp)
    (decrypts : List DecryptOp) (outs : List DecryptOutput)
    (r : Option MpcTlsError × List EncryptedRecord × List Record)
    → length outs ≡ length decrypts
    → (r.0 ≡ none → map sent_mark r.2 ≡ map encrypt_mark encrypts)
    → (finish_encrypts l otp sent recv decrypts outs r).0 ≡ ok tt
    → Marked sent recv encrypts decrypts (finish_encrypts l otp sent recv decrypts outs r).1.state
unfolding finish_encrypts
finish_encrypts-Marked l otp sent recv encrypts decrypts outs (some stop, out, records) h m e =
    absurd (cc)
finish_encrypts-Marked l otp sent recv encrypts decrypts outs (none, out, records) h m e =
    finish_decrypts-Marked (record l { encrypted_buffer = l.encrypted_buffer ++ out }) otp sent recv
      records encrypts decrypts (emit_decrypts decrypts outs) (m refl)
      (emit_decrypts-marks decrypts outs h) e

run_vm-Marked :
    (l : RecordLayer) (otp : Option (List ℕ)) (sent recv : List Record) (encrypts : List EncryptOp)
    (decrypts : List DecryptOp) (outs : List EncryptOutput) (plains : List DecryptOutput)
    (tags : Result (Option (List (List ℕ))) MpcTlsError)
    → length outs ≡ length encrypts
    → length plains ≡ length decrypts
    → (run_vm l otp sent recv encrypts decrypts outs plains tags).0 ≡ ok tt
    → Marked sent recv encrypts decrypts
        (run_vm l otp sent recv encrypts decrypts outs plains tags).1.state
unfolding run_vm
run_vm-Marked l otp sent recv encrypts decrypts outs plains (err stop) h k e = absurd (cc)
run_vm-Marked l otp sent recv encrypts decrypts outs plains (ok tags) h k e =
    finish_encrypts-Marked l otp sent recv encrypts decrypts plains
      (emit_encrypts tags encrypts outs) k (emit_encrypts-marks tags encrypts outs h) e

queued_decrypts-Marked :
    (vm : Vm) (l : RecordLayer) (sent recv : List Record) (encrypts : List EncryptOp)
    (decrypts : List DecryptOp) (outs : List EncryptOutput)
    (q : Result (List DecryptOutput) MpcTlsError × Option (List ℕ))
    → length outs ≡ length encrypts
    → ((plains : List DecryptOutput) → q.0 ≡ ok plains → length plains ≡ length decrypts)
    → (queued_decrypts vm l sent recv encrypts decrypts outs q).0 ≡ ok tt
    → Marked sent recv encrypts decrypts
        (queued_decrypts vm l sent recv encrypts decrypts outs q).1.state
unfolding queued_decrypts verify_and_run
queued_decrypts-Marked vm l sent recv encrypts decrypts outs (err stop, otp) h k e = absurd (cc)
queued_decrypts-Marked vm l sent recv encrypts decrypts outs (ok plains, otp) h k e =
    elim (Result-cases (verify_tags vm decrypts)) [
      | inr (stop, q) ↦ absurd (let no : err stop ≡ ok tt = rw q at e in cc)
      | inl (u, q) ↦ rw q (
          run_vm-Marked l otp sent recv encrypts decrypts outs plains vm.run h (k plains refl)
            (rw q at e))
    ]

pub queued_encrypts-Marked :
    (vm : Vm) (l : RecordLayer) (otp : Option (List ℕ)) (sent recv : List Record)
    (encrypts : List EncryptOp) (decrypts : List DecryptOp)
    → (queued_encrypts vm l otp sent recv encrypts decrypts (encrypt vm encrypts)).0 ≡ ok tt
    → Marked sent recv encrypts decrypts
        (queued_encrypts vm l otp sent recv encrypts decrypts (encrypt vm encrypts)).1.state
unfolding queued_encrypts
queued_encrypts-Marked vm l otp sent recv encrypts decrypts e =
    elim (Result-cases (encrypt vm encrypts)) [
      | inr (stop, q) ↦ absurd (let no : err stop ≡ ok tt = rw q at e in cc)
      | inl (outs, q) ↦ rw q (
          queued_decrypts-Marked vm l sent recv encrypts decrypts outs (decrypt_mpc vm otp decrypts)
            (length-encrypt vm encrypts outs q)
            (λ plains r. length-decrypt_mpc vm otp decrypts plains r) (rw q at e))
    ]
