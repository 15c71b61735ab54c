-- ===== src/Mpc/Flush.antt =====
-- crates/mpc-tls/src/record_layer.rs: `flush`, which runs the waiting operations, and `commit`.
pub mod Emit
pub mod Records
pub mod Effect
pub mod Marks
pub mod Done
use tlsn.Common.{
  ℕ, ◌+◌, List, [], ◌∷◌, ◌++◌, Option, none, some, Bool, true, false, not, ◌&&◌, Result, ok, err,
  if◌then◌else◌, ltb, length,
}
use tlsn.Msgs.Message.{is_application_data}
use tlsn.Transcript.{Record, record_type}
use tlsn.Mpc.Ops.{
  MpcTlsError, Role, EncryptOp, DecryptOp, Vm, EncryptOutput, DecryptOutput, try_encrypt,
  try_decrypt, encrypt, decrypt_mpc, decrypt_local, verify_tags,
}
use tlsn.Mpc.Layer.{State, RecordLayer, PlainRecord, EncryptedRecord, add64, is_nil}

-- The tags are reversed and popped from the back: the first comes first.
abbrev next_tag : Option (List (List ℕ)) → Option (List ℕ) × Option (List (List ℕ))
next_tag none = (none, none)
next_tag (some []) = (none, some [])
next_tag (some (t ∷ ts)) = (some t, some ts)

abbrev pub encrypted_record : EncryptOp → List ℕ → Option (List ℕ) → EncryptedRecord
encrypted_record op ciphertext tag = record {
  typ = op.typ;
  version = op.version;
  explicit_nonce = op.explicit_nonce;
  ciphertext = ciphertext;
  tag = tag;
}

abbrev pub sent_record : EncryptOp → List ℕ → Option (List ℕ) → Record
sent_record op ciphertext tag = record {
  seq = op.seq;
  typ = record_type op.typ;
  plaintext = op.plaintext;
  explicit_nonce = op.explicit_nonce;
  ciphertext = ciphertext;
  tag = tag;
}

abbrev pub plain_record : DecryptOp → Option (List ℕ) → PlainRecord
plain_record op plaintext = record { typ = op.typ; version = op.version; plaintext = plaintext }

abbrev pub recv_record : DecryptOp → Option (List ℕ) → Record
recv_record op plaintext = record {
  seq = op.seq;
  typ = record_type op.typ;
  plaintext = plaintext;
  explicit_nonce = op.explicit_nonce;
  ciphertext = op.ciphertext;
  tag = some op.tag;
}

-- The loops over operations and outputs: the error that stops one, and the records pushed until then.
emit_encrypt :
    EncryptOp
    → Option (List ℕ)
    → Option MpcTlsError × List EncryptedRecord × List Record
    → Result (List ℕ) MpcTlsError
    → Option MpcTlsError × List EncryptedRecord × List Record
emit_encrypt op tag (e, out, records) (err stop) = (some stop, [], [])
emit_encrypt op tag (e, out, records) (ok ciphertext) =
    (e, encrypted_record op ciphertext tag ∷ out, sent_record op ciphertext tag ∷ records)

unfoldable pub emit_encrypts :
    Option (List (List ℕ))
    → List EncryptOp
    → List EncryptOutput
    → Option MpcTlsError × List EncryptedRecord × List Record
unfolding emit_encrypt
emit_encrypts tags [] outs = (none, [], [])
emit_encrypts tags (op ∷ ops) [] = (none, [], [])
emit_encrypts tags (op ∷ ops) (out ∷ outs) =
    emit_encrypt op (next_tag tags).0 (emit_encrypts (next_tag tags).1 ops outs) (try_encrypt out)

emit_decrypt :
    DecryptOp
    → Option MpcTlsError × List PlainRecord × List Record
    → Result (Option (List ℕ)) MpcTlsError
    → Option MpcTlsError × List PlainRecord × List Record
emit_decrypt op (e, out, records) (err stop) = (some stop, [], [])
emit_decrypt op (e, out, records) (ok plaintext) =
    (e, plain_record op plaintext ∷ out, recv_record op plaintext ∷ records)

unfoldable pub emit_decrypts :
    List DecryptOp → List DecryptOutput → Option MpcTlsError × List PlainRecord × List Record
unfolding emit_decrypt
emit_decrypts [] outs = (none, [], [])
emit_decrypts (op ∷ ops) [] = (none, [], [])
emit_decrypts (op ∷ ops) (out ∷ outs) = emit_decrypt op (emit_decrypts ops outs) (try_decrypt out)

-- `position` of the first application data, and the operations in front of it and behind.
before :
    DecryptOp
    → Bool
    → List DecryptOp × List DecryptOp
    → List DecryptOp
    → List DecryptOp × List DecryptOp
before op true rest ops = ([], op ∷ ops)
before op false (front, back) ops = (op ∷ front, back)

unfoldable pub before_application_data : List DecryptOp → List DecryptOp × List DecryptOp
unfolding before
before_application_data [] = ([], [])
before_application_data (op ∷ ops) =
    before op (is_application_data op.typ) (before_application_data ops) ops

-- The operations to decrypt, and those that stay.
abbrev pub drained : Bool → List DecryptOp → List DecryptOp × List DecryptOp
drained true ops = (ops, [])
drained false ops = before_application_data ops

abbrev pub ciphertext_len : List DecryptOp → ℕ
ciphertext_len [] = 0
ciphertext_len (op ∷ ops) = length op.ciphertext + ciphertext_len ops

abbrev pub Outcome : Type 0
Outcome = Result (Unit {0}) MpcTlsError × RecordLayer

-- The end of `flush`: what the machine has computed is taken out, first the ciphertexts, then the
-- plaintexts.
finish_decrypts :
    RecordLayer
    → Option (List ℕ)
    → List Record
    → List Record
    → Option MpcTlsError × List PlainRecord × List Record
    → Outcome
finish_decrypts l otp sent recv (e, out, records) = (
  elim e [ none ↦ ok tt | some stop ↦ err stop ],
  record l {
    decrypted_buffer = l.decrypted_buffer ++ out;
    state = State.online otp sent (recv ++ records);
  },
)

finish_encrypts :
    RecordLayer
    → Option (List ℕ)
    → List Record
    → List Record
    → List DecryptOp
    → List DecryptOutput
    → Option MpcTlsError × List EncryptedRecord × List Record
    → Outcome
unfolding finish_decrypts
finish_encrypts l otp sent recv decrypt_ops outs (some stop, out, records) = (
  err stop,
  record l {
    encrypted_buffer = l.encrypted_buffer ++ out;
    state = State.online otp (sent ++ records) recv;
  },
)
finish_encrypts l otp sent recv decrypt_ops outs (none, out, records) =
    finish_decrypts (record l { encrypted_buffer = l.encrypted_buffer ++ out }) otp
      (sent ++ records) recv (emit_decrypts decrypt_ops outs)

run_vm :
    RecordLayer
    → Option (List ℕ)
    → List Record
    → List Record
    → List EncryptOp
    → List DecryptOp
    → List EncryptOutput
    → List DecryptOutput
    → Result (Option (List (List ℕ))) MpcTlsError
    → Outcome
unfolding finish_encrypts
run_vm l otp sent recv encrypt_ops decrypt_ops encrypts decrypts (err e) =
    (err e, record l { state = State.online otp sent recv })
run_vm l otp sent recv encrypt_ops decrypt_ops encrypts decrypts (ok tags) =
    finish_encrypts l otp sent recv decrypt_ops decrypts (emit_encrypts tags encrypt_ops encrypts)

verify_and_run :
    Vm
    → RecordLayer
    → Option (List ℕ)
    → List Record
    → List Record
    → List EncryptOp
    → List DecryptOp
    → List EncryptOutput
    → List DecryptOutput
    → Result (Unit {0}) MpcTlsError
    → Outcome
unfolding run_vm
verify_and_run vm l otp sent recv encrypt_ops decrypt_ops encrypts decrypts (err e) =
    (err e, record l { state = State.online otp sent recv })
verify_and_run vm l otp sent recv encrypt_ops decrypt_ops encrypts decrypts (ok u) =
    run_vm l otp sent recv encrypt_ops decrypt_ops encrypts decrypts vm.run

-- The pad is taken from the state, and what is left of it goes back, whatever happens then.
queued_decrypts :
    Vm
    → RecordLayer
    → List Record
    → List Record
    → List EncryptOp
    → List DecryptOp
    → List EncryptOutput
    → Result (List DecryptOutput) MpcTlsError × Option (List ℕ)
    → Outcome
unfolding verify_and_run
queued_decrypts vm l sent recv encrypt_ops decrypt_ops encrypts (err e, otp) =
    (err e, record l { state = State.online otp sent recv })
queued_decrypts vm l sent recv encrypt_ops decrypt_ops encrypts (ok decrypts, otp) =
    verify_and_run vm l otp sent recv encrypt_ops decrypt_ops encrypts decrypts
      (verify_tags vm decrypt_ops)

pub queued_encrypts :
    Vm
    → RecordLayer
    → Option (List ℕ)
    → List Record
    → List Record
    → List EncryptOp
    → List DecryptOp
    → Result (List EncryptOutput) MpcTlsError
    → Outcome
unfolding queued_decrypts
queued_encrypts vm l otp sent recv encrypt_ops decrypt_ops (err e) = (err e, l)
queued_encrypts vm l otp sent recv encrypt_ops decrypt_ops (ok encrypts) =
    queued_decrypts vm l sent recv encrypt_ops decrypt_ops encrypts (decrypt_mpc vm otp decrypt_ops)

-- The operations have left their buffers.
unfoldable pub process :
    Vm
    → Bool
    → RecordLayer
    → Option (List ℕ)
    → List Record
    → List Record
    → List EncryptOp
    → List DecryptOp
    → Outcome
unfolding queued_encrypts
process vm is_decrypting l otp sent recv encrypt_ops decrypt_ops =
    let online = add64 l.recv_online (ciphertext_len decrypt_ops) in
    if is_nil encrypt_ops && is_nil decrypt_ops
    then (ok tt, l)
    else if is_decrypting && ltb l.max_recv_online online
    then (err MpcTlsError.record_layer, l)
    else queued_encrypts vm
        (record l { recv_online = if is_decrypting then online else l.recv_online }) otp sent recv
        encrypt_ops decrypt_ops (encrypt vm encrypt_ops)

flush_state : Vm → Bool → RecordLayer → State → Outcome
flush_state vm is_decrypting l (State.online otp sent recv) =
    if not vm.unlocked
    then (err MpcTlsError.record_layer, l)
    else process vm is_decrypting
        (record l {
          encrypt_buffer = [];
          decrypt_buffer = (drained is_decrypting l.decrypt_buffer).1;
        })
        otp sent recv l.encrypt_buffer (drained is_decrypting l.decrypt_buffer).0
flush_state vm is_decrypting l s = (err MpcTlsError.state, l)

-- `flush`
unfoldable pub flush : Vm → Bool → RecordLayer → Result (Unit {0}) MpcTlsError × RecordLayer
unfolding flush_state
flush vm is_decrypting l = flush_state vm is_decrypting l l.state
