-- ===== src/Mpc/Order/Reach.antt =====
-- The record layer as a state machine: every state that it reaches is sound.
use tlsn.Common.{
  ℕ, ◌+◌, ◌^◌, ◌<◌, ◌≡◌, inl, inr, sym, subst, List, ◌++◌, append-nil, Option, Bool, true, ok,
}
use tlsn.Msgs.Enums.Content.{ContentType}
use tlsn.Msgs.Enums.Version.{ProtocolVersion}
use tlsn.Transcript.{Record}
use tlsn.Mpc.Ops.{Role, EncryptMode, DecryptMode, EncryptOp, Vm}
use tlsn.Mpc.Layer
use tlsn.Mpc.Layer.{
  State, RecordLayer, AllocOutcome, PlainRecord, EncryptedRecord, add64, max_buffer_size,
  push_encrypt, push_decrypt, next_encrypted, next_decrypted, start_traffic,
}
use tlsn.Mpc.Flush.{flush}
use tlsn.Mpc.Flush.Emit.{record_seqs, encrypt_seqs, decrypt_seqs, sent_of, recv_of}
use tlsn.Mpc.Commit.{commit}
use tlsn.Mpc.Order.{Ascending}
use tlsn.Mpc.Layer.{alloc, allocated}
use tlsn.Mpc.Commit.Records.{commit_lem}
use tlsn.Mpc.Order.Sound.{
  IsSound, new-IsSound, push_encrypt-IsSound, push_decrypt-IsSound, map-append,
}
use tlsn.Mpc.Order.Steps.{flush-IsSound, commit-IsSound}
use tlsn.Mpc.Order.Setup.{IsAllocatable, alloc-IsSound, results-IsSound}
use tlsn.Mpc.Commit.Records.{Completed}

-- What a caller of the record layer does, one call after the other.
pub data Step : RecordLayer → RecordLayer → Type 0 where
  allocate :
      (out : AllocOutcome) (sent_len recv_len_online recv_len : ℕ) {l : RecordLayer}
      → IsAllocatable l sent_len recv_len_online recv_len
      → Step l (alloc out sent_len recv_len_online recv_len l).1
  start : {l : RecordLayer} → Step l (start_traffic l)
  encrypted :
      (typ : ContentType) (version : ProtocolVersion) (len : ℕ) (plaintext : Option (List ℕ))
      (mode : EncryptMode) {l : RecordLayer}
      → l.write_seq + 1 < 2 ^ 64
      → Step l (push_encrypt typ version len plaintext mode l).1
  decrypted :
      (typ : ContentType) (version : ProtocolVersion) (explicit_nonce ciphertext tag : List ℕ)
      (mode : DecryptMode) {l : RecordLayer}
      → l.read_seq + 1 < 2 ^ 64
      → Step l (push_decrypt typ version explicit_nonce ciphertext tag mode l).1
  next_out : {l : RecordLayer} → Step l (next_encrypted l).1
  next_in : {l : RecordLayer} → Step l (next_decrypted l).1
  flushed : (vm : Vm) (is_decrypting : Bool) {l : RecordLayer} → Step l (flush vm is_decrypting l).1
  committed : (vm : Vm) {l : RecordLayer} → Step l (commit vm l).1

-- The states that a layer goes through from `l`, the latest one last.
pub data Run (l : RecordLayer) : RecordLayer → Type 0 where
  here : Run l l
  next : {l' l'' : RecordLayer} → Run l l' → Step l' l'' → Run l l''

Step-IsSound : {l l' : RecordLayer} → Step l l' → IsSound l → IsSound l'
unfolding next_encrypted next_decrypted
Step-IsSound {l = l} (allocate out sent_len recv_len_online recv_len a) s =
    alloc-IsSound out sent_len recv_len_online recv_len l a s
Step-IsSound {l = l} start s = results-IsSound l true l.encrypted_buffer l.decrypted_buffer s
Step-IsSound {l = l} (encrypted typ version len plaintext mode h) s =
    push_encrypt-IsSound typ version len plaintext mode l h s
Step-IsSound {l = l} (decrypted typ version explicit_nonce ciphertext tag mode h) s =
    push_decrypt-IsSound typ version explicit_nonce ciphertext tag mode l h s
Step-IsSound {l = l} next_out s = results-IsSound l l.started _ l.decrypted_buffer s
Step-IsSound {l = l} next_in s = results-IsSound l l.started l.encrypted_buffer _ s
Step-IsSound {l = l} (flushed vm is_decrypting) s = flush-IsSound vm is_decrypting l s
Step-IsSound {l = l} (committed vm) s = commit-IsSound vm l s

-- In every state that a new record layer reaches, by any calls in any order and with any outcomes of
-- the virtual machine, as long as no count of 64 bits overflows (a condition of the steps), the sequence numbers of each direction ascend strictly, from the records to the
-- operations that wait and to the next number; the bytes sent, received, and decrypted online are
-- within their limits, and so are the buffers of operations.
pub Run-IsSound : (role : Role) {l : RecordLayer} → Run (Layer.new role) l → IsSound l
Run-IsSound role here = new-IsSound role
Run-IsSound role (next run step) = Step-IsSound step (Run-IsSound role run)

-- A transcript that `commit` returns, in any state that can be reached, lists the records of each
-- direction by strictly ascending sequence numbers.
pub commit-Ascending :
    (role : Role) (l : RecordLayer) (vm : Vm) (sent recv : List Record)
    → Run (Layer.new role) l
    → (commit vm l).0 ≡ ok (sent, recv)
    → Ascending 0 (record_seqs sent) l.write_seq × Ascending 0 (record_seqs recv) l.read_seq
commit-Ascending role l vm sent recv run e = elim (commit_lem vm l).outcome [
  | inl (stop, q, t) ↦ absurd (cc)
  | inr (r, q, t, c) ↦
      let same : r ≡ (sent, recv) = cc in
      subst
        (λ (x : List Record × List Record).
          Ascending 0 (record_seqs x.0) l.write_seq × Ascending 0 (record_seqs x.1) l.read_seq)
        same (of_completed r c (Run-IsSound role run))
]
  where
    of_completed :
        (r : List Record × List Record)
        → Completed l r
        → IsSound l
        → Ascending 0 (record_seqs r.0) l.write_seq × Ascending 0 (record_seqs r.1) l.read_seq
    of_completed r c s =
        let t = c.transcribed in
        (
          subst (λ (rs : List Record). Ascending 0 (record_seqs rs) l.write_seq) (sym t.sent_same)
              (subst (λ ns. Ascending 0 ns l.write_seq) (append-nil (record_seqs c.sent))
                (subst
                  (λ (ops : List EncryptOp).
                    Ascending 0 (record_seqs c.sent ++ encrypt_seqs ops) l.write_seq)
                  c.none_waits
                  (subst
                    (λ (x : State).
                      Ascending 0 (record_seqs (sent_of x) ++ encrypt_seqs l.encrypt_buffer)
                        l.write_seq)
                    c.was_online s.sent_order))),
          subst (λ (rs : List Record). Ascending 0 (record_seqs rs) l.read_seq) (sym t.recv_parts)
              (subst (λ ns. Ascending 0 ns l.read_seq)
                (sym (map-append (λ (x : Record). x.seq) c.recv t.new_recv))
                (subst (λ ns. Ascending 0 (record_seqs c.recv ++ ns) l.read_seq) t.whole
                  (subst
                    (λ (x : State).
                      Ascending 0 (record_seqs (recv_of x) ++ decrypt_seqs l.decrypt_buffer)
                        l.read_seq)
                    c.was_online s.recv_order))),
        )
