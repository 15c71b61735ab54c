-- ===== src/Mpc/Flush/Done.antt =====
-- What a flush that succeeds has done.
use tlsn.Common.{
  ℕ, ◌≡◌, refl, sym, ap, subst, ◌∙◌, List, [], ◌∷◌, Option, Bool, true, false, not, ◌&&◌,
  Bool-cases, inl, inr, ok, err, if◌then◌else◌, map, ltb, append-nil,
}
use tlsn.Transcript.{Record}
use tlsn.Mpc.Ops.{MpcTlsError, EncryptOp, DecryptOp, Vm}
use tlsn.Mpc.Layer.{State, RecordLayer, add64, is_nil}
use tlsn.Mpc.Flush.{process, ciphertext_len, drained, flush, flush_state}
use tlsn.Mpc.Flush.Emit.{sent_of, recv_of}
use tlsn.Mpc.Flush.Records.{process-Processed}
use tlsn.Mpc.Flush.Effect.{emptied}
use tlsn.Mpc.Flush.Marks.{Marked, sent_mark, recv_mark, queued_encrypts-Marked}

process_some :
    (vm : Vm) (is_decrypting : Bool) (l : RecordLayer) (otp : Option (List ℕ))
    (sent recv : List Record) (encrypts : List EncryptOp) (decrypts : List DecryptOp)
    → (is_nil encrypts && is_nil decrypts) ≡ false
    → (process vm is_decrypting l otp sent recv encrypts decrypts).0 ≡ ok tt
    → Marked sent recv encrypts decrypts
        (process vm is_decrypting l otp sent recv encrypts decrypts).1.state
unfolding process
process_some vm true l otp sent recv encrypts decrypts n e =
    let online = add64 l.recv_online (ciphertext_len decrypts) in
    elim (Bool-cases (ltb l.max_recv_online online)) [
      | inl over ↦ absurd (let no : err MpcTlsError.record_layer ≡ ok tt = rw (n, over) at e in cc)
      | inr within ↦
          rw (n, within)
            (queued_encrypts-Marked vm (record l { recv_online = online }) otp sent recv encrypts
              decrypts (rw (n, within) at e))
    ]
process_some vm false l otp sent recv encrypts decrypts n e =
    rw n (queued_encrypts-Marked vm l otp sent recv encrypts decrypts (rw n at e))

pub process-Marked :
    (vm : Vm) (is_decrypting : Bool) (l : RecordLayer) (otp : Option (List ℕ))
    (sent recv : List Record) (encrypts : List EncryptOp) (decrypts : List DecryptOp)
    → l.state ≡ State.online otp sent recv
    → (process vm is_decrypting l otp sent recv encrypts decrypts).0 ≡ ok tt
    → Marked sent recv encrypts decrypts
        (process vm is_decrypting l otp sent recv encrypts decrypts).1.state
process-Marked vm is_decrypting l otp sent recv [] [] s e =
    let same : (process vm is_decrypting l otp sent recv [] []).1.state
        ≡ State.online otp sent recv =
      unfold process in s in
    subst (λ (x : State). Marked sent recv [] [] x) (sym same)
      (record {
        sent_marks = sym (append-nil (map sent_mark sent));
        recv_marks = sym (append-nil (map recv_mark recv));
      })
process-Marked vm is_decrypting l otp sent recv [] (d ∷ ds) s e =
    process_some vm is_decrypting l otp sent recv [] (d ∷ ds) refl e
process-Marked vm is_decrypting l otp sent recv (x ∷ xs) ds s e =
    process_some vm is_decrypting l otp sent recv (x ∷ xs) ds refl e

-- What a flush that succeeds has done.
pub record FlushedOk (is_decrypting : Bool) (l l' : RecordLayer) : Type 0 where
  pub kept : l' ≡ record l {
    state = l'.state;
    encrypt_buffer = [];
    decrypt_buffer = (drained is_decrypting l.decrypt_buffer).1;
    encrypted_buffer = l'.encrypted_buffer;
    decrypted_buffer = l'.decrypted_buffer;
    recv_online = l'.recv_online;
  }
  pub marked :
      Marked
        (sent_of l.state)
        (recv_of l.state)
        l.encrypt_buffer
        (drained is_decrypting l.decrypt_buffer).0
        l'.state

flush_free :
    (vm : Vm) (is_decrypting : Bool) (l : RecordLayer) (u : Bool) (otp : Option (List ℕ))
    (sent recv : List Record)
    → l.state ≡ State.online otp sent recv
    → let o =
        process vm is_decrypting
          (emptied is_decrypting l)
          otp
          sent
          recv
          l.encrypt_buffer
          (drained is_decrypting l.decrypt_buffer).0 in
      (if not u then (err MpcTlsError.record_layer, l) else o).0 ≡ ok tt
      → FlushedOk is_decrypting l (if not u then (err MpcTlsError.record_layer, l) else o).1
flush_free vm is_decrypting l false otp sent recv s e = absurd (cc)
flush_free vm is_decrypting l true otp sent recv s e =
    let l0 = emptied is_decrypting l in
    let ops = (drained is_decrypting l.decrypt_buffer).0 in
    let p = process-Processed vm is_decrypting l0 otp sent recv l.encrypt_buffer ops s in
    let m = process-Marked vm is_decrypting l0 otp sent recv l.encrypt_buffer ops s e in
    let o = process vm is_decrypting l0 otp sent recv l.encrypt_buffer ops in
    record {
      kept =
          p.ran.kept
          ∙ ap
              (λ (n : ℕ). record l0 {
                recv_online = n;
                state = o.1.state;
                encrypted_buffer = o.1.encrypted_buffer;
                decrypted_buffer = o.1.decrypted_buffer;
              })
              (sym (ap (λ (x : RecordLayer). x.recv_online) p.ran.kept));
      marked =
          subst (λ (x : State). Marked (sent_of x) (recv_of x) l.encrypt_buffer ops o.1.state)
            (sym s) m;
    }

pub flush-FlushedOk :
    (vm : Vm) (is_decrypting : Bool) (l : RecordLayer)
    → (flush vm is_decrypting l).0 ≡ ok tt
    → FlushedOk is_decrypting l (flush vm is_decrypting l).1
unfolding flush flush_state
flush-FlushedOk vm is_decrypting l e = of_state l.state refl e
  where
    of_state :
        (s : State)
        → l.state ≡ s
        → (flush_state vm is_decrypting l s).0 ≡ ok tt
        → FlushedOk is_decrypting l (flush_state vm is_decrypting l s).1
    of_state State.init q e = absurd (cc)
    of_state State.complete q e = absurd (cc)
    of_state State.error q e = absurd (cc)
    of_state (State.online otp sent recv) q e =
        flush_free vm is_decrypting l vm.unlocked otp sent recv q e
