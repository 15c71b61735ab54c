-- ===== src/Mpc/Flush/Effect.antt =====
-- What `flush` does to the record layer, on every branch.
use tlsn.Common.{
  ℕ, ◌≡◌, ◌≢◌, ◌⊎◌, All, inl, inr, refl, sym, ap, List, [], ◌∷◌, ◌++◌, append-nil, Option, Bool,
  true, false, not, Bool-cases, err, if◌then◌else◌,
}
use tlsn.Msgs.Enums.Content.{ContentType}
use tlsn.Msgs.Message.{is_application_data}
use tlsn.Transcript.{Record}
use tlsn.Mpc.Ops.{MpcTlsError, DecryptOp, Vm}
use tlsn.Mpc.Layer.{State, RecordLayer}
use tlsn.Mpc.Flush.{Outcome, flush, flush_state, process, drained, before, before_application_data}
use tlsn.Mpc.Flush.Emit.{encrypt_seqs, decrypt_seqs}
use tlsn.Mpc.Flush.Records.{Processed, process-Processed}

-- The operations have left their buffers, up to those that stay.
abbrev pub emptied : Bool → RecordLayer → RecordLayer
emptied is_decrypting l = record l {
  encrypt_buffer = [];
  decrypt_buffer = (drained is_decrypting l.decrypt_buffer).1;
}

-- A flush that ran, and its outcome.
pub record Flushed (is_decrypting : Bool) (l : RecordLayer) (o : Outcome) : Type 0 where
  pub otp : Option (List ℕ)
  pub sent : List Record
  pub recv : List Record
  pub was_online : l.state ≡ State.online otp sent recv
  pub processed :
      Processed
        (emptied is_decrypting l)
        sent
        recv
        (encrypt_seqs l.encrypt_buffer)
        (decrypt_seqs (drained is_decrypting l.decrypt_buffer).0)
        o

-- Behind the lock.
unlocked_lem :
    (l : RecordLayer) (u : Bool) (P : Outcome → Type 0) (o : Outcome)
    → ((u ≡ true) → P o)
    → ((stop : MpcTlsError) × ((if not u then (err MpcTlsError.record_layer, l) else o)
          ≡ (err stop, l)))
      ⊎ P (if not u then (err MpcTlsError.record_layer, l) else o)
unlocked_lem l true P o k = inr (k refl)
unlocked_lem l false P o k = inl (MpcTlsError.record_layer, refl)

-- A flush changes nothing and fails, outside the online state or while a lock is held; or it runs.
pub flush_lem :
    (vm : Vm) (is_decrypting : Bool) (l : RecordLayer)
    → ((stop : MpcTlsError) × (flush vm is_decrypting l ≡ (err stop, l)))
      ⊎ Flushed is_decrypting l (flush vm is_decrypting l)
unfolding flush flush_state
flush_lem vm is_decrypting l = of_state l.state refl
  where
    of_state :
        (s : State)
        → l.state ≡ s
        → ((stop : MpcTlsError) × (flush_state vm is_decrypting l s ≡ (err stop, l)))
          ⊎ Flushed is_decrypting l (flush_state vm is_decrypting l s)
    of_state State.init e = inl (MpcTlsError.state, refl)
    of_state State.complete e = inl (MpcTlsError.state, refl)
    of_state State.error e = inl (MpcTlsError.state, refl)
    of_state (State.online otp sent recv) e =
        let ops = (drained is_decrypting l.decrypt_buffer).0 in
        unlocked_lem l vm.unlocked (Flushed is_decrypting l)
          (process vm is_decrypting (emptied is_decrypting l) otp sent recv l.encrypt_buffer ops)
          (λ free. record {
            otp = otp;
            sent = sent;
            recv = recv;
            was_online = e;
            processed =
                process-Processed vm is_decrypting (emptied is_decrypting l) otp sent recv
                  l.encrypt_buffer ops e;
          })

-- The operations that are decrypted and those that stay are all, in order.
before_application_data-parts :
    (ops : List DecryptOp)
    → decrypt_seqs ops
      ≡ decrypt_seqs (before_application_data ops).0 ++ decrypt_seqs (before_application_data ops).1
unfolding before_application_data before
before_application_data-parts [] = refl
before_application_data-parts (op ∷ ops) = elim (Bool-cases (is_application_data op.typ)) [
  | inl first ↦ rw first
  | inr other ↦ rw other (ap (λ t. op.seq ∷ t) (before_application_data-parts ops))
]

pub drained-parts :
    (is_decrypting : Bool) (ops : List DecryptOp)
    → decrypt_seqs ops
      ≡ decrypt_seqs (drained is_decrypting ops).0 ++ decrypt_seqs (drained is_decrypting ops).1
drained-parts true ops = sym (append-nil (decrypt_seqs ops))
drained-parts false ops = before_application_data-parts ops

-- How a list of operations is to be cut, for a flush: all are taken when decryption is on, and when it
-- is off those in front of the first application data.
pub record IsCut (is_decrypting : Bool) (ops taken left : List DecryptOp) : Type 0 where
  pub whole : ops ≡ taken ++ left
  pub all_taken : is_decrypting ≡ true → left ≡ []
  pub none_early :
      is_decrypting ≡ false → All (λ (op : DecryptOp). op.typ ≢ ContentType.application_data) taken
  pub first_left :
      is_decrypting ≡ false
      → (left ≡ [])
        ⊎ ((op : DecryptOp) × (rest : List DecryptOp) × (left ≡ op ∷ rest)
            × (op.typ ≡ ContentType.application_data))
