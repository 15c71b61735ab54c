-- ===== src/Mpc/Flush/Emit.antt =====
-- The loops of `flush` over the outputs: which records they push.
use tlsn.Common.{
  ℕ, ◌≡◌, ◌⊎◌, inl, inr, refl, ap, List, [], ◌∷◌, ◌++◌, arith, Option, some, Result-cases, length,
  map,
}
use tlsn.Transcript.{Record}
use tlsn.Mpc.Ops.{
  MpcTlsError, EncryptOp, DecryptOp, EncryptOutput, DecryptOutput, try_encrypt, try_decrypt,
}
use tlsn.Mpc.Layer.{State}
use tlsn.Mpc.Flush.{emit_encrypt, emit_encrypts, emit_decrypt, emit_decrypts, next_tag}

abbrev pub record_seqs : List Record → List ℕ
record_seqs rs = map (λ (r : Record). r.seq) rs

abbrev pub encrypt_seqs : List EncryptOp → List ℕ
encrypt_seqs ops = map (λ (op : EncryptOp). op.seq) ops

abbrev pub decrypt_seqs : List DecryptOp → List ℕ
decrypt_seqs ops = map (λ (op : DecryptOp). op.seq) ops

abbrev pub sent_of : State → List Record
sent_of (State.online otp sent recv) = sent
sent_of s = []

abbrev pub recv_of : State → List Record
recv_of (State.online otp sent recv) = recv
recv_of s = []

-- `seqs` and a rest are `all`; the rest is empty unless there was an error.
pub record Front (e : Option MpcTlsError) (all seqs : List ℕ) : Type 0 where
  pub rest : List ℕ
  pub parts : all ≡ seqs ++ rest
  pub complete : ((stop : MpcTlsError) × (e ≡ some stop)) ⊎ (rest ≡ [])

pub emit_encrypts-Front :
    (tags : Option (List (List ℕ))) (ops : List EncryptOp) (outs : List EncryptOutput)
    → length outs ≡ length ops
    → Front
        (emit_encrypts tags ops outs).0
        (encrypt_seqs ops)
        (record_seqs (emit_encrypts tags ops outs).2)
unfolding emit_encrypts emit_encrypt
emit_encrypts-Front tags [] outs h = record { rest = []; parts = refl; complete = inr refl }
emit_encrypts-Front tags (op ∷ ops) [] h = absurd (omega arith)
emit_encrypts-Front tags (op ∷ ops) (out ∷ outs) h =
    let f = emit_encrypts-Front (next_tag tags).1 ops outs (omega arith) in
    elim (Result-cases (try_encrypt out)) [
      | inl (c, e) ↦
          rw e
            (record { rest = f.rest; parts = ap (λ t. op.seq ∷ t) f.parts; complete = f.complete })
      | inr (stop, e) ↦
          rw e
            (record { rest = encrypt_seqs (op ∷ ops); parts = refl; complete = inl (stop, refl) })
    ]

pub emit_decrypts-Front :
    (ops : List DecryptOp) (outs : List DecryptOutput)
    → length outs ≡ length ops
    → Front (emit_decrypts ops outs).0 (decrypt_seqs ops) (record_seqs (emit_decrypts ops outs).2)
unfolding emit_decrypts emit_decrypt
emit_decrypts-Front [] outs h = record { rest = []; parts = refl; complete = inr refl }
emit_decrypts-Front (op ∷ ops) [] h = absurd (omega arith)
emit_decrypts-Front (op ∷ ops) (out ∷ outs) h =
    let f = emit_decrypts-Front ops outs (omega arith) in
    elim (Result-cases (try_decrypt out)) [
      | inl (c, e) ↦
          rw e
            (record { rest = f.rest; parts = ap (λ t. op.seq ∷ t) f.parts; complete = f.complete })
      | inr (stop, e) ↦
          rw e
            (record { rest = decrypt_seqs (op ∷ ops); parts = refl; complete = inl (stop, refl) })
    ]
