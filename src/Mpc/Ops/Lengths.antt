-- ===== src/Mpc/Ops/Lengths.antt =====
-- Operations that are queued without an error have an output each.
use tlsn.Common.{
  ℕ, suc, map, inl, inr, ◌≡◌, refl, ap, List, [], ◌∷◌, Option, arith, Result, Result-cases, ok, err,
  length,
}
use tlsn.Mpc.Ops.{
  MpcTlsError, Role, EncryptOp, DecryptOp, Vm, EncryptOutput, DecryptOutput, encrypt,
  queue_encrypts, queue_encrypt, queue_decrypt, queue_local, decrypt_mpc, decrypt_local,
  more_outputs, ◌>>=◌,
}

-- An output, and then those of the rest.
consed {ℓ} :
    {A : Type ℓ} → Result A MpcTlsError → Result (List A) MpcTlsError → Result (List A) MpcTlsError
consed r rest = r >>= λ out. rest >>= λ outs. ok (out ∷ outs)

length-consed {ℓ} :
    {A B : Type ℓ} (r : Result A MpcTlsError) (rest : Result (List A) MpcTlsError) (op : B)
    (ops : List B) (outs : List A)
    → ((more : List A) → rest ≡ ok more → length more ≡ length ops)
    → consed r rest ≡ ok outs
    → length outs ≡ length (op ∷ ops)
unfolding consed
length-consed (err e) rest op ops outs k h = absurd (cc)
length-consed (ok out) (err e) op ops outs k h = absurd (cc)
length-consed (ok out) (ok more) op ops outs k h =
    let same : out ∷ more ≡ outs = cc in omega (arith, ap length same, k more refl)

length-queue_encrypts :
    (vm : Vm) (ops : List EncryptOp) (outs : List EncryptOutput)
    → queue_encrypts vm ops ≡ ok outs
    → length outs ≡ length ops
unfolding queue_encrypts consed
length-queue_encrypts vm [] outs h = let same : [] ≡ outs = cc in omega (arith, ap length same)
length-queue_encrypts vm (op ∷ ops) outs h =
    length-consed (queue_encrypt vm op.mode op.plaintext op) (queue_encrypts vm ops) op ops outs
      (λ more e. length-queue_encrypts vm ops more e) h

checked :
    {A : Type 0} (q : Result A MpcTlsError) (t : Result (Unit {0}) MpcTlsError) (a : A)
    → (q >>= λ b. t >>= λ u. ok b) ≡ ok a
    → q ≡ ok a
checked (err e) t a h = absurd (cc)
checked (ok b) (err e) a h = absurd (cc)
checked (ok b) (ok u) a h = h

pub length-encrypt :
    (vm : Vm) (ops : List EncryptOp) (outs : List EncryptOutput)
    → encrypt vm ops ≡ ok outs
    → length outs ≡ length ops
unfolding encrypt
length-encrypt vm ops outs h = length-queue_encrypts vm ops outs (
    checked (queue_encrypts vm ops)
      (vm.compute_tags
        (map (λ (op : EncryptOp). record { explicit_nonce = op.explicit_nonce; aad = op.aad }) ops))
      outs h)

pub length-decrypt_local :
    (role : Role) (vm : Vm) (ops : List DecryptOp) (outs : List DecryptOutput)
    → decrypt_local role vm ops ≡ ok outs
    → length outs ≡ length ops
unfolding decrypt_local consed
length-decrypt_local role vm [] outs h = let same : [] ≡ outs = cc in omega (arith, ap length same)
length-decrypt_local role vm (op ∷ ops) outs h =
    length-consed (queue_local role vm op.mode op) (decrypt_local role vm ops) op ops outs
      (λ more e. length-decrypt_local role vm ops more e) h

more_outputs_lem :
    (rest : Option (List ℕ) → Result (List DecryptOutput) MpcTlsError × Option (List ℕ))
    (q : Result DecryptOutput MpcTlsError × Option (List ℕ)) (outs : List DecryptOutput)
    → (more_outputs rest q).0 ≡ ok outs
    → (more : List DecryptOutput) × ((rest q.1).0 ≡ ok more) × (length outs ≡ suc (length more))
unfolding more_outputs
more_outputs_lem rest (err e, otp) outs h = absurd (cc)
more_outputs_lem rest (ok out, otp) outs h = elim (Result-cases (rest otp).0) [
  | inl (more, e) ↦
      let same : consed_ok out (rest otp).0 ≡ ok outs = h in
      (more, e, of_ok out more outs (rw e at same))
  | inr (stop, e) ↦
      let same : consed_ok out (rest otp).0 ≡ ok outs = h in
      absurd (of_err out stop outs (rw e at same))
]
  where
    consed_ok :
        DecryptOutput
        → Result (List DecryptOutput) MpcTlsError
        → Result (List DecryptOutput) MpcTlsError
    consed_ok out r = r >>= λ outs. ok (out ∷ outs)

    of_ok :
        (out : DecryptOutput) (more outs : List DecryptOutput)
        → consed_ok out (ok more) ≡ ok outs
        → length outs ≡ suc (length more)
    of_ok out more outs h = let same : out ∷ more ≡ outs = cc in omega (arith, ap length same)

    of_err :
        (out : DecryptOutput) (stop : MpcTlsError) (outs : List DecryptOutput)
        → consed_ok out (err stop) ≡ ok outs
        → ⊥
    of_err out stop outs h = cc

pub length-decrypt_mpc :
    (vm : Vm) (otp : Option (List ℕ)) (ops : List DecryptOp) (outs : List DecryptOutput)
    → (decrypt_mpc vm otp ops).0 ≡ ok outs
    → length outs ≡ length ops
unfolding decrypt_mpc
length-decrypt_mpc vm otp [] outs h = let same : [] ≡ outs = cc in omega (arith, ap length same)
length-decrypt_mpc vm otp (op ∷ ops) outs h =
    let q = queue_decrypt vm otp op.mode op in
    let (more, e, size) = more_outputs_lem (λ left. decrypt_mpc vm left ops) q outs h in
    omega (arith, size, length-decrypt_mpc vm q.1 ops more e)
