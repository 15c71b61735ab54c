-- ===== src/Mpc/Ops.antt =====
-- crates/mpc-tls/src/record_layer/encrypt.rs and decrypt.rs: the operations that wait for the virtual
-- machine, what is queued for them there, and how their results are taken out.
pub mod Lengths
use tlsn.Common.{
  ℕ, ◌-◌, List, [], ◌∷◌, Option, none, some, Bool, true, false, Result, ok, err, if◌then◌else◌, ltb,
  ◌==◌, length, take, drop, map, bit_xor,
}
use tlsn.Msgs.Enums.Content.{ContentType}
use tlsn.Msgs.Enums.Version.{ProtocolVersion}

-- The cases of `ErrorRepr` in error.rs, without what they carry.
pub data MpcTlsError : Type 0 where
  peer io state alloc preprocess handshake record_layer other : MpcTlsError

pub data Role : Type 0 where
  leader follower : Role

pub data EncryptMode : Type 0 where
  private public : EncryptMode

pub data DecryptMode : Type 0 where
  private public : DecryptMode

pub record TagData : Type 0 where
  pub explicit_nonce : List ℕ
  pub aad : List ℕ

pub record EncryptOp : Type 0 where
  pub seq : ℕ
  pub typ : ContentType
  pub version : ProtocolVersion
  pub len : ℕ
  pub plaintext : Option (List ℕ)
  pub explicit_nonce : List ℕ
  pub aad : List ℕ
  pub mode : EncryptMode

pub record DecryptOp : Type 0 where
  pub seq : ℕ
  pub typ : ContentType
  pub version : ProtocolVersion
  pub explicit_nonce : List ℕ
  pub ciphertext : List ℕ
  pub aad : List ℕ
  pub tag : List ℕ
  pub mode : DecryptMode

-- The checks of `EncryptOp::new`: a plaintext has the stated length, and public mode needs one.
abbrev pub is_consistent : Option (List ℕ) → ℕ → EncryptMode → Bool
is_consistent (some plaintext) len mode = length plaintext == len
is_consistent none len EncryptMode.private = true
is_consistent none len EncryptMode.public = false

-- `EncryptOp::new`
unfoldable pub new_encrypt_op : EncryptOp → Result EncryptOp MpcTlsError
new_encrypt_op op = if is_consistent op.plaintext op.len op.mode then ok op else err record_layer

-- What a value that the virtual machine decodes turns out to be, when it is asked for: an error, not
-- ready, or bytes.
abbrev pub Decoded : Type 0
Decoded = Result (Option (List ℕ)) MpcTlsError

-- The virtual machine and the ciphers on it, in one flush: which locks are free, and the outcome of
-- each call. An operation's calls are told apart by the operation.
pub record Vm : Type 0 where
  pub unlocked : Bool
  pub encrypt_private : EncryptOp → Result Decoded MpcTlsError
  pub encrypt_keystream : EncryptOp → Result Decoded MpcTlsError
  pub compute_tags : List TagData → Result (Unit {0}) MpcTlsError
  pub apply_keystream : DecryptOp → Result (Unit {0}) MpcTlsError
  pub decrypt_private : Option (List ℕ) → DecryptOp → Result Decoded MpcTlsError
  pub decrypt_keystream : DecryptOp → Result Decoded MpcTlsError
  pub verify_tags : List TagData → List (List ℕ) → List (List ℕ) → Result (Unit {0}) MpcTlsError
  pub run : Result (Option (List (List ℕ))) MpcTlsError
  pub decode_key : Result (Unit {0}) MpcTlsError
  pub decrypt_here : DecryptOp → Result (List ℕ) MpcTlsError
  pub execute : Result (Unit {0}) MpcTlsError

pub data EncryptOutput : Type 0 where
  private_ciphertext : Decoded → EncryptOutput
  public_keystream : Decoded → List ℕ → EncryptOutput

pub data DecryptOutput : Type 0 where
  masked_keystream : Decoded → Option (List ℕ) → List ℕ → DecryptOutput
  keystream : Decoded → List ℕ → DecryptOutput
  plaintext_here : Option (List ℕ) → DecryptOutput

infixl 5 ◌>>=◌
abbrev pub ◌>>=◌ {ℓ κ} :
    {A : Type ℓ} {B : Type κ}
    → Result A MpcTlsError
    → (A → Result B MpcTlsError)
    → Result B MpcTlsError
ok a >>= f = f a
err e >>= f = err e

-- `try_recv`, `map_err` and `ok_or_else`
abbrev pub taken : Decoded → Result (List ℕ) MpcTlsError
taken (err e) = err record_layer
taken (ok none) = err record_layer
taken (ok (some bytes)) = ok bytes

-- `iter_mut().zip(..)` with `*a ^= b`, and with `*a ^= b ^ c`
abbrev pub xor_with : List ℕ → List ℕ → List ℕ
xor_with [] bs = []
xor_with (a ∷ rest) [] = a ∷ rest
xor_with (a ∷ rest) (b ∷ bs) = bit_xor a b ∷ xor_with rest bs

abbrev pub xor_with_both : List ℕ → List ℕ → List ℕ → List ℕ
xor_with_both [] bs cs = []
xor_with_both (a ∷ rest) [] cs = a ∷ rest
xor_with_both (a ∷ rest) (b ∷ bs) [] = a ∷ rest
xor_with_both (a ∷ rest) (b ∷ bs) (c ∷ cs) = bit_xor a (bit_xor b c) ∷ xor_with_both rest bs cs

-- `EncryptOutput::try_encrypt`
unfoldable pub try_encrypt : EncryptOutput → Result (List ℕ) MpcTlsError
try_encrypt (private_ciphertext d) = taken d
try_encrypt (public_keystream d plaintext) = do
  ks ← taken d
  if length ks == length plaintext then ok (xor_with plaintext ks) else err record_layer

-- `DecryptOutput::try_decrypt`
unfoldable pub try_decrypt : DecryptOutput → Result (Option (List ℕ)) MpcTlsError
try_decrypt (masked_keystream d none ciphertext) = do masked ← taken d; ok none
try_decrypt (masked_keystream d (some otp) ciphertext) = do
  masked ← taken d
  ok (some (xor_with_both ciphertext otp masked))
try_decrypt (keystream d ciphertext) = do
  ks ← taken d
  if length ks == length ciphertext then ok (some (xor_with ciphertext ks)) else err record_layer
try_decrypt (plaintext_here p) = ok p

-- The bodies of `private` and `public` of encrypt.rs.
unfoldable pub queue_encrypt :
    Vm → EncryptMode → Option (List ℕ) → EncryptOp → Result EncryptOutput MpcTlsError
queue_encrypt vm EncryptMode.private plaintext op = do
  d ← vm.encrypt_private op
  ok (private_ciphertext d)
queue_encrypt vm EncryptMode.public none op = err record_layer
queue_encrypt vm EncryptMode.public (some plaintext) op = do
  d ← vm.encrypt_keystream op
  ok (public_keystream d plaintext)

queue_encrypts : Vm → List EncryptOp → Result (List EncryptOutput) MpcTlsError
queue_encrypts vm [] = ok []
queue_encrypts vm (op ∷ ops) =
    let rest = queue_encrypts vm ops in
    queue_encrypt vm op.mode op.plaintext op >>= λ out. rest >>= λ outs. ok (out ∷ outs)

-- `encrypt::encrypt`
unfoldable pub encrypt : Vm → List EncryptOp → Result (List EncryptOutput) MpcTlsError
unfolding queue_encrypts
encrypt vm ops = do
  outs ← queue_encrypts vm ops
  _ ←
      vm.compute_tags
        (map (λ (op : EncryptOp). record { explicit_nonce = op.explicit_nonce; aad = op.aad }) ops)
  ok outs

-- `private_mpc` with the one-time pad that is left: the leader's pad gives its last bytes away.
abbrev split_pad : Option (List ℕ) → ℕ → Option (List ℕ) × Option (List ℕ)
split_pad none n = (none, none)
split_pad (some otp) n = (some (take (length otp - n) otp), some (drop (length otp - n) otp))

is_short : Option (List ℕ) → ℕ → Bool
is_short none n = false
is_short (some otp) n = ltb (length otp) n

masked :
    Vm
    → Option (List ℕ)
    → DecryptOp
    → Option (List ℕ) × Option (List ℕ)
    → Result (Unit {0}) MpcTlsError
    → Result DecryptOutput MpcTlsError × Option (List ℕ)
masked vm otp op (left, pad) (err e) = (err e, otp)
masked vm otp op (left, pad) (ok u) =
    (vm.decrypt_private pad op >>= λ d. ok (masked_keystream d pad op.ciphertext), left)

unfoldable pub private_mpc :
    Vm → Option (List ℕ) → DecryptOp → Result DecryptOutput MpcTlsError × Option (List ℕ)
unfolding is_short masked
private_mpc vm otp op =
    if is_short otp (length op.ciphertext)
    then (err record_layer, otp)
    else masked vm otp op (split_pad otp (length op.ciphertext)) (vm.apply_keystream op)

-- `public` of decrypt.rs
unfoldable pub public_mpc : Vm → DecryptOp → Result DecryptOutput MpcTlsError
public_mpc vm op = do d ← vm.decrypt_keystream op; ok (keystream d op.ciphertext)

queue_decrypt :
    Vm
    → Option (List ℕ)
    → DecryptMode
    → DecryptOp
    → Result DecryptOutput MpcTlsError × Option (List ℕ)
queue_decrypt vm otp DecryptMode.private op = private_mpc vm otp op
queue_decrypt vm otp DecryptMode.public op = (public_mpc vm op, otp)

more_outputs :
    (Option (List ℕ) → Result (List DecryptOutput) MpcTlsError × Option (List ℕ))
    → Result DecryptOutput MpcTlsError × Option (List ℕ)
    → Result (List DecryptOutput) MpcTlsError × Option (List ℕ)
more_outputs rest (err e, otp) = (err e, otp)
more_outputs rest (ok out, otp) = (((rest otp).0 >>= λ outs. ok (out ∷ outs)), (rest otp).1)

-- `decrypt_mpc`
unfoldable pub decrypt_mpc :
    Vm
    → Option (List ℕ)
    → List DecryptOp
    → Result (List DecryptOutput) MpcTlsError × Option (List ℕ)
unfolding more_outputs queue_decrypt
decrypt_mpc vm otp [] = (ok [], otp)
decrypt_mpc vm otp (op ∷ ops) =
    more_outputs (λ left. decrypt_mpc vm left ops) (queue_decrypt vm otp op.mode op)

-- One operation of `decrypt_local`
queue_local : Role → Vm → DecryptMode → DecryptOp → Result DecryptOutput MpcTlsError
queue_local Role.leader vm DecryptMode.private op = do
  plaintext ← vm.decrypt_here op
  ok (plaintext_here (some plaintext))
queue_local Role.follower vm DecryptMode.private op = ok (plaintext_here none)
queue_local role vm DecryptMode.public op = public_mpc vm op

-- `decrypt_local`
unfoldable pub decrypt_local : Role → Vm → List DecryptOp → Result (List DecryptOutput) MpcTlsError
unfolding queue_local
decrypt_local role vm [] = ok []
decrypt_local role vm (op ∷ ops) =
    let rest = decrypt_local role vm ops in
    queue_local role vm op.mode op >>= λ out. rest >>= λ outs. ok (out ∷ outs)

-- `verify_tags`
abbrev pub verify_tags : Vm → List DecryptOp → Result (Unit {0}) MpcTlsError
verify_tags vm ops =
    vm.verify_tags
      (map (λ (op : DecryptOp). record { explicit_nonce = op.explicit_nonce; aad = op.aad }) ops)
      (map (λ (op : DecryptOp). op.ciphertext) ops) (map (λ (op : DecryptOp). op.tag) ops)
