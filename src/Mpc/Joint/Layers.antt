-- ===== src/Mpc/Joint/Layers.antt =====
-- The same operation of both parties' record layers.
use tlsn.Common.{
  ℕ, ◌≡◌, refl, sym, ap, ap₂, ◌∙◌, List, [], ◌∷◌, ◌++◌, Option, Bool-cases, inl, inr, ok, err,
  length, map, ltb, leb, be64,
}
use tlsn.Msgs.Enums.Content.{ContentType}
use tlsn.Msgs.Enums.Version.{ProtocolVersion}
use tlsn.Transcript.{Record, record_type}
use tlsn.Mpc.Ops.{MpcTlsError, EncryptMode, DecryptMode, DecryptOp, new_encrypt_op, is_consistent}
use tlsn.Mpc.Layer.{RecordLayer, add64, max_buffer_size, push_encrypt, push_decrypt, make_tls12_aad}
use tlsn.Mpc.Flush.Emit.{sent_of, recv_of}
use tlsn.Mpc.Flush.Marks.{sent_mark, recv_mark, encrypt_mark}
use tlsn.Mpc.Joint.{Mirrors}
use mathlib.Core.List.{map-append}

abbrev write_mark : ContentType → ℕ → Record
write_mark typ seq = record {
  seq = seq;
  typ = record_type typ;
  plaintext = Option.none;
  explicit_nonce = be64 seq;
  ciphertext = [];
  tag = Option.none;
}

-- A push that succeeds moves the number on and adds one operation.
record EncryptPushed (typ : ContentType) (l l' : RecordLayer) : Type 0 where
  number : l'.write_seq ≡ add64 l.write_seq 1
  read_seq : l'.read_seq ≡ l.read_seq
  encrypts :
      map encrypt_mark l'.encrypt_buffer
      ≡ map encrypt_mark l.encrypt_buffer ++ (write_mark typ l.write_seq ∷ [])
  decrypts : l'.decrypt_buffer ≡ l.decrypt_buffer
  state : l'.state ≡ l.state

push_encrypt-EncryptPushed :
    (typ : ContentType) (version : ProtocolVersion) (len : ℕ) (plaintext : Option (List ℕ))
    (mode : EncryptMode) (l : RecordLayer)
    → (push_encrypt typ version len plaintext mode l).0 ≡ ok tt
    → EncryptPushed typ l (push_encrypt typ version len plaintext mode l).1
unfolding push_encrypt new_encrypt_op
push_encrypt-EncryptPushed typ version len plaintext mode l h =
    elim (Bool-cases (leb max_buffer_size (length l.encrypt_buffer))) [
      | inl full ↦ absurd (let no : err MpcTlsError.peer ≡ ok tt = rw full at h in cc)
      | inr room ↦ elim (Bool-cases (ltb l.max_sent (add64 l.sent len))) [
        | inl over ↦
            absurd (let no : err MpcTlsError.record_layer ≡ ok tt = rw (room, over) at h in cc)
        | inr within ↦ elim (Bool-cases (is_consistent plaintext len mode)) [
          | inr bad ↦
              absurd
                (let no : err MpcTlsError.record_layer ≡ ok tt = rw (room, within, bad) at h in cc)
          | inl good ↦
              rw (room, within, good)
                (record {
                  number = refl;
                  read_seq = refl;
                  encrypts = map-append encrypt_mark l.encrypt_buffer _;
                  decrypts = refl;
                  state = refl;
                })
        ]
      ]
    ]

pub push_encrypt-Mirrors :
    (typ : ContentType) (version : ProtocolVersion) (len : ℕ) (p q : Option (List ℕ))
    (m n : EncryptMode) (l f : RecordLayer)
    → Mirrors l f
    → (push_encrypt typ version len p m l).0 ≡ ok tt
    → (push_encrypt typ version len q n f).0 ≡ ok tt
    → Mirrors (push_encrypt typ version len p m l).1 (push_encrypt typ version len q n f).1
push_encrypt-Mirrors typ version len p q m n l f mirrors h k =
    let a = push_encrypt-EncryptPushed typ version len p m l h in
    let b = push_encrypt-EncryptPushed typ version len q n f k in
    record {
      write_seq = a.number ∙ ap (λ x. add64 x 1) mirrors.write_seq ∙ sym b.number;
      read_seq = a.read_seq ∙ mirrors.read_seq ∙ sym b.read_seq;
      encrypts =
          a.encrypts
          ∙ ap₂ (λ x y. x ++ (write_mark typ y ∷ [])) mirrors.encrypts mirrors.write_seq
          ∙ sym b.encrypts;
      decrypts = a.decrypts ∙ mirrors.decrypts ∙ sym b.decrypts;
      sent =
          ap (λ x. map sent_mark (sent_of x)) a.state
          ∙ mirrors.sent
          ∙ ap (λ x. map sent_mark (sent_of x)) (sym b.state);
      recv =
          ap (λ x. map recv_mark (recv_of x)) a.state
          ∙ mirrors.recv
          ∙ ap (λ x. map recv_mark (recv_of x)) (sym b.state);
    }

module _ (typ : ContentType) (version : ProtocolVersion) (nonce ciphertext tag : List ℕ)
    (mode : DecryptMode) where
  decrypt_op : ℕ → DecryptOp
  decrypt_op seq = record {
    seq = seq;
    typ = typ;
    version = version;
    explicit_nonce = nonce;
    ciphertext = ciphertext;
    aad = make_tls12_aad seq typ version (length ciphertext);
    tag = tag;
    mode = mode;
  }

  record DecryptPushed (l l' : RecordLayer) : Type 0 where
    number : l'.read_seq ≡ add64 l.read_seq 1
    write_seq : l'.write_seq ≡ l.write_seq
    decrypts : l'.decrypt_buffer ≡ l.decrypt_buffer ++ (decrypt_op l.read_seq ∷ [])
    encrypts : l'.encrypt_buffer ≡ l.encrypt_buffer
    state : l'.state ≡ l.state

  push_decrypt-DecryptPushed :
      (l : RecordLayer)
      → (push_decrypt typ version nonce ciphertext tag mode l).0 ≡ ok tt
      → DecryptPushed l (push_decrypt typ version nonce ciphertext tag mode l).1
  unfolding push_decrypt decrypt_op
  push_decrypt-DecryptPushed l h =
      elim (Bool-cases (leb max_buffer_size (length l.decrypt_buffer))) [
        | inl full ↦ absurd (let no : err MpcTlsError.peer ≡ ok tt = rw full at h in cc)
        | inr room ↦ elim (Bool-cases (ltb l.max_recv (add64 l.recv (length ciphertext)))) [
          | inl over ↦
              absurd (let no : err MpcTlsError.record_layer ≡ ok tt = rw (room, over) at h in cc)
          | inr within ↦
              rw (room, within)
                (record {
                  number = refl;
                  write_seq = refl;
                  decrypts = refl;
                  encrypts = refl;
                  state = refl;
                })
        ]
      ]

  pub push_decrypt-Mirrors :
      (l f : RecordLayer)
      → Mirrors l f
      → (push_decrypt typ version nonce ciphertext tag mode l).0 ≡ ok tt
      → (push_decrypt typ version nonce ciphertext tag mode f).0 ≡ ok tt
      → Mirrors
          (push_decrypt typ version nonce ciphertext tag mode l).1
          (push_decrypt typ version nonce ciphertext tag mode f).1
  push_decrypt-Mirrors l f mirrors h k =
      let a = push_decrypt-DecryptPushed l h in
      let b = push_decrypt-DecryptPushed f k in
      record {
        write_seq = a.write_seq ∙ mirrors.write_seq ∙ sym b.write_seq;
        read_seq = a.number ∙ ap (λ x. add64 x 1) mirrors.read_seq ∙ sym b.number;
        encrypts =
            ap (map encrypt_mark) a.encrypts
            ∙ mirrors.encrypts
            ∙ ap (map encrypt_mark) (sym b.encrypts);
        decrypts =
            a.decrypts
            ∙ ap₂ (λ x y. x ++ (decrypt_op y ∷ [])) mirrors.decrypts mirrors.read_seq
            ∙ sym b.decrypts;
        sent =
            ap (λ x. map sent_mark (sent_of x)) a.state
            ∙ mirrors.sent
            ∙ ap (λ x. map sent_mark (sent_of x)) (sym b.state);
        recv =
            ap (λ x. map recv_mark (recv_of x)) a.state
            ∙ mirrors.recv
            ∙ ap (λ x. map recv_mark (recv_of x)) (sym b.state);
      }
