-- ===== src/Mpc/Order/Sound.antt =====
-- What holds of the record layer in every state that it can reach.
use tlsn.Common.{
  ℕ, ◌+◌, ◌^◌, ◌≤◌, ◌<◌, ◌≡◌, inl, inr, refl, sym, ap, subst, ◌∙◌, List, [], ◌∷◌, ◌++◌, map,
  append_assoc, arith, Option, Bool-cases, ltb, leb, length, length-append,
}
use native.Mathlib.Nat.{mod-eq_of_lt}
use tlsn.Msgs.Enums.Content.{ContentType}
use tlsn.Msgs.Enums.Version.{ProtocolVersion}
use tlsn.Mpc.Ops.{
  Role, EncryptMode, DecryptMode, EncryptOp, DecryptOp, new_encrypt_op, is_consistent,
}
use tlsn.Mpc.Layer
use tlsn.Mpc.Layer.{
  State, RecordLayer, AllocOutcome, PlainRecord, EncryptedRecord, add64, max_buffer_size,
  push_encrypt, push_decrypt, next_encrypted, next_decrypted, start_traffic,
}
use tlsn.Mpc.Flush.Emit.{record_seqs, encrypt_seqs, decrypt_seqs, sent_of, recv_of}
use tlsn.Mpc.Order.{Ascending, Ascending-snoc, Ascending-higher}

abbrev pub sent_seqs : RecordLayer → List ℕ
sent_seqs l = record_seqs (sent_of l.state) ++ encrypt_seqs l.encrypt_buffer

abbrev pub recv_seqs : RecordLayer → List ℕ
recv_seqs l = record_seqs (recv_of l.state) ++ decrypt_seqs l.decrypt_buffer

-- In each direction the sequence numbers of the records and of the operations that wait behind them
-- ascend strictly and lie below the next one; the bytes are within their limits; and the buffers are
-- within theirs.
pub record IsSound (l : RecordLayer) : Type 0 where
  pub sent_order : Ascending 0 (sent_seqs l) l.write_seq
  pub recv_order : Ascending 0 (recv_seqs l) l.read_seq
  pub sent_fits : l.sent ≤ l.max_sent
  pub recv_fits : l.recv ≤ l.max_recv
  pub online_fits : l.recv_online ≤ l.max_recv_online
  pub encrypt_room : length l.encrypt_buffer ≤ max_buffer_size
  pub decrypt_room : length l.decrypt_buffer ≤ max_buffer_size

pub new-IsSound : (role : Role) → IsSound (Layer.new role)
new-IsSound role = record {
  sent_order = omega arith;
  recv_order = omega arith;
  sent_fits = omega arith;
  recv_fits = omega arith;
  online_fits = omega arith;
  encrypt_room = omega arith;
  decrypt_room = omega arith;
}

pub map-append {ℓ κ} :
    {A : Type ℓ} {B : Type κ} (f : A → B) (xs ys : List A) → map f (xs ++ ys) ≡ map f xs ++ map f ys
map-append f [] ys = refl
map-append f (x ∷ xs) ys = ap (λ t. f x ∷ t) (map-append f xs ys)

add64_one : (n : ℕ) → n + 1 < 2 ^ 64 → add64 n 1 ≡ n + 1
add64_one n h = mod-eq_of_lt h

-- A number at the end of a queue.
queued-Ascending :
    (records queue : List ℕ) (next : ℕ)
    → next + 1 < 2 ^ 64
    → Ascending 0 (records ++ queue) next
    → Ascending 0 (records ++ (queue ++ (next ∷ []))) (add64 next 1)
queued-Ascending records queue next h a = rw (add64_one next h) (
    subst (λ t. Ascending 0 t (next + 1)) (append_assoc records queue (next ∷ []))
      (Ascending-snoc 0 next (records ++ queue) a))

push_decrypt-IsSound_op :
    (l : RecordLayer) (op : DecryptOp) (recv : ℕ)
    → op.seq ≡ l.read_seq
    → l.read_seq + 1 < 2 ^ 64
    → recv ≤ l.max_recv
    → length l.decrypt_buffer < max_buffer_size
    → IsSound l
    → IsSound (record l {
      read_seq = add64 l.read_seq 1;
      recv = recv;
      decrypt_buffer = l.decrypt_buffer ++ (op ∷ []);
    })
push_decrypt-IsSound_op l op recv e h fits room s = record {
  sent_order = s.sent_order;
  recv_order =
      subst (λ t. Ascending 0 (record_seqs (recv_of l.state) ++ t) (add64 l.read_seq 1))
        (sym (
          map-append (λ (x : DecryptOp). x.seq) l.decrypt_buffer (op ∷ [])
          ∙ ap (λ n. decrypt_seqs l.decrypt_buffer ++ (n ∷ [])) e))
        (queued-Ascending (record_seqs (recv_of l.state)) (decrypt_seqs l.decrypt_buffer) l.read_seq
          h s.recv_order);
  sent_fits = s.sent_fits;
  recv_fits = fits;
  online_fits = s.online_fits;
  encrypt_room = s.encrypt_room;
  decrypt_room = omega (arith, length-append l.decrypt_buffer (op ∷ []));
}

pub push_decrypt-IsSound :
    (typ : ContentType) (version : ProtocolVersion) (explicit_nonce ciphertext tag : List ℕ)
    (mode : DecryptMode) (l : RecordLayer)
    → l.read_seq + 1 < 2 ^ 64
    → IsSound l
    → IsSound (push_decrypt typ version explicit_nonce ciphertext tag mode l).1
unfolding push_decrypt
push_decrypt-IsSound typ version explicit_nonce ciphertext tag mode l h s =
    elim (Bool-cases (leb max_buffer_size (length l.decrypt_buffer))) [
      | inl full ↦ rw full s
      | inr room ↦ elim (Bool-cases (ltb l.max_recv (add64 l.recv (length ciphertext)))) [
        | inl over ↦ rw (room, over) s
        | inr within ↦
            rw (room, within)
              (push_decrypt-IsSound_op l _ (add64 l.recv (length ciphertext)) refl h (ground arith)
                (ground arith) s)
      ]
    ]

push_encrypt-IsSound_op :
    (l : RecordLayer) (op : EncryptOp) (sent : ℕ)
    → op.seq ≡ l.write_seq
    → l.write_seq + 1 < 2 ^ 64
    → sent ≤ l.max_sent
    → length l.encrypt_buffer < max_buffer_size
    → IsSound l
    → IsSound (record l {
      write_seq = add64 l.write_seq 1;
      sent = sent;
      encrypt_buffer = l.encrypt_buffer ++ (op ∷ []);
    })
push_encrypt-IsSound_op l op sent e h fits room s = record {
  sent_order =
      subst (λ t. Ascending 0 (record_seqs (sent_of l.state) ++ t) (add64 l.write_seq 1))
        (sym (
          map-append (λ (x : EncryptOp). x.seq) l.encrypt_buffer (op ∷ [])
          ∙ ap (λ n. encrypt_seqs l.encrypt_buffer ++ (n ∷ [])) e))
        (queued-Ascending (record_seqs (sent_of l.state)) (encrypt_seqs l.encrypt_buffer)
          l.write_seq h s.sent_order);
  recv_order = s.recv_order;
  sent_fits = fits;
  recv_fits = s.recv_fits;
  online_fits = s.online_fits;
  encrypt_room = omega (arith, length-append l.encrypt_buffer (op ∷ []));
  decrypt_room = s.decrypt_room;
}

-- The number of an operation that is refused is lost.
push_encrypt-IsSound_lost :
    (l : RecordLayer) (sent : ℕ)
    → l.write_seq + 1 < 2 ^ 64
    → sent ≤ l.max_sent
    → IsSound l
    → IsSound (record l { write_seq = add64 l.write_seq 1; sent = sent })
push_encrypt-IsSound_lost l sent h fits s = record {
  sent_order =
      rw (add64_one l.write_seq h)
        (Ascending-higher 0 l.write_seq (l.write_seq + 1) (sent_seqs l) (omega arith) s.sent_order);
  recv_order = s.recv_order;
  sent_fits = fits;
  recv_fits = s.recv_fits;
  online_fits = s.online_fits;
  encrypt_room = s.encrypt_room;
  decrypt_room = s.decrypt_room;
}

pub push_encrypt-IsSound :
    (typ : ContentType) (version : ProtocolVersion) (len : ℕ) (plaintext : Option (List ℕ))
    (mode : EncryptMode) (l : RecordLayer)
    → l.write_seq + 1 < 2 ^ 64
    → IsSound l
    → IsSound (push_encrypt typ version len plaintext mode l).1
unfolding push_encrypt new_encrypt_op
push_encrypt-IsSound typ version len plaintext mode l h s =
    elim (Bool-cases (leb max_buffer_size (length l.encrypt_buffer))) [
      | inl full ↦ rw full s
      | inr room ↦ elim (Bool-cases (ltb l.max_sent (add64 l.sent len))) [
        | inl over ↦ rw (room, over) s
        | inr within ↦ elim (Bool-cases (is_consistent plaintext len mode)) [
          | inl good ↦
              rw (room, within, good)
                (push_encrypt-IsSound_op l _ (add64 l.sent len) refl h (ground arith) (ground arith)
                  s)
          | inr bad ↦
              rw (room, within, bad)
                (push_encrypt-IsSound_lost l (add64 l.sent len) h (ground arith) s)
        ]
      ]
    ]
