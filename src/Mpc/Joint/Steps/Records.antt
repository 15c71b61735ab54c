-- ===== src/Mpc/Joint/Steps/Records.antt =====
-- The calls that push, take and flush records.
use tlsn.Common.{
  ℕ, ◌≡◌, refl, sym, subst, List, [], ◌∷◌, some, Option-cases, inl, inr, Result, Result-cases, ok,
  err, length,
}
use tlsn.Msgs.Message.{OpaqueMessage, PlainMessage}
use tlsn.Transcript.Builder.{Ending, ended, panicked, unfinished}
use tlsn.Mpc.Ops.{MpcTlsError}
use tlsn.Mpc.Layer.{RecordLayer, push_encrypt, push_decrypt, next_encrypted, next_decrypted}
use tlsn.Mpc.Messages.{Message}
use tlsn.Mpc.Utils.{opaque_into_parts}
use tlsn.Mpc.Follower.{Session}
use tlsn.Mpc.Leader.{LeaderState, Leader, BackendError, LeaderCalls}
use tlsn.Mpc.Leader.Acts.{taken}
use tlsn.Mpc.Leader.Records.{
  pushable, takeable, put_layer, in_layer, pushed, push_parts, push_incoming, push_outgoing,
  next_incoming, next_outgoing, plain_message, opaque_message, decrypt_mode, encrypt_mode, told,
}
use tlsn.Mpc.Joint.{Mirrors}
use tlsn.Mpc.Joint.Layers.{push_encrypt-Mirrors, push_decrypt-Mirrors}
use tlsn.Mpc.Joint.Steps.{
  Good-same, Heard, Paired, Good, Heard-Told, still, Paired-Mirrors, relayered,
}

-- A push, whose message changes the follower's record layer to one that mirrors the leader's.
pushed-Good :
    (c : LeaderCalls) (l : Leader) (m : Message) (o : Result (Unit {0}) MpcTlsError × RecordLayer)
    (s : Session)
    → ((s' : Session) → o.0 ≡ ok tt → Heard (m ∷ []) s s' → Paired (put_layer o.1 l.state) s')
    → Good s (ended (pushed c l m o))
unfolding pushed
pushed-Good c l m (err e, rl) s k = tt
pushed-Good c l m (ok u, rl) s k = elim (Result-cases (c.send m)) [
  | inl (v, q) ↦
      let sent : pushed c l m (ok u, rl) ≡ (ok tt, in_layer l rl, m ∷ []) = rw (q, pushed) refl in
      Good-same s sent (λ s' heard. k s' refl heard)
  | inr (e, q) ↦
      let lost : pushed c l m (ok u, rl) ≡ (err BackendError.internal_error, in_layer l rl, []) =
        rw (q, pushed) refl in
      Good-same s lost tt
]

pub push_outgoing-Good :
    (c : LeaderCalls) (msg : PlainMessage) (l : Leader) (s : Session)
    → Paired l.state s
    → Good s (ended (push_outgoing c msg l))
unfolding push_outgoing
push_outgoing-Good c msg l s p = elim (Option-cases (pushable l.state)) [
  | inl q ↦ rw (q, Good) tt
  | inr (rl, q) ↦
      let mode = encrypt_mode msg.typ in
      let len = length msg.payload in
      let told_of = Message.encrypt (record {
        typ = msg.typ;
        version = msg.version;
        len = len;
        plaintext = told mode msg.payload;
        mode = mode;
      }) in
      let o = push_encrypt msg.typ msg.version len (some msg.payload) mode rl in
      let same : push_outgoing c msg l ≡ pushed c l told_of o = rw (q, push_outgoing) refl in
      Good-same s same (
        pushed-Good c l told_of o s (λ s' good heard.
          let (d, effect) = Heard-Told told_of s s' heard in
          let f =
            push_encrypt msg.typ msg.version len (told mode msg.payload) mode s.record_layer in
          subst (λ (x : Session). Paired (put_layer o.1 l.state) x) (sym effect.1)
            (relayered l.state s _ f.1 p (
              push_encrypt-Mirrors msg.typ msg.version len (some msg.payload)
                (told mode msg.payload) mode mode rl s.record_layer
                (Paired-Mirrors l.state s rl p q) good effect.0))))
]

push_parts-Good :
    (c : LeaderCalls) (msg : OpaqueMessage) (l : Leader) (rl : RecordLayer) (s : Session)
    (parts : Ending (Result (List ℕ × List ℕ × List ℕ) MpcTlsError))
    → Paired l.state s
    → Mirrors rl s.record_layer
    → Good s (push_parts c msg l rl parts)
unfolding push_parts
push_parts-Good c msg l rl s panicked p m = tt
push_parts-Good c msg l rl s unfinished p m = tt
push_parts-Good c msg l rl s (ended (err e)) p m = tt
push_parts-Good c msg l rl s (ended (ok (nonce, ciphertext, tag))) p m =
    let mode = decrypt_mode msg.typ in
    let o = push_decrypt msg.typ msg.version nonce ciphertext tag mode rl in
    let f = push_decrypt msg.typ msg.version nonce ciphertext tag mode s.record_layer in
    let told_of = Message.decrypt (record {
      typ = msg.typ;
      version = msg.version;
      explicit_nonce = nonce;
      ciphertext = ciphertext;
      tag = tag;
      mode = mode;
    }) in
    pushed-Good c l told_of o s (λ s' good heard.
      let (d, effect) = Heard-Told told_of s s' heard in
      subst (λ (x : Session). Paired (put_layer o.1 l.state) x) (sym effect.1)
        (relayered l.state s o.1 f.1 p (
          push_decrypt-Mirrors msg.typ msg.version nonce ciphertext tag mode rl s.record_layer m
            good effect.0)))

pub push_incoming-Good :
    (c : LeaderCalls) (msg : OpaqueMessage) (l : Leader) (s : Session)
    → Paired l.state s
    → Good s (push_incoming c msg l)
unfolding push_incoming
push_incoming-Good c msg l s p = elim (Option-cases (pushable l.state)) [
  | inl q ↦ rw (q, Good) tt
  | inr (rl, q) ↦
      rw (q, Good)
        (push_parts-Good c msg l rl s (opaque_into_parts msg.payload) p
          (Paired-Mirrors l.state s rl p q))
]

-- What is taken from a buffer of results.
taken-Good :
    {A : Type 0} (e : Ending A) (l : Leader) (s : Session)
    → Paired l.state s
    → Good s (taken (ok e, l))
taken-Good (ended a) l s p = λ s' same. still l.state s s' p same
taken-Good panicked l s p = tt
taken-Good unfinished l s p = tt

unread :
    (st : LeaderState) (s : Session) (rl rl' : RecordLayer)
    → Paired st s
    → takeable st ≡ some rl
    → rl' ≡ record rl {
      encrypted_buffer = rl'.encrypted_buffer;
      decrypted_buffer = rl'.decrypted_buffer;
    }
    → Paired (put_layer rl' st) s
unread st s rl rl' p q e =
    let m = Paired-Mirrors st s rl p (open_too st s p q) in
    relayered st s rl' s.record_layer p (
      subst (λ (x : RecordLayer). Mirrors x s.record_layer) (sym e)
        (record {
          write_seq = m.write_seq;
          read_seq = m.read_seq;
          encrypts = m.encrypts;
          decrypts = m.decrypts;
          sent = m.sent;
          recv = m.recv;
        }))
  where
    open_too :
        (st : LeaderState) (s : Session)
        → Paired st s
        → takeable st ≡ some rl
        → pushable st ≡ some rl
    open_too (LeaderState.handshake h) s p q = q
    open_too (LeaderState.active a) s p q = q
    open_too (LeaderState.init old) s p q = absurd p
    open_too (LeaderState.setup old random) s p q = absurd p
    open_too (LeaderState.closed old t) s p q = absurd p
    open_too LeaderState.error s p q = absurd p

pub next_incoming-Good :
    (l : Leader) (s : Session) → Paired l.state s → Good s (taken (next_incoming l))
unfolding next_incoming next_decrypted
next_incoming-Good l s p = elim (Option-cases (takeable l.state)) [
  | inl q ↦ rw (q, Good) tt
  | inr (rl, q) ↦
      let (r, rl') = next_decrypted rl in
      let same : next_incoming l ≡ (ok (plain_message r), in_layer l rl') =
        rw (q, next_incoming) refl in
      subst (λ t. Good s (taken t)) (sym same)
        (taken-Good (plain_message r) (in_layer l rl') s (unread l.state s rl rl' p q refl))
]

pub next_outgoing-Good :
    (l : Leader) (s : Session) → Paired l.state s → Good s (taken (next_outgoing l))
unfolding next_outgoing next_encrypted
next_outgoing-Good l s p = elim (Option-cases (takeable l.state)) [
  | inl q ↦ rw (q, Good) tt
  | inr (rl, q) ↦
      let (r, rl') = next_encrypted rl in
      let same : next_outgoing l ≡ (ok (opaque_message r), in_layer l rl') =
        rw (q, next_outgoing) refl in
      subst (λ t. Good s (taken t)) (sym same)
        (taken-Good (opaque_message r) (in_layer l rl') s (unread l.state s rl rl' p q refl))
]
