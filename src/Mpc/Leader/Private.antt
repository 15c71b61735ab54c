-- ===== src/Mpc/Leader/Private.antt =====
-- crates/mpc-tls/src/leader.rs: the follower learns nothing of the application data that is sent.
use tlsn.Common.{
  ℕ, ◌≡◌, refl, sym, ap, ◌∙◌, List, [], ◌∷◌, none, some, Option-cases, true, Bool-cases, inl, inr,
  Result, Result-cases, ok, err, length, leb, ltb, ◌==◌, ==_iff, if◌then◌else◌,
}
use tlsn.Msgs.Enums.Content.{ContentType}
use tlsn.Msgs.Enums.Version.{ProtocolVersion}
use tlsn.Mpc.Ops.{MpcTlsError, EncryptMode, new_encrypt_op}
use tlsn.Mpc.Layer.{RecordLayer, push_encrypt, add64, max_buffer_size}
use tlsn.Mpc.Messages.{Message}
use tlsn.Mpc.Leader.{Leader, LeaderCalls, Reply}
use tlsn.Mpc.Leader.Records.{pushable, push_outgoing, pushed}

-- Whether a plaintext of the stated length is taken depends on the length alone.
abbrev verdict : ℕ → RecordLayer → Result (Unit {0}) MpcTlsError
verdict n l =
    if leb max_buffer_size (length l.encrypt_buffer)
    then err MpcTlsError.peer
    else if ltb l.max_sent (add64 l.sent n)
    then err MpcTlsError.record_layer
    else ok tt

push_encrypt-verdict :
    (typ : ContentType) (version : ProtocolVersion) (n : ℕ) (p : List ℕ) (mode : EncryptMode)
    (l : RecordLayer)
    → length p ≡ n
    → (push_encrypt typ version n (some p) mode l).0 ≡ verdict n l
unfolding push_encrypt new_encrypt_op
push_encrypt-verdict typ version n p mode l e =
    elim (Bool-cases (leb max_buffer_size (length l.encrypt_buffer))) [
      | inl full ↦ rw full refl
      | inr room ↦ elim (Bool-cases (ltb l.max_sent (add64 l.sent n))) [
        | inl over ↦ rw (room, over) refl
        | inr within ↦
            let good : (length p == n) ≡ true = (==_iff (length p) n).1 e in
            rw (room, within, good) refl
      ]
    ]

-- The same result for the client, and the same messages for the follower.
pub record Alike (a b : Reply (Unit {0})) : Type 0 where
  pub same_result : a.0 ≡ b.0
  pub same_messages : a.2 ≡ b.2

pushed-Alike :
    (c : LeaderCalls) (l : Leader) (m n : Message)
    (o o' : Result (Unit {0}) MpcTlsError × RecordLayer)
    → m ≡ n
    → o.0 ≡ o'.0
    → Alike (pushed c l m o) (pushed c l n o')
unfolding pushed
pushed-Alike c l m n (ok u, rl) (ok v, rl') e q = elim (Result-cases (c.send m)) [
  | inl (w, sent) ↦
      let sent' : c.send n ≡ ok w = sym (ap c.send e) ∙ sent in
      rw (sent, sent', pushed) (record { same_result = refl; same_messages = ap (λ x. x ∷ []) e })
  | inr (stop, lost) ↦
      let lost' : c.send n ≡ err stop = sym (ap c.send e) ∙ lost in
      rw (lost, lost', pushed) (record { same_result = refl; same_messages = refl })
]
pushed-Alike c l m n (err x, rl) (err y, rl') e q = record {
  same_result = refl;
  same_messages = refl;
}
pushed-Alike c l m n (ok u, rl) (err y, rl') e q = absurd (cc)
pushed-Alike c l m n (err x, rl) (ok v, rl') e q = absurd (cc)

-- If application data of the same length is pushed in its place, the client sees the same result and the
-- follower the same messages.
pub push_outgoing_private :
    (c : LeaderCalls) (version : ProtocolVersion) (p q : List ℕ) (l : Leader)
    → length p ≡ length q
    → let a =
        push_outgoing c
          (record { typ = ContentType.application_data; version = version; payload = p })
          l in
      let b =
        push_outgoing c
          (record { typ = ContentType.application_data; version = version; payload = q })
          l in
      Alike a b
unfolding push_outgoing
push_outgoing_private c version p q l e = elim (Option-cases (pushable l.state)) [
  | inl closed ↦ rw (closed, push_outgoing) (record { same_result = refl; same_messages = refl })
  | inr (rl, found) ↦
      rw (found, push_outgoing)
        (pushed-Alike c l _ _ _ _
          (ap
            (λ n. Message.encrypt (record {
              typ = ContentType.application_data;
              version = version;
              len = n;
              plaintext = none;
              mode = EncryptMode.private;
            }))
            e)
          (push_encrypt-verdict ContentType.application_data version (length p) p
              EncryptMode.private rl refl
            ∙ ap (λ n. verdict n rl) e
            ∙ sym (
                push_encrypt-verdict ContentType.application_data version (length q) q
                  EncryptMode.private rl refl)))
]
