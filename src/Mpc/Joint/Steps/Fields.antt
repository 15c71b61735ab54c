-- ===== src/Mpc/Joint/Steps/Fields.antt =====
-- The calls of the handshake that tell the follower something.
use tlsn.Common.{
  ℕ, ◌≡◌, refl, sym, ap, ◌∙◌, subst, List, [], ◌∷◌, Option, none, some, Bool-cases, inl, inr,
  Result, Result-cases, ok, err, ok_or,
}
use tlsn.Transcript.Connection.{PublicKey}
use tlsn.Transcript.Builder.{ended}
use tlsn.Mpc.Ops.{MpcTlsError, ◌>>=◌}
use tlsn.Mpc.Messages.{Message}
use tlsn.Mpc.Follower.{Session}
use tlsn.Mpc.Leader.{
  Handshake, Active, LeaderState, Leader, BackendError, LeaderCalls, in_state, as_handshake,
  into_backend,
}
use tlsn.Mpc.Leader.Setup.{prepare_encryption, prepare_state, active_of, prepared}
use tlsn.Mpc.Leader.Fields.{
  set_server_random, server_random_sent, set_server_key_share, is_secp256r1,
}
use tlsn.Mpc.Joint.{Mirrors}
use tlsn.Mpc.Joint.Steps.{Good-same, Heard, Paired, Good, Heard-Told, still}

-- The start of the handshake and the server's random, heard one after the other.
randoms_heard :
    (c : LeaderCalls) (random : List ℕ) (h : Handshake) (s s' : Session)
    → Paired (LeaderState.handshake h) s
    → Heard (Message.start_handshake c.now ∷ Message.set_server_random random ∷ []) s s'
    → Paired
        (LeaderState.handshake (record h { time = some c.now; server_random = some random }))
        s'
randoms_heard c random h s s' p (d, t, e, heard) =
    let (d0, first) = Heard-Told (Message.start_handshake c.now) s t (d, t, e, refl) in
    let (d1, second) = Heard-Told (Message.set_server_random random) t s' heard in
    let k = p.0 in
    let h' = record h { time = some c.now; server_random = some random } in
    subst (λ (x : Session). Paired (LeaderState.handshake h') x) (sym second.1)
      (subst
        (λ (x : Session).
          Paired (LeaderState.handshake h') (record x { server_random = some random }))
        (sym first.2)
        (
          record {
            same_time = refl;
            same_client = k.same_client;
            same_server = refl;
            same_key = k.same_key;
          },
          p.1,
        ))

-- `set_server_random`, by the outcome of what it calls.
random_state-Good :
    (c : LeaderCalls) (random : List ℕ) (l : Leader) (h : Handshake) (s : Session)
    (r : Result (Unit {0}) MpcTlsError × Handshake × List Message)
    → server_random_sent c random h ≡ r
    → Good s (ended (into_backend r.0, in_state l (LeaderState.handshake r.1), r.2))
    → Good s (ended (set_server_random c random (in_state l (LeaderState.handshake h))))
unfolding set_server_random
random_state-Good c random l h s r e g =
    subst
      (λ (x : Result (Unit {0}) MpcTlsError × Handshake × List Message).
        Good s (ended (into_backend x.0, in_state l (LeaderState.handshake x.1), x.2)))
      (sym e) g

pub set_server_random-Good :
    (c : LeaderCalls) (random : List ℕ) (l : Leader) (h : Handshake) (s : Session)
    → Paired (LeaderState.handshake h) s
    → Good s (ended (set_server_random c random (in_state l (LeaderState.handshake h))))
unfolding server_random_sent
set_server_random-Good c random l h s p =
    let start = Message.start_handshake c.now in
    let set = Message.set_server_random random in
    let h1 = record h { time = some c.now } in
    let h2 = record h1 { server_random = some random } in
    elim (Result-cases (c.send start)) [
      | inr (e, q) ↦
          random_state-Good c random l h s (err e, h1, []) (rw (q, server_random_sent) refl) tt
      | inl (v, q) ↦ elim (Result-cases (c.send set)) [
        | inr (e, q') ↦
            random_state-Good c random l h s (err e, h1, start ∷ [])
              (rw (q, server_random_sent) (rw q' refl)) tt
        | inl (v', q') ↦ elim (Result-cases (as_handshake c.prf_server_random)) [
          | inr (e, q'') ↦
              random_state-Good c random l h s (err e, h1, start ∷ set ∷ [])
                (rw (q, server_random_sent) (rw q' (rw q'' refl))) tt
          | inl (v'', q'') ↦
              random_state-Good c random l h s (ok tt, h2, start ∷ set ∷ [])
                (rw (q, server_random_sent) (rw q' (rw q'' refl)))
                (λ s' heard. randoms_heard c random h s s' p heard)
        ]
      ]
    ]

pub set_server_key_share-Good :
    (c : LeaderCalls) (key : PublicKey) (l : Leader) (h : Handshake) (s : Session)
    → Paired (LeaderState.handshake h) s
    → Good s (ended (set_server_key_share c key (in_state l (LeaderState.handshake h))))
unfolding set_server_key_share
set_server_key_share-Good c key l h s p =
    let l0 = in_state l (LeaderState.handshake h) in
    let m = Message.set_server_key key in
    let h' = record h { server_key = some key } in
    elim (Bool-cases (is_secp256r1 key.group)) [
      | inr other ↦
          let lost : set_server_key_share c key l0 ≡ (err BackendError.invalid_server_key, l0, []) =
            rw (other, set_server_key_share) refl in
          Good-same s lost tt
      | inl good ↦ elim (Result-cases (c.send m)) [
        | inr (e, q) ↦
            let lost : set_server_key_share c key l0 ≡ (err BackendError.internal_error, l0, []) =
              rw (good, q, set_server_key_share) refl in
            Good-same s lost tt
        | inl (v, q) ↦
            let sent : set_server_key_share c key l0
                ≡ (ok tt, in_state l0 (LeaderState.handshake h'), m ∷ []) =
              rw (good, q, set_server_key_share) refl in
            let k = p.0 in
            Good-same s sent (λ s' heard.
              let (d, effect) = Heard-Told m s s' heard in
              subst (λ (x : Session). Paired (LeaderState.handshake h') x) (sym effect.1)
                (
                  record {
                    same_time = k.same_time;
                    same_client = k.same_client;
                    same_server = k.same_server;
                    same_key = refl;
                  },
                  p.1,
                ))
      ]
    ]

given :
    {A : Type 0} {P : Type 0} (o : Option A) (e : MpcTlsError) (f : A → Result Active MpcTlsError)
    {b : Active}
    → ((a : A) → o ≡ some a → f a ≡ ok b → P)
    → (ok_or o e >>= f) ≡ ok b
    → P
given none e f k q = absurd (cc)
given (some a) e f k q = k a refl q

-- What the handshake has gathered is what the active state has.
record Gathered (h : Handshake) (a : Active) : Type 0 where
  layer : a.record_layer ≡ h.record_layer
  time : h.time ≡ some a.time
  client_random : a.client_random ≡ h.client_random
  server_random : h.server_random ≡ some a.server_random
  server_key : h.server_key ≡ some a.server_key

same_active : (a b : Active) → ◌≡◌ {A = Result Active MpcTlsError} (ok a) (ok b) → a ≡ b
same_active a b e = cc

active_of-Gathered : (h : Handshake) (a : Active) → active_of h ≡ ok a → Gathered h a
unfolding active_of
active_of-Gathered h a e =
    given h.time MpcTlsError.handshake _
      (λ time q0. given h.protocol_version MpcTlsError.handshake _ (λ version q1.
        given h.server_random MpcTlsError.handshake _ (λ random q2.
          given h.server_cert_details MpcTlsError.handshake _ (λ cert q3.
            given h.server_key MpcTlsError.handshake _ (λ key q4.
              given h.server_kx_details MpcTlsError.handshake _ (λ kx q5 same.
                subst (λ (x : Active). Gathered h x) (same_active _ a same)
                  (record {
                    layer = refl;
                    time = q0;
                    client_random = refl;
                    server_random = q2;
                    server_key = q4;
                  })))))))
      e

pub prepare_encryption-Good :
    (c : LeaderCalls) (l : Leader) (h : Handshake) (s : Session)
    → Paired (LeaderState.handshake h) s
    → Good s (ended (prepare_encryption c (in_state l (LeaderState.handshake h))))
unfolding prepare_encryption
prepare_encryption-Good c l h s p =
    let l0 = in_state l (LeaderState.handshake h) in
    elim (Result-cases (active_of h)) [
      | inr (e, q) ↦
          let lost : prepare_state c l0 (LeaderState.handshake h)
              ≡ (err BackendError.internal_error, in_state l0 LeaderState.error, []) =
            rw (q, prepare_state) refl in
          Good-same s lost tt
      | inl (a, q) ↦ elim (Result-cases (prepared c a)) [
        | inr (e, q') ↦
            let lost : prepare_encryption c l0 ≡ (err e, in_state l0 LeaderState.error, []) =
              rw (q, prepare_state) (rw q' refl) in
            Good-same s lost tt
        | inl (v, q') ↦
            let done : prepare_state c l0 (LeaderState.handshake h)
                ≡ (ok tt, in_state l0 (LeaderState.active a), []) =
              rw (q, prepare_state) (rw q' refl) in
            let g = active_of-Gathered h a q in
            let k = p.0 in
            Good-same s done (λ s' same.
              still (LeaderState.active a) s s'
                (
                  record {
                    same_time = k.same_time ∙ g.time;
                    same_client = k.same_client ∙ ap some (sym g.client_random);
                    same_server = k.same_server ∙ g.server_random;
                    same_key = k.same_key ∙ g.server_key;
                  },
                  subst (λ x. Mirrors x s.record_layer) (sym g.layer) p.1,
                )
                same)
      ]
    ]
