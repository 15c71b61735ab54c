-- ===== src/Mpc/Joint/Steps/Joined.antt =====
-- Every call keeps the parties paired.
use tlsn.Common.{
  ℕ, ◌≡◌, ◌⊎◌, refl, sym, subst, List, [], ◌∷◌, some, ◌==◌, Bool-cases, inl, inr, Result,
  Result-cases, ok, err, length,
}
use tlsn.Transcript.Builder.{ended}
use tlsn.Mpc.Ops.{MpcTlsError, ◌>>=◌}
use tlsn.Mpc.Messages.{Message}
use tlsn.Mpc.Follower.{Session, received_vd}
use tlsn.Mpc.Leader.{Handshake, Active, LeaderState, Leader, BackendError, LeaderCalls, in_state}
use tlsn.Mpc.Leader.Acts.{Act, perform, plainly}
use tlsn.Mpc.Leader.Fields.{
  get_server_finished_vd, get_client_finished_vd, set_server_random, set_server_key_share,
  set_protocol_version, set_cipher_suite, set_server_cert_details, set_server_kx_details,
  finished_state,
}
use tlsn.Mpc.Leader.Setup.{prepare_encryption}
use tlsn.Mpc.Joint.Steps.{Heard, Paired, Good, Heard-Told, still}
use tlsn.Mpc.Joint.Steps.Records.{
  push_incoming-Good, push_outgoing-Good, next_incoming-Good, next_outgoing-Good,
}
use tlsn.Mpc.Joint.Steps.Flushes.{start_traffic-Good, flush-Good}
use tlsn.Mpc.Joint.Steps.Fields.{
  set_server_random-Good, set_server_key_share-Good, prepare_encryption-Good,
}

in_handshake :
    (c : LeaderCalls) (act : Act) (l : Leader) (h : Handshake) (s : Session)
    → Paired (LeaderState.handshake h) s
    → Good s (perform c act (in_state l (LeaderState.handshake h)))
unfolding perform set_protocol_version set_cipher_suite set_server_cert_details
    set_server_kx_details get_server_finished_vd get_client_finished_vd
in_handshake c (Act.set_protocol_version v) l h s p =
    λ s' same. still (LeaderState.handshake h) s s' p same
in_handshake c (Act.set_cipher_suite suite) l h s p =
    λ s' same. still (LeaderState.handshake h) s s' p same
in_handshake c (Act.set_server_cert_details details) l h s p =
    λ s' same. still (LeaderState.handshake h) s s' p same
in_handshake c (Act.set_server_kx_details details) l h s p =
    λ s' same. still (LeaderState.handshake h) s s' p same
in_handshake c (Act.set_server_random random) l h s p = set_server_random-Good c random l h s p
in_handshake c (Act.get_server_finished_vd hash) l h s p = tt
in_handshake c (Act.get_client_finished_vd hash) l h s p = tt
in_handshake c (Act.set_server_key_share key) l h s p = set_server_key_share-Good c key l h s p
in_handshake c (Act.push_incoming msg) l h s p =
    push_incoming-Good c msg (in_state l (LeaderState.handshake h)) s p
in_handshake c (Act.push_outgoing msg) l h s p =
    push_outgoing-Good c msg (in_state l (LeaderState.handshake h)) s p
in_handshake c (Act.enable_decryption enable) l h s p =
    λ s' same. still (LeaderState.handshake h) s s' p same
in_handshake c Act.prepare_encryption l h s p = prepare_encryption-Good c l h s p
in_handshake c Act.next_incoming l h s p =
    next_incoming-Good (in_state l (LeaderState.handshake h)) s p
in_handshake c Act.next_outgoing l h s p =
    next_outgoing-Good (in_state l (LeaderState.handshake h)) s p
in_handshake c Act.start_traffic l h s p =
    start_traffic-Good c (in_state l (LeaderState.handshake h)) s p
in_handshake c Act.flush l h s p = flush-Good c (in_state l (LeaderState.handshake h)) s p

-- A reply that stands for an error, or for verify data which is kept.
finished_cases :
    (c : LeaderCalls) (message : List ℕ → Message) (store : List ℕ → Active → Active)
    (hash : List ℕ) (l : Leader) (a : Active)
    → let r = finished_state c message store hash l (LeaderState.active a) in
      ((e : BackendError) × (ms : List Message) × (r ≡ (err e, l, ms)))
      ⊎ ((vd : List ℕ) × (r
            ≡ (ok vd, in_state l (LeaderState.active (store vd a)), message hash ∷ [])))
unfolding finished_state
finished_cases c message store hash l a = elim (Bool-cases (length hash == 32)) [
  | inr odd ↦ inl (BackendError.internal_error, [], rw odd refl)
  | inl whole ↦ elim (Result-cases (c.send (message hash))) [
    | inr (e, q) ↦ inl (BackendError.internal_error, [], rw whole (rw q refl))
    | inl (v, q) ↦
        let chain : Result (List ℕ) MpcTlsError = c.lock >>= λ u.
        c.prf_hash hash >>= λ u. c.prf_flushed >>= λ u. received_vd c.finished_vd in
        elim (Result-cases chain) [
          | inr (e, q') ↦
              inl (BackendError.internal_error, message hash ∷ [], rw whole (rw q (rw q' refl)))
          | inl (vd, q') ↦ inr (vd, rw whole (rw q (rw q' refl)))
        ]
  ]
]

-- The verify data is no part of what both know.
vd_Good :
    (c : LeaderCalls) (message : List ℕ → Message) (store : List ℕ → Active → Active)
    (hash : List ℕ) (l : Leader) (a : Active) (s : Session)
    → ((vd : List ℕ) (s' : Session)
        → Heard (message hash ∷ []) s s'
        → Paired (LeaderState.active (store vd a)) s')
    → Good s (ended (plainly (finished_state c message store hash l (LeaderState.active a))))
vd_Good c message store hash l a s k = elim (finished_cases c message store hash l a) [
  | inl (e, ms, q) ↦ subst (λ t. Good s (ended (plainly t))) (sym q) tt
  | inr (vd, q) ↦ subst (λ t. Good s (ended (plainly t))) (sym q) (λ s' heard. k vd s' heard)
]

in_active :
    (c : LeaderCalls) (act : Act) (l : Leader) (a : Active) (s : Session)
    → Paired (LeaderState.active a) s
    → Good s (perform c act (in_state l (LeaderState.active a)))
unfolding perform set_protocol_version set_cipher_suite set_server_cert_details
    set_server_kx_details get_server_finished_vd get_client_finished_vd set_server_random
    set_server_key_share prepare_encryption
in_active c (Act.set_protocol_version v) l a s p = tt
in_active c (Act.set_cipher_suite suite) l a s p = tt
in_active c (Act.set_server_cert_details details) l a s p = tt
in_active c (Act.set_server_kx_details details) l a s p = tt
in_active c (Act.set_server_random random) l a s p = tt
in_active c (Act.get_server_finished_vd hash) l a s p =
    vd_Good c Message.server_finished_vd (λ vd (x : Active). record x { sf_vd = some vd }) hash
      (in_state l (LeaderState.active a)) a s
      (λ vd s' heard.
        let (d, effect) = Heard-Told (Message.server_finished_vd hash) s s' heard in
        subst (λ (x : Session). Paired (LeaderState.active (record a { sf_vd = some vd })) x)
          (sym effect.2)
          (
            record {
              same_time = p.0.same_time;
              same_client = p.0.same_client;
              same_server = p.0.same_server;
              same_key = p.0.same_key;
            },
            p.1,
          ))
in_active c (Act.get_client_finished_vd hash) l a s p =
    vd_Good c Message.client_finished_vd (λ vd (x : Active). record x { cf_vd = some vd }) hash
      (in_state l (LeaderState.active a)) a s
      (λ vd s' heard.
        let (d, effect) = Heard-Told (Message.client_finished_vd hash) s s' heard in
        subst (λ (x : Session). Paired (LeaderState.active (record a { cf_vd = some vd })) x)
          (sym effect.2)
          (
            record {
              same_time = p.0.same_time;
              same_client = p.0.same_client;
              same_server = p.0.same_server;
              same_key = p.0.same_key;
            },
            p.1,
          ))
in_active c (Act.set_server_key_share key) l a s p = tt
in_active c (Act.push_incoming msg) l a s p =
    push_incoming-Good c msg (in_state l (LeaderState.active a)) s p
in_active c (Act.push_outgoing msg) l a s p =
    push_outgoing-Good c msg (in_state l (LeaderState.active a)) s p
in_active c (Act.enable_decryption enable) l a s p =
    λ s' same. still (LeaderState.active a) s s' p same
in_active c Act.prepare_encryption l a s p = tt
in_active c Act.next_incoming l a s p = next_incoming-Good (in_state l (LeaderState.active a)) s p
in_active c Act.next_outgoing l a s p = next_outgoing-Good (in_state l (LeaderState.active a)) s p
in_active c Act.start_traffic l a s p = start_traffic-Good c (in_state l (LeaderState.active a)) s p
in_active c Act.flush l a s p = flush-Good c (in_state l (LeaderState.active a)) s p

pub perform-Good :
    (c : LeaderCalls) (act : Act) (l : Leader) (s : Session)
    → Paired l.state s
    → Good s (perform c act l)
perform-Good c act l s = of_state l.state
  where
    of_state : (st : LeaderState) → Paired st s → Good s (perform c act (in_state l st))
    of_state (LeaderState.active a) p = in_active c act l a s p
    of_state (LeaderState.handshake h) p = in_handshake c act l h s p
    of_state (LeaderState.init old) p = absurd p
    of_state (LeaderState.setup old random) p = absurd p
    of_state (LeaderState.closed old t) p = absurd p
    of_state LeaderState.error p = absurd p
