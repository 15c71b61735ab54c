-- ===== src/Mpc/Joint/Agree.antt =====
-- Sessions of both parties, from their setup, and the transcripts at their end.
use tlsn.Common.{
  ℕ, ◌≡◌, refl, sym, ap, subst, List, [], ◌∷◌, none, Bool, inl, inr, Result, Result-cases, ok, err,
}
use tlsn.Transcript.Builder.{Ending, ended}
use tlsn.Mpc.Ops.{MpcTlsError, Role, ◌>>=◌}
use tlsn.Mpc.Layer.{RecordLayer, AllocOutcome, new, alloc}
use tlsn.Mpc.Messages.{Message}
use tlsn.Mpc.Follower.{
  Sizes, FollowerState, new_follower, alloc_follower, preprocess_follower, Session, start_session,
  advanced, after,
}
use tlsn.Mpc.Leader.{LeaderState, Handshake, Leader, LeaderCalls, Reply, new_leader, in_state}
use tlsn.Mpc.Leader.Setup.{alloc_leader, preprocess_leader, alloc_state, preprocess_state}
use tlsn.Mpc.Leader.Acts.{Act, perform}
use tlsn.Mpc.Joint.{Mirrors}
use tlsn.Mpc.Joint.Sessions.{alloc-Mirrors}
use tlsn.Mpc.Joint.Heard.{bound}
use tlsn.Mpc.Joint.Steps.{Heard, Paired, Good, Heard-Told}
use tlsn.Mpc.Joint.Steps.Joined.{perform-Good}

-- A new leader and a new follower are set up, each with its own sizes, and the follower hears what the
-- leader has sent.
pub record Prepared (l : Leader) (s : Session) : Type 0 where
  pub defer : Bool
  pub sizes : Sizes
  pub calls : LeaderCalls
  pub out : AllocOutcome
  pub first : Leader
  pub allocated : alloc_leader calls out (new_leader defer sizes) ≡ (ok tt, first)
  pub later_calls : LeaderCalls
  pub msgs : List Message
  pub preprocessed : preprocess_leader later_calls first ≡ (ok tt, l, msgs)
  pub before : Result (Unit {0}) MpcTlsError
  pub follower_out : AllocOutcome
  pub follower_sizes : Sizes
  pub setup : FollowerState
  pub follower_allocated :
      alloc_follower before follower_out follower_sizes new_follower ≡ (ok tt, setup)
  pub done : Result (Unit {0}) MpcTlsError
  pub ready : FollowerState
  pub follower_preprocessed : preprocess_follower done setup ≡ (ok tt, ready)
  pub start : Session
  pub started : start_session ready ≡ ok start
  pub heard : Heard msgs start s

-- From there the client calls the leader, and the follower hears what each call has sent; every call
-- succeeds and every message is accepted.
pub data Joint : Leader → Session → Type 0 where
  begin : (l : Leader) (s : Session) → Prepared l s → Joint l s
  next :
      (c : LeaderCalls) (act : Act) (l l' : Leader) (s s' : Session) (msgs : List Message)
      → Joint l s
      → perform c act l ≡ ended (ok tt, l', msgs)
      → Heard msgs s s'
      → Joint l' s'

-- What `alloc` and `preprocess` of the leader leave.
allocated_lem :
    (c : LeaderCalls) (out : AllocOutcome) (defer : Bool) (sizes : Sizes) (l : Leader)
    → alloc_leader c out (new_leader defer sizes) ≡ (ok tt, l)
    → let o = alloc out sizes.max_sent sizes.max_recv_online sizes.max_recv (new Role.leader) in
      (o.0 ≡ ok tt) × (l.state ≡ LeaderState.setup o.1 c.client_random)
unfolding alloc_leader alloc_state
allocated_lem c out defer sizes l e =
    let o = alloc out sizes.max_sent sizes.max_recv_online sizes.max_recv (new Role.leader) in
    let l0 = new_leader defer sizes in
    let st = LeaderState.setup o.1 c.client_random in
    let given : alloc_state c out l0 (LeaderState.init (new Role.leader)) ≡ (ok tt, l) = e in
    elim (Result-cases (c.lock >>= λ u. c.before_alloc >>= λ u. o.0)) [
      | inr (stop, q) ↦
          let no : (err stop, in_state l0 LeaderState.error) ≡ (ok tt, l) =
            rw (q, alloc_state) at given in
          absurd (
            let no' : err stop ≡ ok tt =
              ap (λ (x : Result (Unit {0}) MpcTlsError × Leader). x.0) no in
            cc)
      | inl (u, q) ↦
          let yes : (ok tt, in_state l0 st) ≡ (ok tt, l) = rw (q, alloc_state) at given in
          (
            bound c.lock _ (λ u. bound c.before_alloc _ (λ u h. h)) q,
            sym (ap (λ (x : Result (Unit {0}) MpcTlsError × Leader). x.1.state) yes),
          )
    ]

abbrev fresh : RecordLayer → List ℕ → Handshake
fresh rl random = record {
  record_layer = rl;
  time = none;
  protocol_version = none;
  cipher_suite = none;
  client_random = random;
  server_random = none;
  server_cert_details = none;
  server_key = none;
  server_kx_details = none;
}

preprocessed_lem :
    (c : LeaderCalls) (l l' : Leader) (msgs : List Message) (rl : RecordLayer) (random : List ℕ)
    → preprocess_state c l (LeaderState.setup rl random) ≡ (ok tt, l', msgs)
    → (l'.state ≡ LeaderState.handshake (fresh rl random))
      × (msgs ≡ Message.set_client_random random ∷ [])
unfolding preprocess_state
preprocessed_lem c l l' msgs rl random e =
    let m = Message.set_client_random random in
    elim (Result-cases (c.lock >>= λ u. c.preprocessed >>= λ u. c.send m)) [
      | inr (stop, q) ↦
          let no : (err stop, in_state l LeaderState.error, []) ≡ (ok tt, l', msgs) =
            rw (q, preprocess_state) at e in
          absurd (
            let no' : err stop ≡ ok tt =
              ap (λ (x : Result (Unit {0}) MpcTlsError × Leader × List Message). x.0) no in
            cc)
      | inl (u, q) ↦
          let yes : (ok tt, in_state l (LeaderState.handshake (fresh rl random)), m ∷ [])
              ≡ (ok tt, l', msgs) =
            rw (q, preprocess_state) at e in
          (
            sym (ap (λ (x : Result (Unit {0}) MpcTlsError × Leader × List Message). x.1.state) yes),
            sym (ap (λ (x : Result (Unit {0}) MpcTlsError × Leader × List Message). x.2) yes),
          )
    ]

advanced_lem :
    (before r : Result (Unit {0}) MpcTlsError) (s f : FollowerState)
    → advanced (after before r) s ≡ (ok tt, f)
    → (r ≡ ok tt) × (f ≡ s)
advanced_lem (ok u) (ok v) s f e = (refl, sym (ap (λ x. x.1) e))
advanced_lem (ok u) (err x) s f e = absurd (let no : err x ≡ ok tt = ap (λ x. x.0) e in cc)
advanced_lem (err x) r s f e = absurd (let no : err x ≡ ok tt = ap (λ x. x.0) e in cc)

-- The follower's session starts with the record layer that was allocated, and knows nothing else.
record StartsWith (rl : RecordLayer) (s : Session) : Type 0 where
  layer : s.record_layer ≡ rl
  no_time : s.time ≡ none
  no_server : s.server_random ≡ none
  no_key : s.server_key ≡ none

abbrev start_of : RecordLayer → Session
start_of rl = record {
  record_layer = rl;
  time = none;
  client_random = none;
  server_random = none;
  server_key = none;
  expected_cf_vd = none;
  expected_sf_vd = none;
}

started_lem :
    (rl : RecordLayer) (s : Session)
    → start_session (FollowerState.ready rl) ≡ ok s
    → StartsWith rl s
unfolding start_session
started_lem rl s e =
    let same : start_of rl ≡ s = cc in
    subst (λ (x : Session). StartsWith rl x) same
      (record { layer = refl; no_time = refl; no_server = refl; no_key = refl })

Prepared-Paired : (l : Leader) (s : Session) → Prepared l s → Paired l.state s
unfolding preprocess_leader alloc_follower preprocess_follower
Prepared-Paired l s p =
    let a = p.sizes in
    let b = p.follower_sizes in
    let o = alloc p.out a.max_sent a.max_recv_online a.max_recv (new Role.leader) in
    let o' = alloc p.follower_out b.max_sent b.max_recv_online b.max_recv (new Role.follower) in
    let random = p.calls.client_random in
    let m = Message.set_client_random random in
    let (good, st) = allocated_lem p.calls p.out p.defer a p.first p.allocated in
    let (hs, msgs) = preprocessed_lem p.later_calls p.first l p.msgs o.1 random (
      subst (λ (x : LeaderState). preprocess_state p.later_calls p.first x ≡ (ok tt, l, p.msgs)) st
        p.preprocessed) in
    let (good', f1) =
      advanced_lem p.before o'.0 (FollowerState.setup o'.1) p.setup p.follower_allocated in
    let (fine, f2) = advanced_lem (ok tt) p.done (FollowerState.ready o'.1) p.ready (
      subst (λ (x : FollowerState). preprocess_follower p.done x ≡ (ok tt, p.ready)) f1
        p.follower_preprocessed) in
    let k =
      started_lem o'.1 p.start
        (subst (λ (x : FollowerState). start_session x ≡ ok p.start) f2 p.started) in
    let (d, effect) =
      Heard-Told m p.start s (subst (λ (x : List Message). Heard x p.start s) msgs p.heard) in
    subst (λ (x : LeaderState). Paired x s) (sym hs)
      (subst (λ (x : Session). Paired (LeaderState.handshake (fresh o.1 random)) x) (sym effect.1)
        (
          record {
            same_time = k.no_time;
            same_client = refl;
            same_server = k.no_server;
            same_key = k.no_key;
          },
          subst (λ (x : RecordLayer). Mirrors o.1 x) (sym k.layer)
              (alloc-Mirrors p.out p.follower_out Role.leader Role.follower a.max_sent
                a.max_recv_online a.max_recv b.max_sent b.max_recv_online b.max_recv good good'),
        ))

pub Joint-Paired : (l : Leader) (s : Session) → Joint l s → Paired l.state s
Joint-Paired l s (Joint.begin _ _ p) = Prepared-Paired l s p
Joint-Paired l' s' (Joint.next c act l _ s _ msgs j e heard) =
    subst (λ (r : Ending (Reply (Unit {0}))). Good s r) e
      (perform-Good c act l s (Joint-Paired l s j)) s' heard
