-- ===== src/Mpc/Joint/Steps.antt =====
-- One call of the leader's backend, and the follower that hears of it.
pub mod Records
pub mod Flushes
pub mod Fields
pub mod Joined
use tlsn.Common.{
  ℕ, ◌≡◌, refl, sym, ap, ◌∙◌, subst, List, [], ◌∷◌, Option, none, some, Result, ok, err, map,
}
use tlsn.Transcript.Connection.{PublicKey}
use tlsn.Transcript.Builder.{Ending, ended, panicked, unfinished}
use tlsn.Mpc.Ops.{MpcTlsError}
use tlsn.Mpc.Layer.{RecordLayer}
use tlsn.Mpc.Messages.{Message}
use tlsn.Mpc.Follower.{Session, Calls, handle}
use tlsn.Mpc.Leader.{Handshake, Active, LeaderState, Leader, BackendError, Reply}
use tlsn.Mpc.Leader.Records.{pushable, put_layer}
use tlsn.Mpc.Joint.{Mirrors}
use tlsn.Mpc.Joint.Heard.{Told, handle-Told}

-- The follower accepts these messages, one after the other, whatever its own calls return.
abbrev pub Heard : List Message → Session → Session → Type 0
Heard [] s s' = s' ≡ s
Heard (m ∷ ms) s s' = (c : Calls) × (t : Session) × (handle c m s ≡ ok t) × Heard ms t s'

-- Both know the same of the handshake.
pub record Known (time : Option ℕ) (client_random : List ℕ) (server_random : Option (List ℕ))
    (server_key : Option PublicKey) (s : Session) : Type 0 where
  pub same_time : s.time ≡ time
  pub same_client : s.client_random ≡ some client_random
  pub same_server : s.server_random ≡ server_random
  pub same_key : s.server_key ≡ server_key

-- The leader, in the handshake or behind it, and the follower's session.
abbrev pub Paired : LeaderState → Session → Type 0
Paired (LeaderState.handshake h) s =
    Known h.time h.client_random h.server_random h.server_key s
    × Mirrors h.record_layer s.record_layer
Paired (LeaderState.active a) s =
    Known (some a.time) a.client_random (some a.server_random) (some a.server_key) s
    × Mirrors a.record_layer s.record_layer
Paired _ s = ⊥

-- What a reply leaves, if it is good and the follower accepts what was sent.
abbrev pub Good : Session → Ending (Reply (Unit {0})) → Type 0
Good s (ended (ok u, l, msgs)) = (s' : Session) → Heard msgs s s' → Paired l.state s'
Good s (ended (err e, l, msgs)) = Unit
Good s panicked = Unit
Good s unfinished = Unit

pub Good-same :
    {r r' : Reply (Unit {0})} (s : Session) → r ≡ r' → Good s (ended r') → Good s (ended r)
Good-same s e g = subst (λ (r : Reply (Unit {0})). Good s (ended r)) (sym e) g

-- One message has been heard.
pub Heard-Told : (m : Message) (s s' : Session) → Heard (m ∷ []) s s' → (c : Calls) × Told c m s s'
Heard-Told m s s' (c, t, e, same) =
    (c, subst (λ (x : Session). Told c m s x) (sym same) (handle-Told c m s t e))

pub still : (st : LeaderState) (s s' : Session) → Paired st s → s' ≡ s → Paired st s'
still st s s' p q = subst (λ (x : Session). Paired st x) (sym q) p

-- The record layers of a pair.
pub Paired-Mirrors :
    (st : LeaderState) (s : Session) (rl : RecordLayer)
    → Paired st s
    → pushable st ≡ some rl
    → Mirrors rl s.record_layer
Paired-Mirrors (LeaderState.handshake h) s rl p e =
    subst (λ (x : RecordLayer). Mirrors x s.record_layer) (cc) p.1
Paired-Mirrors (LeaderState.active a) s rl p e =
    subst (λ (x : RecordLayer). Mirrors x s.record_layer) (cc) p.1
Paired-Mirrors (LeaderState.init old) s rl p e = absurd p
Paired-Mirrors (LeaderState.setup old random) s rl p e = absurd p
Paired-Mirrors (LeaderState.closed old t) s rl p e = absurd p
Paired-Mirrors LeaderState.error s rl p e = absurd p

Known-kept :
    (time : Option ℕ) (client_random : List ℕ) (server_random : Option (List ℕ))
    (server_key : Option PublicKey) (s : Session) (f : RecordLayer)
    → Known time client_random server_random server_key s
    → Known time client_random server_random server_key (record s { record_layer = f })
Known-kept time client_random server_random server_key s f k = record {
  same_time = k.same_time;
  same_client = k.same_client;
  same_server = k.same_server;
  same_key = k.same_key;
}

-- Both have other record layers.
pub relayered :
    (st : LeaderState) (s : Session) (rl f : RecordLayer)
    → Paired st s
    → Mirrors rl f
    → Paired (put_layer rl st) (record s { record_layer = f })
relayered (LeaderState.handshake h) s rl f p m = (Known-kept _ _ _ _ s f p.0, m)
relayered (LeaderState.active a) s rl f p m = (Known-kept _ _ _ _ s f p.0, m)
relayered (LeaderState.init old) s rl f p m = absurd p
relayered (LeaderState.setup old random) s rl f p m = absurd p
relayered (LeaderState.closed old t) s rl f p m = absurd p
relayered LeaderState.error s rl f p m = absurd p
