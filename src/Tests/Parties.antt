-- ===== src/Tests/Parties.antt =====
-- crates/mpc-tls: a whole session of a leader and a follower.
use tlsn.Common.{
  ℕ, ◌≡◌, refl, List, [], ◌∷◌, Option, none, some, true, false, Result-cases, Option-cases, ok, err,
  map, subst, inl, inr,
}
use tlsn.Transcript.Connection.{SignatureAlgorithm}
use tlsn.Transcript.Builder.{Ending, ended, panicked, unfinished}
use tlsn.Mpc.Ops.{Vm, EncryptOp, DecryptOp}
use tlsn.Mpc.Layer.{AllocOutcome}
use tlsn.Mpc.Messages.{Message}
use tlsn.Mpc.Follower.{
  Sizes, Session, Calls, FollowerState, handle, new_follower, alloc_follower, preprocess_follower,
}
use tlsn.Mpc.Leader.{Leader, LeaderCalls, Reply, new_leader}
use tlsn.Mpc.Leader.Setup.{alloc_leader, preprocess_leader}
use tlsn.Mpc.Leader.Acts.{Act, perform}
use tlsn.Mpc.Joint.Steps.{Heard}
use tlsn.Mpc.Joint.Agree.{Joint}

abbrev zeros : List ℕ → List ℕ
zeros bytes = map (λ x. 0) bytes

abbrev zeros_of : Option (List ℕ) → List ℕ
zeros_of none = []
zeros_of (some bytes) = zeros bytes

-- A machine whose keystream is zero, and whose private ciphertexts are a byte.
abbrev pub plain_vm : Vm
plain_vm = record {
  unlocked = true;
  encrypt_private = λ op. ok (ok (some (7 ∷ [])));
  encrypt_keystream = λ (op : EncryptOp). ok (ok (some (zeros_of op.plaintext)));
  compute_tags = λ tags. ok tt;
  apply_keystream = λ op. ok tt;
  decrypt_private = λ pad (op : DecryptOp). ok (ok (some (zeros op.ciphertext)));
  decrypt_keystream = λ (op : DecryptOp). ok (ok (some (zeros op.ciphertext)));
  verify_tags = λ tags want have. ok tt;
  run = ok none;
  decode_key = ok tt;
  decrypt_here = λ (op : DecryptOp). ok op.ciphertext;
  execute = ok tt;
}

abbrev pub vd : List ℕ
vd = 1 ∷ 2 ∷ 3 ∷ []

abbrev pub leader_calls : LeaderCalls
leader_calls = record {
  now = 1000;
  send = λ m. ok tt;
  lock = ok tt;
  before_alloc = ok tt;
  client_random = 4 ∷ [];
  preprocessed = ok tt;
  prf_server_random = ok tt;
  prf_hash = λ hash. ok tt;
  prf_flushed = ok tt;
  finished_vd = ok (some vd);
  parse_key = λ key. ok tt;
  set_server_key = true;
  compute_shares = ok tt;
  assign = ok tt;
  finalize = ok tt;
  setup = ok tt;
  vm = plain_vm;
  determine_alg = λ cert bytes kx. some SignatureAlgorithm.ed25519;
}

abbrev pub follower_calls : Calls
follower_calls = record {
  now = 1003;
  prf_server_random = ok tt;
  parse_key = λ key. ok tt;
  set_server_key = ok tt;
  lock = ok tt;
  compute_shares = ok tt;
  assign = ok tt;
  prf_flushed = ok tt;
  finalize = ok tt;
  setup = ok tt;
  prf_hash = λ hash. ok tt;
  finished_vd = ok (some vd);
  vm = plain_vm;
}

abbrev pub sizes : Sizes
sizes = record { max_sent = 64; max_recv_online = 64; max_recv = 64 }

abbrev pub out : AllocOutcome
out = record { allocated = ok tt; random = 0 ∷ 0 ∷ []; ghash_key = ok tt }

-- The follower hears messages, one after the other.
unfoldable pub hear : List Message → Session → Option Session
hear [] s = some s
hear (m ∷ ms) s = elim (handle follower_calls m s) [ err e ↦ none | ok t ↦ hear ms t ]

hear-Heard : (ms : List Message) (s s' : Session) → hear ms s ≡ some s' → Heard ms s s'
unfolding hear
hear-Heard [] s s' e = cc
hear-Heard (m ∷ ms) s s' e = elim (Result-cases (handle follower_calls m s)) [
  | inl (t, q) ↦ (follower_calls, t, q, hear-Heard ms t s' (rw (q, hear) at e))
  | inr (stop, q) ↦ absurd (let no : none ≡ some s' = rw (q, hear) at e in cc)
]

-- The leader makes calls, and the follower hears of each.
answered :
    (Leader → Session → Option (Leader × Session))
    → Ending (Reply (Unit {0}))
    → Session
    → Option (Leader × Session)
unfolding hear
answered rest (ended (ok u, l, ms)) s = elim (hear ms s) [ none ↦ none | some t ↦ rest l t ]
answered rest (ended (err e, l, ms)) s = none
answered rest panicked s = none
answered rest unfinished s = none

unfoldable pub play : List Act → Leader → Session → Option (Leader × Session)
unfolding answered
play [] l s = some (l, s)
play (act ∷ acts) l s = answered (play acts) (perform leader_calls act l) s

answered-some :
    (rest : Leader → Session → Option (Leader × Session)) (r : Ending (Reply (Unit {0})))
    (s : Session) (end : Leader × Session)
    → answered rest r s ≡ some end
    → (l : Leader) × (t : Session) × (ms : List Message) × (r ≡ ended (ok tt, l, ms))
      × Heard ms s t
      × (rest l t ≡ some end)
unfolding answered
answered-some rest (ended (ok u, l, ms)) s end e = elim (Option-cases (hear ms s)) [
  | inl q ↦ absurd (let no : none ≡ some end = rw (q, answered) at e in cc)
  | inr (t, q) ↦ (l, t, ms, refl, hear-Heard ms s t q, rw (q, answered) at e)
]
answered-some rest (ended (err x, l, ms)) s end e = absurd (cc)
answered-some rest panicked s end e = absurd (cc)
answered-some rest unfinished s end e = absurd (cc)

pub play-Joint :
    (acts : List Act) (l l' : Leader) (s s' : Session)
    → Joint l s
    → play acts l s ≡ some (l', s')
    → Joint l' s'
unfolding play
play-Joint [] l l' s s' j e =
    let same : ◌≡◌ {A = Leader × Session} (l, s) (l', s') = cc in
    subst (λ (x : Leader × Session). Joint x.0 x.1) same j
play-Joint (act ∷ acts) l l' s s' j e =
    let (m, t, ms, q, heard, rest) =
      answered-some (play acts) (perform leader_calls act l) s (l', s') e in
    play-Joint acts m l' t s' (Joint.next leader_calls act l m s t ms j q heard) rest

abbrev pub allocated : Leader
allocated = (alloc_leader leader_calls out (new_leader false sizes)).1

abbrev pub prepared : Leader
prepared = (preprocess_leader leader_calls allocated).1

abbrev pub follower_setup : FollowerState
follower_setup = (alloc_follower (ok tt) out sizes new_follower).1

abbrev pub follower_ready : FollowerState
follower_ready = (preprocess_follower (ok tt) follower_setup).1
