-- ===== src/Mpc/Follower.antt =====
-- crates/mpc-tls/src/follower.rs: the follower, which does what the leader tells it and checks the
-- transcript at the end. The key exchange, the PRF and the virtual machine are arguments: the outcome
-- of each call. The loop that runs the PRF while it wants to be flushed is one such call.
pub mod Close
pub mod Once
use tlsn.Common.{
  ℕ, ◌+◌, ◌-◌, List, [], ◌∷◌, Option, none, some, is_some, Bool, true, false, not, ltb,
  if◌then◌else◌, Result, ok, err, ok_or,
}
use tlsn.Msgs.Enums.Groups.{NamedGroup}
use tlsn.Transcript.Connection.{PublicKey}
use tlsn.Mpc.Ops.{MpcTlsError, Role, Decoded, Vm, ◌>>=◌}
use tlsn.Mpc.Layer
use tlsn.Mpc.Layer.{RecordLayer, AllocOutcome, alloc, push_encrypt, push_decrypt}
use tlsn.Mpc.Flush.{flush}
use tlsn.Mpc.Messages.{Message, Encrypt, Decrypt}

-- The sizes in the configuration that the record layer is allocated with.
pub record Sizes : Type 0 where
  pub max_sent : ℕ
  pub max_recv_online : ℕ
  pub max_recv : ℕ

pub data FollowerState : Type 0 where
  init setup ready : RecordLayer → FollowerState
  error : FollowerState

abbrev pub new_follower : FollowerState
new_follower = FollowerState.init (Layer.new Role.follower)

-- A step that may fail, from the state that `take` has left.
abbrev pub advanced :
    Result (Unit {0}) MpcTlsError → FollowerState → Result (Unit {0}) MpcTlsError × FollowerState
advanced (ok u) s = (ok tt, s)
advanced (err e) s = (err e, FollowerState.error)

abbrev pub after :
    Result (Unit {0}) MpcTlsError → Result (Unit {0}) MpcTlsError → Result (Unit {0}) MpcTlsError
after (ok u) r = r
after (err e) r = err e

-- `alloc`; `before` is the outcome of the calls in front of the record layer's.
unfoldable pub alloc_follower :
    Result (Unit {0}) MpcTlsError
    → AllocOutcome
    → Sizes
    → FollowerState
    → Result (Unit {0}) MpcTlsError × FollowerState
alloc_follower before out c (FollowerState.init l) =
    let (r, l') = alloc out c.max_sent c.max_recv_online c.max_recv l in
    advanced (after before r) (FollowerState.setup l')
alloc_follower before out c s = (err MpcTlsError.state, FollowerState.error)

-- `preprocess`
unfoldable pub preprocess_follower :
    Result (Unit {0}) MpcTlsError → FollowerState → Result (Unit {0}) MpcTlsError × FollowerState
preprocess_follower done (FollowerState.setup l) = advanced done (FollowerState.ready l)
preprocess_follower done s = (err MpcTlsError.state, FollowerState.error)

-- The variables of `run`.
pub record Session : Type 0 where
  pub record_layer : RecordLayer
  pub time : Option ℕ
  pub client_random : Option (List ℕ)
  pub server_random : Option (List ℕ)
  pub server_key : Option PublicKey
  pub expected_cf_vd : Option (List ℕ)
  pub expected_sf_vd : Option (List ℕ)

-- The start of `run`.
unfoldable pub start_session : FollowerState → Result Session MpcTlsError
start_session (FollowerState.ready l) = ok (record {
  record_layer = l;
  time = none;
  client_random = none;
  server_random = none;
  server_key = none;
  expected_cf_vd = none;
  expected_sf_vd = none;
})
start_session s = err MpcTlsError.state

-- The outcomes of what is called for one message: the clock, the PRF, the parser of keys and the key
-- exchange, the lock, and the virtual machine.
pub record Calls : Type 0 where
  pub now : ℕ
  pub prf_server_random : Result (Unit {0}) MpcTlsError
  pub parse_key : List ℕ → Result (Unit {0}) MpcTlsError
  pub set_server_key : Result (Unit {0}) MpcTlsError
  pub lock : Result (Unit {0}) MpcTlsError
  pub compute_shares : Result (Unit {0}) MpcTlsError
  pub assign : Result (Unit {0}) MpcTlsError
  pub prf_flushed : Result (Unit {0}) MpcTlsError
  pub finalize : Result (Unit {0}) MpcTlsError
  pub setup : Result (Unit {0}) MpcTlsError
  pub prf_hash : List ℕ → Result (Unit {0}) MpcTlsError
  pub finished_vd : Decoded
  pub vm : Vm

abbrev pub max_time_diff : ℕ
max_time_diff = 5

-- `abs_diff`
abbrev pub abs_diff : ℕ → ℕ → ℕ
abs_diff a b = (a - b) + (b - a)

-- A variable that is set once.
abbrev pub unset {ℓ} : {A : Type ℓ} → Option A → Result (Unit {0}) MpcTlsError
unset none = ok tt
unset (some a) = err MpcTlsError.handshake

abbrev pub supported : NamedGroup → Result (Unit {0}) MpcTlsError
supported NamedGroup.secp256r1 = ok tt
supported _ = err MpcTlsError.handshake

-- `try_recv().map_err(..)?.ok_or(..)?`
abbrev pub received_vd : Decoded → Result (List ℕ) MpcTlsError
received_vd (err e) = err MpcTlsError.handshake
received_vd (ok none) = err MpcTlsError.handshake
received_vd (ok (some vd)) = ok vd

-- `map_err(MpcTlsError::record_layer)`
abbrev pub as_record_layer : Result (Unit {0}) MpcTlsError → Result (Unit {0}) MpcTlsError
as_record_layer (ok u) = ok u
as_record_layer (err e) = err MpcTlsError.record_layer

abbrev pub with_layer :
    Session → Result (Unit {0}) MpcTlsError → RecordLayer → Result Session MpcTlsError
with_layer s (ok u) l = ok (record s { record_layer = l })
with_layer s (err e) l = err e

-- One message. An error ends the run, and the state with it. `CloseConnection` leaves the loop.
unfoldable pub handle : Calls → Message → Session → Result Session MpcTlsError
handle c (Message.set_client_random random) s = do
  _ ← unset s.client_random
  ok (record s { client_random = some random })
handle c (Message.start_handshake prover_time) s = do
  _ ← unset s.time
  if ltb max_time_diff (abs_diff prover_time c.now)
      then err MpcTlsError.handshake
      else ok (record s { time = some prover_time })
handle c (Message.set_server_random random) s = do
  _ ← unset s.server_random
  _ ← c.prf_server_random
  ok (record s { server_random = some random })
handle c (Message.set_server_key key) s = do
  _ ← unset s.server_key
  _ ← supported key.group
  _ ← c.parse_key key.key
  _ ← c.set_server_key
  _ ← c.lock
  _ ← c.compute_shares
  _ ← c.assign
  _ ← c.prf_flushed
  _ ← c.finalize
  _ ← c.setup
  ok (record s { server_key = some key })
handle c (Message.client_finished_vd hash) s = do
  _ ← unset s.expected_cf_vd
  _ ← c.lock
  _ ← c.prf_hash hash
  _ ← c.prf_flushed
  vd ← received_vd c.finished_vd
  ok (record s { expected_cf_vd = some vd })
handle c (Message.server_finished_vd hash) s = do
  _ ← unset s.expected_sf_vd
  _ ← c.lock
  _ ← c.prf_hash hash
  _ ← c.prf_flushed
  vd ← received_vd c.finished_vd
  ok (record s { expected_sf_vd = some vd })
handle c (Message.encrypt e) s =
    let (r, l) = push_encrypt e.typ e.version e.len e.plaintext e.mode s.record_layer in
    with_layer s (as_record_layer r) l
handle c (Message.decrypt d) s =
    let (r, l) =
      push_decrypt d.typ d.version d.explicit_nonce d.ciphertext d.tag d.mode s.record_layer in
    with_layer s (as_record_layer r) l
handle c Message.start_traffic s =
    ok (record s { record_layer = Layer.start_traffic s.record_layer })
handle c (Message.flush is_decrypting) s =
    let (r, l) = flush c.vm is_decrypting s.record_layer in with_layer s r l
handle c Message.close_connection s = ok s

unfoldable pub is_close : Message → Bool
is_close Message.close_connection = true
is_close _ = false

-- The loop of `run`, over the messages with the outcomes of the calls for each: the session that
-- `CloseConnection` leaves, or the first error. A stream that ends is an I/O error.
unfoldable pub run_loop : List (Calls × Message) → Session → Result Session MpcTlsError
unfolding is_close
run_loop [] s = err MpcTlsError.io
run_loop ((c, msg) ∷ msgs) s =
    let rest = handle c msg s >>= run_loop msgs in if is_close msg then ok s else rest
