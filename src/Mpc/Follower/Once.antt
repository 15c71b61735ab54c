-- ===== src/Mpc/Follower/Once.antt =====
-- crates/mpc-tls/src/follower.rs: what the leader may tell the follower only once.
use tlsn.Common.{
  ℕ, ◌≡◌, ◌≢◌, ◌≤◌, refl, sym, All, ap, ◌∙◌, List, [], ◌∷◌, ◌++◌, append-nil, append_assoc, Option,
  none, some, true, false, Bool-cases, inl, inr, Result-cases, ok, err, if◌then◌else◌,
}
use tlsn.Transcript.Connection.{PublicKey}
use tlsn.Mpc.Messages.{Message}
use tlsn.Mpc.Follower.{Session, Calls, handle, run_loop, is_close, abs_diff, max_time_diff}
use tlsn.Mpc.Joint.Heard.{Told, handle-Told}

abbrev to_list : {A : Type 0} → Option A → List A
to_list none = []
to_list (some a) = a ∷ []

abbrev pub told_time : Message → List ℕ
told_time (Message.start_handshake time) = time ∷ []
told_time _ = []

abbrev pub told_client : Message → List (List ℕ)
told_client (Message.set_client_random random) = random ∷ []
told_client _ = []

abbrev pub told_server : Message → List (List ℕ)
told_server (Message.set_server_random random) = random ∷ []
told_server _ = []

abbrev pub told_key : Message → List PublicKey
told_key (Message.set_server_key key) = key ∷ []
told_key _ = []

-- What is told before the connection is closed.
unfoldable pub told_before : {A : Type 0} → (Message → List A) → List (Calls × Message) → List A
unfolding is_close
told_before pick [] = []
told_before pick ((c, m) ∷ ms) =
    let rest = pick m ++ told_before pick ms in if is_close m then [] else rest

abbrev pub Near : Calls → Message → Type 0
Near c (Message.start_handshake time) = abs_diff time c.now ≤ max_time_diff
Near c m = Unit

-- Each time that is told before the connection is closed is near the follower's clock.
unfoldable pub NearClock : List (Calls × Message) → Type 0
unfolding is_close
NearClock [] = Unit
NearClock ((c, m) ∷ ms) = elim (is_close m) [ true ↦ Unit | false ↦ Near c m × NearClock ms ]

unchanged :
    {A : Type 0} (get : Session → Option A) (s s' : Session)
    → get s' ≡ get s
    → to_list (get s') ≡ to_list (get s) ++ []
unchanged get s s' e = ap to_list e ∙ sym (append-nil (to_list (get s)))

newly_set :
    {A : Type 0} (get : Session → Option A) (s s' : Session) (a : A)
    → get s ≡ none
    → get s' ≡ some a
    → to_list (get s') ≡ to_list (get s) ++ (a ∷ [])
newly_set get s s' a e q = ap to_list q ∙ ap (λ x. to_list x ++ (a ∷ [])) (sym e)

Told-time :
    (c : Calls) (m : Message) (s s' : Session)
    → Told c m s s'
    → to_list s'.time ≡ to_list s.time ++ told_time m
Told-time c (Message.set_client_random random) s s' t =
    unchanged (λ (x : Session). x.time) s s' (ap (λ (x : Session). x.time) t.1)
Told-time c (Message.set_server_random random) s s' t =
    unchanged (λ (x : Session). x.time) s s' (ap (λ (x : Session). x.time) t.1)
Told-time c (Message.start_handshake time) s s' t =
    newly_set (λ (x : Session). x.time) s s' time t.0 (ap (λ (x : Session). x.time) t.2)
Told-time c (Message.set_server_key key) s s' t =
    unchanged (λ (x : Session). x.time) s s' (ap (λ (x : Session). x.time) t.1)
Told-time c (Message.client_finished_vd hash) s s' t =
    unchanged (λ (x : Session). x.time) s s' (ap (λ (x : Session). x.time) t.2)
Told-time c (Message.server_finished_vd hash) s s' t =
    unchanged (λ (x : Session). x.time) s s' (ap (λ (x : Session). x.time) t.2)
Told-time c (Message.encrypt e) s s' t =
    unchanged (λ (x : Session). x.time) s s' (ap (λ (x : Session). x.time) t.1)
Told-time c (Message.decrypt d) s s' t =
    unchanged (λ (x : Session). x.time) s s' (ap (λ (x : Session). x.time) t.1)
Told-time c Message.start_traffic s s' t =
    unchanged (λ (x : Session). x.time) s s' (ap (λ (x : Session). x.time) t)
Told-time c (Message.flush b) s s' t =
    unchanged (λ (x : Session). x.time) s s' (ap (λ (x : Session). x.time) t.1)
Told-time c Message.close_connection s s' t =
    unchanged (λ (x : Session). x.time) s s' (ap (λ (x : Session). x.time) t)

Told-client :
    (c : Calls) (m : Message) (s s' : Session)
    → Told c m s s'
    → to_list s'.client_random ≡ to_list s.client_random ++ told_client m
Told-client c (Message.set_client_random random) s s' t =
    newly_set (λ (x : Session). x.client_random) s s' random t.0
      (ap (λ (x : Session). x.client_random) t.1)
Told-client c (Message.set_server_random random) s s' t =
    unchanged (λ (x : Session). x.client_random) s s' (ap (λ (x : Session). x.client_random) t.1)
Told-client c (Message.start_handshake time) s s' t =
    unchanged (λ (x : Session). x.client_random) s s' (ap (λ (x : Session). x.client_random) t.2)
Told-client c (Message.set_server_key key) s s' t =
    unchanged (λ (x : Session). x.client_random) s s' (ap (λ (x : Session). x.client_random) t.1)
Told-client c (Message.client_finished_vd hash) s s' t =
    unchanged (λ (x : Session). x.client_random) s s' (ap (λ (x : Session). x.client_random) t.2)
Told-client c (Message.server_finished_vd hash) s s' t =
    unchanged (λ (x : Session). x.client_random) s s' (ap (λ (x : Session). x.client_random) t.2)
Told-client c (Message.encrypt e) s s' t =
    unchanged (λ (x : Session). x.client_random) s s' (ap (λ (x : Session). x.client_random) t.1)
Told-client c (Message.decrypt d) s s' t =
    unchanged (λ (x : Session). x.client_random) s s' (ap (λ (x : Session). x.client_random) t.1)
Told-client c Message.start_traffic s s' t =
    unchanged (λ (x : Session). x.client_random) s s' (ap (λ (x : Session). x.client_random) t)
Told-client c (Message.flush b) s s' t =
    unchanged (λ (x : Session). x.client_random) s s' (ap (λ (x : Session). x.client_random) t.1)
Told-client c Message.close_connection s s' t =
    unchanged (λ (x : Session). x.client_random) s s' (ap (λ (x : Session). x.client_random) t)

Told-server :
    (c : Calls) (m : Message) (s s' : Session)
    → Told c m s s'
    → to_list s'.server_random ≡ to_list s.server_random ++ told_server m
Told-server c (Message.set_client_random random) s s' t =
    unchanged (λ (x : Session). x.server_random) s s' (ap (λ (x : Session). x.server_random) t.1)
Told-server c (Message.set_server_random random) s s' t =
    newly_set (λ (x : Session). x.server_random) s s' random t.0
      (ap (λ (x : Session). x.server_random) t.1)
Told-server c (Message.start_handshake time) s s' t =
    unchanged (λ (x : Session). x.server_random) s s' (ap (λ (x : Session). x.server_random) t.2)
Told-server c (Message.set_server_key key) s s' t =
    unchanged (λ (x : Session). x.server_random) s s' (ap (λ (x : Session). x.server_random) t.1)
Told-server c (Message.client_finished_vd hash) s s' t =
    unchanged (λ (x : Session). x.server_random) s s' (ap (λ (x : Session). x.server_random) t.2)
Told-server c (Message.server_finished_vd hash) s s' t =
    unchanged (λ (x : Session). x.server_random) s s' (ap (λ (x : Session). x.server_random) t.2)
Told-server c (Message.encrypt e) s s' t =
    unchanged (λ (x : Session). x.server_random) s s' (ap (λ (x : Session). x.server_random) t.1)
Told-server c (Message.decrypt d) s s' t =
    unchanged (λ (x : Session). x.server_random) s s' (ap (λ (x : Session). x.server_random) t.1)
Told-server c Message.start_traffic s s' t =
    unchanged (λ (x : Session). x.server_random) s s' (ap (λ (x : Session). x.server_random) t)
Told-server c (Message.flush b) s s' t =
    unchanged (λ (x : Session). x.server_random) s s' (ap (λ (x : Session). x.server_random) t.1)
Told-server c Message.close_connection s s' t =
    unchanged (λ (x : Session). x.server_random) s s' (ap (λ (x : Session). x.server_random) t)

Told-key :
    (c : Calls) (m : Message) (s s' : Session)
    → Told c m s s'
    → to_list s'.server_key ≡ to_list s.server_key ++ told_key m
Told-key c (Message.set_client_random random) s s' t =
    unchanged (λ (x : Session). x.server_key) s s' (ap (λ (x : Session). x.server_key) t.1)
Told-key c (Message.set_server_random random) s s' t =
    unchanged (λ (x : Session). x.server_key) s s' (ap (λ (x : Session). x.server_key) t.1)
Told-key c (Message.start_handshake time) s s' t =
    unchanged (λ (x : Session). x.server_key) s s' (ap (λ (x : Session). x.server_key) t.2)
Told-key c (Message.set_server_key key) s s' t =
    newly_set (λ (x : Session). x.server_key) s s' key t.0 (ap (λ (x : Session). x.server_key) t.1)
Told-key c (Message.client_finished_vd hash) s s' t =
    unchanged (λ (x : Session). x.server_key) s s' (ap (λ (x : Session). x.server_key) t.2)
Told-key c (Message.server_finished_vd hash) s s' t =
    unchanged (λ (x : Session). x.server_key) s s' (ap (λ (x : Session). x.server_key) t.2)
Told-key c (Message.encrypt e) s s' t =
    unchanged (λ (x : Session). x.server_key) s s' (ap (λ (x : Session). x.server_key) t.1)
Told-key c (Message.decrypt d) s s' t =
    unchanged (λ (x : Session). x.server_key) s s' (ap (λ (x : Session). x.server_key) t.1)
Told-key c Message.start_traffic s s' t =
    unchanged (λ (x : Session). x.server_key) s s' (ap (λ (x : Session). x.server_key) t)
Told-key c (Message.flush b) s s' t =
    unchanged (λ (x : Session). x.server_key) s s' (ap (λ (x : Session). x.server_key) t.1)
Told-key c Message.close_connection s s' t =
    unchanged (λ (x : Session). x.server_key) s s' (ap (λ (x : Session). x.server_key) t)

-- The variables of a session, as lists, are those of before with what is told.
pub record ToldOnce (msgs : List (Calls × Message)) (s s' : Session) : Type 0 where
  pub time : to_list s'.time ≡ to_list s.time ++ told_before told_time msgs
  pub client : to_list s'.client_random ≡ to_list s.client_random ++ told_before told_client msgs
  pub server : to_list s'.server_random ≡ to_list s.server_random ++ told_before told_server msgs
  pub key : to_list s'.server_key ≡ to_list s.server_key ++ told_before told_key msgs
  pub near : NearClock msgs
  pub closed :
      (front back : List (Calls × Message)) × (c : Calls) × (msgs
        ≡ front ++ ((c, Message.close_connection) ∷ back))
      × All (λ (x : Calls × Message). x.1 ≢ Message.close_connection) front

Told-Near : (c : Calls) (m : Message) (s s' : Session) → Told c m s s' → Near c m
Told-Near c (Message.set_client_random random) s s' t = tt
Told-Near c (Message.set_server_random random) s s' t = tt
Told-Near c (Message.start_handshake time) s s' t = t.1
Told-Near c (Message.set_server_key key) s s' t = tt
Told-Near c (Message.client_finished_vd hash) s s' t = tt
Told-Near c (Message.server_finished_vd hash) s s' t = tt
Told-Near c (Message.encrypt e) s s' t = tt
Told-Near c (Message.decrypt d) s s' t = tt
Told-Near c Message.start_traffic s s' t = tt
Told-Near c (Message.flush b) s s' t = tt
Told-Near c Message.close_connection s s' t = tt

is_close_lem : (m : Message) → is_close m ≡ true → m ≡ Message.close_connection
unfolding is_close
is_close_lem Message.close_connection e = refl
is_close_lem m e = absurd (cc)

not_close : (m : Message) → is_close m ≡ false → m ≢ Message.close_connection
unfolding is_close
not_close m e q = absurd (let no : is_close m ≡ true = ap is_close q in cc)

joined : {A : Type 0} (x y z : List A) (a b : List A) → z ≡ y ++ b → y ≡ x ++ a → z ≡ x ++ (a ++ b)
joined x y z a b e q = e ∙ ap (λ t. t ++ b) q ∙ append_assoc x a b

-- If the loop returns, the leader has sent a message that closes the connection, and before the first
-- such message it has told the follower the time, each random and the key at most once: those that the session has, behind what it had.
-- Each time that was told is within five seconds of the follower's clock.
pub run_loop-ToldOnce :
    (msgs : List (Calls × Message)) (s s' : Session) → run_loop msgs s ≡ ok s' → ToldOnce msgs s s'
unfolding run_loop told_before NearClock
run_loop-ToldOnce [] s s' e = absurd (cc)
run_loop-ToldOnce ((c, m) ∷ ms) s s' e = elim (Bool-cases (is_close m)) [
  | inl closing ↦
      let same : ok s ≡ ok s' = rw closing at e in
      let back : s' ≡ s = cc in
      record {
        time =
            rw (closing, told_before)
              (unchanged (λ (x : Session). x.time) s s' (ap (λ (x : Session). x.time) back));
        client =
            rw (closing, told_before)
              (unchanged (λ (x : Session). x.client_random) s s'
                (ap (λ (x : Session). x.client_random) back));
        server =
            rw (closing, told_before)
              (unchanged (λ (x : Session). x.server_random) s s'
                (ap (λ (x : Session). x.server_random) back));
        key =
            rw (closing, told_before)
              (unchanged (λ (x : Session). x.server_key) s s'
                (ap (λ (x : Session). x.server_key) back));
        near = rw (closing, NearClock) tt;
        closed = ([], ms, c, ap (λ x. (c, x) ∷ ms) (is_close_lem m closing), tt);
      }
  | inr more ↦ elim (Result-cases (handle c m s)) [
    | inr (stop, q) ↦ absurd (let no : err stop ≡ ok s' = rw more at (rw q at e) in cc)
    | inl (t, q) ↦
        let told = handle-Told c m s t q in
        let rest = run_loop-ToldOnce ms t s' (rw more at (rw q at e)) in
        record {
          time = rw (more, told_before) (joined _ _ _ _ _ rest.time (Told-time c m s t told));
          client = rw (more, told_before) (joined _ _ _ _ _ rest.client (Told-client c m s t told));
          server = rw (more, told_before) (joined _ _ _ _ _ rest.server (Told-server c m s t told));
          key = rw (more, told_before) (joined _ _ _ _ _ rest.key (Told-key c m s t told));
          near = rw (more, NearClock) (Told-Near c m s t told, rest.near);
          closed =
              let (front, back, c', parts, others) = rest.closed in
              ((c, m) ∷ front, back, c', ap (λ x. (c, m) ∷ x) parts, (not_close m more, others));
        }
  ]
]
