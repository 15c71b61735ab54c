-- ===== src/Mpc/Joint/Heard.antt =====
-- What a message that the follower accepts does.
use tlsn.Common.{
  ℕ, ◌≡◌, ◌≤◌, refl, List, Option, none, some, Bool-cases, inl, inr, arith, Result, ok, err, ltb,
  if◌then◌else◌,
}
use tlsn.Mpc.Ops.{MpcTlsError, ◌>>=◌}
use tlsn.Mpc.Layer
use tlsn.Mpc.Layer.{RecordLayer, push_encrypt, push_decrypt}
use tlsn.Mpc.Flush.{flush}
use tlsn.Mpc.Messages.{Message}
use tlsn.Mpc.Follower.{
  Session, Calls, handle, abs_diff, max_time_diff, unset, supported, received_vd, with_layer,
  as_record_layer,
}

abbrev pub Changed : Session → Result (Unit {0}) MpcTlsError × RecordLayer → Session → Type 0
Changed s (r, l) s' = (r ≡ ok tt) × (s' ≡ record s { record_layer = l })

-- The session behind each message. What may be set once was not set.
abbrev pub Told : Calls → Message → Session → Session → Type 0
Told c (Message.set_client_random random) s s' =
    (s.client_random ≡ none) × (s' ≡ record s { client_random = some random })
Told c (Message.set_server_random random) s s' =
    (s.server_random ≡ none) × (s' ≡ record s { server_random = some random })
Told c (Message.start_handshake time) s s' =
    (s.time ≡ none) × (abs_diff time c.now ≤ max_time_diff) × (s' ≡ record s { time = some time })
Told c (Message.set_server_key key) s s' =
    (s.server_key ≡ none) × (s' ≡ record s { server_key = some key })
Told c (Message.client_finished_vd hash) s s' =
    (s.expected_cf_vd ≡ none) × (vd : List ℕ) × (s' ≡ record s { expected_cf_vd = some vd })
Told c (Message.server_finished_vd hash) s s' =
    (s.expected_sf_vd ≡ none) × (vd : List ℕ) × (s' ≡ record s { expected_sf_vd = some vd })
Told c (Message.encrypt e) s s' =
    Changed s (push_encrypt e.typ e.version e.len e.plaintext e.mode s.record_layer) s'
Told c (Message.decrypt d) s s' =
    Changed s
      (push_decrypt d.typ d.version d.explicit_nonce d.ciphertext d.tag d.mode s.record_layer) s'
Told c Message.start_traffic s s' =
    s' ≡ record s { record_layer = Layer.start_traffic s.record_layer }
Told c (Message.flush is_decrypting) s s' = Changed s (flush c.vm is_decrypting s.record_layer) s'
Told c Message.close_connection s s' = s' ≡ s

-- A chain that returns has taken every step.
pub bound :
    {A B : Type 0} {P : Type 0} (r : Result A MpcTlsError) (f : A → Result B MpcTlsError) {b : B}
    → ((a : A) → f a ≡ ok b → P)
    → (r >>= f) ≡ ok b
    → P
bound (ok a) f k e = k a e
bound (err x) f k e = absurd (cc)

-- The first step of a chain makes sure that a variable is not set.
set_once :
    {A : Type 0} {P : Type 0} (v : Option A) (f : Unit {0} → Result Session MpcTlsError)
    {s : Session}
    → (v ≡ none → f tt ≡ ok s → P)
    → (unset v >>= f) ≡ ok s
    → P
set_once none f k e = k refl e
set_once (some a) f k e = absurd (cc)

with_layer-Changed :
    (s s' : Session) (r : Result (Unit {0}) MpcTlsError) (l : RecordLayer)
    → with_layer s r l ≡ ok s'
    → Changed s (r, l) s'
with_layer-Changed s s' (ok u) l e = (refl, cc)
with_layer-Changed s s' (err x) l e = absurd (cc)

as_record_layer-Changed :
    (s s' : Session) (r : Result (Unit {0}) MpcTlsError) (l : RecordLayer)
    → with_layer s (as_record_layer r) l ≡ ok s'
    → Changed s (r, l) s'
as_record_layer-Changed s s' (ok u) l e = (refl, cc)
as_record_layer-Changed s s' (err x) l e = absurd (cc)

near_time :
    (c : Calls) (s s' : Session) (time : ℕ)
    → (if ltb max_time_diff (abs_diff time c.now)
        then err MpcTlsError.handshake
        else ok (record s { time = some time }))
      ≡ ok s'
    → (abs_diff time c.now ≤ max_time_diff) × (s' ≡ record s { time = some time })
near_time c s s' time h = elim (Bool-cases (ltb max_time_diff (abs_diff time c.now))) [
  | inl far ↦ absurd (let no : err MpcTlsError.handshake ≡ ok s' = rw far at h in cc)
  | inr near ↦
      let same : ok (record s { time = some time }) ≡ ok s' = rw near at h in (ground arith, cc)
]

pub handle-Told : (c : Calls) (m : Message) (s s' : Session) → handle c m s ≡ ok s' → Told c m s s'
unfolding handle
handle-Told c (Message.set_client_random random) s s' e =
    set_once s.client_random _ (λ q h. (q, cc)) e
handle-Told c (Message.set_server_random random) s s' e =
    set_once s.server_random _ (λ q h. bound c.prf_server_random _ (λ u h. (q, cc)) h) e
handle-Told c (Message.start_handshake time) s s' e =
    set_once s.time _ (λ q h. let (near, same) = near_time c s s' time h in (q, near, same)) e
handle-Told c (Message.set_server_key key) s s' e =
    set_once s.server_key _
      (λ q h.
        bound (supported key.group) _
          (λ u. bound (c.parse_key key.key) _ (λ u. bound c.set_server_key _ (λ u.
            bound c.lock _ (λ u. bound c.compute_shares _ (λ u. bound c.assign _ (λ u.
              bound c.prf_flushed _
                (λ u. bound c.finalize _ (λ u. bound c.setup _ (λ u h. (q, cc))))))))))
          h)
      e
handle-Told c (Message.client_finished_vd hash) s s' e =
    set_once s.expected_cf_vd _
      (λ q h.
        bound c.lock _
          (λ u. bound (c.prf_hash hash) _ (λ u.
            bound c.prf_flushed _ (λ u. bound (received_vd c.finished_vd) _ (λ vd h. (q, vd, cc)))))
          h)
      e
handle-Told c (Message.server_finished_vd hash) s s' e =
    set_once s.expected_sf_vd _
      (λ q h.
        bound c.lock _
          (λ u. bound (c.prf_hash hash) _ (λ u.
            bound c.prf_flushed _ (λ u. bound (received_vd c.finished_vd) _ (λ vd h. (q, vd, cc)))))
          h)
      e
handle-Told c (Message.encrypt m) s s' e = as_record_layer-Changed s s' _ _ e
handle-Told c (Message.decrypt m) s s' e = as_record_layer-Changed s s' _ _ e
handle-Told c Message.start_traffic s s' e = cc
handle-Told c (Message.flush is_decrypting) s s' e = with_layer-Changed s s' _ _ e
handle-Told c Message.close_connection s s' e = cc
