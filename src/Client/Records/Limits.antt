-- ===== src/Client/Records/Limits.antt =====
-- The limits on a key and on trial decryption, over any calls.
use tlsn.Common.{
  ℕ, ◌+◌, ◌-◌, ◌%◌, ◌^◌, ◌≤◌, ◌<◌, ◌≡◌, ◌≢◌, ◌⊎◌, inl, inr, refl, sym, subst, ap, List, [], ◌∷◌,
  arith, Option, none, some, Bool, true, Bool-cases, Result, ok, err, if◌then◌else◌, ltb, leb,
}
use tlsn.Client.Records.{
  DirectionState, RecordLayer, new, is_encrypting, is_prepared, fails, pulled, seq_hard_limit,
  encrypt_outgoing, pushed, decrypt_incoming, trial, doing_trial_decryption,
  prepare_message_encrypter, prepare_message_decrypter, start_encrypting, start_decrypting,
  set_message_encrypter, set_message_decrypter, set_message_decrypter_with_trial_decryption,
  finish_trial_decryption,
}

-- A call by the connection: the layer before and after it.
pub data Step (E : Type 0) : RecordLayer → RecordLayer → Type 0 where
  try_decrypt : (requested : ℕ) {l : RecordLayer} → Step E l (doing_trial_decryption requested l).1
  prepare_encrypter : {l : RecordLayer} → Step E l (prepare_message_encrypter l)
  prepare_decrypter : {l : RecordLayer} → Step E l (prepare_message_decrypter l)
  begin_encrypting :
      (debug : Bool) {l l' : RecordLayer} → start_encrypting debug l ≡ some l' → Step E l l'
  begin_decrypting :
      (debug : Bool) {l l' : RecordLayer} → start_decrypting debug l ≡ some l' → Step E l l'
  set_encrypter : {l : RecordLayer} → Step E l (set_message_encrypter l)
  set_decrypter : {l : RecordLayer} → Step E l (set_message_decrypter l)
  set_trial :
      (max_length : ℕ) {l : RecordLayer}
      → Step E l (set_message_decrypter_with_trial_decryption max_length l)
  finish_trial : {l : RecordLayer} → Step E l (finish_trial_decryption l)
  incoming :
      (debug : Bool) (answer r : Result (Unit {0}) E) {l l' : RecordLayer}
      → decrypt_incoming debug answer l ≡ some (r, l')
      → Step E l l'
  outgoing :
      (debug : Bool) (answer r : Result (Unit {0}) E) {l l' : RecordLayer}
      → encrypt_outgoing debug answer l ≡ some (r, l')
      → Step E l l'

pub data Run (E : Type 0) (l : RecordLayer) : RecordLayer → Type 0 where
  here : Run E l l
  next : {l' l'' : RecordLayer} → Run E l l' → Step E l' l'' → Run E l l''

pushed_lem :
    {E : Type 0} (answer r : Result (Unit {0}) E) (l l' : RecordLayer)
    → some (pushed answer l) ≡ some (r, l')
    → (l' ≡ l) ⊎ (l' ≡ record l { write_seq = (l.write_seq + 1) % 2 ^ 64 })
unfolding pushed
pushed_lem (ok u) r l l' e = inr (cc)
pushed_lem (err x) r l l' e = inl (cc)

-- A message that is encrypted moves the count by one at most, and only below the hard limit.
outgoing_lem :
    {E : Type 0} (debug : Bool) (answer r : Result (Unit {0}) E) (l l' : RecordLayer)
    → encrypt_outgoing debug answer l ≡ some (r, l')
    → (l.write_seq < seq_hard_limit)
      × ((l' ≡ l) ⊎ (l' ≡ record l { write_seq = (l.write_seq + 1) % 2 ^ 64 }))
unfolding encrypt_outgoing
outgoing_lem debug answer r l l' e = elim (Bool-cases (fails debug (is_encrypting l))) [
  | inl off ↦ absurd (let no : none ≡ some (r, l') = rw off at e in cc)
  | inr on ↦ elim (Bool-cases (leb seq_hard_limit l.write_seq)) [
    | inl full ↦ absurd (let no : none ≡ some (r, l') = rw (on, full) at e in cc)
    | inr free ↦
        let done : some (pushed answer l) ≡ some (r, l') = rw (on, free) at e in
        (ground arith, pushed_lem answer r l l' done)
  ]
]

start_encrypting_lem :
    (debug : Bool) (l l' : RecordLayer)
    → start_encrypting debug l ≡ some l'
    → (l' ≡ record l { encrypt_state = DirectionState.active })
      × (debug ≡ true → l.encrypt_state ≢ DirectionState.invalid)
unfolding start_encrypting
start_encrypting_lem debug l l' e = elim (Bool-cases (fails debug (is_prepared l.encrypt_state))) [
  | inl off ↦ absurd (let no : none ≡ some l' = rw off at e in cc)
  | inr on ↦
      let done : some (record l { encrypt_state = DirectionState.active }) ≡ some l' = rw on at e in
      (
        cc,
        λ d i.
            absurd
              (let bad : fails debug (is_prepared l.encrypt_state) ≡ true = rw (d, i) refl in cc),
      )
]

start_decrypting_lem :
    (debug : Bool) (l l' : RecordLayer)
    → start_decrypting debug l ≡ some l'
    → l' ≡ record l { decrypt_state = DirectionState.active }
unfolding start_decrypting
start_decrypting_lem debug l l' e = ground arith

incoming_lem :
    {E : Type 0} (debug : Bool) (answer r : Result (Unit {0}) E) (l l' : RecordLayer)
    → decrypt_incoming debug answer l ≡ some (r, l')
    → l' ≡ record l { read_seq = l'.read_seq }
unfolding decrypt_incoming pulled
incoming_lem debug (ok u) r l l' e = ground arith
incoming_lem debug (err x) r l l' e = ground arith

trial_kept :
    (requested : ℕ) (l : RecordLayer)
    → ((doing_trial_decryption requested l).1.write_seq ≡ l.write_seq)
      × ((doing_trial_decryption requested l).1.encrypt_state ≡ l.encrypt_state)
unfolding doing_trial_decryption
trial_kept requested l = ground arith

Step-limit :
    {E : Type 0} {l l' : RecordLayer}
    → Step E l l'
    → l.write_seq ≤ seq_hard_limit
    → l'.write_seq ≤ seq_hard_limit
Step-limit {l = l} (try_decrypt requested) h = omega (arith, (trial_kept requested l).0)
Step-limit prepare_encrypter h = omega arith
Step-limit prepare_decrypter h = h
Step-limit {l = l} {l' = l'} (begin_encrypting debug e) h =
    omega (arith, ap (λ (x : RecordLayer). x.write_seq) (start_encrypting_lem debug l l' e).0)
Step-limit {l = l} {l' = l'} (begin_decrypting debug e) h =
    omega (arith, ap (λ (x : RecordLayer). x.write_seq) (start_decrypting_lem debug l l' e))
Step-limit set_encrypter h = omega arith
Step-limit set_decrypter h = h
Step-limit (set_trial max_length) h = h
Step-limit finish_trial h = h
Step-limit {l = l} {l' = l'} (incoming debug answer r e) h =
    omega (arith, ap (λ (x : RecordLayer). x.write_seq) (incoming_lem debug answer r l l' e))
Step-limit {l = l} {l' = l'} (outgoing debug answer r e) h =
    let (below, moved) = outgoing_lem debug answer r l l' e in
    elim moved [
      | inl same ↦ omega (arith, ap (λ (x : RecordLayer). x.write_seq) same)
      | inr more ↦ omega (arith, ap (λ (x : RecordLayer). x.write_seq) more)
    ]

-- In every state that a new layer reaches, the number of the next message to encrypt is at most the
-- hard limit.
pub Run-limit : {E : Type 0} {l : RecordLayer} → Run E new l → l.write_seq ≤ seq_hard_limit
Run-limit here = omega arith
Run-limit (next run step) = Step-limit step (Run-limit run)

-- A step that prepares no key to encrypt with, and whose assertion on the key is on.
abbrev pub IsKeyless : {E : Type 0} {l l' : RecordLayer} → Step E l l' → Type 0
IsKeyless prepare_encrypter = ⊥
IsKeyless set_encrypter = ⊥
IsKeyless (begin_encrypting debug e) = debug ≡ true
IsKeyless _ = Unit {0}

abbrev pub AreKeyless : {E : Type 0} {l l' : RecordLayer} → Run E l l' → Type 0
AreKeyless here = Unit {0}
AreKeyless (next run step) = AreKeyless run × IsKeyless step

-- The bytes for which a sequence of requests is granted.
unfoldable pub granted : List ℕ → RecordLayer → ℕ
granted [] l = 0
granted (r ∷ rs) l =
    (if (doing_trial_decryption r l).0 then r else 0) + granted rs (doing_trial_decryption r l).1

trial_lem :
    (requested value : ℕ) (l : RecordLayer)
    → l.trial_decryption_len ≡ some value
    → (left : ℕ) × ((doing_trial_decryption requested l).1.trial_decryption_len ≡ some left)
      × ((if (doing_trial_decryption requested l).0 then requested else 0) + left ≡ value)
unfolding doing_trial_decryption
trial_lem requested value l h = subst P (sym h) of_value
  where
    P : Option ℕ → Type 0
    P o =
        (left : ℕ) × ((trial l requested o).1.trial_decryption_len ≡ some left)
        × ((if (trial l requested o).0 then requested else 0) + left ≡ value)

    of_value : P (some value)
    of_value = elim (Bool-cases (ltb value requested)) [
      | inl over ↦ (value, rw over h, rw over (omega arith))
      | inr within ↦ (value - requested, rw within, rw within (ground arith))
    ]

-- Trial decryption that was set up for a length is granted for that many bytes in all at most, however
-- it is requested.
pub granted_lem :
    (requests : List ℕ) (l : RecordLayer) (max_length : ℕ)
    → granted requests (set_message_decrypter_with_trial_decryption max_length l) ≤ max_length
unfolding granted
granted_lem requests l max_length =
    from_value requests (set_message_decrypter_with_trial_decryption max_length l) max_length refl
  where
    from_value :
        (rs : List ℕ) (l : RecordLayer) (value : ℕ)
        → l.trial_decryption_len ≡ some value
        → granted rs l ≤ value
    from_value [] l value h = omega arith
    from_value (r ∷ rs) l value h =
        let (left, kept, total) = trial_lem r value l h in
        omega (arith, total, from_value rs (doing_trial_decryption r l).1 left kept)
