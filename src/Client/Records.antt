-- ===== src/Client/Records.antt =====
-- crates/tls/client/src/record_layer.rs: the client's record layer, which counts the messages that the
-- backend encrypts and decrypts.
pub mod Limits
use tlsn.Common.{
  ℕ, ◌+◌, ◌-◌, ◌%◌, ◌^◌, Option, none, some, Bool, true, false, Result, ok, err, if◌then◌else◌, not,
  ◌&&◌, ltb, leb, ◌==◌,
}

abbrev pub seq_soft_limit : ℕ
seq_soft_limit = 0xffffffffffff0000

abbrev pub seq_hard_limit : ℕ
seq_hard_limit = 0xfffffffffffffffe

pub data DirectionState : Type 0 where
  invalid prepared active : DirectionState

pub record RecordLayer : Type 0 where
  pub write_seq : ℕ
  pub read_seq : ℕ
  pub encrypt_state : DirectionState
  pub decrypt_state : DirectionState
  pub trial_decryption_len : Option ℕ

abbrev pub new : RecordLayer
new = record {
  write_seq = 0;
  read_seq = 0;
  encrypt_state = DirectionState.invalid;
  decrypt_state = DirectionState.invalid;
  trial_decryption_len = none;
}

abbrev is_active : DirectionState → Bool
is_active DirectionState.active = true
is_active _ = false

abbrev pub is_encrypting : RecordLayer → Bool
is_encrypting l = is_active l.encrypt_state

abbrev pub is_decrypting : RecordLayer → Bool
is_decrypting l = is_active l.decrypt_state

-- `checked_sub`, on what is left of the length.
abbrev trial : RecordLayer → ℕ → Option ℕ → Bool × RecordLayer
trial l requested none = (false, l)
trial l requested (some value) =
    if ltb value requested
    then (false, l)
    else (true, record l { trial_decryption_len = some (value - requested) })

unfoldable pub doing_trial_decryption : ℕ → RecordLayer → Bool × RecordLayer
doing_trial_decryption requested l = trial l requested l.trial_decryption_len

abbrev pub prepare_message_encrypter : RecordLayer → RecordLayer
prepare_message_encrypter l = record l { write_seq = 0; encrypt_state = DirectionState.prepared }

abbrev pub prepare_message_decrypter : RecordLayer → RecordLayer
prepare_message_decrypter l = record l { read_seq = 0; decrypt_state = DirectionState.prepared }

-- `debug_assert!`: whether it panics, in a build with debug assertions or without.
abbrev fails : Bool → Bool → Bool
fails debug holds = debug && not holds

abbrev is_prepared : DirectionState → Bool
is_prepared DirectionState.prepared = true
is_prepared _ = false

abbrev encrypting : RecordLayer → RecordLayer
encrypting l = record l { encrypt_state = DirectionState.active }

abbrev decrypting : RecordLayer → RecordLayer
decrypting l = record l { decrypt_state = DirectionState.active }

-- `start_encrypting`; `none` is the panic of the debug assertion.
unfoldable pub start_encrypting : Bool → RecordLayer → Option RecordLayer
start_encrypting debug l =
    if fails debug (is_prepared l.encrypt_state) then none else some (encrypting l)

unfoldable pub start_decrypting : Bool → RecordLayer → Option RecordLayer
start_decrypting debug l =
    if fails debug (is_prepared l.decrypt_state) then none else some (decrypting l)

-- Right behind `prepare_message_encrypter` the assertion of `start_encrypting` holds, and so for
-- the decrypter.
abbrev pub set_message_encrypter : RecordLayer → RecordLayer
set_message_encrypter l = encrypting (prepare_message_encrypter l)

abbrev pub set_message_decrypter : RecordLayer → RecordLayer
set_message_decrypter l = record (decrypting (prepare_message_decrypter l)) {
  trial_decryption_len = none;
}

abbrev pub set_message_decrypter_with_trial_decryption : ℕ → RecordLayer → RecordLayer
set_message_decrypter_with_trial_decryption max_length l =
    record (decrypting (prepare_message_decrypter l)) { trial_decryption_len = some max_length }

abbrev pub finish_trial_decryption : RecordLayer → RecordLayer
finish_trial_decryption l = record l { trial_decryption_len = none }

abbrev pub wants_close_before_decrypt : RecordLayer → Bool
wants_close_before_decrypt l = l.read_seq == seq_soft_limit

abbrev pub wants_close_before_encrypt : RecordLayer → Bool
wants_close_before_encrypt l = l.write_seq == seq_soft_limit

abbrev pub encrypt_exhausted : RecordLayer → Bool
encrypt_exhausted l = leb seq_hard_limit l.write_seq

pulled : {E : Type 0} → Result (Unit {0}) E → RecordLayer → Result (Unit {0}) E × RecordLayer
pulled (ok u) l = (ok tt, record l { read_seq = (l.read_seq + 1) % 2 ^ 64 })
pulled (err e) l = (err e, l)

-- `decrypt_incoming`, for an answer of the backend's `push_incoming`. The count wraps around; `none` is
-- the panic of the debug assertion that decryption is on.
unfoldable pub decrypt_incoming :
    {E : Type 0}
    → Bool
    → Result (Unit {0}) E
    → RecordLayer
    → Option (Result (Unit {0}) E × RecordLayer)
unfolding pulled
decrypt_incoming debug answer l =
    if fails debug (is_decrypting l) then none else some (pulled answer l)

pushed : {E : Type 0} → Result (Unit {0}) E → RecordLayer → Result (Unit {0}) E × RecordLayer
pushed (ok u) l = (ok tt, record l { write_seq = (l.write_seq + 1) % 2 ^ 64 })
pushed (err e) l = (err e, l)

-- `encrypt_outgoing`, for an answer of the backend's `push_outgoing`; `none` is the panic of the debug
-- assertion that encryption is on, or of the assertion that the key is not exhausted.
unfoldable pub encrypt_outgoing :
    {E : Type 0}
    → Bool
    → Result (Unit {0}) E
    → RecordLayer
    → Option (Result (Unit {0}) E × RecordLayer)
unfolding pushed
encrypt_outgoing debug answer l =
    if fails debug (is_encrypting l)
    then none
    else if encrypt_exhausted l
    then none
    else some (pushed answer l)
