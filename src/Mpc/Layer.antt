-- ===== src/Mpc/Layer.antt =====
-- crates/mpc-tls/src/record_layer.rs: the record layer, from its setup to the transcript. The keys and
-- the ciphers live in the virtual machine, which is the argument `Vm`; setting them up changes nothing
-- of the state here.
use tlsn.Common.{
  ℕ, ◌+◌, ◌*◌, ◌/◌, ◌%◌, ◌^◌, List, [], ◌∷◌, ◌++◌, Option, none, some, Bool, true, false, not, ◌&&◌,
  ◌||◌, Result, ok, err, if◌then◌else◌, ltb, leb, length, be16, be64,
}
use tlsn.Msgs.Enums.Content.{ContentType, content_type_get}
use tlsn.Msgs.Enums.Version.{ProtocolVersion, protocol_version_get}
use tlsn.Msgs.Message.{is_application_data}
use tlsn.Transcript.{Record}
use tlsn.Mpc.Ops.{MpcTlsError, Role, EncryptMode, DecryptMode, EncryptOp, DecryptOp, new_encrypt_op}

abbrev pub max_record_size : ℕ
max_record_size = 1026 * 16

abbrev pub max_buffer_size : ℕ
max_buffer_size = 16 * 2 ^ 20 / max_record_size

pub record PlainRecord : Type 0 where
  pub typ : ContentType
  pub version : ProtocolVersion
  pub plaintext : Option (List ℕ)

pub record EncryptedRecord : Type 0 where
  pub typ : ContentType
  pub version : ProtocolVersion
  pub explicit_nonce : List ℕ
  pub ciphertext : List ℕ
  pub tag : Option (List ℕ)

pub data State : Type 0 where
  init complete error : State
  online : Option (List ℕ) → List Record → List Record → State

pub record RecordLayer : Type 0 where
  pub role : Role
  pub write_seq : ℕ
  pub read_seq : ℕ
  pub state : State
  pub started : Bool
  pub sent : ℕ
  pub recv_online : ℕ
  pub recv : ℕ
  pub max_sent : ℕ
  pub max_recv_online : ℕ
  pub max_recv : ℕ
  pub encrypt_buffer : List EncryptOp
  pub decrypt_buffer : List DecryptOp
  pub encrypted_buffer : List EncryptedRecord
  pub decrypted_buffer : List PlainRecord

-- Addition of `u64` and of `usize`, which wraps around.
abbrev pub add64 : ℕ → ℕ → ℕ
add64 a b = (a + b) % 2 ^ 64

abbrev pub new : Role → RecordLayer
new role = record {
  role = role;
  write_seq = 0;
  read_seq = 0;
  state = State.init;
  started = false;
  sent = 0;
  recv_online = 0;
  recv = 0;
  max_sent = 0;
  max_recv_online = 0;
  max_recv = 0;
  encrypt_buffer = [];
  decrypt_buffer = [];
  encrypted_buffer = [];
  decrypted_buffer = [];
}

-- The outcomes of the calls in `alloc`: of those before the state is set, and of the last one.
pub record AllocOutcome : Type 0 where
  pub allocated : Result (Unit {0}) MpcTlsError
  pub random : List ℕ
  pub ghash_key : Result (Unit {0}) MpcTlsError

abbrev otp_of : Role → List ℕ → Option (List ℕ)
otp_of Role.leader bytes = some bytes
otp_of Role.follower bytes = none

-- `self.state.take()` leaves `Error` behind, for every error that follows.
unfoldable pub allocated :
    AllocOutcome
    → ℕ
    → ℕ
    → ℕ
    → RecordLayer
    → State
    → Result (Unit {0}) MpcTlsError
    → Result (Unit {0}) MpcTlsError × RecordLayer
allocated out sent_len recv_len_online recv_len l State.init (ok u) = (
  out.ghash_key,
  record l {
    max_sent = add64 l.max_sent sent_len;
    max_recv_online = add64 l.max_recv_online recv_len_online;
    max_recv = add64 l.max_recv recv_len;
    state = State.online (otp_of l.role out.random) [] [];
  },
)
allocated out sent_len recv_len_online recv_len l State.init (err e) =
    (err e, record l { state = State.error })
allocated out sent_len recv_len_online recv_len l s r =
    (err MpcTlsError.other, record l { state = State.error })

-- `alloc`; `random` has `recv_len_online` bytes.
unfoldable pub alloc :
    AllocOutcome → ℕ → ℕ → ℕ → RecordLayer → Result (Unit {0}) MpcTlsError × RecordLayer
unfolding allocated
alloc out sent_len recv_len_online recv_len l =
    allocated out sent_len recv_len_online recv_len l l.state out.allocated

abbrev pub is_nil {ℓ} : {A : Type ℓ} → List A → Bool
is_nil [] = true
is_nil (x ∷ xs) = false

abbrev pub is_empty : RecordLayer → Bool
is_empty l =
    is_nil l.encrypt_buffer
    && is_nil l.decrypt_buffer
    && is_nil l.encrypted_buffer
    && is_nil l.decrypted_buffer

abbrev pub wants_flush : RecordLayer → Bool
wants_flush l = not (is_nil l.encrypt_buffer) || not (is_nil l.decrypt_buffer)

abbrev pub start_traffic : RecordLayer → RecordLayer
start_traffic l = record l { started = true }

-- crates/tls/core/src/cipher.rs
abbrev pub make_tls12_aad : ℕ → ContentType → ProtocolVersion → ℕ → List ℕ
make_tls12_aad seq typ vers len =
    be64 seq ++ (content_type_get typ ∷ (be16 (protocol_version_get vers) ++ be16 (len % 65536)))

-- `push_encrypt`: the sequence number and the count move before `EncryptOp::new` checks the operation.
pushed_encrypt :
    RecordLayer → Result EncryptOp MpcTlsError → Result (Unit {0}) MpcTlsError × RecordLayer
pushed_encrypt l (err e) = (err e, l)
pushed_encrypt l (ok op) = (ok tt, record l { encrypt_buffer = l.encrypt_buffer ++ (op ∷ []) })

unfoldable pub push_encrypt :
    ContentType
    → ProtocolVersion
    → ℕ
    → Option (List ℕ)
    → EncryptMode
    → RecordLayer
    → Result (Unit {0}) MpcTlsError × RecordLayer
unfolding pushed_encrypt
push_encrypt typ version len plaintext mode l =
    if leb max_buffer_size (length l.encrypt_buffer)
    then (err MpcTlsError.peer, l)
    else if ltb l.max_sent (add64 l.sent len)
    then (err MpcTlsError.record_layer, l)
    else pushed_encrypt (record l { write_seq = add64 l.write_seq 1; sent = add64 l.sent len })
        (new_encrypt_op (record {
          seq = l.write_seq;
          typ = typ;
          version = version;
          len = len;
          plaintext = plaintext;
          explicit_nonce = be64 l.write_seq;
          aad = make_tls12_aad l.write_seq typ version len;
          mode = mode;
        }))

unfoldable pub push_decrypt :
    ContentType
    → ProtocolVersion
    → List ℕ
    → List ℕ
    → List ℕ
    → DecryptMode
    → RecordLayer
    → Result (Unit {0}) MpcTlsError × RecordLayer
push_decrypt typ version explicit_nonce ciphertext tag mode l =
    if leb max_buffer_size (length l.decrypt_buffer)
    then (err MpcTlsError.peer, l)
    else if ltb l.max_recv (add64 l.recv (length ciphertext))
    then (err MpcTlsError.record_layer, l)
    else (
      ok tt,
      record l {
        read_seq = add64 l.read_seq 1;
        recv = add64 l.recv (length ciphertext);
        decrypt_buffer =
            l.decrypt_buffer
            ++ (record {
              seq = l.read_seq;
              typ = typ;
              version = version;
              explicit_nonce = explicit_nonce;
              ciphertext = ciphertext;
              aad = make_tls12_aad l.read_seq typ version (length ciphertext);
              tag = tag;
              mode = mode;
            }
                ∷ []);
      },
    )

-- `next_encrypted` and `next_decrypted`, on the buffer.
abbrev next_of {ℓ} : {A : Type ℓ} → (A → ContentType) → Bool → List A → Option A × List A
next_of typ started [] = (none, [])
next_of typ started (r ∷ rs) =
    if not started && is_application_data (typ r) then (none, r ∷ rs) else (some r, rs)

unfoldable pub next_encrypted : RecordLayer → Option EncryptedRecord × RecordLayer
next_encrypted l =
    let (r, rs) = next_of (λ (r : EncryptedRecord). r.typ) l.started l.encrypted_buffer in
    (r, record l { encrypted_buffer = rs })

unfoldable pub next_decrypted : RecordLayer → Option PlainRecord × RecordLayer
next_decrypted l =
    let (r, rs) = next_of (λ (r : PlainRecord). r.typ) l.started l.decrypted_buffer in
    (r, record l { decrypted_buffer = rs })
