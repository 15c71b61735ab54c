-- ===== src/Tests/Records.antt =====
-- crates/mpc-tls/src/record_layer.rs and crates/core/src/transcript/tls.rs on a session of one record.
use tlsn.Common.{
  ℕ, ◌+◌, ◌^◌, ◌<◌, ◌≡◌, ◌⊎◌, refl, List, [], ◌∷◌, none, some, true, ok, err, All, arith,
}
use tlsn.Msgs.Enums.Content.{ContentType}
use tlsn.Msgs.Enums.Version.{ProtocolVersion}
use tlsn.Transcript.{Record, RecordType, Direction, incomplete, to_transcript}
use tlsn.Transcript.AppData.{contents, IsKnown, Missing, to_transcript_lem}
use tlsn.Mpc.Ops.{
  Role, EncryptMode, Vm, encrypt, queue_encrypt, try_encrypt, decrypt_mpc, decrypt_local,
  new_encrypt_op,
}
use tlsn.Mpc.Layer
use tlsn.Mpc.Layer.{RecordLayer, AllocOutcome, alloc, allocated, push_encrypt}
use tlsn.Mpc.Flush.{flush, process, emit_encrypts, emit_decrypts}
use tlsn.Mpc.Flush.Emit.{record_seqs}
use tlsn.Mpc.Commit.{commit}
use tlsn.Mpc.Order.{Ascending}
use tlsn.Mpc.Order.Sound.{IsSound}
use tlsn.Mpc.Order.Reach.{
  Run, here, next, allocate, encrypted, flushed, Run-IsSound, commit-Ascending,
}

-- A machine that answers every call, with a ciphertext of two bytes.
abbrev answering : Vm
answering = record {
  unlocked = true;
  encrypt_private = λ op. ok (ok (some (8 ∷ 9 ∷ [])));
  encrypt_keystream = λ op. ok (ok none);
  compute_tags = λ parts. ok tt;
  apply_keystream = λ op. ok tt;
  decrypt_private = λ pad op. ok (ok none);
  decrypt_keystream = λ op. ok (ok none);
  verify_tags = λ parts ciphertexts tags. ok tt;
  run = ok (some ((5 ∷ []) ∷ []));
  decode_key = ok tt;
  decrypt_here = λ op. ok [];
  execute = ok tt;
}

abbrev granted : AllocOutcome
granted = record { allocated = ok tt; random = 1 ∷ 2 ∷ 3 ∷ []; ghash_key = ok tt }

abbrev ready : RecordLayer
ready = (alloc granted 16 3 3 (Layer.new Role.leader)).1

abbrev pushed : RecordLayer
pushed =
    (push_encrypt ContentType.application_data ProtocolVersion.tls_v1_2 2 (some (6 ∷ 7 ∷ []))
      EncryptMode.private ready).1

abbrev recorded : RecordLayer
recorded = (flush answering true pushed).1

ready_seq : ready.write_seq + 1 < 2 ^ 64
unfolding alloc allocated
ready_seq = omega arith

Run-pushed : Run (Layer.new Role.leader) pushed
Run-pushed =
    next
      (next here (
        allocate granted 16 3 3 (record {
          sent_small = omega arith;
          online_small = omega arith;
          recv_small = omega arith;
        })))
      (encrypted ContentType.application_data ProtocolVersion.tls_v1_2 2 (some (6 ∷ 7 ∷ []))
        EncryptMode.private ready_seq)

Run-IsSound_example : IsSound pushed
Run-IsSound_example = Run-IsSound Role.leader Run-pushed

abbrev sent_records : List Record
sent_records =
    record {
      seq = 0;
      typ = RecordType.application_data;
      plaintext = some (6 ∷ 7 ∷ []);
      explicit_nonce = 0 ∷ 0 ∷ 0 ∷ 0 ∷ 0 ∷ 0 ∷ 0 ∷ 0 ∷ [];
      ciphertext = 8 ∷ 9 ∷ [];
      tag = some (5 ∷ []);
    }
    ∷ []

commit-recorded : (commit answering recorded).0 ≡ ok (sent_records, [])
unfolding alloc allocated push_encrypt new_encrypt_op flush process commit encrypt queue_encrypt
    decrypt_mpc emit_encrypts try_encrypt decrypt_local emit_decrypts
commit-recorded = refl

commit-Ascending_example :
    Ascending 0 (record_seqs sent_records) recorded.write_seq
    × Ascending 0 (record_seqs []) recorded.read_seq
commit-Ascending_example =
    commit-Ascending Role.leader recorded answering sent_records []
      (next Run-pushed (flushed answering true)) commit-recorded

to_transcript_lem_example :
    (All IsKnown sent_records
      × All IsKnown []
      × (to_transcript sent_records [] ≡ ok (contents sent_records, contents [])))
    ⊎ (((seq : ℕ) × (to_transcript sent_records [] ≡ err (incomplete Direction.sent seq))
          × Missing sent_records seq)
        ⊎ ((seq : ℕ) × (to_transcript sent_records [] ≡ err (incomplete Direction.received seq))
            × All IsKnown sent_records
            × Missing [] seq))
to_transcript_lem_example = to_transcript_lem sent_records []
