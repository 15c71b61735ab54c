-- ===== src/Tests/Limits.antt =====
-- crates/tls/client/src/record_layer.rs on a layer that has sent one message.
use tlsn.Common.{◌≡◌, ◌≤◌, true, refl, [], ◌∷◌, some, ok}
use tlsn.Client.Records.{
  RecordLayer, new, seq_hard_limit, encrypt_outgoing, set_message_encrypter,
  set_message_decrypter_with_trial_decryption,
}
use tlsn.Client.Records.Limits.{
  here, next, set_encrypter, outgoing, set_trial, Run, Run-limit, granted, granted_lem,
}

abbrev one_sent : RecordLayer
one_sent = record (set_message_encrypter new) { write_seq = 1 }

sent_one :
    encrypt_outgoing {E = Unit {0}} true (ok tt) (set_message_encrypter new)
    ≡ some (ok tt, one_sent)
unfolding encrypt_outgoing
sent_one = refl

Run-limit_example : one_sent.write_seq ≤ seq_hard_limit
Run-limit_example =
    Run-limit {E = Unit {0}}
      (next (next here set_encrypter) (outgoing true (ok tt) (ok tt) sent_one))

abbrev trial_run : Run (Unit {0}) new (set_message_decrypter_with_trial_decryption 100 new)
trial_run = next here (set_trial 100)

granted_lem_example :
    granted (40 ∷ 70 ∷ 50 ∷ []) (set_message_decrypter_with_trial_decryption 100 new) ≤ 100
granted_lem_example = granted_lem (40 ∷ 70 ∷ 50 ∷ []) new 100
