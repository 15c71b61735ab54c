-- ===== src/Mpc/Order/Setup.antt =====
-- Setting up the record layer, and taking results out, keep it sound.
use tlsn.Common.{
  ℕ, ◌+◌, ◌^◌, ◌≤◌, ◌<◌, ◌≡◌, refl, sym, subst, List, [], ◌++◌, arith, Bool, Result, ok, err,
}
use native.Mathlib.Nat.{mod-eq_of_lt}
use tlsn.Transcript.{Record}
use tlsn.Mpc.Ops.{MpcTlsError}
use tlsn.Mpc.Layer.{State, RecordLayer, AllocOutcome, PlainRecord, EncryptedRecord, add64}
use tlsn.Mpc.Flush.Emit.{record_seqs, encrypt_seqs, decrypt_seqs, sent_of, recv_of}
use tlsn.Mpc.Order.{Ascending}
use tlsn.Mpc.Layer.{alloc, allocated}
use tlsn.Mpc.Order.Sound.{IsSound}
use tlsn.Mpc.Order.Steps.{waiting-Ascending}

-- An allocation whose budgets are numbers of a machine.
pub record IsAllocatable (l : RecordLayer) (sent_len recv_len_online recv_len : ℕ) : Type 0 where
  pub sent_small : l.max_sent + sent_len < 2 ^ 64
  pub online_small : l.max_recv_online + recv_len_online < 2 ^ 64
  pub recv_small : l.max_recv + recv_len < 2 ^ 64

-- The state without records, and budgets that are not smaller.
cleared-IsSound :
    (l : RecordLayer) (t : State) (max_sent max_recv_online max_recv : ℕ)
    → (sent_of t ≡ []) × (recv_of t ≡ [])
    → (l.max_sent ≤ max_sent) × (l.max_recv_online ≤ max_recv_online) × (l.max_recv ≤ max_recv)
    → IsSound l
    → IsSound (record l {
      max_sent = max_sent;
      max_recv_online = max_recv_online;
      max_recv = max_recv;
      state = t;
    })
cleared-IsSound l t max_sent max_recv_online max_recv (no_sent, no_recv) (a, b, c) s = record {
  sent_order =
      subst
        (λ (rs : List Record).
          Ascending 0 (record_seqs rs ++ encrypt_seqs l.encrypt_buffer) l.write_seq)
        (sym no_sent)
        (waiting-Ascending l.write_seq (record_seqs (sent_of l.state))
          (encrypt_seqs l.encrypt_buffer) s.sent_order);
  recv_order =
      subst
        (λ (rs : List Record).
          Ascending 0 (record_seqs rs ++ decrypt_seqs l.decrypt_buffer) l.read_seq)
        (sym no_recv)
        (waiting-Ascending l.read_seq (record_seqs (recv_of l.state))
          (decrypt_seqs l.decrypt_buffer) s.recv_order);
  sent_fits = omega (arith, s.sent_fits);
  recv_fits = omega (arith, s.recv_fits);
  online_fits = omega (arith, s.online_fits);
  encrypt_room = s.encrypt_room;
  decrypt_room = s.decrypt_room;
}

error-IsSound : (l : RecordLayer) → IsSound l → IsSound (record l { state = State.error })
error-IsSound l s =
    cleared-IsSound l State.error l.max_sent l.max_recv_online l.max_recv (refl, refl)
      (omega arith, omega arith, omega arith) s

add64_small : (a b : ℕ) → a + b < 2 ^ 64 → a ≤ add64 a b
add64_small a b h = omega (arith, mod-eq_of_lt h)

pub alloc-IsSound :
    (out : AllocOutcome) (sent_len recv_len_online recv_len : ℕ) (l : RecordLayer)
    → IsAllocatable l sent_len recv_len_online recv_len
    → IsSound l
    → IsSound (alloc out sent_len recv_len_online recv_len l).1
unfolding alloc allocated
alloc-IsSound out sent_len recv_len_online recv_len l a s = of_state l.state out.allocated
  where
    of_state :
        (t : State) (r : Result (Unit {0}) MpcTlsError)
        → IsSound (allocated out sent_len recv_len_online recv_len l t r).1
    of_state State.init (ok u) =
        cleared-IsSound l (State.online _ [] []) (add64 l.max_sent sent_len)
          (add64 l.max_recv_online recv_len_online) (add64 l.max_recv recv_len) (refl, refl)
          (
            add64_small l.max_sent sent_len a.sent_small,
            add64_small l.max_recv_online recv_len_online a.online_small,
            add64_small l.max_recv recv_len a.recv_small,
          )
          s
    of_state State.init (err e) = error-IsSound l s
    of_state State.complete r = error-IsSound l s
    of_state State.error r = error-IsSound l s
    of_state (State.online otp sent recv) r = error-IsSound l s

-- What has been computed may be taken out at any time.
pub results-IsSound :
    (l : RecordLayer) (started : Bool) (out : List EncryptedRecord) (plain : List PlainRecord)
    → IsSound l
    → IsSound (record l { started = started; encrypted_buffer = out; decrypted_buffer = plain })
results-IsSound l started out plain s = record {
  sent_order = s.sent_order;
  recv_order = s.recv_order;
  sent_fits = s.sent_fits;
  recv_fits = s.recv_fits;
  online_fits = s.online_fits;
  encrypt_room = s.encrypt_room;
  decrypt_room = s.decrypt_room;
}
