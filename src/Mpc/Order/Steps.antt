-- ===== src/Mpc/Order/Steps.antt =====
-- Each operation keeps the record layer sound.
use tlsn.Common.{
  ℕ, suc, ◌≤◌, ◌≡◌, ◌⊎◌, inl, inr, refl, sym, ap, subst, List, [], ◌∷◌, ◌++◌, map, append-nil,
  arith, Bool, length, length-append,
}
use tlsn.Transcript.{Record}
use tlsn.Mpc.Ops.{DecryptOp, Vm}
use tlsn.Mpc.Layer.{State, RecordLayer}
use tlsn.Mpc.Flush.{Outcome, flush, drained}
use tlsn.Mpc.Flush.Effect.{Flushed, flush_lem, drained-parts}
use tlsn.Mpc.Flush.Emit.{record_seqs, encrypt_seqs, decrypt_seqs, sent_of, recv_of}
use tlsn.Mpc.Commit.{commit}
use tlsn.Mpc.Order.{Ascending, Ascending-omit, Ascending-moved}
use tlsn.Mpc.Commit.Records.{commit_lem}
use tlsn.Mpc.Order.Sound.{IsSound, map-append}

-- Records that a front of the operations has become.
pub recorded-Ascending :
    (high : ℕ) (records new : List Record) (all lost queue : List ℕ)
    → all ≡ record_seqs new ++ lost
    → Ascending 0 (record_seqs records ++ (all ++ queue)) high
    → Ascending 0 (record_seqs (records ++ new) ++ queue) high
recorded-Ascending high records new all lost queue e a =
    subst (λ t. Ascending 0 (t ++ queue) high)
      (sym (map-append (λ (r : Record). r.seq) records new))
      (Ascending-moved 0 high (record_seqs records) (record_seqs new) lost queue
        (subst (λ t. Ascending 0 (record_seqs records ++ (t ++ queue)) high) e a))

length-map {ℓ κ} :
    {A : Type ℓ} {B : Type κ} (f : A → B) (xs : List A) → length (map f xs) ≡ length xs
length-map f [] = refl
length-map f (x ∷ xs) = ap suc (length-map f xs)

length-drained :
    (is_decrypting : Bool) (ops : List DecryptOp)
    → length (drained is_decrypting ops).1 ≤ length ops
length-drained is_decrypting ops =
    let (front, back) = drained is_decrypting ops in
    let seq = λ (op : DecryptOp). op.seq in
    omega (
      arith,
      length-map seq ops,
      length-map seq front,
      length-map seq back,
      ap length (drained-parts is_decrypting ops),
      length-append (decrypt_seqs front) (decrypt_seqs back),
    )

Flushed-IsSound :
    (is_decrypting : Bool) (l : RecordLayer) (o : Outcome)
    → Flushed is_decrypting l o
    → IsSound l
    → IsSound o.1
Flushed-IsSound is_decrypting l o f s =
    let ran = f.processed.ran in
    subst IsSound (sym ran.kept) (record {
      sent_order =
          subst (λ (rs : List Record). Ascending 0 (record_seqs rs ++ []) l.write_seq)
            (sym ran.sent_records)
            (recorded-Ascending l.write_seq f.sent ran.new_sent (encrypt_seqs l.encrypt_buffer)
              ran.sent_rest [] ran.sent_front
              (subst (λ t. Ascending 0 (record_seqs f.sent ++ t) l.write_seq)
                (sym (append-nil (encrypt_seqs l.encrypt_buffer)))
                (subst
                  (λ (t : State).
                    Ascending 0 (record_seqs (sent_of t) ++ encrypt_seqs l.encrypt_buffer)
                      l.write_seq)
                  f.was_online s.sent_order)));
      recv_order =
          subst
            (λ (rs : List Record).
              Ascending 0
                (record_seqs rs ++ decrypt_seqs (drained is_decrypting l.decrypt_buffer).1)
                l.read_seq)
            (sym ran.recv_records)
            (recorded-Ascending l.read_seq f.recv ran.new_recv
              (decrypt_seqs (drained is_decrypting l.decrypt_buffer).0) ran.recv_rest
              (decrypt_seqs (drained is_decrypting l.decrypt_buffer).1) ran.recv_front
              (subst (λ t. Ascending 0 (record_seqs f.recv ++ t) l.read_seq)
                (drained-parts is_decrypting l.decrypt_buffer)
                (subst
                  (λ (t : State).
                    Ascending 0 (record_seqs (recv_of t) ++ decrypt_seqs l.decrypt_buffer)
                      l.read_seq)
                  f.was_online s.recv_order)));
      sent_fits = s.sent_fits;
      recv_fits = s.recv_fits;
      online_fits = elim f.processed.online_fits [
        | inl same ↦ omega (arith, s.online_fits)
        | inr within ↦ within
      ];
      encrypt_room = omega arith;
      decrypt_room = omega (arith, length-drained is_decrypting l.decrypt_buffer, s.decrypt_room);
    })

pub flush-IsSound :
    (vm : Vm) (is_decrypting : Bool) (l : RecordLayer)
    → IsSound l
    → IsSound (flush vm is_decrypting l).1
flush-IsSound vm is_decrypting l s = elim (flush_lem vm is_decrypting l) [
  | inl (stop, e) ↦ rw e s
  | inr f ↦ Flushed-IsSound is_decrypting l (flush vm is_decrypting l) f s
]

-- Without records, the operations that wait are in order.
pub waiting-Ascending :
    (high : ℕ) (records queue : List ℕ)
    → Ascending 0 (records ++ queue) high
    → Ascending 0 queue high
waiting-Ascending high records queue a = Ascending-omit 0 high [] records queue a

closed_empty :
    (t : State) → (t ≡ State.error) ⊎ (t ≡ State.complete) → (sent_of t ≡ []) × (recv_of t ≡ [])
closed_empty t (inl e) = (ap sent_of e, ap recv_of e)
closed_empty t (inr e) = (ap sent_of e, ap recv_of e)

pub commit-IsSound : (vm : Vm) (l : RecordLayer) → IsSound l → IsSound (commit vm l).1
commit-IsSound vm l s =
    let c = (commit_lem vm l).closed in
    let l' = (commit vm l).1 in
    let (no_sent, no_recv) = closed_empty l'.state c.closed in
    subst IsSound (sym c.kept) (record {
      sent_order =
          subst
            (λ (rs : List Record).
              Ascending 0 (record_seqs rs ++ encrypt_seqs l.encrypt_buffer) l.write_seq)
            (sym no_sent)
            (waiting-Ascending l.write_seq (record_seqs (sent_of l.state))
              (encrypt_seqs l.encrypt_buffer) s.sent_order);
      recv_order =
          subst
            (λ (rs : List Record).
              Ascending 0 (record_seqs rs ++ decrypt_seqs l'.decrypt_buffer) l.read_seq)
            (sym no_recv)
            (elim c.waiting [
              | inl same ↦ rw same (
                  waiting-Ascending l.read_seq (record_seqs (recv_of l.state))
                    (decrypt_seqs l.decrypt_buffer) s.recv_order)
              | inr none_waits ↦ rw none_waits (omega arith)
            ]);
      sent_fits = s.sent_fits;
      recv_fits = s.recv_fits;
      online_fits = s.online_fits;
      encrypt_room = s.encrypt_room;
      decrypt_room = elim c.waiting [
        | inl same ↦ rw same s.decrypt_room
        | inr none_waits ↦ rw none_waits (omega arith)
      ];
    })
