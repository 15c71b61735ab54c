-- ===== src/Mpc/Joint/Steps/Flushes.antt =====
-- `start_traffic` and `flush`.
use tlsn.Common.{
  ◌≡◌, refl, sym, subst, [], ◌∷◌, Bool-cases, inl, inr, Result, Result-cases, ok, err,
}
use tlsn.Transcript.Builder.{ended}
use tlsn.Mpc.Ops.{MpcTlsError}
use tlsn.Mpc.Layer.{RecordLayer, wants_flush}
use tlsn.Mpc.Layer
use tlsn.Mpc.Flush
use tlsn.Mpc.Messages.{Message}
use tlsn.Mpc.Follower.{Session}
use tlsn.Mpc.Leader.{Active, LeaderState, Leader, BackendError, LeaderCalls, in_state, into_backend}
use tlsn.Mpc.Leader.Records.{put_layer, in_layer, start_traffic, flush}
use tlsn.Mpc.Joint.Sessions.{flush-Mirrors}
use tlsn.Mpc.Joint.Steps.{Good-same, Heard, Paired, Good, Heard-Told, still, relayered}

start_active :
    (c : LeaderCalls) (l : Leader) (a : Active) (s : Session)
    → Paired (LeaderState.active a) s
    → Good s (ended (start_traffic c (in_state l (LeaderState.active a))))
unfolding start_traffic
start_active c l a s p =
    let l0 = in_state l (LeaderState.active a) in
    let rl = Layer.start_traffic a.record_layer in
    elim (Result-cases (c.send Message.start_traffic)) [
      | inl (v, q) ↦
          let sent : start_traffic c l0 ≡ (ok tt, in_layer l0 rl, Message.start_traffic ∷ []) =
            rw (q, start_traffic) refl in
          let m = p.1 in
          Good-same s sent (λ s' heard.
            let (d, effect) = Heard-Told Message.start_traffic s s' heard in
            subst (λ (x : Session). Paired (put_layer rl (LeaderState.active a)) x) (sym effect)
              (relayered (LeaderState.active a) s rl (Layer.start_traffic s.record_layer) p
                (record {
                  write_seq = m.write_seq;
                  read_seq = m.read_seq;
                  encrypts = m.encrypts;
                  decrypts = m.decrypts;
                  sent = m.sent;
                  recv = m.recv;
                })))
      | inr (e, q) ↦
          let lost : start_traffic c l0 ≡ (err BackendError.internal_error, in_layer l0 rl, []) =
            rw (q, start_traffic) refl in
          Good-same s lost tt
    ]

pub start_traffic-Good :
    (c : LeaderCalls) (l : Leader) (s : Session)
    → Paired l.state s
    → Good s (ended (start_traffic c l))
start_traffic-Good c l s = of_state l.state
  where
    of_state : (st : LeaderState) → Paired st s → Good s (ended (start_traffic c (in_state l st)))
    of_state (LeaderState.active a) p = start_active c l a s p
    of_state (LeaderState.handshake h) p = unfold start_traffic in tt
    of_state (LeaderState.init old) p = absurd p
    of_state (LeaderState.setup old random) p = absurd p
    of_state (LeaderState.closed old t) p = absurd p
    of_state LeaderState.error p = absurd p

-- Behind the message, the result of the leader's own flush decides.
flushed-Good :
    (l : Leader) (m : Message) (rl : RecordLayer) (r : Result (Unit {0}) MpcTlsError) (s : Session)
    → ((s' : Session) → r ≡ ok tt → Heard (m ∷ []) s s' → Paired (put_layer rl l.state) s')
    → Good s (ended (into_backend r, in_layer l rl, m ∷ []))
flushed-Good l m rl (ok u) s k = λ s' heard. k s' refl heard
flushed-Good l m rl (err e) s k = tt

flush_active :
    (c : LeaderCalls) (l : Leader) (a : Active) (s : Session)
    → Paired (LeaderState.active a) s
    → Good s (ended (flush c (in_state l (LeaderState.active a))))
unfolding flush
flush_active c l a s p =
    let l0 = in_state l (LeaderState.active a) in
    let m = Message.flush l.is_decrypting in
    let o = Flush.flush c.vm l.is_decrypting a.record_layer in
    elim (Bool-cases (wants_flush a.record_layer)) [
      | inr idle ↦
          let same : flush c l0 ≡ (ok tt, l0, []) = rw (idle, flush) refl in
          Good-same s same (λ s' heard. still (LeaderState.active a) s s' p heard)
      | inl some_op ↦ elim (Result-cases (c.send m)) [
        | inr (e, q) ↦
            let lost : flush c l0 ≡ (err BackendError.internal_error, l0, []) =
              rw (some_op, q, flush) refl in
            Good-same s lost tt
        | inl (v, q) ↦
            let sent : flush c l0 ≡ (into_backend o.0, in_layer l0 o.1, m ∷ []) =
              rw (some_op, q, flush) refl in
            Good-same s sent (
              flushed-Good l0 m o.1 o.0 s (λ s' good heard.
                let (d, effect) = Heard-Told m s s' heard in
                let f = Flush.flush d.vm l.is_decrypting s.record_layer in
                subst (λ (x : Session). Paired (put_layer o.1 (LeaderState.active a)) x)
                  (sym effect.1)
                  (relayered (LeaderState.active a) s o.1 f.1 p (
                    flush-Mirrors c.vm d.vm l.is_decrypting a.record_layer s.record_layer p.1 good
                      effect.0))))
      ]
    ]

pub flush-Good :
    (c : LeaderCalls) (l : Leader) (s : Session) → Paired l.state s → Good s (ended (flush c l))
flush-Good c l s = of_state l.state
  where
    of_state : (st : LeaderState) → Paired st s → Good s (ended (flush c (in_state l st)))
    of_state (LeaderState.active a) p = flush_active c l a s p
    of_state (LeaderState.handshake h) p =
        unfold flush in λ s' same. still (LeaderState.handshake h) s s' p same
    of_state (LeaderState.init old) p = absurd p
    of_state (LeaderState.setup old random) p = absurd p
    of_state (LeaderState.closed old t) p = absurd p
    of_state LeaderState.error p = absurd p
