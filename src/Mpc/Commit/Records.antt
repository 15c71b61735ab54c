-- ===== src/Mpc/Commit/Records.antt =====
-- What `commit` returns and leaves behind.
use tlsn.Common.{
  ℕ, ◌≡◌, ◌⊎◌, inl, inr, refl, sym, ap, ◌∙◌, List, [], ◌∷◌, ◌++◌, append-nil, Option, none, some,
  Bool, true, false, not, Result, Result-cases, ok, err, if◌then◌else◌, length,
}
use tlsn.Transcript.{Record}
use tlsn.Mpc.Ops.{MpcTlsError, DecryptOp, DecryptOutput, Vm, decrypt_local}
use tlsn.Mpc.Ops.Lengths.{length-decrypt_local}
use tlsn.Mpc.Layer.{State, RecordLayer, PlainRecord, is_nil}
use tlsn.Mpc.Flush.{emit_decrypts}
use tlsn.Mpc.Flush.Emit.{record_seqs, decrypt_seqs, Front, emit_decrypts-Front}
use tlsn.Mpc.Commit.{
  Committed, commit, commit_state, with_key, queued_local, executed, finish_commit,
}

-- A transcript: the records of the session, and behind them a record for each operation that waited.
pub record Transcribed (sent recv : List Record) (ops : List DecryptOp)
    (r : List Record × List Record) : Type 0 where
  pub new_recv : List Record
  pub sent_same : r.0 ≡ sent
  pub recv_parts : r.1 ≡ recv ++ new_recv
  pub whole : decrypt_seqs ops ≡ record_seqs new_recv

-- How `commit` ends, from the state that it has taken: with an error and without a way back, or with
-- the transcript.
pub record Ended (l : RecordLayer) (sent recv : List Record) (ops : List DecryptOp) (o : Committed)
    : Type 0 where
  pub kept : o.1 ≡ record l { state = o.1.state; decrypted_buffer = o.1.decrypted_buffer }
  pub outcome :
      ((stop : MpcTlsError) × (o.0 ≡ err stop) × (o.1.state ≡ State.error))
      ⊎ ((r : List Record × List Record) × (o.0 ≡ ok r)
          × (o.1.state ≡ State.complete)
          × Transcribed sent recv ops r)

Ended-stopped :
    (l : RecordLayer) (sent recv : List Record) (ops : List DecryptOp) (stop : MpcTlsError)
    → l.state ≡ State.error
    → Ended l sent recv ops (err stop, l)
Ended-stopped l sent recv ops stop e = record { kept = refl; outcome = inl (stop, refl, e) }

finish_commit-Ended :
    (l : RecordLayer) (sent recv : List Record) (ops : List DecryptOp)
    (r : Option MpcTlsError × List PlainRecord × List Record)
    → l.state ≡ State.error
    → Front r.0 (decrypt_seqs ops) (record_seqs r.2)
    → Ended l sent recv ops (finish_commit l sent recv r)
unfolding finish_commit
finish_commit-Ended l sent recv ops (some stop, out, records) e f = record {
  kept = refl;
  outcome = inl (stop, refl, e);
}
finish_commit-Ended l sent recv ops (none, out, records) e f = record {
  kept = refl;
  outcome = inr (
    (sent, recv ++ records),
    refl,
    refl,
    record {
      new_recv = records;
      sent_same = refl;
      recv_parts = refl;
      whole = elim f.complete [
        | inl (stop, q) ↦ absurd (cc)
        | inr all ↦
            f.parts ∙ ap (λ t. record_seqs records ++ t) all ∙ append-nil (record_seqs records)
      ];
    },
  );
}

executed-Ended :
    (l : RecordLayer) (sent recv : List Record) (ops : List DecryptOp) (outs : List DecryptOutput)
    (r : Result (Unit {0}) MpcTlsError)
    → l.state ≡ State.error
    → length outs ≡ length ops
    → Ended l sent recv ops (executed l sent recv ops outs r)
unfolding executed
executed-Ended l sent recv ops outs (err stop) e h = Ended-stopped l sent recv ops stop e
executed-Ended l sent recv ops outs (ok u) e h =
    finish_commit-Ended l sent recv ops (emit_decrypts ops outs) e (emit_decrypts-Front ops outs h)

with_key-Ended :
    (vm : Vm) (l : RecordLayer) (sent recv : List Record) (ops : List DecryptOp)
    (r : Result (Unit {0}) MpcTlsError)
    → l.state ≡ State.error
    → Ended l sent recv ops (with_key vm l sent recv ops r)
unfolding with_key queued_local
with_key-Ended vm l sent recv ops (err stop) e = Ended-stopped l sent recv ops stop e
with_key-Ended vm l sent recv ops (ok u) e = elim (Result-cases (decrypt_local l.role vm ops)) [
  | inr (stop, q) ↦ rw q (Ended-stopped l sent recv ops stop e)
  | inl (outs, q) ↦
      rw q (
        executed-Ended l sent recv ops outs vm.execute e
          (length-decrypt_local l.role vm ops outs q))
]

-- How `commit` changes the layer.
pub record Closed (l l' : RecordLayer) : Type 0 where
  pub kept : l' ≡ record l {
    state = l'.state;
    decrypt_buffer = l'.decrypt_buffer;
    decrypted_buffer = l'.decrypted_buffer;
  }
  pub waiting : (l'.decrypt_buffer ≡ l.decrypt_buffer) ⊎ (l'.decrypt_buffer ≡ [])
  pub closed : (l'.state ≡ State.error) ⊎ (l'.state ≡ State.complete)

-- What a `commit` that returns a transcript has found.
pub record Completed (l : RecordLayer) (r : List Record × List Record) : Type 0 where
  pub otp : Option (List ℕ)
  pub sent : List Record
  pub recv : List Record
  pub was_online : l.state ≡ State.online otp sent recv
  pub none_waits : l.encrypt_buffer ≡ []
  pub transcribed : Transcribed sent recv l.decrypt_buffer r

nil-cases : {A : Type 0} (xs : List A) → ((is_nil xs ≡ true) × (xs ≡ [])) ⊎ (is_nil xs ≡ false)
nil-cases [] = inl (refl, refl)
nil-cases (x ∷ xs) = inr refl

-- The result of `commit`: never an online layer.
pub record Committing (l : RecordLayer) (o : Committed) : Type 0 where
  pub closed : Closed l o.1
  pub outcome :
      ((stop : MpcTlsError) × (o.0 ≡ err stop) × (o.1.state ≡ State.error))
      ⊎ ((r : List Record × List Record) × (o.0 ≡ ok r)
          × (o.1.state ≡ State.complete)
          × Completed l r)

refused :
    (l : RecordLayer) (stop : MpcTlsError)
    → Committing l (err stop, record l { state = State.error })
refused l stop = record {
  closed = record { kept = refl; waiting = inl refl; closed = inl refl };
  outcome = inl (stop, refl, refl);
}

unlocked_lem :
    (l : RecordLayer) (u : Bool) (o : Committed)
    → Committing l o
    → Committing l
        (if not u then (err MpcTlsError.record_layer, record l { state = State.error }) else o)
unlocked_lem l true o c = c
unlocked_lem l false o c = refused l MpcTlsError.record_layer

ended_lem :
    (l : RecordLayer) (otp : Option (List ℕ)) (sent recv : List Record) (o : Committed)
    → l.state ≡ State.online otp sent recv
    → l.encrypt_buffer ≡ []
    → Ended (record l { state = State.error; decrypt_buffer = [] }) sent recv l.decrypt_buffer o
    → Committing l o
ended_lem l otp sent recv o e none_wait ended = elim ended.outcome [
  | inl (stop, q, s) ↦ record { closed = closed_of (inl s); outcome = inl (stop, q, s) }
  | inr (r, q, s, t) ↦ record {
    closed = closed_of (inr s);
    outcome = inr (
      r,
      q,
      s,
      record {
        otp = otp;
        sent = sent;
        recv = recv;
        was_online = e;
        none_waits = none_wait;
        transcribed = t;
      },
    );
  }
]
  where
    buffer : o.1.decrypt_buffer ≡ []
    buffer = ap (λ (x : RecordLayer). x.decrypt_buffer) ended.kept

    closed_of : (o.1.state ≡ State.error) ⊎ (o.1.state ≡ State.complete) → Closed l o.1
    closed_of c = record {
      kept =
          ended.kept
          ∙ ap
              (λ (ops : List DecryptOp). record l {
                state = o.1.state;
                decrypt_buffer = ops;
                decrypted_buffer = o.1.decrypted_buffer;
              })
              (sym buffer);
      waiting = inr buffer;
      closed = c;
    }

-- `commit` never leaves the layer online. It ends with an error, or with the sent records and the
-- received ones, where each operation that still waited to be decrypted has its record behind those
-- that were decrypted before, in order; this it does only when nothing waits to be encrypted.
pub commit_lem : (vm : Vm) (l : RecordLayer) → Committing l (commit vm l)
unfolding commit commit_state
commit_lem vm l = of_state l.state refl
  where
    of_state :
        (s : State)
        → l.state ≡ s
        → Committing l (commit_state vm (record l { state = State.error }) s)
    of_state State.init e = refused l MpcTlsError.state
    of_state State.complete e = refused l MpcTlsError.state
    of_state State.error e = refused l MpcTlsError.state
    of_state (State.online otp sent recv) e = elim (nil-cases l.encrypt_buffer) [
      | inr some_wait ↦ rw some_wait (refused l MpcTlsError.state)
      | inl (test, none_wait) ↦ rw test (
          unlocked_lem l vm.unlocked
            (with_key vm (record l { state = State.error; decrypt_buffer = [] }) sent recv
              l.decrypt_buffer vm.decode_key)
            (ended_lem l otp sent recv
              (with_key vm (record l { state = State.error; decrypt_buffer = [] }) sent recv
                l.decrypt_buffer vm.decode_key)
              e none_wait
              (with_key-Ended vm (record l { state = State.error; decrypt_buffer = [] }) sent recv
                l.decrypt_buffer vm.decode_key refl)))
    ]
