-- ===== src/Mpc/Joint/Closed.antt =====
-- crates/mpc-tls/src/leader.rs and follower.rs: the end of a session.
use tlsn.Common.{
  ℕ, ◌≡◌, refl, sym, ap, ap₂, ◌∙◌, List, [], ◌∷◌, inl, inr, Result, Result-cases, ok, err, map,
}
use tlsn.Msgs.Handshake.{ReadBody}
use tlsn.Transcript.{Record}
use tlsn.Transcript.Connection.{ServerEphemKey, server_ephem_key}
use tlsn.Transcript.Extract.{Payloads, CurveOf}
use tlsn.Transcript.Builder.{Ending, ended, panicked, unfinished, TlsTranscript}
use tlsn.Mpc.Ops.{MpcTlsError, Vm}
use tlsn.Mpc.Layer.{RecordLayer}
use tlsn.Mpc.Commit.{commit}
use tlsn.Mpc.Utils.{Fallible}
use tlsn.Mpc.Messages.{Message}
use tlsn.Mpc.Follower.{Session}
use tlsn.Mpc.Follower.Close.{finish_session}
use tlsn.Mpc.Leader.{Handshake, Active, LeaderState, Leader, LeaderCalls, in_state}
use tlsn.Mpc.Leader.Close.{closing_transcript, close_connection, close_active, close_with}
use tlsn.Mpc.Flush.Marks.{sent_mark, recv_mark}
use tlsn.Mpc.Joint.Sessions.{commit-SameMarks}
use tlsn.Mpc.Joint.Steps.{Paired}
use tlsn.Mpc.Joint.Agree.{Joint, Joint-Paired}
use tlsn.Mpc.Joint.Transcripts.{closing_transcript-Holds, Finished, finish_session-Finished}

same_state :
    (l1 l2 : Leader) (ms ms' : List Message)
    → ◌≡◌ {A = Ending (Result (Unit {0}) MpcTlsError × Leader × List Message)}
        (ended (ok tt, l1, ms))
        (ended (ok tt, l2, ms'))
    → l1.state ≡ l2.state
same_state l1 l2 ms ms' e = let same : l1 ≡ l2 = cc in ap (λ (x : Leader). x.state) same

-- What both transcripts say alike.
pub record SameTranscripts (t u : TlsTranscript) : Type 0 where
  pub same_time : t.time ≡ u.time
  pub same_version : t.version ≡ u.version
  pub same_binding : t.certificate_binding ≡ u.certificate_binding
  pub same_sent : map sent_mark t.sent ≡ map sent_mark u.sent
  pub same_recv : map recv_mark t.recv ≡ map recv_mark u.recv

module _ {B : Type 0} (read_body : ReadBody B) (p : Payloads B) (curve_of : CurveOf)
    (sha256 : List ℕ → List ℕ) where
  close_with_lem :
      (l l' : Leader) (rl : RecordLayer) (r : Fallible TlsTranscript) (msgs : List Message)
      → close_with read_body p curve_of sha256 l rl r ≡ ended (ok tt, l', msgs)
      → (t : TlsTranscript) × (r ≡ ended (ok t)) × (l'.state ≡ LeaderState.closed rl t)
  unfolding close_with
  close_with_lem l l' rl (ended (ok t)) msgs e = (t, refl, sym (same_state _ l' _ msgs e))
  close_with_lem l l' rl (ended (err x)) msgs e = absurd (cc)
  close_with_lem l l' rl panicked msgs e = absurd (cc)
  close_with_lem l l' rl unfinished msgs e = absurd (cc)

  record ClosedWith (c : LeaderCalls) (a : Active) (l' : Leader) : Type 0 where
    records : List Record × List Record
    committed : (commit c.vm a.record_layer).0 ≡ ok records
    layer : RecordLayer
    transcript : TlsTranscript
    closing : closing_transcript read_body p curve_of sha256 c a records ≡ ended (ok transcript)
    state : l'.state ≡ LeaderState.closed layer transcript

  close_connection-ClosedWith :
      (c : LeaderCalls) (l l' : Leader) (a : Active) (msgs : List Message)
      → close_connection read_body p curve_of sha256 c (in_state l (LeaderState.active a))
        ≡ ended (ok tt, l', msgs)
      → ClosedWith c a l'
  unfolding close_connection
  close_connection-ClosedWith c l l' a msgs e =
      let l0 = in_state l (LeaderState.active a) in
      let m = Message.close_connection in
      let rl = (commit c.vm a.record_layer).1 in
      let good : Ending (Result (Unit {0}) MpcTlsError × Leader × List Message) =
        ended (ok tt, l', msgs) in
      let given : close_active read_body p curve_of sha256 c l0 a ≡ good = e in
      elim (Result-cases (c.send m)) [
        | inr (stop, q) ↦
            let no : ended (err stop, in_state l0 LeaderState.error, []) ≡ good =
              rw (q, close_active) at given in
            absurd (cc)
        | inl (v, q) ↦ elim (Result-cases (commit c.vm a.record_layer).0) [
          | inr (stop, q') ↦
              let no : ended (err stop, in_state l0 LeaderState.error, m ∷ []) ≡ good =
                rw q' at (rw (q, close_active) at given) in
              absurd (cc)
          | inl (records, q') ↦
              let r = closing_transcript read_body p curve_of sha256 c a records in
              let yes : close_with read_body p curve_of sha256 l0 rl r ≡ good =
                rw q' at (rw (q, close_active) at given) in
              let (t, closing, state) = close_with_lem l0 l' rl r msgs yes in
              record {
                records = records;
                committed = q';
                layer = rl;
                transcript = t;
                closing = closing;
                state = state;
              }
        ]
      ]

  not_active :
      (c : LeaderCalls) (l l' : Leader) (h : Handshake) (msgs : List Message)
      → close_connection read_body p curve_of sha256 c (in_state l (LeaderState.handshake h))
        ≡ ended (ok tt, l', msgs)
      → ⊥
  unfolding close_connection
  not_active c l l' h msgs e = absurd (cc)

  joined :
      (c : LeaderCalls) (vm : Vm) (a : Active) (l' : Leader) (s : Session) (u : TlsTranscript)
      (g : ClosedWith c a l')
      → Paired (LeaderState.active a) s
      → Finished read_body p curve_of sha256 vm s u
      → SameTranscripts g.transcript u
  joined c vm a l' s u g pair f =
      let k = pair.0 in
      let h =
        closing_transcript-Holds read_body p curve_of sha256 c a g.records g.transcript g.closing in
      let marks =
        commit-SameMarks c.vm vm a.record_layer s.record_layer g.records f.records pair.1
          g.committed f.committed in
      let time : a.time ≡ f.time = let q = sym k.same_time ∙ f.known_time in cc in
      let client : a.client_random ≡ f.client_random =
        let q = sym k.same_client ∙ f.known_client in cc in
      let server : a.server_random ≡ f.server_random =
        let q = sym k.same_server ∙ f.known_server in cc in
      let key : a.server_key ≡ f.key = let q = sym k.same_key ∙ f.known_key in cc in
      let ephemeral : h.ephemeral ≡ f.holds.ephemeral =
        let q = sym h.has_key ∙ ap server_ephem_key key ∙ f.holds.has_key in cc in
      record {
        same_time = h.has_time ∙ time ∙ sym f.holds.has_time;
        same_version = h.has_version ∙ sym f.holds.has_version;
        same_binding =
            h.has_binding
            ∙ ap
                (λ (x : List ℕ × List ℕ × ServerEphemKey). record {
                  client_random = x.0;
                  server_random = x.1;
                  server_ephemeral_key = x.2;
                })
                (ap₂ (λ x (y : List ℕ × ServerEphemKey). (x, y.0, y.1)) client
                  (ap₂ (λ x y. (x, y)) server ephemeral))
            ∙ sym f.holds.has_binding;
        same_sent =
            ap (map sent_mark) h.has_sent ∙ marks.sent ∙ ap (map sent_mark) (sym f.holds.has_sent);
        same_recv =
            ap (map recv_mark) h.has_recv ∙ marks.recv ∙ ap (map recv_mark) (sym f.holds.has_recv);
      }

  -- After any session of calls that succeed and of messages that the follower accepts, whatever both parties' own
  -- calls return: if the leader closes the connection and the follower finishes, each with a transcript,
  -- the transcripts have the same time, version, randoms and server key, and they list, in each
  -- direction and in the same order, records of the same numbers, types and nonces, and, if received,
  -- of the same ciphertexts and tags.
  pub close_connection-finish_session :
      (c : LeaderCalls) (vm : Vm) (l l' : Leader) (s : Session) (msgs : List Message)
      (u : TlsTranscript)
      → Joint l s
      → close_connection read_body p curve_of sha256 c l ≡ ended (ok tt, l', msgs)
      → finish_session read_body p curve_of sha256 vm s ≡ ended (ok u)
      → (layer : RecordLayer) × (t : TlsTranscript) × (l'.state ≡ LeaderState.closed layer t)
        × SameTranscripts t u
  close_connection-finish_session c vm l l' s msgs u j e f = of_state l.state (Joint-Paired l s j) e
    where
      of_state :
          (st : LeaderState)
          → Paired st s
          → close_connection read_body p curve_of sha256 c (in_state l st) ≡ ended (ok tt, l', msgs)
          → (layer : RecordLayer) × (t : TlsTranscript) × (l'.state ≡ LeaderState.closed layer t)
            × SameTranscripts t u
      of_state (LeaderState.active a) pair e =
          let g = close_connection-ClosedWith c l l' a msgs e in
          let d = finish_session-Finished read_body p curve_of sha256 vm s u f in
          (g.layer, g.transcript, g.state, joined c vm a l' s u g pair d)
      of_state (LeaderState.handshake h) pair e = absurd (not_active c l l' h msgs e)
      of_state (LeaderState.init old) pair e = absurd pair
      of_state (LeaderState.setup old random) pair e = absurd pair
      of_state (LeaderState.closed old t) pair e = absurd pair
      of_state LeaderState.error pair e = absurd pair
