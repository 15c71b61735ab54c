-- ===== src/Mpc/Joint/Transcripts.antt =====
-- crates/mpc-tls/src/leader.rs and follower.rs: the transcripts that both parties end with.
use tlsn.Common.{ℕ, ◌≡◌, refl, ◌∙◌, subst, List, ◌++◌, Option, none, some, Result, ok, err, ok_or}
use tlsn.Msgs.Handshake.{ReadBody}
use tlsn.Msgs.Enums.Version.{ProtocolVersion}
use tlsn.Transcript.{Record, TlsTranscriptError}
use tlsn.Transcript.Connection.{PublicKey, TlsVersion, ServerEphemKey, server_ephem_key}
use tlsn.Transcript.Extract.{Payloads, CurveOf}
use tlsn.Transcript.Builder.{Ending, ended, panicked, unfinished, TlsTranscript, build}
use tlsn.Transcript.Builder.Given.{build-given}
use tlsn.Mpc.Ops.{MpcTlsError, Vm}
use tlsn.Mpc.Commit.{commit}
use tlsn.Mpc.Utils.{Fallible, ◌>>=◌, check_transcript}
use tlsn.Mpc.Follower.{Session}
use tlsn.Mpc.Follower.Close.{expected, built, finish_session, follower_builder}
use tlsn.Mpc.Leader.{Active, LeaderCalls}
use tlsn.Mpc.Leader.Close.{closing_version, end_entity, closing_transcript, leader_builder}

chained :
    {A B : Type 0} (m : Fallible A) (f : A → Fallible B) {b : B}
    → (m >>= f) ≡ ended (ok b)
    → (a : A) × (m ≡ ended (ok a)) × (f a ≡ ended (ok b))
chained (ended (ok a)) f e = (a, refl, e)
chained (ended (err x)) f e = absurd (cc)
chained panicked f e = absurd (cc)
chained unfinished f e = absurd (cc)

expected-some : {A : Type 0} (o : Option A) (a : A) → expected o ≡ ended (ok a) → o ≡ some a
expected-some none a e = absurd (cc)
expected-some (some b) a e = cc

set_some :
    {A : Type 0} (o : Option A) (a : A) (x : MpcTlsError)
    → ◌≡◌ {A = Fallible A} (ended (ok_or o x)) (ended (ok a))
    → o ≡ some a
set_some none a x e = absurd (cc)
set_some (some b) a x e = cc

built_ok :
    (r : Ending (Result TlsTranscript TlsTranscriptError)) (t : TlsTranscript)
    → built r ≡ ended (ok t)
    → r ≡ ended (ok t)
built_ok (ended (ok u)) t e = cc
built_ok (ended (err x)) t e = absurd (cc)
built_ok panicked t e = absurd (cc)
built_ok unfinished t e = absurd (cc)

is_v1_2 :
    (v : ProtocolVersion) (w : TlsVersion) → closing_version v ≡ ended (ok w) → w ≡ TlsVersion.v1_2
is_v1_2 ProtocolVersion.tls_v1_2 w e = cc
is_v1_2 ProtocolVersion.ssl_v2 w e = absurd (cc)
is_v1_2 ProtocolVersion.ssl_v3 w e = absurd (cc)
is_v1_2 ProtocolVersion.tls_v1_0 w e = absurd (cc)
is_v1_2 ProtocolVersion.tls_v1_1 w e = absurd (cc)
is_v1_2 ProtocolVersion.tls_v1_3 w e = absurd (cc)
is_v1_2 ProtocolVersion.dtls_v1_0 w e = absurd (cc)
is_v1_2 ProtocolVersion.dtls_v1_2 w e = absurd (cc)
is_v1_2 (ProtocolVersion.unknown x) w e = absurd (cc)

ended_equal :
    (a b : TlsTranscript) → ◌≡◌ {A = Fallible TlsTranscript} (ended (ok a)) (ended (ok b)) → a ≡ b
ended_equal a b e = cc

-- What a transcript has, of what its party knows.
pub record Holds (time : ℕ) (client_random server_random : List ℕ) (key : PublicKey)
    (records : List Record × List Record) (t : TlsTranscript) : Type 0 where
  pub has_time : t.time ≡ time
  pub has_version : t.version ≡ TlsVersion.v1_2
  pub ephemeral : ServerEphemKey
  pub has_key : server_ephem_key key ≡ some ephemeral
  pub has_binding : t.certificate_binding ≡ record {
    client_random = client_random;
    server_random = server_random;
    server_ephemeral_key = ephemeral;
  }
  pub has_sent : t.sent ≡ records.0
  pub has_recv : t.recv ≡ records.1

module _ {B : Type 0} (read_body : ReadBody B) (p : Payloads B) (curve_of : CurveOf)
    (sha256 : List ℕ → List ℕ) where
  checked_same :
      (cf sf : List ℕ) (u t : TlsTranscript)
      → (check_transcript cf sf u >>= λ x. ended (ok u)) ≡ ended (ok t)
      → u ≡ t
  checked_same cf sf u t e =
      let (x, q, same) = chained (check_transcript cf sf u) (λ x. ended (ok u)) e in
      ended_equal u t same

  pub closing_transcript-Holds :
      (c : LeaderCalls) (a : Active) (records : List Record × List Record) (t : TlsTranscript)
      → closing_transcript read_body p curve_of sha256 c a records ≡ ended (ok t)
      → Holds a.time a.client_random a.server_random a.server_key records t
  unfolding closing_transcript
  closing_transcript-Holds c a (sent, recv) t e =
      let (cf, q0, e0) = chained (ended (ok_or a.cf_vd MpcTlsError.state)) _ e in
      let (sf, q1, e1) = chained (ended (ok_or a.sf_vd MpcTlsError.state)) _ e0 in
      let (version, q2, e2) = chained (closing_version a.protocol_version) _ e1 in
      let (cert, q3, e3) = chained (expected (end_entity a.server_cert_details.cert_chain)) _ e2 in
      let alg_of =
        c.determine_alg cert (a.client_random ++ (a.server_random ++ a.server_kx_details.kx_params))
          a.server_kx_details in
      let (alg, q4, e4) = chained (expected alg_of) _ e3 in
      let (key, q5, e5) = chained (expected (server_ephem_key a.server_key)) _ e4 in
      let b = build read_body p curve_of sha256 (leader_builder a version alg key sent recv) in
      let (u, q6, e6) = chained (built b) _ e5 in
      let (time, vers, binding, s, r) =
        build-given read_body p curve_of sha256 a.time version
          (record {
            client_random = a.client_random;
            server_random = a.server_random;
            server_ephemeral_key = key;
          })
          (some (record { alg = alg; sig = a.server_kx_details.sig }))
          (some a.server_cert_details.cert_chain) sent recv u (built_ok b u q6) in
      subst (Holds a.time a.client_random a.server_random a.server_key (sent, recv))
        (checked_same cf sf u t e6)
        (record {
          has_time = time;
          has_version = vers ∙ is_v1_2 a.protocol_version version q2;
          ephemeral = key;
          has_key = expected-some (server_ephem_key a.server_key) key q5;
          has_binding = binding;
          has_sent = s;
          has_recv = r;
        })

  -- What the follower's session has come to.
  pub record Finished (vm : Vm) (s : Session) (t : TlsTranscript) : Type 0 where
    pub records : List Record × List Record
    pub committed : (commit vm s.record_layer).0 ≡ ok records
    pub time : ℕ
    pub client_random : List ℕ
    pub server_random : List ℕ
    pub key : PublicKey
    pub known_time : s.time ≡ some time
    pub known_client : s.client_random ≡ some client_random
    pub known_server : s.server_random ≡ some server_random
    pub known_key : s.server_key ≡ some key
    pub holds : Holds time client_random server_random key records t

  returned :
      {A : Type 0} (r : Result A MpcTlsError) (a : A)
      → ◌≡◌ {A = Fallible A} (ended r) (ended (ok a))
      → r ≡ ok a
  returned (ok b) a e = cc
  returned (err x) a e = absurd (cc)

  pub finish_session-Finished :
      (vm : Vm) (s : Session) (t : TlsTranscript)
      → finish_session read_body p curve_of sha256 vm s ≡ ended (ok t)
      → Finished vm s t
  unfolding finish_session
  finish_session-Finished vm s t e =
      let (records, q, e0) = chained (ended (commit vm s.record_layer).0) _ e in
      let (time, q0, e1) = chained (ended (ok_or s.time MpcTlsError.handshake)) _ e0 in
      let (server_key, q1, e2) = chained (ended (ok_or s.server_key MpcTlsError.handshake)) _ e1 in
      let (client, q2, e3) = chained (ended (ok_or s.client_random MpcTlsError.handshake)) _ e2 in
      let (server, q3, e4) = chained (ended (ok_or s.server_random MpcTlsError.handshake)) _ e3 in
      let (cf, q4, e5) = chained (ended (ok_or s.expected_cf_vd MpcTlsError.handshake)) _ e4 in
      let (sf, q5, e6) = chained (ended (ok_or s.expected_sf_vd MpcTlsError.handshake)) _ e5 in
      let (key, q6, e7) = chained (expected (server_ephem_key server_key)) _ e6 in
      let b =
        build read_body p curve_of sha256
          (follower_builder time client server key records.0 records.1) in
      let (u, q7, e8) = chained (built b) _ e7 in
      let (has_time, vers, binding, sent, recv) =
        build-given read_body p curve_of sha256 time TlsVersion.v1_2
          (record { client_random = client; server_random = server; server_ephemeral_key = key })
          none none records.0 records.1 u (built_ok b u q7) in
      record {
        records = records;
        committed = returned (commit vm s.record_layer).0 records q;
        time = time;
        client_random = client;
        server_random = server;
        key = server_key;
        known_time = set_some s.time time MpcTlsError.handshake q0;
        known_client = set_some s.client_random client MpcTlsError.handshake q2;
        known_server = set_some s.server_random server MpcTlsError.handshake q3;
        known_key = set_some s.server_key server_key MpcTlsError.handshake q1;
        holds =
            subst (Holds time client server server_key records) (checked_same cf sf u t e8)
              (record {
                has_time = has_time;
                has_version = vers;
                ephemeral = key;
                has_key = expected-some (server_ephem_key server_key) key q6;
                has_binding = binding;
                has_sent = sent;
                has_recv = recv;
              });
      }
