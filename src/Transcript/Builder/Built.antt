-- ===== src/Transcript/Builder/Built.antt =====
-- What holds of every transcript that is built.
use tlsn.Common.{
  ℕ, inl, inr, ◌<◌, ◌≡◌, refl, ap, subst, List, [], ◌∷◌, Option, none, some, true, ◌==◌, ==_iff,
  leb, Bool-cases, ok, err, ok_or, arith,
}
use tlsn.Msgs.Handshake.{ReadBody}
use tlsn.Msgs.Message.{OpaqueMessage}
use tlsn.Transcript.{RecordType, Record, missing, validation}
use tlsn.Transcript.Extract.{Payloads, CurveOf}
use tlsn.Transcript.Ending.{>>=-eq-ok}
use tlsn.Transcript.Parse.{parse_records, validate_seq}
use tlsn.Transcript.Parse.Numbered.{StartsFinished, parse_records_lem}
use tlsn.Transcript.Builder.{
  ended, Fallible, TlsTranscript, TlsTranscriptBuilder, first_record, is_record_handshake,
  validate_finished_record, checked_first, direction_records, build, raw_of, components, cf_vd,
  sf_vd, verify_data,
}

-- The sequence numbers ascend strictly.
abbrev pub Increasing : List Record → Type 0
Increasing [] = Unit
Increasing (a ∷ []) = Unit
Increasing (a ∷ b ∷ rs) = (a.seq < b.seq) × Increasing (b ∷ rs)

validate_seq-Increasing : (rs : List Record) → validate_seq rs ≡ ok tt → Increasing rs
unfolding validate_seq
validate_seq-Increasing [] e = tt
validate_seq-Increasing (a ∷ []) e = tt
validate_seq-Increasing (a ∷ b ∷ rs) e = elim (Bool-cases (leb b.seq a.seq)) [
  | inl late ↦ absurd (let stop : err validation ≡ ok tt = rw late at e in cc)
  | inr later ↦ (ground arith, validate_seq-Increasing (b ∷ rs) (rw later at e))
]

-- The records of one direction: the finished message first, and ascending numbers.
pub record IsDirection (rs : List Record) : Type 0 where
  pub first : StartsFinished rs
  pub order : Increasing rs

handshake_kind : (t : RecordType) → is_record_handshake t ≡ true → t ≡ RecordType.handshake
handshake_kind RecordType.change_cipher_spec h = absurd (cc)
handshake_kind RecordType.alert h = absurd (cc)
handshake_kind RecordType.handshake h = refl
handshake_kind RecordType.application_data h = absurd (cc)
handshake_kind RecordType.heartbeat h = absurd (cc)
handshake_kind (RecordType.unknown x) h = absurd (cc)

pub ended_same :
    (a b : TlsTranscript) → ◌≡◌ {A = Fallible TlsTranscript} (ended (ok a)) (ended (ok b)) → a ≡ b
ended_same a b e = cc

vd_of :
    (rs : List Record)
    → StartsFinished rs
    → (vd : Option (List ℕ)) × (verify_data (first_record rs) ≡ ended vd)
unfolding verify_data
vd_of rs f = (_, ap (λ (x : List Record). verify_data (first_record x)) f.parts)

module _ {B : Type 0} (read_body : ReadBody B) (p : Payloads B) where
  validated :
      (r : Record)
      → validate_finished_record read_body p r ≡ ok tt
      → (r.seq ≡ 0) × (r.typ ≡ RecordType.handshake)
  unfolding validate_finished_record
  validated r e = elim (Bool-cases (is_record_handshake r.typ)) [
    | inr other ↦ absurd (let stop : err validation ≡ ok tt = rw other at e in cc)
    | inl hs ↦ elim (Bool-cases (r.seq == 0)) [
      | inr other ↦ absurd (let stop : err validation ≡ ok tt = rw (hs, other) at e in cc)
      | inl first ↦ ((==_iff r.seq 0).0 first, handshake_kind r.typ hs)
    ]
  ]

  given_first :
      (rs : List Record)
      → checked_first read_body p (first_record rs) ≡ ended (ok tt)
      → StartsFinished rs
  unfolding checked_first
  given_first [] e = absurd (cc)
  given_first (r ∷ rs) e =
      let (number, kind) = validated r (cc) in
      record { finished = r; others = rs; parts = refl; number = number; kind = kind }

  direction_records-IsDirection :
      (given : Option (List Record)) (raw : Option (List OpaqueMessage)) (app : Option (List ℕ))
      (rs : List Record)
      → direction_records read_body p given raw app ≡ ended (ok rs)
      → IsDirection rs
  unfolding direction_records
  direction_records-IsDirection (some records) raw app rs e =
      let (u, first, e1) = >>=-eq-ok (checked_first read_body p (first_record records)) _ e in
      let (v, order, e2) = >>=-eq-ok (ended (validate_seq records)) _ e1 in
      subst (λ (x : List Record). IsDirection x) (cc)
        (record { first = given_first records first; order = validate_seq-Increasing records (cc) })
  direction_records-IsDirection none (some raw) app rs e =
      let (records, parsed, e1) = >>=-eq-ok (parse_records raw app) _ e in
      let (v, order, e2) = >>=-eq-ok (ended (validate_seq records)) _ e1 in
      let found = parse_records_lem raw app records parsed in
      let first = found.first in
      let ordered = found.ordered in
      subst (λ (x : List Record). IsDirection x) (cc)
        (record { first = first; order = validate_seq-Increasing records ordered })
  direction_records-IsDirection none none app rs e = absurd (cc)

  module _ (curve_of : CurveOf) (sha256 : List ℕ → List ℕ) where
    -- Every transcript that is built, from records or from bytes, has in each direction a handshake
    -- record of number 0 first, and numbers that ascend strictly; so the verify data can be asked for
    -- without a panic.
    pub build-IsDirection :
        (b : TlsTranscriptBuilder) (t : TlsTranscript)
        → build read_body p curve_of sha256 b ≡ ended (ok t)
        → IsDirection t.sent
          × IsDirection t.recv
          × ((vd : Option (List ℕ)) × (cf_vd t ≡ ended vd))
          × ((vd : Option (List ℕ)) × (sf_vd t ≡ ended vd))
    unfolding build cf_vd sf_vd
    build-IsDirection b t e =
        let (time, q0, e0) = >>=-eq-ok (ended (ok_or b.time missing)) _ e in
        let (sent_raw, q1, e1) = >>=-eq-ok (raw_of b.tls_sent) _ e0 in
        let (recv_raw, q2, e2) = >>=-eq-ok (raw_of b.tls_recv) _ e1 in
        let ((b', hashes), q3, e3) =
          >>=-eq-ok (components read_body p curve_of sha256 b sent_raw recv_raw) _ e2 in
        let (sent, q4, e4) =
          >>=-eq-ok (direction_records read_body p b'.records_sent sent_raw b'.app_sent) _ e3 in
        let (recv, q5, e5) =
          >>=-eq-ok (direction_records read_body p b'.records_recv recv_raw b'.app_recv) _ e4 in
        let (version, q6, e6) = >>=-eq-ok (ended (ok_or b'.version missing)) _ e5 in
        let (binding, q7, e7) = >>=-eq-ok (ended (ok_or b'.certificate_binding missing)) _ e6 in
        let s = direction_records-IsDirection b'.records_sent sent_raw b'.app_sent sent q4 in
        let r = direction_records-IsDirection b'.records_recv recv_raw b'.app_recv recv q5 in
        let same = ended_same _ t e7 in
        let s' : IsDirection t.sent =
          subst (λ (x : List Record). IsDirection x) (ap (λ (x : TlsTranscript). x.sent) same) s in
        let r' : IsDirection t.recv =
          subst (λ (x : List Record). IsDirection x) (ap (λ (x : TlsTranscript). x.recv) same) r in
        (s', r', vd_of t.sent s'.first, vd_of t.recv r'.first)
