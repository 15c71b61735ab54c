-- ===== src/Transcript/Builder/Given.antt =====
-- Transcripts built from records that are given, as both parties do.
use tlsn.Common.{ℕ, ◌≡◌, sym, ap, ◌∙◌, List, Option, none, some, ok}
use tlsn.Msgs.Handshake.{ReadBody}
use tlsn.Transcript.{Record}
use tlsn.Transcript.Ending.{>>=-eq-ok}
use tlsn.Transcript.Parse.{validate_seq}
use tlsn.Transcript.Connection.{TlsVersion, ServerSignature, CertBinding}
use tlsn.Transcript.Extract.{Payloads, CurveOf}
use tlsn.Transcript.Builder.{
  ended, TlsTranscript, TlsTranscriptBuilder, build, direction_records, checked_first, first_record,
}
use tlsn.Transcript.Builder.Built.{ended_same}

-- A builder that was given records and no bytes.
abbrev pub given :
    ℕ
    → TlsVersion
    → CertBinding
    → Option ServerSignature
    → Option (List (List ℕ))
    → List Record
    → List Record
    → TlsTranscriptBuilder
given time version binding sig chain sent recv = record {
  time = some time;
  version = some version;
  tls_sent = none;
  tls_recv = none;
  app_sent = none;
  app_recv = none;
  records_sent = some sent;
  records_recv = some recv;
  server_signature = sig;
  server_cert_chain = chain;
  certificate_binding = some binding;
}

module _ {B : Type 0} (read_body : ReadBody B) (p : Payloads B) (curve_of : CurveOf)
    (sha256 : List ℕ → List ℕ) where
  records_kept :
      (records rs : List Record)
      → direction_records read_body p (some records) none none ≡ ended (ok rs)
      → records ≡ rs
  unfolding direction_records
  records_kept records rs e =
      let (u, q, e1) = >>=-eq-ok (checked_first read_body p (first_record records)) _ e in
      let (v, q', e2) = >>=-eq-ok (ended (validate_seq records)) _ e1 in cc

  -- The transcript that is built has what the builder was given.
  pub build-given :
      (time : ℕ) (version : TlsVersion) (binding : CertBinding) (sig : Option ServerSignature)
      (chain : Option (List (List ℕ))) (sent recv : List Record) (t : TlsTranscript)
      → build read_body p curve_of sha256 (given time version binding sig chain sent recv)
        ≡ ended (ok t)
      → (t.time ≡ time)
        × (t.version ≡ version)
        × (t.certificate_binding ≡ binding)
        × (t.sent ≡ sent)
        × (t.recv ≡ recv)
  unfolding build
  build-given time version binding sig chain sent recv t e =
      let (sent', q, e1) = >>=-eq-ok (direction_records read_body p (some sent) none none) _ e in
      let (recv', q', e2) = >>=-eq-ok (direction_records read_body p (some recv) none none) _ e1 in
      let same = sym (ended_same _ t e2) in
      (
        ap (λ (x : TlsTranscript). x.time) same,
        ap (λ (x : TlsTranscript). x.version) same,
        ap (λ (x : TlsTranscript). x.certificate_binding) same,
        ap (λ (x : TlsTranscript). x.sent) same ∙ sym (records_kept sent sent' q),
        ap (λ (x : TlsTranscript). x.recv) same ∙ sym (records_kept recv recv' q'),
      )
