-- ===== src/Transcript/Builder/Ends.antt =====
-- `build` ends on all input, and panics only where it is given no records.
use tlsn.Common.{
  ℕ, zero, suc, inl, inr, ◌-◌, ◌≤◌, ◌<◌, ◌≡◌, ◌≢◌, ◌⊎◌, refl, sym, ap, ◌∙◌, List, [], ◌∷◌, Option,
  none, some, Option-cases, Bool, Bool-cases, Result, ok, err, ok_or, arith, length,
}
use tlsn.Msgs.Reader.{Reader, init, any_left, take_bytes, sub}
use tlsn.Msgs.Codec.{read_u8, read_u24}
use tlsn.Msgs.Enums.{read_enum_u8}
use tlsn.Msgs.Enums.Version.{ProtocolVersion}
use tlsn.Msgs.Enums.Handshakes.{HandshakeType}
use tlsn.Msgs.Message.{OpaqueMessage}
use tlsn.Transcript.{Record, TlsTranscriptError, missing}
use tlsn.Transcript.Extract.{Payloads, CurveOf, extract_handshake}
use tlsn.Transcript.Ending.{
  slice_lem, slice_from_lem, Ends, Anything, Ends-cases, Ends->>=, Ends-looped, then_ended,
}
use tlsn.Transcript.Parse.{
  pushed_none, parse_raw_records, parse_records, scan_handshake_messages, validate_seq,
  HandshakeMsgInfo, collect_handshake_bytes_pre_ccs,
}
use tlsn.Transcript.Parse.Frames.{parse_raw_records_ends}
use tlsn.Transcript.Parse.Safe.{parse_records-Ends}
use tlsn.Transcript.Parse.Within.{AreWithin, scan_handshake_messages-Ends}
use tlsn.Transcript.Builder.{
  ended, panicked, unfinished, Fallible, looped, TlsTranscriptBuilder, checked_first,
  direction_records, build, raw_of, components, validate_finished_record, messages_loop,
  next_message, parse_handshake_stream, parse_handshake_components,
}
use tlsn.Transcript.Hashes.{
  SfHashInput, compute_handshake_hashes, first_end, find_end, is_client_hello,
  is_client_key_exchange, is_server_hello, is_server_hello_done,
}
use tlsn.Msgs.Handshake.{ReadBody, HandshakeMessagePayload, read_version, whole_body}

-- A reader that moves on.
abbrev Moved : Reader → Reader → Type 0
Moved r r' = (r'.buf ≡ r.buf) × (r.offs ≤ r'.offs) × (r'.offs ≤ length r'.buf)

read_u8_moves : (r r' : Reader) (x : ℕ) → read_u8 r ≡ some (x, r') → Moved r r' × (r.offs < r'.offs)
unfolding read_u8 take_bytes
read_u8_moves r r' x e = ground arith

module _ {B : Type 0} (read_body : ReadBody B) where
  read_version_moves :
      (vers : ProtocolVersion) (r r' : Reader) (m : HandshakeMessagePayload B)
      → read_version read_body vers r ≡ some (m, r')
      → (r'.buf ≡ r.buf) × (r.offs < r'.offs) × (r'.offs ≤ length r'.buf)
  unfolding read_version read_enum_u8 read_u8 read_u24 take_bytes sub whole_body
  read_version_moves vers r r' m e = ground arith

  next_message_none :
      (loop : Reader → Option (Result (List (HandshakeMessagePayload B)) TlsTranscriptError))
      (m : HandshakeMessagePayload B) (r : Reader) (p : Payloads B)
      → loop r ≢ none
      → next_message read_body p loop (some (m, r)) ≢ none
  unfolding next_message
  next_message_none loop m r p h e = h (pushed_none m (loop r) e)

  messages_loop_ends :
      (p : Payloads B) (fuel : ℕ) (r : Reader)
      → length r.buf - r.offs < fuel
      → messages_loop read_body p fuel r ≢ none
  unfolding messages_loop
  messages_loop_ends p zero r h = absurd (omega arith)
  messages_loop_ends p (suc fuel) r h = elim (Bool-cases (any_left r)) [
    | inr done ↦ rw done (λ e. cc)
    | inl more ↦ elim (Option-cases (read_version read_body ProtocolVersion.tls_v1_2 r)) [
      | inl q ↦ rw (more, q, next_message) (λ e. cc)
      | inr ((m, r'), q) ↦
          let (same, moved, inside) = read_version_moves ProtocolVersion.tls_v1_2 r r' m q in
          rw (more, q)
            (next_message_none (messages_loop read_body p fuel) m r' p
              (messages_loop_ends p fuel r' (omega (arith, ap length same))))
    ]
  ]

-- A direction whose records are given, and are none.
abbrev pub NoRecords : Option (List Record) → Type 0
NoRecords given = given ≡ some []

-- The records that are given are not touched.
abbrev Kept :
    TlsTranscriptBuilder → TlsTranscriptBuilder × Option (List ℕ × List ℕ × SfHashInput) → Type 0
Kept b x = (x.0.records_sent ≡ b.records_sent) × (x.0.records_recv ≡ b.records_recv)

widened :
    (low middle high : ℕ) (out : List HandshakeMsgInfo)
    → low ≤ middle
    → AreWithin middle high out
    → AreWithin low high out
widened low middle high [] h w = tt
widened low middle high (m ∷ ms) h (l, top, ws) = (omega arith, top, ws)

module _ (P : Type 0) where
  raw_of-Ends : (given : Option (List ℕ)) → Ends P Anything (raw_of given)
  raw_of-Ends none = tt
  raw_of-Ends (some bytes) =
      Ends->>= P Anything Anything (looped (parse_raw_records bytes)) _
        (Ends-looped P (parse_raw_records bytes) (parse_raw_records_ends bytes)) (λ a q. tt)

  -- A call that does not panic panics at most where `P` holds.
  panic_free : {A : Type 0} (Q : A → Type 0) (m : Fallible A) → Ends ⊥ Q m → Ends P Q m
  panic_free Q (ended (ok a)) h = h
  panic_free Q (ended (err e)) h = h
  panic_free Q panicked h = absurd h
  panic_free Q unfinished h = absurd h

  first_end-Ends :
      (high : ℕ) (out : List HandshakeMsgInfo)
      → AreWithin 0 high out
      → Ends P (λ (n : ℕ). (n ≤ high) × AreWithin n high out) (ended (first_end out))
  first_end-Ends high [] w = tt
  first_end-Ends high (m ∷ ms) (low, top, ws) = elim (Bool-cases (is_client_hello m.typ)) [
    | inl hello ↦ rw hello (top, (omega arith, top, ws))
    | inr other ↦ rw other tt
  ]

  find_end-Ends :
      (is_typ : HandshakeType → Bool) (low high : ℕ) (out : List HandshakeMsgInfo)
      → AreWithin low high out
      → Ends P (λ (n : ℕ). (low ≤ n) × (n ≤ high)) (ended (find_end is_typ out))
  unfolding find_end
  find_end-Ends is_typ low high [] w = tt
  find_end-Ends is_typ low high (m ∷ ms) (l, top, ws) = elim (Bool-cases (is_typ m.typ)) [
    | inl here ↦ rw here (l, top)
    | inr other ↦ rw other (find_end-Ends is_typ low high ms (widened low m.end high ms l ws))
  ]

  compute_handshake_hashes-Ends :
      (sha256 : List ℕ → List ℕ) (sent recv : List ℕ) (sent_msgs recv_msgs : List HandshakeMsgInfo)
      → AreWithin 0 (length sent) sent_msgs
      → AreWithin 0 (length recv) recv_msgs
      → Ends P Anything (compute_handshake_hashes sha256 sent recv sent_msgs recv_msgs)
  unfolding compute_handshake_hashes
  compute_handshake_hashes-Ends sha256 sent recv sent_msgs recv_msgs w v =
      Ends->>= P (λ (n : ℕ). (n ≤ length sent) × AreWithin n (length sent) sent_msgs) Anything
        (ended (first_end sent_msgs)) _ (first_end-Ends (length sent) sent_msgs w)
        λ ch (ch_in, later).
          Ends->>= P (λ (n : ℕ). (ch ≤ n) × (n ≤ length sent)) Anything
            (ended (find_end is_client_key_exchange sent_msgs)) _
            (find_end-Ends is_client_key_exchange ch (length sent) sent_msgs later)
            λ ckx (behind, ckx_in).
              then_ended P Anything (find_end is_server_hello recv_msgs) _ λ a.
                Ends->>= P (λ (n : ℕ). (0 ≤ n) × (n ≤ length recv)) Anything
                  (ended (find_end is_server_hello_done recv_msgs)) _
                  (find_end-Ends is_server_hello_done 0 (length recv) recv_msgs v)
                  λ shd (_, shd_in).
                    rw
                      (
                        slice_lem 0 ch sent (omega arith) ch_in,
                        slice_lem ch ckx sent behind ckx_in,
                        slice_lem 0 shd recv (omega arith) shd_in,
                        slice_from_lem ch sent ch_in,
                      )
                      tt

  module _ {B : Type 0} (read_body : ReadBody B) (p : Payloads B) where
    parse_handshake_stream-Ends :
        (bytes : List ℕ) → Ends P Anything (parse_handshake_stream read_body p bytes)
    unfolding parse_handshake_stream
    parse_handshake_stream-Ends bytes =
        Ends-looped P (messages_loop read_body p (suc (length bytes)) (init bytes))
          (messages_loop_ends read_body p (suc (length bytes)) (init bytes) (omega arith))

    direction_records-Ends :
        (given : Option (List Record)) (raw : Option (List OpaqueMessage)) (app : Option (List ℕ))
        → (NoRecords given → P)
        → Ends P Anything (direction_records read_body p given raw app)
    unfolding direction_records checked_first
    direction_records-Ends (some []) raw app none_given = none_given refl
    direction_records-Ends (some (r ∷ rs)) raw app none_given =
        then_ended P Anything (validate_finished_record read_body p r) _
          λ a. then_ended P Anything (validate_seq (r ∷ rs)) _ λ a. tt
    direction_records-Ends none (some raw) app none_given =
        Ends->>= P Anything Anything (parse_records raw app) _ (parse_records-Ends P raw app)
          λ a q. then_ended P Anything (validate_seq a) _ λ a. tt
    direction_records-Ends none none app none_given = tt

    module _ (curve_of : CurveOf) (sha256 : List ℕ → List ℕ) where
      components-Ends :
          (b : TlsTranscriptBuilder) (sent_raw recv_raw : Option (List OpaqueMessage))
          → Ends P (Kept b) (components read_body p curve_of sha256 b sent_raw recv_raw)
      unfolding components parse_handshake_components
      components-Ends b none recv_raw = (refl, refl)
      components-Ends b (some sent) none = (refl, refl)
      components-Ends b (some sent) (some recv) =
          let sent_bytes = collect_handshake_bytes_pre_ccs sent in
          let recv_bytes = collect_handshake_bytes_pre_ccs recv in
          Ends->>= P (λ x. Kept b (x.0, none)) (Kept b)
            (parse_handshake_components read_body p curve_of sha256 b sent recv) _
            (Ends->>= P Anything (λ x. Kept b (x.0, none))
              (parse_handshake_stream read_body p sent_bytes) _
              (parse_handshake_stream-Ends sent_bytes)
              λ sent_hs q.
                Ends->>= P Anything (λ x. Kept b (x.0, none))
                  (parse_handshake_stream read_body p recv_bytes) _
                  (parse_handshake_stream-Ends recv_bytes)
                  λ recv_hs q.
                    then_ended P (λ x. Kept b (x.0, none))
                      (extract_handshake p curve_of sent_hs recv_hs) _
                      λ a.
                        Ends->>= P (AreWithin 0 (length sent_bytes)) (λ x. Kept b (x.0, none))
                          (scan_handshake_messages sent_bytes) _
                          (panic_free (AreWithin 0 (length sent_bytes))
                            (scan_handshake_messages sent_bytes)
                            (scan_handshake_messages-Ends sent_bytes))
                          λ sent_msgs sent_within.
                            Ends->>= P (AreWithin 0 (length recv_bytes)) (λ x. Kept b (x.0, none))
                              (scan_handshake_messages recv_bytes) _
                              (panic_free (AreWithin 0 (length recv_bytes))
                                (scan_handshake_messages recv_bytes)
                                (scan_handshake_messages-Ends recv_bytes))
                              λ recv_msgs recv_within.
                                Ends->>= P Anything (λ x. Kept b (x.0, none))
                                  (compute_handshake_hashes sha256 sent_bytes recv_bytes sent_msgs
                                    recv_msgs)
                                  _
                                  (compute_handshake_hashes-Ends sha256 sent_bytes recv_bytes
                                    sent_msgs recv_msgs sent_within recv_within)
                                  λ a q. (refl, refl))
            (λ x q. q)

module _ {B : Type 0} (read_body : ReadBody B) (p : Payloads B) (curve_of : CurveOf)
    (sha256 : List ℕ → List ℕ) where
  -- `build` ends, whatever it is given and however bodies are read, takes no slice and no byte out of
  -- range, and panics only if the records of a direction are given and are none.
  pub build_ends :
      (b : TlsTranscriptBuilder)
      → (build read_body p curve_of sha256 b ≢ unfinished)
        × ((build read_body p curve_of sha256 b ≡ panicked)
            → NoRecords b.records_sent ⊎ NoRecords b.records_recv)
  unfolding build
  build_ends b =
      let P = NoRecords b.records_sent ⊎ NoRecords b.records_recv in
      Ends-cases P Anything (build read_body p curve_of sha256 b) (
        then_ended P Anything (ok_or b.time missing) _ λ time.
          Ends->>= P Anything Anything (raw_of b.tls_sent) _ (raw_of-Ends P b.tls_sent)
            λ sent_raw q.
              Ends->>= P Anything Anything (raw_of b.tls_recv) _ (raw_of-Ends P b.tls_recv)
                λ recv_raw q.
                  Ends->>= P (Kept b) Anything
                    (components read_body p curve_of sha256 b sent_raw recv_raw) _
                    (components-Ends P read_body p curve_of sha256 b sent_raw recv_raw)
                    λ x kept.
                      Ends->>= P Anything Anything
                        (direction_records read_body p x.0.records_sent sent_raw x.0.app_sent) _
                        (direction_records-Ends P read_body p x.0.records_sent sent_raw x.0.app_sent
                          (λ e. inl (sym kept.0 ∙ e)))
                        λ sent q.
                          Ends->>= P Anything Anything
                            (direction_records read_body p x.0.records_recv recv_raw x.0.app_recv) _
                            (direction_records-Ends P read_body p x.0.records_recv recv_raw
                              x.0.app_recv (λ e. inr (sym kept.1 ∙ e)))
                            λ recv q. then_ended P Anything (ok_or x.0.version missing) _ λ version.
                              then_ended P Anything (ok_or x.0.certificate_binding missing) _
                                λ binding. tt)
