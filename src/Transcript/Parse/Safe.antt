-- ===== src/Transcript/Parse/Safe.antt =====
-- crates/core/src/transcript/tls/builder.rs: `parse_records` takes no slice out of range.
use tlsn.Common.{
  ℕ, suc, ◌≤◌, List, [], ◌∷◌, Option, none, some, Option-cases, Bool-cases, arith, ltb, leb, length,
  inl, inr,
}
use tlsn.Msgs.Enums.Content.{ContentType}
use tlsn.Msgs.Message.{OpaqueMessage}
use tlsn.Transcript.{RecordType, Record, is_app_data, record_type}
use tlsn.Transcript.Ending.{Ends, Anything, Ends->>=, slice_lem, slice_from_lem}
use tlsn.Transcript.Parse.{
  cut_record, split_into_record, with_plaintext, take_plaintext, parse_loop, behind_ccs,
  parse_finished, parse_records, is_handshake,
}
use tlsn.Transcript.Parse.Cut.{cut_record_long}

module _ (P : Type 0) where
  cut_record-Ends :
      (seq : ℕ) (typ : RecordType) (payload : List ℕ)
      → 24 ≤ length payload
      → Ends P Anything (cut_record seq typ payload)
  cut_record-Ends seq typ payload h = rw (cut_record_long seq typ payload h) tt

  split_into_record-Ends :
      (seq : ℕ) (payload : List ℕ) (typ : ContentType)
      → Ends P Anything (split_into_record seq payload typ)
  unfolding split_into_record
  split_into_record-Ends seq payload typ = elim (Bool-cases (ltb (length payload) 24)) [
    | inl short ↦ rw short tt
    | inr long ↦ rw long (cut_record-Ends seq (record_type typ) payload (ground arith))
  ]

  with_plaintext-Ends :
      (rec : Record) (app_data : Option (List ℕ)) → Ends P Anything (with_plaintext rec app_data)
  unfolding with_plaintext take_plaintext
  with_plaintext-Ends rec none = tt
  with_plaintext-Ends rec (some app_data) = elim (Bool-cases (is_app_data rec.typ)) [
    | inr other ↦ rw other tt
    | inl here ↦ elim (Bool-cases (leb (length rec.ciphertext) (length app_data))) [
      | inr short ↦ rw (here, short) tt
      | inl enough ↦
          let n = length rec.ciphertext in
          let fits : n ≤ length app_data = ground arith in
          rw
            (
              here,
              enough,
              slice_lem 0 n app_data (omega arith) fits,
              slice_from_lem n app_data fits,
            )
            tt
    ]
  ]

  parse_loop-Ends :
      (seq : ℕ) (app_data : Option (List ℕ)) (ms : List OpaqueMessage)
      → Ends P Anything (parse_loop seq app_data ms)
  unfolding parse_loop
  parse_loop-Ends seq app_data [] = tt
  parse_loop-Ends seq app_data (m ∷ ms) =
      Ends->>= P Anything Anything (split_into_record seq m.payload m.typ) _
        (split_into_record-Ends seq m.payload m.typ)
        λ rec q.
          Ends->>= P Anything Anything (with_plaintext rec app_data) _
            (with_plaintext-Ends rec app_data)
            λ x q.
              Ends->>= P Anything Anything (parse_loop (suc seq) x.1 ms) _
                (parse_loop-Ends (suc seq) x.1 ms) λ rest q. tt

  parse_finished-Ends :
      (app_data : Option (List ℕ)) (ms : List OpaqueMessage)
      → Ends P Anything (parse_finished app_data ms)
  unfolding parse_finished
  parse_finished-Ends app_data [] = tt
  parse_finished-Ends app_data (m ∷ ms) = elim (Bool-cases (ltb (length m.payload) 24)) [
    | inl short ↦ rw short tt
    | inr long ↦ elim (Bool-cases (is_handshake m.typ)) [
      | inr other ↦ rw (long, other) tt
      | inl hs ↦
          rw (long, hs)
            (Ends->>= P Anything Anything (cut_record 0 RecordType.handshake m.payload) _
              (cut_record-Ends 0 RecordType.handshake m.payload (ground arith))
              λ first q.
                Ends->>= P Anything Anything (parse_loop 1 app_data ms) _
                  (parse_loop-Ends 1 app_data ms) λ rest q. tt)
    ]
  ]

  -- On all frames and application data.
  pub parse_records-Ends :
      (records : List OpaqueMessage) (app_data : Option (List ℕ))
      → Ends P Anything (parse_records records app_data)
  unfolding parse_records
  parse_records-Ends records app_data = elim (Option-cases (behind_ccs records)) [
    | inl q ↦ rw q tt
    | inr (behind, q) ↦ rw q (parse_finished-Ends app_data behind)
  ]
