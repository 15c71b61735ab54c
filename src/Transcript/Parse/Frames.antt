-- ===== src/Transcript/Parse/Frames.antt =====
-- `parse_raw_records` and the encoding of frames are inverse to each other.
use tlsn.Common.{
  ℕ, zero, suc, inl, inr, ◌+◌, ◌<◌, ◌≡◌, ◌≢◌, ◌↔◌, refl, sym, ap, ◌∙◌, subst, List, [], ◌∷◌, ◌++◌,
  none, some, Bool-cases, Result-cases, ok, err, arith, length, drop, drop-drop, drop_all,
  length-append, length-drop, All, IsByte, All-drop,
}
use tlsn.Msgs.Reader.{Reader, init, any_left}
use tlsn.Msgs.Reader.Unread.{unread, advance, any_left_end, any_left_more, unread-advance}
use tlsn.Msgs.Message.{OpaqueMessage, read_opaque, encode_opaque}
use tlsn.Msgs.Message.Wire.{
  IsWire, read_opaque-encode, length-encode_opaque, encode-read_opaque-unread, with_cursor_ok,
  frame_of_needs_header,
}
use tlsn.Msgs.Message.Verdicts.{frame_of, read_opaque-frame_of}
use tlsn.Msgs.Deframer.Delivery.{wire}
use tlsn.Transcript.{parse}
use tlsn.Transcript.Parse.{
  raw_records_loop, next_record, parse_raw_records, pushed, pushed_ok, pushed_none,
}

raw_records_loop-wire :
    (fuel : ℕ) (r : Reader) (ms : List OpaqueMessage)
    → All IsWire ms
    → unread r ≡ wire ms
    → length (wire ms) < fuel
    → raw_records_loop fuel r ≡ some (ok ms)
unfolding raw_records_loop next_record
raw_records_loop-wire zero r ms w e h = absurd (omega arith)
raw_records_loop-wire (suc fuel) r [] w e h = rw (any_left_end r (omega (arith, ap length e)))
raw_records_loop-wire (suc fuel) r (m ∷ ms) (w, ws) e h =
    let size = length-append (encode_opaque m) (wire ms) in
    let m_size = length-encode_opaque m in
    let behind : unread (advance (length (encode_opaque m)) r) ≡ wire ms =
      unread-advance (length (encode_opaque m)) (encode_opaque m) (wire ms) r refl e in
    rw (
      any_left_more r (omega (arith, ap length e)),
      read_opaque-encode m r (wire ms) w e,
      raw_records_loop-wire fuel (advance (length (encode_opaque m)) r) ms ws behind (omega arith),
    )

-- The frames of a connection are read back from their encodings, one after the other.
pub parse_raw_records-wire :
    (ms : List OpaqueMessage) → All IsWire ms → parse_raw_records (wire ms) ≡ some (ok ms)
unfolding parse_raw_records
parse_raw_records-wire ms w =
    raw_records_loop-wire (suc (length (wire ms))) (init (wire ms)) ms w refl (omega arith)

-- What the loop took, one frame after the other.
raw_records_loop_sound :
    (fuel : ℕ) (r : Reader) (ms : List OpaqueMessage)
    → All IsByte (unread r)
    → raw_records_loop fuel r ≡ some (ok ms)
    → All IsWire ms × (unread r ≡ wire ms)
unfolding raw_records_loop next_record
raw_records_loop_sound zero r ms h e = absurd (cc)
raw_records_loop_sound (suc fuel) r ms h e = elim (Bool-cases (any_left r)) [
  | inr done ↦
      let none_read : some (ok []) ≡ some (ok ms) = rw done at e in
      let empty : [] ≡ ms = cc in
      subst (λ (xs : List OpaqueMessage). All IsWire xs × (unread r ≡ wire xs)) empty
        (tt, drop_all r.buf r.offs (ground arith))
  | inl more ↦ elim (Result-cases (read_opaque r)) [
    | inr (x, q) ↦ absurd (let stop : some (err parse) ≡ some (ok ms) = rw (more, q) at e in cc)
    | inl ((m, r'), q) ↦
        let step : pushed m (raw_records_loop fuel r') ≡ some (ok ms) = rw (more, q) at e in
        let (rest, looped, parts) = pushed_ok m (raw_records_loop fuel r') ms step in
        let (w, whole, there) = encode-read_opaque-unread m r r' h q in
        let size = length-encode_opaque m in
        let behind : unread r' ≡ drop (5 + length m.payload) (unread r) =
          ap unread there ∙ sym (drop-drop r.offs (5 + length m.payload) _ r.buf refl) in
        let bytes : All IsByte (unread r') =
          subst (λ (xs : List ℕ). All IsByte xs) (sym behind)
            (All-drop IsByte (5 + length m.payload) (unread r) h) in
        let (ws, tail) = raw_records_loop_sound fuel r' rest bytes looped in
        subst (λ (xs : List OpaqueMessage). All IsWire xs × (unread r ≡ wire xs)) (sym parts)
          ((w, ws), sym whole ∙ ap (λ t. encode_opaque m ++ t) (sym behind ∙ tail))
  ]
]

-- Each round takes a header, so that the loop ends.
raw_records_loop_ends :
    (fuel : ℕ) (r : Reader) → length (unread r) < fuel → raw_records_loop fuel r ≢ none
unfolding raw_records_loop next_record
raw_records_loop_ends zero r h = absurd (omega arith)
raw_records_loop_ends (suc fuel) r h = elim (Bool-cases (any_left r)) [
  | inr done ↦ rw done (λ e. cc)
  | inl more ↦ elim (Result-cases (read_opaque r)) [
    | inr (x, q) ↦ rw (more, q) (λ e. cc)
    | inl ((m, r'), q) ↦
        let (framed, there) =
          with_cursor_ok r r' (frame_of (unread r)) m
            (sym (read_opaque-frame_of (unread r) r refl) ∙ q) in
        let header = frame_of_needs_header (unread r) m framed in
        let shorter : length (unread r') < fuel = omega (
          arith,
          ap (λ (x : Reader). length (unread x)) there,
          length-drop r.offs r.buf,
          length-drop (r.offs + (5 + length m.payload)) r.buf,
        ) in
        rw (more, q)
          (λ e. raw_records_loop_ends fuel r' shorter (pushed_none m (raw_records_loop fuel r') e))
  ]
]

pub parse_raw_records_ends : (bytes : List ℕ) → parse_raw_records bytes ≢ none
unfolding parse_raw_records
parse_raw_records_ends bytes = raw_records_loop_ends (suc (length bytes)) (init bytes) (omega arith)

-- `parse_raw_records` ends on all bytes, and returns frames exactly if the bytes are the encodings of
-- these frames and all of them are acceptable.
pub parse_raw_records_iff :
    (bytes : List ℕ) (ms : List OpaqueMessage)
    → All IsByte bytes
    → (parse_raw_records bytes ≢ none)
      × ((parse_raw_records bytes ≡ some (ok ms)) ↔ (All IsWire ms × (bytes ≡ wire ms)))
unfolding parse_raw_records
parse_raw_records_iff bytes ms h = (
  parse_raw_records_ends bytes,
  (
    λ e. raw_records_loop_sound (suc (length bytes)) (init bytes) ms h e,
    λ (w, e). ap parse_raw_records e ∙ parse_raw_records-wire ms w,
  ),
)
