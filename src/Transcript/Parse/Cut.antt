-- ===== src/Transcript/Parse/Cut.antt =====
-- crates/core/src/transcript/tls/builder.rs: `split_into_record`, which cuts a payload into its parts.
use tlsn.Common.{
  ℕ, inl, inr, ◌-◌, ◌≤◌, ◌≡◌, sym, ap, ◌∙◌, subst, refl, List, ◌++◌, append_assoc, none, some,
  Bool-cases, ok, err, arith, ltb, length, take, drop, length-take, length-drop, take-append-drop,
  take-take_le,
}
use tlsn.Msgs.Message.{OpaqueMessage}
use tlsn.Transcript.{RecordType, Record, parse, record_type}
use tlsn.Transcript.Ending.{ended, Fallible, slice_lem, slice_from_lem, minus_lem}
use tlsn.Transcript.Parse.{cut_record, split_into_record}

-- A record has a nonce of 8 bytes, a tag of 16 and a ciphertext between them, which are the payload.
pub record IsSplit (r : Record) (payload : List ℕ) : Type 0 where
  pub tag : List ℕ
  pub tagged : r.tag ≡ some tag
  pub nonce_size : length r.explicit_nonce ≡ 8
  pub tag_size : length tag ≡ 16
  pub whole : r.explicit_nonce ++ (r.ciphertext ++ tag) ≡ payload

-- The parts of a payload that is long enough.
abbrev pub parts_of : ℕ → RecordType → List ℕ → Record
parts_of seq typ payload = record {
  seq = seq;
  typ = typ;
  plaintext = none;
  explicit_nonce = take 8 payload;
  ciphertext = drop 8 (take (length payload - 16) payload);
  tag = some (drop (length payload - 16) payload);
}

pub cut_record_long :
    (seq : ℕ) (typ : RecordType) (payload : List ℕ)
    → 24 ≤ length payload
    → cut_record seq typ payload ≡ ended (ok (parts_of seq typ payload))
unfolding cut_record
cut_record_long seq typ payload h =
    rw
      (
        slice_lem 0 8 payload (omega arith) (omega arith),
        minus_lem (length payload) 16 (omega arith),
        slice_lem 8 (length payload - 16) payload (omega arith) (omega arith),
        slice_from_lem (length payload - 16) payload (omega arith),
      )
      refl

parts_of-IsSplit :
    (seq : ℕ) (typ : RecordType) (payload : List ℕ)
    → 24 ≤ length payload
    → IsSplit (parts_of seq typ payload) payload
parts_of-IsSplit seq typ payload h =
    let body = take (length payload - 16) payload in
    let tag = drop (length payload - 16) payload in
    let front : take 8 payload ≡ take 8 body =
      sym (take-take_le 8 (length payload - 16) payload (omega arith)) in
    record {
      tag = tag;
      tagged = refl;
      nonce_size = omega (arith, length-take 8 payload);
      tag_size = omega (arith, length-drop (length payload - 16) payload);
      whole =
          ap (λ t. t ++ (drop 8 body ++ tag)) front
          ∙ sym (append_assoc (take 8 body) (drop 8 body) tag)
          ∙ ap (λ t. t ++ tag) (take-append-drop 8 body)
          ∙ take-append-drop (length payload - 16) payload;
    }

pub ended_same : {A : Type 0} (a b : A) → ◌≡◌ {A = Fallible A} (ended (ok a)) (ended (ok b)) → a ≡ b
ended_same a b e = cc

-- A record that was cut from a payload.
pub record IsCut (seq : ℕ) (typ : RecordType) (payload : List ℕ) (rec : Record) : Type 0 where
  pub seq_set : rec.seq ≡ seq
  pub typ_set : rec.typ ≡ typ
  pub hidden : rec.plaintext ≡ none
  pub split : IsSplit rec payload

pub cut_record-IsCut :
    (seq : ℕ) (typ : RecordType) (payload : List ℕ) (rec : Record)
    → 24 ≤ length payload
    → cut_record seq typ payload ≡ ended (ok rec)
    → IsCut seq typ payload rec
cut_record-IsCut seq typ payload rec h e =
    subst (λ (x : Record). IsCut seq typ payload x)
      (ended_same (parts_of seq typ payload) rec (sym (cut_record_long seq typ payload h) ∙ e))
      (record {
        seq_set = refl;
        typ_set = refl;
        hidden = refl;
        split = parts_of-IsSplit seq typ payload h;
      })

pub split_ok :
    (seq : ℕ) (m : OpaqueMessage) (rec : Record)
    → split_into_record seq m.payload m.typ ≡ ended (ok rec)
    → IsCut seq (record_type m.typ) m.payload rec
unfolding split_into_record
split_ok seq m rec e = elim (Bool-cases (ltb (length m.payload) 24)) [
  | inl short ↦ absurd (let stop : ended (err parse) ≡ ended (ok rec) = rw short at e in cc)
  | inr long ↦ cut_record-IsCut seq (record_type m.typ) m.payload rec (ground arith) (rw long at e)
]
