-- ===== src/Transcript/AppData.antt =====
-- The application data of a transcript.
use tlsn.Common.{
  ℕ, ◌≡◌, ◌⊎◌, inl, inr, refl, ap, List, [], ◌∷◌, ◌++◌, Option, none, some, Option-cases, Bool,
  true, false, Bool-cases, ok, err, All,
}
use tlsn.Transcript.{Record, Direction, incomplete, app_data, is_app_data, to_transcript, joined}

-- The plaintexts of the application data, as far as they are known.
known : Bool → Option (List ℕ) → List ℕ
known true (some plaintext) = plaintext
known true none = []
known false plaintext = []

unfoldable pub contents : List Record → List ℕ
unfolding known
contents [] = []
contents (r ∷ rs) = known (is_app_data r.typ) r.plaintext ++ contents rs

-- A record that the transcript can be made of.
abbrev pub IsKnown : Record → Type 0
IsKnown r = (is_app_data r.typ ≡ false) ⊎ ((plaintext : List ℕ) × (r.plaintext ≡ some plaintext))

-- The first record of application data without a plaintext.
pub record Missing (rs : List Record) (seq : ℕ) : Type 0 where
  pub before : List Record
  pub missing : Record
  pub behind : List Record
  pub parts : rs ≡ before ++ (missing ∷ behind)
  pub before_known : All IsKnown before
  pub is_data : is_app_data missing.typ ≡ true
  pub no_plaintext : missing.plaintext ≡ none
  pub number : missing.seq ≡ seq

-- In each direction either every record of application data has its plaintext, and the result is all of
-- these, one behind the other, or the error names the first record without one.
pub app_data_lem :
    (direction : Direction) (rs : List Record)
    → (All IsKnown rs × (app_data direction rs ≡ ok (contents rs)))
      ⊎ ((seq : ℕ) × (app_data direction rs ≡ err (incomplete direction seq)) × Missing rs seq)
unfolding app_data contents joined
app_data_lem direction [] = inl (tt, refl)
app_data_lem direction (r ∷ rs) = elim (Bool-cases (is_app_data r.typ)) [
  | inr other ↦ elim (app_data_lem direction rs) [
    | inl (all, e) ↦ inl ((inl other, all), rw (other, e))
    | inr (seq, e, m) ↦ inr (
      seq,
      rw (other, e),
      record {
        before = r ∷ m.before;
        missing = m.missing;
        behind = m.behind;
        parts = ap (λ t. r ∷ t) m.parts;
        before_known = (inl other, m.before_known);
        is_data = m.is_data;
        no_plaintext = m.no_plaintext;
        number = m.number;
      },
    )
  ]
  | inl here ↦ elim (Option-cases r.plaintext) [
    | inl none_here ↦ inr (
      r.seq,
      rw (here, none_here),
      record {
        before = [];
        missing = r;
        behind = rs;
        parts = refl;
        before_known = tt;
        is_data = here;
        no_plaintext = none_here;
        number = refl;
      },
    )
    | inr (plaintext, p) ↦ elim (app_data_lem direction rs) [
      | inl (all, e) ↦ inl ((inr (plaintext, p), all), rw (here, p, e))
      | inr (seq, e, m) ↦ inr (
        seq,
        rw (here, p, e),
        record {
          before = r ∷ m.before;
          missing = m.missing;
          behind = m.behind;
          parts = ap (λ t. r ∷ t) m.parts;
          before_known = (inr (plaintext, p), m.before_known);
          is_data = m.is_data;
          no_plaintext = m.no_plaintext;
          number = m.number;
        },
      )
    ]
  ]
]

-- `to_transcript` returns the plaintexts of both directions, if all records of application data have
-- theirs; or the error for the first record without one, of those sent if there is one among them, and
-- else of those received.
pub to_transcript_lem :
    (sent_records recv_records : List Record)
    → (All IsKnown sent_records
        × All IsKnown recv_records
        × (to_transcript sent_records recv_records
            ≡ ok (contents sent_records, contents recv_records)))
      ⊎ (((seq : ℕ) × (to_transcript sent_records recv_records
              ≡ err (incomplete Direction.sent seq))
            × Missing sent_records seq)
          ⊎ ((seq : ℕ) × (to_transcript sent_records recv_records
                ≡ err (incomplete Direction.received seq))
              × All IsKnown sent_records
              × Missing recv_records seq))
unfolding to_transcript
to_transcript_lem sent_records recv_records = elim (app_data_lem Direction.sent sent_records) [
  | inr (seq, e, m) ↦ inr (inl (seq, rw e, m))
  | inl (all, e) ↦ elim (app_data_lem Direction.received recv_records) [
    | inr (seq, e', m) ↦ inr (inr (seq, rw (e, e'), all, m))
    | inl (all', e') ↦ inl (all, all', rw (e, e'))
  ]
]
