-- ===== src/Transcript/Parse/Numbered.antt =====
-- What `parse_records` makes of the frames of a connection.
use tlsn.Common.{
  ℕ, suc, inl, inr, ◌≡◌, ◌≢◌, refl, ap, ◌∙◌, subst, List, [], ◌∷◌, ◌++◌, Option, none, some,
  Option-cases, true, false, Bool-cases, ok, err, arith, ltb, leb, length, All,
}
use tlsn.Msgs.Enums.Content.{ContentType}
use tlsn.Msgs.Message.{OpaqueMessage}
use tlsn.Transcript.{RecordType, Record, parse, missing, validation, record_type}
use tlsn.Transcript.AppData.{contents}
use tlsn.Transcript.Ending.{ended, >>=-eq-ok}
use tlsn.Transcript.Parse.{
  cut_record, split_into_record, with_plaintext, parse_loop, behind_ccs, parse_finished,
  parse_records, validate_seq, is_handshake, is_change_cipher_spec,
}
use tlsn.Transcript.Parse.Cut.{IsSplit, cut_record-IsCut, split_ok, ended_same}
use tlsn.Transcript.Parse.Supply.{HasData, with_plaintext_ok, finished_lem}

-- The finished message comes first.
pub record StartsFinished (rs : List Record) : Type 0 where
  pub finished : Record
  pub others : List Record
  pub parts : rs ≡ finished ∷ others
  pub number : finished.seq ≡ 0
  pub kind : finished.typ ≡ RecordType.handshake

-- The records are the frames, numbered from `seq`.
abbrev pub Numbered : ℕ → List OpaqueMessage → List Record → Type 0
Numbered seq [] [] = Unit {0}
Numbered seq [] (r ∷ rs) = ⊥
Numbered seq (m ∷ ms) [] = ⊥
Numbered seq (m ∷ ms) (r ∷ rs) =
    (r.seq ≡ seq) × (r.typ ≡ record_type m.typ) × IsSplit r m.payload × Numbered (suc seq) ms rs

validate_seq-Numbered :
    (seq : ℕ) (ms : List OpaqueMessage) (rs : List Record)
    → Numbered seq ms rs
    → validate_seq rs ≡ ok tt
unfolding validate_seq
validate_seq-Numbered seq [] [] n = refl
validate_seq-Numbered seq [] (r ∷ rs) n = elim n [ ]
validate_seq-Numbered seq (m ∷ ms) [] n = elim n [ ]
validate_seq-Numbered seq (m ∷ ms) (r ∷ []) n = refl
validate_seq-Numbered seq (m ∷ []) (r ∷ r' ∷ rs) (a, b, c, d) = elim d [ ]
validate_seq-Numbered seq (m ∷ m' ∷ ms) (r ∷ r' ∷ rs) (a, b, c, (a', b', c', d')) =
    let later : leb r'.seq r.seq ≡ false = ground arith in
    rw later (validate_seq-Numbered (suc seq) (m' ∷ ms) (r' ∷ rs) (a', b', c', d'))

parse_loop_lem :
    (seq : ℕ) (app_data : Option (List ℕ)) (ms : List OpaqueMessage) (rs : List Record)
    → parse_loop seq app_data ms ≡ ended (ok rs)
    → Numbered seq ms rs × HasData app_data rs
unfolding parse_loop contents
parse_loop_lem seq none [] rs e =
    subst (λ (x : List Record). Numbered seq [] x × HasData none x) (ended_same [] rs e) (tt, tt)
parse_loop_lem seq (some app_data) [] rs e =
    subst (λ (x : List Record). Numbered seq [] x × HasData (some app_data) x) (ended_same [] rs e)
      (tt, (tt, (app_data, refl)))
parse_loop_lem seq app_data (m ∷ ms) rs e =
    let (rec, q, e1) = >>=-eq-ok (split_into_record seq m.payload m.typ) _ e in
    let ((rec', left), q2, e2) = >>=-eq-ok (with_plaintext rec app_data) _ e1 in
    let (rest, q3, e3) = >>=-eq-ok (parse_loop (suc seq) left ms) _ e2 in
    let c = split_ok seq m rec q in
    let s = with_plaintext_ok rec rec' app_data left c.hidden q2 in
    let (numbered, supplied) = parse_loop_lem (suc seq) left ms rest q3 in
    subst (λ (x : List Record). Numbered seq (m ∷ ms) x × HasData app_data x)
      (ended_same (rec' ∷ rest) rs e3)
      (
        (s.seq_same ∙ c.seq_set, s.typ_same ∙ c.typ_set, s.split_same m.payload c.split, numbered),
        s.supplies rest supplied,
      )

handshake_typ : (t : ContentType) → is_handshake t ≡ true → RecordType.handshake ≡ record_type t
handshake_typ ContentType.change_cipher_spec h = absurd (cc)
handshake_typ ContentType.alert h = absurd (cc)
handshake_typ ContentType.handshake h = refl
handshake_typ ContentType.application_data h = absurd (cc)
handshake_typ ContentType.heartbeat h = absurd (cc)
handshake_typ (ContentType.unknown x) h = absurd (cc)

parse_finished_lem :
    (app_data : Option (List ℕ)) (ms : List OpaqueMessage) (rs : List Record)
    → parse_finished app_data ms ≡ ended (ok rs)
    → Numbered 0 ms rs × HasData app_data rs × StartsFinished rs
unfolding parse_finished
parse_finished_lem app_data [] rs e = absurd (cc)
parse_finished_lem app_data (m ∷ ms) rs e = elim (Bool-cases (ltb (length m.payload) 24)) [
  | inl short ↦ absurd (let stop : ended (err parse) ≡ ended (ok rs) = rw short at e in cc)
  | inr long ↦ elim (Bool-cases (is_handshake m.typ)) [
    | inr other ↦
        absurd (let stop : ended (err validation) ≡ ended (ok rs) = rw (long, other) at e in cc)
    | inl hs ↦
        let (first, q, e1) =
          >>=-eq-ok (cut_record 0 RecordType.handshake m.payload) _ (rw (long, hs) at e) in
        let (rest, q2, e2) = >>=-eq-ok (parse_loop 1 app_data ms) _ e1 in
        let c = cut_record-IsCut 0 RecordType.handshake m.payload first (ground arith) q in
        let (numbered, supplied) = parse_loop_lem 1 app_data ms rest q2 in
        subst (λ (x : List Record). Numbered 0 (m ∷ ms) x × HasData app_data x × StartsFinished x)
          (ended_same (first ∷ rest) rs e2)
          (
            (c.seq_set, c.typ_set ∙ handshake_typ m.typ hs, c.split, numbered),
            finished_lem app_data first rest c.typ_set c.hidden supplied,
            record {
              finished = first;
              others = rest;
              parts = refl;
              number = c.seq_set;
              kind = c.typ_set;
            },
          )
  ]
]

is_change_cipher_spec-eq :
    (t : ContentType) → is_change_cipher_spec t ≡ true → t ≡ ContentType.change_cipher_spec
is_change_cipher_spec-eq ContentType.change_cipher_spec e = refl
is_change_cipher_spec-eq t e = absurd (cc)

-- The frames are cut at the first change of the cipher.
pub record IsBehind (records behind : List OpaqueMessage) : Type 0 where
  pub front : List OpaqueMessage
  pub change : OpaqueMessage
  pub parts : records ≡ front ++ (change ∷ behind)
  pub kind : change.typ ≡ ContentType.change_cipher_spec
  pub before : All (λ (m : OpaqueMessage). m.typ ≢ ContentType.change_cipher_spec) front

behind_ccs-IsBehind :
    (records behind : List OpaqueMessage)
    → behind_ccs records ≡ some behind
    → IsBehind records behind
unfolding behind_ccs
behind_ccs-IsBehind [] behind e = absurd (cc)
behind_ccs-IsBehind (m ∷ ms) behind e = elim (Bool-cases (is_change_cipher_spec m.typ)) [
  | inl here ↦
      let found : some ms ≡ some behind = rw here at e in
      record {
        front = [];
        change = m;
        parts = ap (λ (x : List OpaqueMessage). m ∷ x) (cc);
        kind = is_change_cipher_spec-eq m.typ here;
        before = tt;
      }
  | inr other ↦
      let rest = behind_ccs-IsBehind ms behind (rw other at e) in
      record {
        front = m ∷ rest.front;
        change = rest.change;
        parts = ap (λ (x : List OpaqueMessage). m ∷ x) rest.parts;
        kind = rest.kind;
        before = (
          λ q.
              absurd
                (let no : is_change_cipher_spec m.typ ≡ true = ap is_change_cipher_spec q in cc),
          rest.before,
        );
      }
]

-- What the records are, of the frames of a direction.
pub record IsParsed (records : List OpaqueMessage) (app_data : Option (List ℕ)) (rs : List Record)
    : Type 0 where
  pub behind : List OpaqueMessage
  pub cut : IsBehind records behind
  pub numbered : Numbered 0 behind rs
  pub supplied : HasData app_data rs
  pub first : StartsFinished rs
  pub ordered : validate_seq rs ≡ ok tt

-- The records that `parse_records` returns are the frames behind the first change of the cipher,
-- numbered from 0, of which the first is a handshake record: each has the first 8 bytes of its frame as
-- the nonce, the last 16 as the tag and those between them as the ciphertext. The plaintexts of the
-- application data, if it is given, are known and together a front of it, and otherwise no plaintext
-- is; and `validate_seq` accepts the records.
pub parse_records_lem :
    (records : List OpaqueMessage) (app_data : Option (List ℕ)) (rs : List Record)
    → parse_records records app_data ≡ ended (ok rs)
    → IsParsed records app_data rs
unfolding parse_records
parse_records_lem records app_data rs e = elim (Option-cases (behind_ccs records)) [
  | inl q ↦ absurd (let stop : ended (err missing) ≡ ended (ok rs) = rw q at e in cc)
  | inr (behind, q) ↦
      let (numbered, supplied, first) = parse_finished_lem app_data behind rs (rw q at e) in
      record {
        behind = behind;
        cut = behind_ccs-IsBehind records behind q;
        numbered = numbered;
        supplied = supplied;
        first = first;
        ordered = validate_seq-Numbered 0 behind rs numbered;
      }
]
