-- ===== src/Transcript/Parse/Supply.antt =====
-- crates/core/src/transcript/tls/builder.rs: the plaintexts that `parse_records` gives to the records.
use tlsn.Common.{
  ℕ, inl, inr, ◌≤◌, ◌≡◌, refl, sym, ap, ◌∙◌, subst, List, ◌∷◌, ◌++◌, append_assoc, Option, none,
  some, false, Bool-cases, ok, err, arith, leb, length, take, drop, take-append-drop, All,
}
use tlsn.Transcript.{RecordType, Record, parse, is_app_data}
use tlsn.Transcript.AppData.{contents, IsKnown}
use tlsn.Transcript.Ending.{ended, Fallible, slice_lem, slice_from_lem}
use tlsn.Transcript.Parse.{with_plaintext, take_plaintext}
use tlsn.Transcript.Parse.Cut.{IsSplit}

-- The plaintexts are cut from the front of the application data, if there is some.
abbrev pub HasData : Option (List ℕ) → List Record → Type 0
HasData none rs = All (λ (r : Record). r.plaintext ≡ none) rs
HasData (some app_data) rs = All IsKnown rs × ((left : List ℕ) × (app_data ≡ contents rs ++ left))

-- A record keeps all but its plaintext, and takes that from the front.
pub record Supplied (rec rec' : Record) (data_of data_left : Option (List ℕ)) : Type 0 where
  pub seq_same : rec'.seq ≡ rec.seq
  pub typ_same : rec'.typ ≡ rec.typ
  pub split_same : (payload : List ℕ) → IsSplit rec payload → IsSplit rec' payload
  pub supplies : (rs : List Record) → HasData data_left rs → HasData data_of (rec' ∷ rs)

ok_pair :
    (r r' : Record) (o o' : Option (List ℕ))
    → ◌≡◌ {A = Fallible (Record × Option (List ℕ))} (ended (ok (r, o))) (ended (ok (r', o')))
    → (r ≡ r') × (o ≡ o')
ok_pair r r' o o' e = (cc, cc)

pub with_plaintext_ok :
    (rec rec' : Record) (data_of data_left : Option (List ℕ))
    → rec.plaintext ≡ none
    → with_plaintext rec data_of ≡ ended (ok (rec', data_left))
    → Supplied rec rec' data_of data_left
unfolding with_plaintext take_plaintext contents
with_plaintext_ok rec rec' none data_left hidden e =
    let (same, left) = ok_pair rec rec' none data_left e in
    subst (λ (x : Record). Supplied rec x none data_left) same
      (subst (λ (x : Option (List ℕ)). Supplied rec rec none x) left
        (record {
          seq_same = refl;
          typ_same = refl;
          split_same = λ payload s. s;
          supplies = λ rs h. (hidden, h);
        }))
with_plaintext_ok rec rec' (some app_data) data_left hidden e =
    elim (Bool-cases (is_app_data rec.typ)) [
      | inr other ↦
          let (same, left) = ok_pair rec rec' (some app_data) data_left (rw other at e) in
          subst (λ (x : Record). Supplied rec x (some app_data) data_left) same
            (subst (λ (x : Option (List ℕ)). Supplied rec rec (some app_data) x) left
              (record {
                seq_same = refl;
                typ_same = refl;
                split_same = λ payload s. s;
                supplies = λ rs (all, (rest, whole)). ((inl other, all), (rest, rw other whole));
              }))
      | inl here ↦ elim (Bool-cases (leb (length rec.ciphertext) (length app_data))) [
        | inr short ↦ absurd (
            let stop : ended (err parse) ≡ ended (ok (rec', data_left)) = rw (here, short) at e in
            cc)
        | inl enough ↦
            let n = length rec.ciphertext in
            let given : Record = record rec { plaintext = some (take n app_data) } in
            let fits : n ≤ length app_data = ground arith in
            let e' = rw (here, enough) at e in
            let (same, left) = ok_pair given rec' (some (drop n app_data)) data_left (
              rw (slice_lem 0 n app_data (omega arith) fits, slice_from_lem n app_data fits) at
                e') in
            subst (λ (x : Record). Supplied rec x (some app_data) data_left) same
              (subst (λ (x : Option (List ℕ)). Supplied rec given (some app_data) x) left
                (record {
                  seq_same = refl;
                  typ_same = refl;
                  split_same = λ payload s. record {
                    tag = s.tag;
                    tagged = s.tagged;
                    nonce_size = s.nonce_size;
                    tag_size = s.tag_size;
                    whole = s.whole;
                  };
                  supplies = λ rs (all, (rest, whole)). (
                    (inr (take n app_data, refl), all),
                    (
                      rest,
                      rw here (
                          sym (take-append-drop n app_data)
                          ∙ ap (λ t. take n app_data ++ t) whole
                          ∙ sym (append_assoc (take n app_data) (contents rs) rest)),
                    ),
                  );
                }))
      ]
    ]

-- The finished record holds no application data.
pub finished_lem :
    (app_data : Option (List ℕ)) (r : Record) (rs : List Record)
    → r.typ ≡ RecordType.handshake
    → r.plaintext ≡ none
    → HasData app_data rs
    → HasData app_data (r ∷ rs)
unfolding contents
finished_lem none r rs t n h = (n, h)
finished_lem (some app_data) r rs t n (all, (left, whole)) =
    let other : is_app_data r.typ ≡ false = ap is_app_data t in
    ((inl other, all), (left, rw other whole))
