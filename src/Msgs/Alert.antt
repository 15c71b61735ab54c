-- ===== src/Msgs/Alert.antt =====
-- crates/tls/core/src/msgs/alert.rs and ccs.rs: alerts and the change of the cipher.
use tlsn.Common.{
  ℕ, ◌≡◌, refl, List, [], ◌∷◌, Option, none, some, Bool, true, false, not, ◌&&◌, ◌==◌,
  if◌then◌else◌, arith, length, IsByte, inl, inr, ap, append_assoc, ◌≢◌, ◌⊎◌, ◌<◌, ◌∙◌, ==_iff,
}
use tlsn.Msgs.Reader.{Reader, Read, any_left, ◌>>=◌}
use tlsn.Msgs.Reader.Unread.{
  unread, advance, advance-advance, unread-advance, any_left_end, any_left_more,
}
use tlsn.Msgs.Codec.{Codec, read_u8, u8_codec}
use tlsn.Msgs.Codec.Integers.{RoundTrips, read_u8-Takes}
use tlsn.Msgs.Enums.{enum_u8_codec, read_enum_u8}
use tlsn.Msgs.Enums.Laws.{IsCanonical, enum_u8_codec-RoundTrips}
use tlsn.Msgs.Enums.Alerts.{
  AlertLevel, AlertDescription, alert_level_enum, alert_description_enum, alert_level_get,
  alert_description_get,
}

pub record AlertMessagePayload : Type 0 where
  pub level : AlertLevel
  pub description : AlertDescription

-- `AlertMessagePayload::read`
unfoldable pub read_alert : Read AlertMessagePayload
read_alert r = do
  (level, r1) ← read_enum_u8 alert_level_enum r
  (description, r2) ← read_enum_u8 alert_description_enum r1
  some (record { level = level; description = description }, r2)

abbrev pub alert_codec : Codec AlertMessagePayload
alert_codec = record {
  encode = λ a bytes.
      (enum_u8_codec alert_description_enum).encode a.description
        ((enum_u8_codec alert_level_enum).encode a.level bytes);
  read = read_alert;
}

ccs_of : ℕ × Reader → Option (Unit {0} × Reader)
ccs_of (typ, r) = if (typ == 1) && not (any_left r) then some (tt, r) else none

-- `ChangeCipherSpecPayload::read`; the payload holds nothing.
unfoldable pub read_ccs : Read (Unit {0})
unfolding ccs_of
read_ccs r = do p ← read_u8 r; ccs_of p

abbrev pub ccs_codec : Codec (Unit {0})
ccs_codec = record { encode = λ p bytes. u8_codec.encode 1 bytes; read = read_ccs }

-- An alert whose level and description are canonical and fit a byte each is read back from its
-- encoding, whatever follows it, and the encoding is appended to what was written.
pub alert_codec-RoundTrips : RoundTrips alert_codec (λ (a : AlertMessagePayload).
    (IsCanonical alert_level_enum a.level × IsByte (alert_level_get a.level))
    × (IsCanonical alert_description_enum a.description
        × IsByte (alert_description_get a.description)))
unfolding read_alert
alert_codec-RoundTrips = record {
  appends = λ a bytes. append_assoc bytes _ _;
  fills = λ a. omega arith;
  takes = λ (a : AlertMessagePayload) (p, q) r ys e.
      let d = alert_description_get a.description in
      let first = (enum_u8_codec-RoundTrips alert_level_enum).takes a.level p r (d ∷ ys) e in
      let second =
        (enum_u8_codec-RoundTrips alert_description_enum).takes a.description q (advance 1 r) ys
          (unread-advance 1 (alert_level_get a.level ∷ []) (d ∷ ys) r refl e) in
      rw (first, second) (ap (λ x. some (a, x)) (advance-advance 1 1 2 r refl));
}

-- The change of the cipher is read exactly from the one byte 1, which nothing may follow.
pub read_ccs_iff :
    (r : Reader) (x : ℕ) (xs : List ℕ)
    → IsByte x
    → unread r ≡ x ∷ xs
    → (((x ≡ 1) × (xs ≡ [])) → read_ccs r ≡ some (tt, advance 1 r))
      × ((x ≢ 1) ⊎ (xs ≢ []) → read_ccs r ≡ none)
unfolding read_ccs ccs_of
read_ccs_iff r x xs h e =
    let first = read_u8-Takes x h r xs e in
    let behind : unread (advance 1 r) ≡ xs = unread-advance 1 (x ∷ []) xs r refl e in
    (
      λ (one, end).
          let is_one : (x == 1) ≡ true = (==_iff x 1).1 one in
          let none_left = any_left_end (advance 1 r) (ap length (behind ∙ end)) in
          rw (first, is_one, none_left) refl,
      λ bad. elim bad [
        | inl other ↦ let differs : (x == 1) ≡ false = ground arith in rw (first, differs) refl
        | inr more ↦
            let some_left = any_left_more (advance 1 r) (longer xs behind more) in
            rw (first, some_left) (not_ccs (x == 1))
      ],
    )
  where
    longer :
        (ys : List ℕ) → unread (advance 1 r) ≡ ys → (ys ≢ []) → 0 < length (unread (advance 1 r))
    longer [] q n = absurd (n refl)
    longer (y ∷ ys) q n = omega (arith, ap length q)

    not_ccs :
        (b : Bool)
        → if◌then◌else◌ {A = Option (Unit {0} × Reader)} (b && false) (some (tt, advance 1 r)) none
          ≡ none
    not_ccs true = refl
    not_ccs false = refl
