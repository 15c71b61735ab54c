-- ===== src/Mpc/Utils.antt =====
-- crates/mpc-tls/src/utils.rs, and the checks on a transcript that both parties make at the end.
pub mod Split
use tlsn.Common.{
  ℕ, ◌+◌, ◌-◌, ◌≤◌, ◌<◌, ◌≡◌, refl, sym, ap, ◌∙◌, List, [], ◌∷◌, ◌++◌, Option, none, some, Bool,
  true, false, not, ◌&&◌, ◌==◌, ltb, ge→ltb, lt→ltb, if◌then◌else◌, arith, length, take, drop,
  length-take, length-drop, take-append-drop, Result, ok, err,
}
use tlsn.Msgs.Reader.{Reader, init}
use tlsn.Msgs.Alert.{AlertMessagePayload, read_alert}
use tlsn.Msgs.Enums.Alerts.{AlertDescription}
use tlsn.Transcript.{RecordType, Record}
use tlsn.Transcript.Builder.{Ending, ended, panicked, unfinished, TlsTranscript, cf_vd, sf_vd}
use tlsn.Mpc.Ops.{MpcTlsError}

abbrev pub Fallible : Type 0 → Type 0
Fallible A = Ending (Result A MpcTlsError)

infixl 5 ◌>>=◌
abbrev pub ◌>>=◌ : {A B : Type 0} → Fallible A → (A → Fallible B) → Fallible B
ended (ok a) >>= f = f a
ended (err e) >>= f = ended (err e)
panicked >>= f = panicked
unfinished >>= f = unfinished

-- What stands between the front of 8 bytes and the tag.
split_front : List ℕ → List ℕ → Fallible (List ℕ × List ℕ × List ℕ)
split_front front tag =
    if ltb (length front) 8
    then panicked
    else if not (length (take 8 front) == 8)
    then ended (err MpcTlsError.other)
    else ended (ok (take 8 front, drop 8 front, tag))

-- `opaque_into_parts`: `msg.len() - 16` and `split_off` panic where the message is too short.
unfoldable pub opaque_into_parts : List ℕ → Fallible (List ℕ × List ℕ × List ℕ)
unfolding split_front
opaque_into_parts msg =
    if ltb (length msg) 16
    then panicked
    else split_front (take (length msg - 16) msg) (drop (length msg - 16) msg)

-- `==` of byte slices.
abbrev pub same_bytes : List ℕ → List ℕ → Bool
same_bytes [] [] = true
same_bytes [] (y ∷ ys) = false
same_bytes (x ∷ xs) [] = false
same_bytes (x ∷ xs) (y ∷ ys) = (x == y) && same_bytes xs ys

last : List Record → Option Record
last [] = none
last (r ∷ []) = some r
last (r ∷ r' ∷ rs) = last (r' ∷ rs)

abbrev is_close_notify : AlertDescription → Bool
is_close_notify AlertDescription.close_notify = true
is_close_notify _ = false

check_alert : Option (AlertMessagePayload × Reader) → Result (Unit {0}) MpcTlsError
check_alert none = err MpcTlsError.peer
check_alert (some (alert, r)) =
    if is_close_notify alert.description then ok tt else err MpcTlsError.peer

check_last : RecordType → Option (List ℕ) → Result (Unit {0}) MpcTlsError
unfolding check_alert
check_last RecordType.application_data plaintext = ok tt
check_last RecordType.alert none = err MpcTlsError.peer
check_last RecordType.alert (some payload) = check_alert (read_alert (init payload))
check_last _ plaintext = err MpcTlsError.peer

-- `check_close_notify`
unfoldable pub check_close_notify : List Record → Result (Unit {0}) MpcTlsError
unfolding check_last last
check_close_notify records = elim (last records) [
  | none ↦ ok tt
  | some r ↦ check_last r.typ r.plaintext
]

-- Verify data that is expected to be there, and to be the given bytes.
check_vd : List ℕ → Ending (Option (List ℕ)) → Fallible (Unit {0})
check_vd expected (ended (some vd)) =
    if same_bytes vd expected then ended (ok tt) else ended (err MpcTlsError.peer)
check_vd expected (ended none) = panicked
check_vd expected panicked = panicked
check_vd expected unfinished = unfinished

-- The end of `run` of the follower and of `close_connection` of the leader.
unfoldable pub check_transcript : List ℕ → List ℕ → TlsTranscript → Fallible (Unit {0})
unfolding check_vd
check_transcript expected_cf_vd expected_sf_vd t = do
  _ ← check_vd expected_cf_vd (cf_vd t)
  _ ← check_vd expected_sf_vd (sf_vd t)
  _ ← ended (check_close_notify t.sent)
  ended (check_close_notify t.recv)
