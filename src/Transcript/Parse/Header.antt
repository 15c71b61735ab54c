-- ===== src/Transcript/Parse/Header.antt =====
-- crates/core/src/transcript/tls/builder.rs: `scan_handshake_messages` reads the header of a message.
use tlsn.Common.{
  ℕ, zero, suc, ◌+◌, ◌-◌, ◌*◌, ◌≤◌, ◌<◌, ◌≡◌, refl, ap, List, [], ◌∷◌, Option, none, some,
  if◌then◌else◌, false, ok, err, arith, leb, ltb, length, drop, get_elem?,
}
use tlsn.Msgs.Enums.Handshakes.{handshake_type_from}
use tlsn.Transcript.{parse}
use tlsn.Transcript.Ending.{ended, Fallible, ◌>>=◌}
use tlsn.Transcript.Parse.{HandshakeMsgInfo, header_at, four_bytes, scan_message, scan_loop}

get_elem?-drop :
    (pos i k : ℕ) (xs : List ℕ) → pos + i ≡ k → get_elem? xs k ≡ get_elem? (drop pos xs) i
get_elem?-drop zero i k xs h = ap (λ (t : ℕ). get_elem? xs t) (omega arith)
get_elem?-drop (suc pos) i k [] h = refl
get_elem?-drop (suc pos) i zero (x ∷ xs) h = absurd (omega arith)
get_elem?-drop (suc pos) i (suc k) (x ∷ xs) h = get_elem?-drop pos i k xs (omega arith)

abbrev or_zero : Option ℕ → ℕ
or_zero none = 0
or_zero (some b) = b

abbrev pub byte_at : List ℕ → ℕ → ℕ
byte_at bytes i = or_zero (get_elem? bytes i)

abbrev pub message_len : List ℕ → ℕ → ℕ
message_len bytes pos =
    (byte_at bytes (pos + 1) * 256 + byte_at bytes (pos + 2)) * 256 + byte_at bytes (pos + 3)

pub byte_at-drop :
    (pos i k : ℕ) (xs : List ℕ) → pos + i ≡ k → byte_at xs k ≡ byte_at (drop pos xs) i
byte_at-drop pos i k xs h = ap or_zero (get_elem?-drop pos i k xs h)

get_elem?-byte_at :
    (bytes : List ℕ) (i : ℕ) → i < length bytes → get_elem? bytes i ≡ some (byte_at bytes i)
get_elem?-byte_at [] i h = absurd (omega arith)
get_elem?-byte_at (x ∷ xs) zero h = refl
get_elem?-byte_at (x ∷ xs) (suc i) h = get_elem?-byte_at xs i (omega arith)

-- Where four bytes are left, the header is read without a panic.
header_at-in :
    (bytes : List ℕ) (pos : ℕ)
    → pos + 4 ≤ length bytes
    → header_at bytes pos ≡ ended (byte_at bytes pos, message_len bytes pos)
unfolding header_at four_bytes
header_at-in bytes pos h =
    rw
      (
        get_elem?-byte_at bytes pos (omega arith),
        get_elem?-byte_at bytes (pos + 1) (omega arith),
        get_elem?-byte_at bytes (pos + 2) (omega arith),
        get_elem?-byte_at bytes (pos + 3) (omega arith),
      )
      refl

-- How the loop goes on behind a header that is there.
unfoldable pub scan_next : ℕ → List ℕ → ℕ → Fallible (List HandshakeMsgInfo)
scan_next fuel bytes pos =
    let msg_end = pos + 4 + message_len bytes pos in
    let info : HandshakeMsgInfo = record {
      typ = handshake_type_from (byte_at bytes pos);
      end = msg_end;
    } in
    let more = scan_loop fuel bytes msg_end >>= λ rest. ended (ok (info ∷ rest)) in
    if ltb (length bytes) msg_end then ended (err parse) else more

pub scan_loop-header :
    (fuel : ℕ) (bytes : List ℕ) (pos : ℕ)
    → leb (length bytes) pos ≡ false
    → ltb (length bytes - pos) 4 ≡ false
    → scan_loop (suc fuel) bytes pos ≡ scan_next fuel bytes pos
unfolding scan_loop scan_message scan_next
scan_loop-header fuel bytes pos more header =
    let there : pos + 4 ≤ length bytes = ground arith in
    rw (more, header, header_at-in bytes pos there) refl

pub scan_next-whole :
    (fuel : ℕ) (bytes : List ℕ) (pos : ℕ)
    → ltb (length bytes) (pos + 4 + message_len bytes pos) ≡ false
    → scan_next fuel bytes pos ≡ (
        scan_loop fuel bytes (pos + 4 + message_len bytes pos) >>= λ rest. ended (
          ok (
            record {
              typ = handshake_type_from (byte_at bytes pos);
              end = pos + 4 + message_len bytes pos;
            }
            ∷ rest)))
unfolding scan_next
scan_next-whole fuel bytes pos whole = rw whole refl
