-- ===== src/Transcript/Parse/Scan.antt =====
-- Where the handshake messages of a stream end.
use tlsn.Common.{
  ℕ, zero, suc, inl, inr, ◌+◌, ◌-◌, ◌*◌, ◌/◌, ◌%◌, ◌≤◌, ◌<◌, ◌≡◌, ◌≢◌, refl, sym, ap, subst, ◌∙◌,
  List, [], ◌∷◌, ◌++◌, true, false, Bool-cases, ok, err, arith, leb, ltb, length, drop,
  length-append, length-drop, drop-drop, drop-append, drop_all, take, take-append-drop, length-take,
  All-drop, IsByte, ap₂, All, IsU24, be24,
}
use tlsn.Msgs.Enums.Handshakes.{handshake_type_from}
use tlsn.Transcript.{parse}
use tlsn.Transcript.Ending.{ended, panicked, unfinished, Fallible, >>=-eq-ok, Ends-cases}
use tlsn.Transcript.Parse.{HandshakeMsgInfo, scan_loop, scan_handshake_messages}
use tlsn.Transcript.Parse.Header.{
  byte_at, message_len, byte_at-drop, scan_next, scan_loop-header, scan_next-whole,
}
use tlsn.Transcript.Parse.Within.{AreWithin, scan_handshake_messages-Ends}

-- A message by the number of its type and its body.
abbrev pub message : ℕ × List ℕ → List ℕ
message (typ, body) = typ ∷ (be24 (length body) ++ body)

abbrev pub stream : List (ℕ × List ℕ) → List ℕ
stream [] = []
stream (m ∷ ms) = message m ++ stream ms

-- Each message's type, and where it ends, if the first starts at `pos`.
abbrev pub infos : ℕ → List (ℕ × List ℕ) → List HandshakeMsgInfo
infos pos [] = []
infos pos ((typ, body) ∷ ms) =
    record { typ = handshake_type_from typ; end = pos + 4 + length body }
    ∷ infos (pos + 4 + length body) ms

scan_loop-stream :
    (fuel : ℕ) (bytes : List ℕ) (pos : ℕ) (ms : List (ℕ × List ℕ))
    → All (λ (m : ℕ × List ℕ). IsU24 (length m.1)) ms
    → drop pos bytes ≡ stream ms
    → length (stream ms) < fuel
    → scan_loop fuel bytes pos ≡ ended (ok (infos pos ms))
unfolding scan_next
scan_loop-stream zero bytes pos ms w e h = absurd (omega arith)
scan_loop-stream (suc fuel) bytes pos [] w e h =
    let there : leb (length bytes) pos ≡ true =
      ground (arith, ap length e, length-drop pos bytes) in
    unfold scan_loop in rw there refl
scan_loop-stream (suc fuel) bytes pos ((typ, body) ∷ ms) (w, ws) e h =
    let size = length-append body (stream ms) in
    let n = length body in
    let long = ap length e in
    let dropped = length-drop pos bytes in
    let more : leb (length bytes) pos ≡ false = ground arith in
    let header : ltb (length bytes - pos) 4 ≡ false = ground arith in
    let byte = λ (i : ℕ). byte_at-drop pos i (pos + i) bytes refl ∙ ap (λ t. byte_at t i) e in
    let at0 : byte_at bytes pos ≡ typ =
      byte_at-drop pos 0 pos bytes (omega arith) ∙ ap (λ t. byte_at t 0) e in
    let at1 : byte_at bytes (pos + 1) ≡ n / 65536 % 256 = byte 1 in
    let at2 : byte_at bytes (pos + 2) ≡ n / 256 % 256 = byte 2 in
    let at3 : byte_at bytes (pos + 3) ≡ n % 256 = byte 3 in
    let len : message_len bytes pos ≡ n = omega (arith, at1, at2, at3) in
    let whole : ltb (length bytes) (pos + 4 + n) ≡ false = ground arith in
    let behind : drop (pos + 4 + n) bytes ≡ stream ms =
      sym (drop-drop pos (4 + n) (pos + 4 + n) bytes (omega arith))
      ∙ ap (drop (4 + n)) e
      ∙ drop-append (message (typ, body)) (stream ms) (4 + n) (omega arith) in
    scan_loop-header fuel bytes pos more header
    ∙ rw (at0, len, whole, scan_loop-stream fuel bytes (pos + 4 + n) ms ws behind (omega arith))
        refl

-- A header in front.
record Header (xs : List ℕ) : Type 0 where
  typ : ℕ
  b : ℕ
  c : ℕ
  d : ℕ
  rest : List ℕ
  whole : xs ≡ typ ∷ b ∷ c ∷ d ∷ rest

Header-next : (xs : List ℕ) → 4 ≤ length xs → Header xs
Header-next [] h = absurd (omega arith)
Header-next (a ∷ []) h = absurd (omega arith)
Header-next (a ∷ b ∷ []) h = absurd (omega arith)
Header-next (a ∷ b ∷ c ∷ []) h = absurd (omega arith)
Header-next (a ∷ b ∷ c ∷ d ∷ rest) h = record {
  typ = a;
  b = b;
  c = c;
  d = d;
  rest = rest;
  whole = refl;
}

-- The bytes from `pos` on are messages, and `out` says where they end.
pub record Scanned (bytes : List ℕ) (pos : ℕ) (out : List HandshakeMsgInfo) : Type 0 where
  pub messages : List (ℕ × List ℕ)
  pub parts : drop pos bytes ≡ stream messages
  pub ends : out ≡ infos pos messages

-- One message in front of the others.
Scanned-one :
    (bytes : List ℕ) (pos : ℕ) (out : List HandshakeMsgInfo) (info : HandshakeMsgInfo)
    (rest : List HandshakeMsgInfo) (hd : Header (drop pos bytes))
    → All IsByte (drop pos bytes)
    → pos + 4 + message_len bytes pos ≤ length bytes
    → info ≡ record {
      typ = handshake_type_from (byte_at bytes pos);
      end = pos + 4 + message_len bytes pos;
    }
    → out ≡ info ∷ rest
    → (All IsByte (drop (pos + 4 + message_len bytes pos) bytes)
        → Scanned bytes (pos + 4 + message_len bytes pos) rest)
    → Scanned bytes pos out
Scanned-one bytes pos out info rest hd h fits i o later =
    let byte =
      λ (i : ℕ). byte_at-drop pos i (pos + i) bytes refl ∙ ap (λ t. byte_at t i) hd.whole in
    let at0 : byte_at bytes pos ≡ hd.typ =
      byte_at-drop pos 0 pos bytes (omega arith) ∙ ap (λ t. byte_at t 0) hd.whole in
    let at1 : byte_at bytes (pos + 1) ≡ hd.b = byte 1 in
    let at2 : byte_at bytes (pos + 2) ≡ hd.c = byte 2 in
    let at3 : byte_at bytes (pos + 3) ≡ hd.d = byte 3 in
    let n = (hd.b * 256 + hd.c) * 256 + hd.d in
    let len : message_len bytes pos ≡ n = omega (arith, at1, at2, at3) in
    let (small_typ, (small_b, (small_c, (small_d, small_rest)))) =
      subst (λ (xs : List ℕ). All IsByte xs) hd.whole h in
    let body = take n hd.rest in
    let enough : n ≤ length hd.rest = omega (arith, ap length hd.whole, length-drop pos bytes) in
    let size : length body ≡ n = omega (arith, length-take n hd.rest) in
    let end_same : pos + 4 + length body ≡ pos + 4 + message_len bytes pos = omega arith in
    let behind : drop (pos + 4 + message_len bytes pos) bytes ≡ drop n hd.rest =
      sym (drop-drop pos (4 + n) (pos + 4 + message_len bytes pos) bytes (omega arith))
      ∙ ap (drop (4 + n)) hd.whole
      ∙ sym (drop-drop 4 n (4 + n) (hd.typ ∷ hd.b ∷ hd.c ∷ hd.d ∷ hd.rest) refl) in
    let s = later (
      subst (λ (xs : List ℕ). All IsByte xs) (sym behind) (All-drop IsByte n hd.rest small_rest)) in
    let b' : length body / 65536 % 256 ≡ hd.b = omega arith in
    let c' : length body / 256 % 256 ≡ hd.c = omega arith in
    let d' : length body % 256 ≡ hd.d = omega arith in
    let tail : body ++ stream s.messages ≡ hd.rest =
      ap (λ t. body ++ t) (sym s.parts ∙ behind) ∙ take-append-drop n hd.rest in
    record {
      messages = (hd.typ, body) ∷ s.messages;
      parts = hd.whole ∙ cc (b', c', d', tail);
      ends =
          o
          ∙ ap₂ (λ x xs. x ∷ xs) (i ∙ cc (at0, end_same))
              (s.ends ∙ ap (λ (t : ℕ). infos t s.messages) (sym end_same));
    }

ended_infos :
    (a b : List HandshakeMsgInfo)
    → ◌≡◌ {A = Fallible (List HandshakeMsgInfo)} (ended (ok a)) (ended (ok b))
    → a ≡ b
ended_infos a b e = cc

scan_next_sound :
    (fuel : ℕ) (bytes : List ℕ) (pos : ℕ) (out : List HandshakeMsgInfo)
    → All IsByte (drop pos bytes)
    → ltb (length bytes - pos) 4 ≡ false
    → ((rest : List HandshakeMsgInfo)
        → All IsByte (drop (pos + 4 + message_len bytes pos) bytes)
        → scan_loop fuel bytes (pos + 4 + message_len bytes pos) ≡ ended (ok rest)
        → Scanned bytes (pos + 4 + message_len bytes pos) rest)
    → scan_next fuel bytes pos ≡ ended (ok out)
    → Scanned bytes pos out
scan_next_sound fuel bytes pos out h header later e =
    elim (Bool-cases (ltb (length bytes) (pos + 4 + message_len bytes pos))) [
      | inl short ↦
          absurd
            (let q : ended (err parse) ≡ ended (ok out) = unfold scan_next in rw short at e in cc)
      | inr whole ↦
          let msg_end = pos + 4 + message_len bytes pos in
          let info : HandshakeMsgInfo = record {
            typ = handshake_type_from (byte_at bytes pos);
            end = msg_end;
          } in
          let (rest, looped, done) =
            >>=-eq-ok (scan_loop fuel bytes msg_end) _
              (sym (scan_next-whole fuel bytes pos whole) ∙ e) in
          let hd = Header-next (drop pos bytes) (ground (arith, length-drop pos bytes)) in
          Scanned-one bytes pos out info rest hd h (ground arith) refl
            (sym (ended_infos (info ∷ rest) out done)) (λ b. later rest b looped)
    ]

scan_loop_sound :
    (fuel : ℕ) (bytes : List ℕ) (pos : ℕ) (out : List HandshakeMsgInfo)
    → All IsByte (drop pos bytes)
    → scan_loop fuel bytes pos ≡ ended (ok out)
    → Scanned bytes pos out
scan_loop_sound zero bytes pos out h e = absurd (
    let no : ◌≡◌ {A = Fallible (List HandshakeMsgInfo)} unfinished (ended (ok out)) =
      unfold scan_loop in e in
    cc)
scan_loop_sound (suc fuel) bytes pos out h e = elim (Bool-cases (leb (length bytes) pos)) [
  | inl done ↦
      let q : ◌≡◌ {A = Fallible (List HandshakeMsgInfo)} (ended (ok [])) (ended (ok out)) =
        unfold scan_loop in rw done at e in
      record { messages = []; parts = drop_all bytes pos (ground arith); ends = sym (cc) }
  | inr more ↦ elim (Bool-cases (ltb (length bytes - pos) 4)) [
    | inl short ↦ absurd (
        let q : ◌≡◌ {A = Fallible (List HandshakeMsgInfo)} (ended (err parse)) (ended (ok out)) =
          unfold scan_loop in rw (more, short) at e in
        cc)
    | inr header ↦
        scan_next_sound fuel bytes pos out h header
          (λ rest b q. scan_loop_sound fuel bytes (pos + 4 + message_len bytes pos) rest b q)
          (sym (scan_loop-header fuel bytes pos more header) ∙ e)
  ]
]

-- `scan_handshake_messages` ends on all bytes, and reads none that is not there. It returns an outcome
-- exactly if the bytes are messages, each a type, the length of its body in three bytes, and the body,
-- and the outcome lists their types and ends.
pub scan_handshake_messages_iff :
    (bytes : List ℕ) (out : List HandshakeMsgInfo)
    → All IsByte bytes
    → (scan_handshake_messages bytes ≢ unfinished)
      × (scan_handshake_messages bytes ≢ panicked)
      × ((scan_handshake_messages bytes ≡ ended (ok out)) → Scanned bytes 0 out)
      × ((ms : List (ℕ × List ℕ))
          → All (λ (m : ℕ × List ℕ). IsU24 (length m.1)) ms
          → bytes ≡ stream ms
          → scan_handshake_messages bytes ≡ ended (ok (infos 0 ms)))
unfolding scan_handshake_messages
scan_handshake_messages_iff bytes out h =
    let (fuel_left, no_panic) =
      Ends-cases ⊥ (AreWithin 0 (length bytes)) (scan_handshake_messages bytes)
        (scan_handshake_messages-Ends bytes) in
    (
      fuel_left,
      no_panic,
      λ e. scan_loop_sound (suc (length bytes)) bytes 0 out h e,
      λ ms w e. scan_loop-stream (suc (length bytes)) bytes 0 ms w e (omega (arith, ap length e)),
    )
