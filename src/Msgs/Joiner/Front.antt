-- ===== src/Msgs/Joiner/Front.antt =====
-- What the front of a stream of handshake bytes holds, and the joiner's one step on it.
use tlsn.Common.{
  ℕ, ◌+◌, ◌*◌, ◌≤◌, ◌≡◌, refl, Option, none, some, List, [], ◌∷◌, ◌++◌, arith, length, take, drop,
  take-append_le, drop-append_le, length-append, ltb, leb, if◌then◌else◌, inl, inr, true, false,
  Bool, ◌⊎◌,
}
use tlsn.Msgs.Codec.{decode_u24}
use tlsn.Msgs.Enums.Version.{ProtocolVersion}
use tlsn.Msgs.Handshake.{ReadBody, HandshakeMessagePayload}
use tlsn.Msgs.Handshake.Frame.{message_of, read_version-message_of}
use tlsn.Msgs.Joiner.{
  HandshakeMessage, HandshakeJoiner, message_too_large, one_message, needs_more_data,
  buf_contains_message, deframe_one, max_handshake_size,
}

-- The verdict on the front of a stream of handshake bytes.
pub data Verdict (B : Type 0) : Type 0 where
  more : Verdict B
  corrupt : Verdict B
  got : HandshakeMessagePayload B → ℕ → Verdict B

pub Verdict-cases :
    {B : Type 0} (v : Verdict B)
    → (v ≡ more) ⊎ ((v ≡ corrupt) ⊎ ((m : HandshakeMessagePayload B) × (n : ℕ) × (v ≡ got m n)))
Verdict-cases more = inl refl
Verdict-cases corrupt = inr (inl refl)
Verdict-cases (got m n) = inr (inr (m, n, refl))

module _ {B : Type 0} (read_body : ReadBody B) (version : ProtocolVersion) where
  abbrev judged : ℕ → Option (HandshakeMessagePayload B) → Verdict B
  judged n none = corrupt
  judged n (some m) = got m n

  -- Four bytes of header, a length within the limit, and the whole body.
  unfoldable pub front : List ℕ → Verdict B
  front (a ∷ b ∷ c ∷ d ∷ rest) =
      let len = (b * 256 + c) * 256 + d in
      if ltb max_handshake_size len
      then corrupt
      else if leb len (length rest)
      then judged (4 + len) (message_of read_body version a (take len rest))
      else more
  front _ = more

  -- What a stream holds: its messages, what is left of it, and whether it is in order up to there.
  pub data Joins : List ℕ → List (HandshakeMessage B) → List ℕ → Bool → Type 0 where
    message :
        {bytes rest : List ℕ} {ms : List (HandshakeMessage B)} {fine : Bool}
        (m : HandshakeMessagePayload B) (n : ℕ)
        → front bytes ≡ got m n
        → Joins (drop n bytes) ms rest fine
        → Joins bytes (record { version = version; payload = m } ∷ ms) rest fine
    wait :
        {bytes : List ℕ} {fine : Bool}
        → front bytes ≡ more
        → fine ≡ true
        → Joins bytes [] bytes fine
    broken :
        {bytes : List ℕ} {fine : Bool}
        → front bytes ≡ corrupt
        → fine ≡ false
        → Joins bytes [] bytes fine

  pub front-append_got :
      (bytes ys : List ℕ) (m : HandshakeMessagePayload B) (n : ℕ)
      → front bytes ≡ got m n
      → (front (bytes ++ ys) ≡ got m n) × (n ≤ length bytes) × (4 ≤ n)
  unfolding front
  front-append_got [] ys m n e = absurd (cc)
  front-append_got (a ∷ []) ys m n e = absurd (cc)
  front-append_got (a ∷ b ∷ []) ys m n e = absurd (cc)
  front-append_got (a ∷ b ∷ c ∷ []) ys m n e = absurd (cc)
  front-append_got (a ∷ b ∷ c ∷ d ∷ rest) ys m n e =
      ground (arith, length-append rest ys, take-append_le rest ys ((b * 256 + c) * 256 + d))

  unfoldable pub took : HandshakeJoiner B → HandshakeMessagePayload B → ℕ → HandshakeJoiner B
  took j m n = record {
    frames = j.frames ++ (record { version = version; payload = m } ∷ []);
    buf = drop n j.buf;
  }

  pub message_took :
      (j j' : HandshakeJoiner B) {ms : List (HandshakeMessage B)} {fine : Bool}
      (m : HandshakeMessagePayload B) (n : ℕ)
      → front j.buf ≡ got m n
      → Joins (took j m n).buf ms j'.buf fine
      → Joins j.buf (record { version = version; payload = m } ∷ ms) j'.buf fine
  unfolding took
  message_took j j' m n e t = message m n e t

  -- Bytes that arrive later go on where the earlier ones stopped.
  pub Joins-append :
      {xs rest : List ℕ} {ms : List (HandshakeMessage B)} {fine : Bool} (ys : List ℕ)
      {ms' : List (HandshakeMessage B)} {rest' : List ℕ} {fine' : Bool}
      → Joins xs ms rest fine
      → fine ≡ true
      → Joins (rest ++ ys) ms' rest' fine'
      → Joins (xs ++ ys) (ms ++ ms') rest' fine'
  Joins-append {xs = xs} ys (message m n e t) f u =
      let (e', inside, _) = front-append_got xs ys m n e in
      message m n e' (rw (drop-append_le xs ys n inside) (Joins-append ys t f u))
  Joins-append ys (wait e _) f u = u
  Joins-append ys (broken e g) f u = absurd (cc)

  -- The look at the buffer agrees with the front of the stream.
  pub looks_more : (buf : List ℕ) → front buf ≡ more → buf_contains_message buf ≡ needs_more_data
  unfolding front buf_contains_message decode_u24
  looks_more [] e = refl
  looks_more (a ∷ []) e = refl
  looks_more (a ∷ b ∷ []) e = refl
  looks_more (a ∷ b ∷ c ∷ []) e = refl
  looks_more (a ∷ b ∷ c ∷ d ∷ rest) e = ground arith

  front_got_parts :
      (a b c d : ℕ) (rest : List ℕ) (m : HandshakeMessagePayload B) (n : ℕ)
      → front (a ∷ b ∷ c ∷ d ∷ rest) ≡ got m n
      → ((b * 256 + c) * 256 + d ≤ length rest)
        × (message_of read_body version a (take ((b * 256 + c) * 256 + d) rest) ≡ some m)
        × (n ≡ 4 + ((b * 256 + c) * 256 + d))
  unfolding front
  front_got_parts a b c d rest m n e = ground arith

  front_corrupt_parts :
      (a b c d : ℕ) (rest : List ℕ)
      → front (a ∷ b ∷ c ∷ d ∷ rest) ≡ corrupt
      → (ltb max_handshake_size ((b * 256 + c) * 256 + d) ≡ true)
        ⊎ ((ltb max_handshake_size ((b * 256 + c) * 256 + d) ≡ false)
            × ((b * 256 + c) * 256 + d ≤ length rest)
            × (message_of read_body version a (take ((b * 256 + c) * 256 + d) rest) ≡ none))
  unfolding front
  front_corrupt_parts a b c d rest e = ground arith

  pub looks_got :
      (j : HandshakeJoiner B) (buf : List ℕ) (m : HandshakeMessagePayload B) (n : ℕ)
      → j.buf ≡ buf
      → front buf ≡ got m n
      → (buf_contains_message buf ≡ one_message)
        × (deframe_one read_body version j ≡ (true, took j m n))
  unfolding front buf_contains_message decode_u24 deframe_one took
  looks_got j [] m n q e = absurd (cc)
  looks_got j (a ∷ []) m n q e = absurd (cc)
  looks_got j (a ∷ b ∷ []) m n q e = absurd (cc)
  looks_got j (a ∷ b ∷ c ∷ []) m n q e = absurd (cc)
  looks_got j (a ∷ b ∷ c ∷ d ∷ rest) m n q e = (
    ground arith,
    let (inside, whole, size) = front_got_parts a b c d rest m n e in
        rw (q, read_version-message_of read_body version a b c d rest inside, whole, size),
  )

  pub looks_corrupt :
      (j : HandshakeJoiner B) (buf : List ℕ)
      → j.buf ≡ buf
      → front buf ≡ corrupt
      → (buf_contains_message buf ≡ message_too_large)
        ⊎ (buf_contains_message buf ≡ one_message) × (deframe_one read_body version j ≡ (false, j))
  unfolding front buf_contains_message decode_u24 deframe_one
  looks_corrupt j [] q e = absurd (cc)
  looks_corrupt j (a ∷ []) q e = absurd (cc)
  looks_corrupt j (a ∷ b ∷ []) q e = absurd (cc)
  looks_corrupt j (a ∷ b ∷ c ∷ []) q e = absurd (cc)
  looks_corrupt j (a ∷ b ∷ c ∷ d ∷ rest) q e = elim (front_corrupt_parts a b c d rest e) [
    | inl large ↦ inl (ground arith)
    | inr (small, inside, refused) ↦ inr (
      ground arith,
      rw (q, read_version-message_of read_body version a b c d rest inside, refused),
    )
  ]
