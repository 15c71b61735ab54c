-- ===== src/Msgs/Joiner/Stream.antt =====
-- The joiner on the whole stream of handshake bytes, however the frames cut it.
use native.Mathlib.Nat.{add-zero, zero-add}
use tlsn.Common.{
  ℕ, zero, suc, ◌+◌, ◌<◌, ◌≤◌, ◌≡◌, refl, sym, ap, ◌∙◌, Option, none, some, List, [], ◌∷◌, ◌++◌,
  arith, length, length-drop, append-nil, append_assoc, inl, inr, true, false, Bool,
}
use tlsn.Msgs.Enums.Content.{ContentType}
use tlsn.Msgs.Enums.Version.{ProtocolVersion}
use tlsn.Msgs.Joiner.Front.{
  Verdict-cases, front, Joins, wait, broken, message_took, took, front-append_got, looks_more,
  looks_got, looks_corrupt, corrupt,
}
use tlsn.Msgs.Handshake.{ReadBody, HandshakeMessagePayload}
use tlsn.Msgs.Joiner.{HandshakeMessage, HandshakeJoiner, join_loop, take_message}

-- The number of messages, if the stream is in order.
abbrev pub count_of : Bool → ℕ → Option ℕ
count_of true n = some n
count_of false n = none

module _ {B : Type 0} (read_body : ReadBody B) (version : ProtocolVersion) where
  took_shorter :
      (j : HandshakeJoiner B) (m : HandshakeMessagePayload B) (n fuel : ℕ)
      → length j.buf < suc fuel
      → n ≤ length j.buf
      → 4 ≤ n
      → length (took read_body version j m n).buf < fuel
  unfolding took
  took_shorter j m n fuel h inside some_header = omega (arith, length-drop n j.buf)

  join_loop_corrupt :
      (fuel count : ℕ) (j : HandshakeJoiner B)
      → front read_body version j.buf ≡ corrupt
      → join_loop read_body (suc fuel) version count j ≡ some (none, j)
  unfolding join_loop
  join_loop_corrupt fuel count j e = elim (looks_corrupt read_body version j j.buf refl e) [
    | inl large ↦ rw large
    | inr (looks, refused) ↦ rw (looks, refused)
  ]

  -- What a run of the loop leaves behind.
  pub record Joined (j j' : HandshakeJoiner B) (ms : List (HandshakeMessage B)) (fine : Bool)
      : Type 0 where
    pub spec : Joins read_body version j.buf ms j'.buf fine
    pub queued : j'.frames ≡ j.frames ++ ms

  queued_took :
      (j j' : HandshakeJoiner B) (m : HandshakeMessagePayload B) (n : ℕ)
      (ms : List (HandshakeMessage B))
      → j'.frames ≡ (took read_body version j m n).frames ++ ms
      → j'.frames ≡ j.frames ++ (record { version = version; payload = m } ∷ ms)
  unfolding took
  queued_took j j' m n ms h =
      h ∙ append_assoc j.frames (record { version = version; payload = m } ∷ []) ms

  join_loop-Joined :
      (fuel count : ℕ) (j : HandshakeJoiner B)
      → length j.buf < fuel
      → (j' : HandshakeJoiner B) × (ms : List (HandshakeMessage B)) × (fine : Bool) × (join_loop
            read_body fuel version count j
          ≡ some (count_of fine (count + length ms), j'))
        × Joined j j' ms fine
  unfolding join_loop
  join_loop-Joined zero count j h = absurd (omega arith)
  join_loop-Joined (suc fuel) count j h = elim (Verdict-cases (front read_body version j.buf)) [
    | inl e ↦ (
      j,
      [],
      true,
      rw (looks_more read_body version j.buf e, add-zero count),
      record { spec = wait e refl; queued = sym (append-nil j.frames) },
    )
    | inr (inl e) ↦ (
      j,
      [],
      false,
      join_loop_corrupt fuel count j e,
      record { spec = broken e refl; queued = sym (append-nil j.frames) },
    )
    | inr (inr (m, n, e)) ↦
        let (looks, steps) = looks_got read_body version j j.buf m n refl e in
        let (_, inside, some_header) = front-append_got read_body version j.buf [] m n e in
        let (j', ms, fine, runs, l) =
          join_loop-Joined fuel (count + 1) (took read_body version j m n)
            (took_shorter j m n fuel h inside some_header) in
        (
          j',
          record { version = version; payload = m } ∷ ms,
          fine,
          rw (looks, steps) (runs ∙ ap (λ (t : ℕ). some (count_of fine t, j')) (omega arith)),
          record {
            spec = message_took read_body version j j' m n e l.spec;
            queued = queued_took j j' m n ms l.queued;
          },
        )
  ]

  -- `take_message` ends on every frame. It returns the number of messages that the frame completed,
  -- each queued once and in order, and keeps what follows them; or it refuses a stream that is corrupt,
  -- with the messages before the corrupt one queued.
  pub take_message_lem :
      (j : HandshakeJoiner B) (payload : List ℕ) (typ : ContentType)
      → (j' : HandshakeJoiner B) × (ms : List (HandshakeMessage B)) × (fine : Bool) × (take_message
            read_body
            (record { typ = typ; version = version; payload = payload })
            j
          ≡ some (count_of fine (length ms), j'))
        × Joins read_body version (j.buf ++ payload) ms j'.buf fine
        × (j'.frames ≡ j.frames ++ ms)
  unfolding take_message
  take_message_lem j payload typ =
      let buf = j.buf ++ payload in
      let (j', ms, fine, runs, l) =
        join_loop-Joined (suc (length buf)) 0 (record j { buf = buf }) (omega arith) in
      (
        j',
        ms,
        fine,
        runs ∙ ap (λ (t : ℕ). some (count_of fine t, j')) (zero-add (length ms)),
        l.spec,
        l.queued,
      )
