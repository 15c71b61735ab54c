-- ===== src/Msgs/Joiner/Split.antt =====
-- The joiner does not depend on where the frames cut the stream.
use tlsn.Common.{
  ℕ, ◌+◌, ◌≡◌, refl, sym, ap, ap₂, subst, ◌∙◌, Option, some, List, ◌∷◌, ◌++◌, arith, length, drop,
  length-append, append_assoc, Bool, true, false,
}
use tlsn.Msgs.Enums.Content.{ContentType}
use tlsn.Msgs.Enums.Version.{ProtocolVersion}
use tlsn.Msgs.Handshake.{ReadBody, HandshakeMessagePayload}
use tlsn.Msgs.Joiner.{HandshakeMessage, HandshakeJoiner, take_message}
use tlsn.Msgs.Joiner.Front.{got, Joins, message, wait, broken, Joins-append}
use tlsn.Msgs.Joiner.Stream.{count_of, take_message_lem}

module _ {B : Type 0} (read_body : ReadBody B) (version : ProtocolVersion) where
  got_same :
      (m m' : HandshakeMessagePayload B) (n n' : ℕ) → got m n ≡ got m' n' → (m ≡ m') × (n ≡ n')
  got_same m m' n n' e = (cc, cc)

  Joins-same :
      {bytes rest rest' : List ℕ} {ms ms' : List (HandshakeMessage B)} {fine fine' : Bool}
      → Joins read_body version bytes ms rest fine
      → Joins read_body version bytes ms' rest' fine'
      → (ms ≡ ms') × (rest ≡ rest') × (fine ≡ fine')
  Joins-same {bytes = bytes} {rest' = rest'} (message m n e t)
        (message {ms = ms'} {fine = fine'} m' n' e' t') =
      let (em, en) = got_same m m' n n' (sym e ∙ e') in
      let moved = subst (λ k. Joins read_body version (drop k bytes) ms' rest' fine') (sym en) t' in
      let (a, b, c) = Joins-same t moved in
      (ap₂ (λ x xs. record { version = version; payload = x } ∷ xs) em a, b, c)
  Joins-same (message m n e t) (wait e' _) = absurd (cc)
  Joins-same (message m n e t) (broken e' _) = absurd (cc)
  Joins-same (wait e _) (message m n e' t) = absurd (cc)
  Joins-same (wait e f) (wait e' f') = (refl, refl, f ∙ sym f')
  Joins-same (wait e _) (broken e' _) = absurd (cc)
  Joins-same (broken e _) (message m n e' t) = absurd (cc)
  Joins-same (broken e _) (wait e' _) = absurd (cc)
  Joins-same (broken e f) (broken e' f') = (refl, refl, f ∙ sym f')

  -- The joiner's state after one payload, as the specification has it.
  record Accepted (j : HandshakeJoiner B) (payload : List ℕ) (n : ℕ) (j' : HandshakeJoiner B)
      : Type 0 where
    ms : List (HandshakeMessage B)
    spec : Joins read_body version (j.buf ++ payload) ms j'.buf true
    queued : j'.frames ≡ j.frames ++ ms
    counted : n ≡ length ms

  abbrev taken : Option ℕ → HandshakeJoiner B → Option (Option ℕ × HandshakeJoiner B)
  taken count j = some (count, j)

  take_message-Accepted :
      (j j' : HandshakeJoiner B) (payload : List ℕ) (typ : ContentType) (n : ℕ)
      → take_message read_body (record { typ = typ; version = version; payload = payload }) j
        ≡ some (some n, j')
      → Accepted j payload n j'
  take_message-Accepted j j' payload typ n e =
      let (k, ms, fine, runs, spec, queued) = take_message_lem read_body version j payload typ in
      of_run k ms fine (sym runs ∙ e) spec queued
    where
      of_run :
          (k : HandshakeJoiner B) (ms : List (HandshakeMessage B)) (fine : Bool)
          → taken (count_of fine (length ms)) k ≡ taken (some n) j'
          → Joins read_body version (j.buf ++ payload) ms k.buf fine
          → k.frames ≡ j.frames ++ ms
          → Accepted j payload n j'
      of_run k ms false same spec queued = absurd (cc)
      of_run k ms true same spec queued =
          let there : k ≡ j' = cc in
          record {
            ms = ms;
            spec =
                subst
                  (λ (x : HandshakeJoiner B).
                    Joins read_body version (j.buf ++ payload) ms x.buf true)
                  there spec;
            queued = subst (λ (x : HandshakeJoiner B). x.frames ≡ j.frames ++ ms) there queued;
            counted = cc;
          }

  -- Two payloads that the joiner accepts one after the other lead to the state, and to the number of
  -- messages in all, to which their bytes lead in one frame.
  pub take_message-take_message :
      (j j1 j2 : HandshakeJoiner B) (payload payload' : List ℕ) (typ : ContentType) (n n' : ℕ)
      → take_message read_body (record { typ = typ; version = version; payload = payload }) j
        ≡ some (some n, j1)
      → take_message read_body (record { typ = typ; version = version; payload = payload' }) j1
        ≡ some (some n', j2)
      → take_message read_body
          (record { typ = typ; version = version; payload = payload ++ payload' })
          j
        ≡ some (some (n + n'), j2)
  take_message-take_message j j1 j2 payload payload' typ n n' e e' =
      let a = take_message-Accepted j j1 payload typ n e in
      let a' = take_message-Accepted j1 j2 payload' typ n' e' in
      let (k, ms, fine, runs, spec, queued) =
        take_message_lem read_body version j (payload ++ payload') typ in
      let both =
        subst (λ t. Joins read_body version t (a.ms ++ a'.ms) j2.buf true)
          (append_assoc j.buf payload payload')
          (Joins-append read_body version payload' a.spec refl a'.spec) in
      let (same_ms, same_buf, same_fine) = Joins-same spec both in
      let frames : k.frames ≡ j2.frames =
        queued
        ∙ ap (λ t. j.frames ++ t) same_ms
        ∙ sym (append_assoc j.frames a.ms a'.ms)
        ∙ ap (λ t. t ++ a'.ms) (sym a.queued)
        ∙ sym a'.queued in
      let joiner : k ≡ j2 = ap₂ (λ f b. record { frames = f; buf = b }) frames same_buf in
      let count : length ms ≡ n + n' =
        ap length same_ms ∙ omega (arith, length-append a.ms a'.ms, a.counted, a'.counted) in
      runs ∙ rw (same_fine, count, joiner)
