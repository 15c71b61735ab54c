-- ===== src/Msgs/Handshake/Frame.antt =====
-- What `read_version` makes of the bytes at the front of a buffer.
use tlsn.Common.{
  ℕ, ◌+◌, ◌*◌, ◌≤◌, ◌≡◌, refl, sym, ap, ◌∙◌, Option, none, some, List, [], ◌∷◌, arith, length, take,
  drop, take-append-drop, length-take, if◌then◌else◌, Bool-cases, inl, inr,
}
use tlsn.Msgs.Reader.{Reader, init, any_left, ◌>>=◌}
use tlsn.Msgs.Reader.Unread.{advance, unread-advance, take_bytes-unread, sub-unread}
use tlsn.Msgs.Codec.{read_u8, read_u24}
use tlsn.Msgs.Enums.{read_enum_u8}
use tlsn.Msgs.Enums.Handshakes.{HandshakeType, handshake_type_from}
use tlsn.Msgs.Enums.Version.{ProtocolVersion}
use tlsn.Msgs.Handshake.{ReadBody, HandshakeMessagePayload, read_version, whole_body}

module _ {B : Type 0} where
  complete : Option ((HandshakeType × B) × Reader) → Option (HandshakeMessagePayload B)
  complete none = none
  complete (some ((typ, payload), inner)) =
      if any_left inner then none else some (record { typ = typ; payload = payload })

  abbrev pub with_reader :
      Reader → Option (HandshakeMessagePayload B) → Option (HandshakeMessagePayload B × Reader)
  with_reader r none = none
  with_reader r (some m) = some (m, r)

  complete_lem :
      (r s : Reader) (o : Option ((HandshakeType × B) × Reader))
      → r ≡ s
      → (o >>= λ p. whole_body r p) ≡ with_reader s (complete o)
  unfolding whole_body complete
  complete_lem r s none e = refl
  complete_lem r s (some ((typ, payload), inner)) e = elim (Bool-cases (any_left inner)) [
    | inl more ↦ rw more
    | inr all ↦ rw all (ap (λ t. some (record { typ = typ; payload = payload }, t)) e)
  ]

module _ {B : Type 0} (read_body : ReadBody B) where
  -- The message whose type is `a` and whose body is `body`.
  unfoldable pub message_of : ProtocolVersion → ℕ → List ℕ → Option (HandshakeMessagePayload B)
  unfolding complete
  message_of vers a body = complete (read_body (handshake_type_from a) vers (init body))

  -- A buffer with a whole message in front: the body is read from its own bytes and from no others.
  pub read_version-message_of :
      (vers : ProtocolVersion) (a b c d : ℕ) (rest : List ℕ)
      → (b * 256 + c) * 256 + d ≤ length rest
      → read_version read_body vers (init (a ∷ b ∷ c ∷ d ∷ rest))
        ≡ with_reader
            (record { buf = a ∷ b ∷ c ∷ d ∷ rest; offs = 4 + ((b * 256 + c) * 256 + d) })
            (message_of vers a (take ((b * 256 + c) * 256 + d) rest))
  unfolding read_version message_of read_enum_u8 read_u8 read_u24
  read_version-message_of vers a b c d rest h =
      let len = (b * 256 + c) * 256 + d in
      let r = init (a ∷ b ∷ c ∷ d ∷ rest) in
      let u1 = unread-advance 1 (a ∷ []) (b ∷ c ∷ d ∷ rest) r refl refl in
      let u2 = unread-advance 3 (b ∷ c ∷ d ∷ []) rest (advance 1 r) refl u1 in
      let size : length (take len rest) ≡ len = omega (arith, length-take len rest) in
      rw
        (
          take_bytes-unread 1 (a ∷ []) (b ∷ c ∷ d ∷ rest) r refl refl,
          take_bytes-unread 3 (b ∷ c ∷ d ∷ []) rest (advance 1 r) refl u1,
          sub-unread len (take len rest) (drop len rest) (advance 3 (advance 1 r)) size
              (u2 ∙ sym (take-append-drop len rest)),
        )
        (complete_lem (advance len (advance 3 (advance 1 r)))
          (record { buf = a ∷ b ∷ c ∷ d ∷ rest; offs = 4 + len })
          (read_body (handshake_type_from a) vers (init (take len rest))) moved)
    where
      moved :
          advance ((b * 256 + c) * 256 + d) (advance 3 (advance 1 (init (a ∷ b ∷ c ∷ d ∷ rest))))
          ≡ record { buf = a ∷ b ∷ c ∷ d ∷ rest; offs = 4 + ((b * 256 + c) * 256 + d) }
      moved = ground arith
