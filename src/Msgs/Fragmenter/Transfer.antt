-- ===== src/Msgs/Fragmenter/Transfer.antt =====
-- From one end of the connection to the other: fragment, encode, deliver, deframe.
use tlsn.Common.{
  ℕ, ◌<◌, ◌≡◌, ◌⊎◌, inl, inr, refl, sym, ap, ◌∙◌, List, [], ◌∷◌, arith, map, length, concat, All,
  none, true, false, IsU16,
}
use tlsn.Msgs.Message.{
  PlainMessage, check_header, is_application_data, is_unknown, is_foreign_version,
  into_plain_message, into_unencrypted_opaque, max_payload,
}
use tlsn.Msgs.Message.Wire.{IsWire}
use tlsn.Msgs.Enums.Laws.{IsCanonical}
use tlsn.Msgs.Enums.Content.{ContentType}
use tlsn.Msgs.Enums.Version.{ProtocolVersion, protocol_version_enum, protocol_version_get}
use tlsn.Msgs.Deframer
use tlsn.Msgs.Deframer.{MessageDeframer}
use tlsn.Msgs.Deframer.Delivery.{Reads, wire, delivery_whole}
use tlsn.Msgs.Fragmenter.{MessageFragmenter, fragment}
use tlsn.Msgs.Fragmenter.Pieces.{IsValid, IsPiece, payloads, fragment_lem}

-- The messages that can be sent in fragments: of a listed type and an accepted version, and with
-- something to send unless it is application data.
pub record IsSendable (m : PlainMessage) : Type 0 where
  pub listed : is_unknown m.typ ≡ false
  pub own_version : is_foreign_version m.version ≡ false
  pub version_canonical : IsCanonical protocol_version_enum m.version
  pub version_fits : IsU16 (protocol_version_get m.version)
  pub not_empty : (is_application_data m.typ ≡ true) ⊎ (0 < length m.payload)

check_header_accepts :
    (typ : ContentType) (version : ProtocolVersion) (len : ℕ)
    → is_unknown typ ≡ false
    → is_foreign_version version ≡ false
    → (is_application_data typ ≡ true) ⊎ (0 < len)
    → len < max_payload
    → check_header typ version len ≡ none
unfolding check_header
check_header_accepts typ version len u f (inl a) h = ground arith
check_header_accepts typ version len u f (inr p) h = ground arith

piece-IsWire :
    (m p : PlainMessage) (n : ℕ)
    → IsSendable m
    → n < max_payload
    → IsPiece m n p
    → IsWire (into_unencrypted_opaque p)
piece-IsWire m p n s h (t, v, l, e) = record {
  accepted =
      rw (t, v)
        (check_header_accepts m.typ m.version (length p.payload) s.listed s.own_version
          (not_empty s.not_empty) (omega arith));
  version_canonical = rw v s.version_canonical;
  version_fits = rw v s.version_fits;
}
  where
    not_empty :
        (is_application_data m.typ ≡ true) ⊎ (0 < length m.payload)
        → (is_application_data m.typ ≡ true) ⊎ (0 < length p.payload)
    not_empty (inl a) = inl a
    not_empty (inr q) = elim e [
      | inl none_there ↦ absurd (omega arith)
      | inr some_there ↦ inr some_there
    ]

pieces-IsWire :
    (m : PlainMessage) (n : ℕ) (ps : List PlainMessage)
    → IsSendable m
    → n < max_payload
    → All (IsPiece m n) ps
    → All IsWire (map into_unencrypted_opaque ps)
pieces-IsWire m n [] s h a = tt
pieces-IsWire m n (p ∷ ps) s h (a, as_pieces) =
    (piece-IsWire m p n s h a, pieces-IsWire m n ps s h as_pieces)

plain_again :
    (ps : List PlainMessage) → map into_plain_message (map into_unencrypted_opaque ps) ≡ ps
plain_again [] = refl
plain_again (p ∷ ps) = ap (λ t. p ∷ t) (plain_again ps)

-- A sendable message that a valid fragmenter cuts arrives at the other side: when exactly the bytes
-- of the fragments have been read by a new deframer, in pieces of any size and with any failed
-- reads in between, the frames are the fragments, their payloads are together the message's, and
-- nothing else waits.
pub transfer :
    {E : Type 0} (f : MessageFragmenter) (m : PlainMessage) (d : MessageDeframer)
    (received : List (List ℕ))
    → IsValid f
    → IsSendable m
    → Reads E Deframer.new received d
    → concat received ≡ wire (map into_unencrypted_opaque (fragment f m []))
    → (map into_plain_message d.frames ≡ fragment f m [])
      × (concat (payloads (map into_plain_message d.frames)) ≡ m.payload)
      × (Deframer.has_pending (record d { frames = [] }) ≡ false)
      × (d.desynced ≡ false)
transfer f m d received v s reads e =
    let (ps, cut, whole, pieces) = fragment_lem f m [] v in
    let small : f.max_frag < max_payload = omega (arith, v.upper) in
    let sent : concat received ≡ wire (map into_unencrypted_opaque ps) =
      e ∙ ap (λ t. wire (map into_unencrypted_opaque t)) cut in
    let (frames, empty, in_step) =
      delivery_whole d received (map into_unencrypted_opaque ps) reads
        (pieces-IsWire m f.max_frag ps s small pieces) sent in
    let back : map into_plain_message d.frames ≡ ps =
      ap (map into_plain_message) frames ∙ plain_again ps in
    (back ∙ sym cut, ap (λ t. concat (payloads t)) back ∙ whole, rw empty, in_step)
