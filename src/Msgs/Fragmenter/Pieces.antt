-- ===== src/Msgs/Fragmenter/Pieces.antt =====
-- What the fragmenter produces.
use tlsn.Common.{
  ℕ, ◌+◌, ◌-◌, ◌<◌, ◌≤◌, ◌≡◌, refl, ap, ◌∙◌, List, [], ◌∷◌, ◌++◌, arith, map, length, append-nil,
  concat, All, Option, none, some, ok, err, Bool-cases, inl, inr, leb, leb→le, le→leb, ltb, ◌⊎◌,
  ◌||◌,
}
use tlsn.Msgs.Message.{PlainMessage}
use tlsn.Msgs.Fragmenter.{
  MessageFragmenter, bad_max_fragment_size, set_max_fragment_size, new, chunks, piece, fragment,
  fragment_borrow, max_fragment_len, max_fragment_size, packet_overhead,
}
use tlsn.Msgs.Fragmenter.Chunks.{concat-chunks, chunks_one, chunks_empty, chunks-IsChunk, IsChunk}
use tlsn.Msgs.Enums.Content.{ContentType}
use tlsn.Msgs.Enums.Version.{ProtocolVersion}

-- The sizes that a fragmenter can have: a fragment with its header is 32 bytes at least and
-- `max_fragment_size` at most.
pub record IsValid (f : MessageFragmenter) : Type 0 where
  pub lower : 27 ≤ f.max_frag
  pub upper : f.max_frag ≤ max_fragment_len

-- `new` answers every size: it accepts those from 32 to `max_fragment_size`, and makes a valid
-- fragmenter whose fragments have that size with their header; it refuses all others.
pub new_lem :
    (size : ℕ)
    → ((f : MessageFragmenter) × (new (some size) ≡ ok f)
        × IsValid f
        × (f.max_frag + packet_overhead ≡ size)
        × (32 ≤ size)
        × (size ≤ max_fragment_size))
      ⊎ ((new (some size) ≡ err bad_max_fragment_size) × ((size < 32) ⊎ (max_fragment_size < size)))
unfolding new set_max_fragment_size
new_lem size = elim (Bool-cases (ltb size 32 || ltb max_fragment_size size)) [
  | inl bad ↦ inr (ground arith, ground arith)
  | inr good ↦ inl (
    record { max_frag = size - packet_overhead },
    ground arith,
    record { lower = ground arith; upper = ground arith },
    ground arith,
    ground arith,
    ground arith,
  )
]

-- A size can be changed at any time: the fragmenter stays valid, whether it is accepted or refused.
pub set_max_fragment_size-IsValid :
    (size : Option ℕ) (f : MessageFragmenter) → IsValid f → IsValid (set_max_fragment_size size f).1
unfolding set_max_fragment_size
set_max_fragment_size-IsValid none f v = ground arith
set_max_fragment_size-IsValid (some size) f v = ground arith

abbrev pub payloads : List PlainMessage → List (List ℕ)
payloads ms = map (λ (m : PlainMessage). m.payload) ms

-- `p` is a piece of `m`, for a fragmenter of size `n`.
abbrev pub IsPiece : PlainMessage → ℕ → PlainMessage → Type 0
IsPiece m n p =
    (p.typ ≡ m.typ)
    × (p.version ≡ m.version)
    × (length p.payload ≤ n)
    × ((length m.payload ≡ 0) ⊎ (0 < length p.payload))

payloads-pieces :
    (typ : ContentType) (version : ProtocolVersion) (cs : List (List ℕ))
    → payloads (map (piece typ version) cs) ≡ cs
payloads-pieces typ version [] = refl
payloads-pieces typ version (c ∷ cs) = ap (λ t. c ∷ t) (payloads-pieces typ version cs)

IsPiece-pieces :
    (m : PlainMessage) (n : ℕ) (cs : List (List ℕ))
    → All (IsChunk n) cs
    → All (IsPiece m n) (map (piece m.typ m.version) cs)
IsPiece-pieces m n [] h = tt
IsPiece-pieces m n (c ∷ cs) (h, hs) = ((refl, refl, h.1, inr h.0), IsPiece-pieces m n cs hs)

-- A message that a valid fragmenter cuts goes behind what was queued, as pieces of its type and version, none longer
-- than the fragmenter's size nor empty unless it is, whose payloads are together its payload.
pub fragment_lem :
    (f : MessageFragmenter) (m : PlainMessage) (out : List PlainMessage)
    → IsValid f
    → (ps : List PlainMessage) × (fragment f m out ≡ out ++ ps)
      × (concat (payloads ps) ≡ m.payload)
      × All (IsPiece m f.max_frag) ps
unfolding fragment
fragment_lem f m out v = elim (Bool-cases (leb (length m.payload) f.max_frag)) [
  | inl short ↦
      (m ∷ [], rw short, append-nil m.payload, ((refl, refl, ground arith, ground arith), tt))
  | inr long ↦
      let cs = chunks f.max_frag m.payload in
      let pos : 0 < f.max_frag = omega (arith, v.lower) in
      (
        map (piece m.typ m.version) cs,
        rw long,
        ap concat (payloads-pieces m.typ m.version cs) ∙ concat-chunks f.max_frag m.payload pos,
        IsPiece-pieces m f.max_frag cs (chunks-IsChunk f.max_frag m.payload pos),
      )
]

-- The borrowing variant queues the same pieces as `fragment`, for every payload that is not empty.
pub fragment_borrow-fragment :
    (f : MessageFragmenter) (m : PlainMessage) (out : List PlainMessage)
    → 0 < length m.payload
    → fragment_borrow f m.typ m.version m.payload out ≡ fragment f m out
unfolding fragment fragment_borrow
fragment_borrow-fragment f m out h = elim (Bool-cases (leb (length m.payload) f.max_frag)) [
  | inl short ↦ rw (short, chunks_one f.max_frag m.payload h (leb→le _ _ short))
  | inr long ↦ rw long
]

-- For an empty payload the two differ: the borrowing variant queues nothing, where `fragment` queues
-- the message.
pub fragment_borrow_empty :
    (f : MessageFragmenter) (m : PlainMessage) (out : List PlainMessage)
    → length m.payload ≡ 0
    → (fragment_borrow f m.typ m.version m.payload out ≡ out) × (fragment f m out ≡ out ++ (m ∷ []))
unfolding fragment fragment_borrow
fragment_borrow_empty f m out h = (
  rw (chunks_empty f.max_frag m.payload h) (append-nil out),
  rw (le→leb (length m.payload) f.max_frag (omega arith)),
)
