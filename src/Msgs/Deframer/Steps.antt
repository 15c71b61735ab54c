-- ===== src/Msgs/Deframer/Steps.antt =====
-- One round of the deframer, seen as the bytes that wait in its buffer.
use native.Mathlib.Nat.{zero-add}
use tlsn.Common.{
  ℕ, ◌+◌, ◌-◌, ◌≤◌, ◌≡◌, refl, sym, ap, ◌∙◌, List, [], ◌∷◌, ◌++◌, arith, length, take, drop,
  length-take, length-drop, length-append, append_assoc, take-append, drop_all, drop-take, ok, err,
  ltb, if◌then◌else◌, Bool-cases, inl, inr, false, copy_from_slice, ==_iff,
}
use tlsn.Msgs.Reader.{Reader, init}
use tlsn.Msgs.Message.{OpaqueMessage, MessageError, max_wire_size}
use tlsn.Msgs.Message.Verdicts.{frame_of, read_opaque-frame_of, is_too_short}
use tlsn.Msgs.Deframer.{MessageDeframer, valid, partial, invalid, buf_consume, try_deframe_one}

-- The buffer has its fixed size, and the waiting bytes lie in it.
pub record IsValid (d : MessageDeframer) : Type 0 where
  pub size : length d.buf ≡ max_wire_size
  pub fits : d.filled ≤ max_wire_size

-- The bytes that have arrived and are not yet in a frame.
abbrev pub pending : MessageDeframer → List ℕ
pending d = take d.filled d.buf

length-copy :
    (xs : List ℕ) (n : ℕ) (bytes : List ℕ)
    → n + length bytes ≤ length xs
    → length (copy_from_slice xs n bytes) ≡ length xs
length-copy xs n bytes h = omega (
  arith,
  length-append (take n xs) (bytes ++ drop (n + length bytes) xs),
  length-append bytes (drop (n + length bytes) xs),
  length-take n xs,
  length-drop (n + length bytes) xs,
)

not_less : (a b : ℕ) → ltb a b ≡ false → b ≤ a
not_less a b h = ground arith

module _ (d : MessageDeframer) (v : IsValid d) where
  pub length-pending : length (pending d) ≡ d.filled
  length-pending = omega (arith, length-take d.filled d.buf, v.size, v.fits)

  moved_length :
      (taken : ℕ)
      → taken ≤ d.filled
      → length (take (d.filled - taken) (drop taken d.buf)) ≡ d.filled - taken
  moved_length taken h = omega (
    arith,
    length-take (d.filled - taken) (drop taken d.buf),
    length-drop taken d.buf,
    v.size,
    v.fits,
  )

  -- Taking bytes off the front leaves the others waiting, in their order.
  pub pending-buf_consume :
      (taken : ℕ) → taken ≤ d.filled → pending (buf_consume taken d) ≡ drop taken (pending d)
  unfolding buf_consume
  pending-buf_consume taken h = elim (Bool-cases (ltb taken d.filled)) [
    | inl less ↦ rw less (
        take-append (take (d.filled - taken) (drop taken d.buf)) _ (d.filled - taken)
          (moved_length taken h)
        ∙ sym (drop-take taken d.filled d.buf h))
    | inr all ↦
        let same : taken ≡ d.filled = omega (arith, not_less taken d.filled all) in
        rw (all, (==_iff taken d.filled).1 same)
          (sym (drop_all (pending d) taken (omega (arith, length-pending))))
  ]

  pub buf_consume-IsValid : (taken : ℕ) → taken ≤ d.filled → IsValid (buf_consume taken d)
  unfolding buf_consume
  buf_consume-IsValid taken h = elim (Bool-cases (ltb taken d.filled)) [
    | inl less ↦ rw less (record {
      size =
          length-copy d.buf 0 (take (d.filled - taken) (drop taken d.buf))
            (omega (arith, moved_length taken h, v.size, v.fits))
          ∙ v.size;
      fits = omega (arith, v.fits);
    })
    | inr all ↦
        let same : taken ≡ d.filled = omega (arith, not_less taken d.filled all) in
        rw (all, (==_iff taken d.filled).1 same) (record { size = v.size; fits = omega arith })
  ]

  abbrev frame_at : Reader
  frame_at = init (pending d)

  -- A complete frame in front is queued, and its bytes are gone.
  pub try_deframe_one_valid :
      (m : OpaqueMessage)
      → frame_of (pending d) ≡ ok m
      → try_deframe_one d
        ≡ (valid, buf_consume (5 + length m.payload) (record d { frames = d.frames ++ (m ∷ []) }))
  unfolding try_deframe_one
  try_deframe_one_valid m q =
      rw (read_opaque-frame_of (pending d) frame_at refl, q)
        (ap (λ (t : ℕ). (valid, buf_consume t (record d { frames = d.frames ++ (m ∷ []) })))
          (zero-add (5 + length m.payload)))

  -- Without one nothing changes, and the verdict says whether more bytes may help.
  pub try_deframe_one_stop :
      (e : MessageError)
      → frame_of (pending d) ≡ err e
      → try_deframe_one d ≡ (if is_too_short e then partial else invalid, d)
  unfolding try_deframe_one
  try_deframe_one_stop e q = rw (read_opaque-frame_of (pending d) frame_at refl, q)

module _ (taken : ℕ) (d : MessageDeframer) where
  pub frames-buf_consume : (buf_consume taken d).frames ≡ d.frames
  unfolding buf_consume
  frames-buf_consume = ground arith

  pub desynced-buf_consume : (buf_consume taken d).desynced ≡ d.desynced
  unfolding buf_consume
  desynced-buf_consume = ground arith

  pub filled-buf_consume : taken ≤ d.filled → (buf_consume taken d).filled ≡ d.filled - taken
  unfolding buf_consume
  filled-buf_consume h = ground arith

module _ (d : MessageDeframer) (v : IsValid d) (bytes : List ℕ) where
  stored_at : length (take d.filled d.buf) ≡ d.filled
  stored_at = length-pending d v

  -- The state in which the bytes of a read stand behind those that wait.
  pub pending-stored :
      pending
        (record d { buf = copy_from_slice d.buf d.filled bytes; filled = d.filled + length bytes })
      ≡ pending d ++ bytes
  pending-stored =
      ap (take (d.filled + length bytes))
        (sym (append_assoc (pending d) bytes (drop (d.filled + length bytes) d.buf)))
      ∙ take-append (pending d ++ bytes) (drop (d.filled + length bytes) d.buf)
          (d.filled + length bytes) (omega (arith, length-append (pending d) bytes, stored_at))

  pub stored-IsValid :
      d.filled + length bytes ≤ max_wire_size
      → IsValid (record d {
        buf = copy_from_slice d.buf d.filled bytes;
        filled = d.filled + length bytes;
      })
  stored-IsValid h = record {
    size = length-copy d.buf d.filled bytes (omega (arith, v.size)) ∙ v.size;
    fits = h;
  }

  -- A failed read may scribble behind the waiting bytes, and leaves them as they are.
  pub pending-failed : pending (record d { buf = copy_from_slice d.buf d.filled bytes }) ≡ pending d
  pending-failed =
      take-append (pending d) (bytes ++ drop (d.filled + length bytes) d.buf) d.filled stored_at

  pub failed-IsValid :
      d.filled + length bytes ≤ max_wire_size
      → IsValid (record d { buf = copy_from_slice d.buf d.filled bytes })
  failed-IsValid h = record {
    size = length-copy d.buf d.filled bytes (omega (arith, v.size)) ∙ v.size;
    fits = v.fits;
  }
