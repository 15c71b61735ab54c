-- ===== src/Client/Vecbuf/Reading.antt =====
-- Reading from the chunk queue takes the bytes off its front.
use tlsn.Common.{
  ℕ, zero, suc, ◌+◌, ◌-◌, ◌<◌, ◌≡◌, ◌≢◌, ◌⊎◌, refl, sym, ap, ap₂, ◌∙◌, min, List, [], ◌∷◌, ◌++◌,
  Option, some, true, false, ltb, Bool-cases, inl, inr, ltb→lt, lt→ltb, length, take, drop, concat,
  All, append_assoc, length-take, take-append-drop, drop-drop, arith, Result, Result-cases, ok, err,
  take-append,
}
use tlsn.Client.Vecbuf.{
  ChunkVecBuffer, is_empty, consume_chunks, consume, read_loop, read, write_to, written,
}
use tlsn.Client.Vecbuf.Queue.{
  bytes_of, IsFilled, IsValid, concat-consume_chunks, consume_chunks-IsFilled, consume_chunks_none,
  consume_lem,
}

take-drop : (m k n : ℕ) (xs : List ℕ) → m + k ≡ n → take m xs ++ take k (drop m xs) ≡ take n xs
take-drop zero k n xs h = ap (λ (t : ℕ). take t xs) (omega arith)
take-drop (suc m) k zero xs h = absurd (omega arith)
take-drop (suc m) zero (suc n) [] h = refl
take-drop (suc m) (suc k) (suc n) [] h = refl
take-drop (suc m) k (suc n) (x ∷ xs) h = ap (λ t. x ∷ t) (take-drop m k n xs (omega arith))

-- What reading `room` bytes is to leave.
pub record Drained (room : ℕ) (b b' : ChunkVecBuffer) : Type 0 where
  pub left : bytes_of b' ≡ drop room (bytes_of b)
  pub limit_kept : b'.limit ≡ b.limit
  pub kept : IsValid b'

-- The rounds that are needed: one for each chunk and one to stop, or one when the slice is full.
IsEnough : ℕ → ℕ → List (List ℕ) → Type 0
IsEnough fuel room chs = ((room ≡ 0) × (0 < fuel)) ⊎ (length chs + 1 < fuel)

first_given :
    (room : ℕ) (ch rest : List ℕ) → take room ch ≡ take (length (take room ch)) (ch ++ rest)
first_given room ch rest =
    sym (take-append (take room ch) (drop room ch ++ rest) (length (take room ch)) refl)
    ∙ ap (take (length (take room ch))) (
        sym (append_assoc (take room ch) (drop room ch) rest)
        ∙ ap (λ t. t ++ rest) (take-append-drop room ch))

-- A round either fills the slice or takes the first chunk away.
IsEnough-round :
    (fuel room : ℕ) (ch : List ℕ) (chs : List (List ℕ))
    → All IsFilled chs
    → IsEnough (suc fuel) (suc room) (ch ∷ chs)
    → IsEnough fuel
        (suc room - length (take (suc room) ch))
        (consume_chunks (length (take (suc room) ch)) (ch ∷ chs))
unfolding IsEnough consume_chunks
IsEnough-round fuel room ch chs v (inl h) = absurd (omega arith)
IsEnough-round fuel room ch chs v (inr h) =
    let m = length (take (suc room) ch) in
    let size : m ≡ min (suc room) (length ch) = length-take (suc room) ch in
    elim (Bool-cases (ltb m (length ch))) [
      | inl cut ↦ inl (omega (arith, size, ltb→lt _ _ cut), omega arith)
      | inr gone ↦
          let none_left : m - length ch ≡ 0 = omega (arith, size) in
          inr (rw (gone, none_left, consume_chunks_none chs v) (omega arith))
    ]

read_loop_lem :
    (fuel room : ℕ) (limit : Option ℕ) (chs : List (List ℕ))
    → All IsFilled chs
    → IsEnough fuel room chs
    → (b' : ChunkVecBuffer) × (read_loop fuel room (record { chunks = chs; limit = limit })
        ≡ some (take room (concat chs), b'))
      × Drained room (record { chunks = chs; limit = limit }) b'
unfolding read_loop IsEnough consume
read_loop_lem zero room limit chs v (inl h) = absurd (omega arith)
read_loop_lem zero room limit chs v (inr h) = absurd (omega arith)
read_loop_lem (suc fuel) zero limit chs v h = (
  record { chunks = chs; limit = limit },
  refl,
  record { left = refl; limit_kept = refl; kept = v },
)
read_loop_lem (suc fuel) (suc room) limit [] v h = (
  record { chunks = []; limit = limit },
  rw (lt→ltb 0 (suc room) (omega arith)),
  record { left = refl; limit_kept = refl; kept = v },
)
read_loop_lem (suc fuel) (suc room) limit (ch ∷ chs) (f, v) h =
    let m = length (take (suc room) ch) in
    let bytes = ch ++ concat chs in
    let parts : m + (suc room - m) ≡ suc room = omega (arith, length-take (suc room) ch) in
    let behind = concat-consume_chunks m (ch ∷ chs) in
    let (b', runs, d) =
      read_loop_lem fuel (suc room - m) limit (consume_chunks m (ch ∷ chs))
        (consume_chunks-IsFilled m (ch ∷ chs) (f, v)) (IsEnough-round fuel room ch chs v h) in
    (
      b',
      rw (lt→ltb 0 (suc room) (omega arith), runs)
          (ap (λ t. some (t, b'))
            (ap₂ (λ s t. s ++ take (suc room - m) t) (first_given (suc room) ch (concat chs)) behind
              ∙ take-drop m (suc room - m) (suc room) bytes parts)),
      record {
        left =
            d.left
            ∙ ap (drop (suc room - m)) behind
            ∙ drop-drop m (suc room - m) (suc room) bytes parts;
        limit_kept = d.limit_kept;
        kept = d.kept;
      },
    )

-- On a buffer without empty chunks `read` ends: it writes the first bytes that are stored, as many as
-- the slice has room for, and leaves the others.
pub read_lem :
    (room : ℕ) (b : ChunkVecBuffer)
    → IsValid b
    → (b' : ChunkVecBuffer) × (read room b ≡ some (take room (bytes_of b), b')) × Drained room b b'
unfolding read IsEnough
read_lem room b v =
    read_loop_lem (suc (suc (length b.chunks))) room b.limit b.chunks v (inr (omega arith))

is_empty_nil : (b : ChunkVecBuffer) → b.chunks ≡ [] → is_empty b ≡ true
is_empty_nil b e = ap (λ chs. is_empty (record { chunks = chs; limit = b.limit })) e

is_empty_cons : (b : ChunkVecBuffer) → b.chunks ≢ [] → is_empty b ≡ false
is_empty_cons b h = of_chunks b.limit b.chunks h
  where
    of_chunks :
        (limit : Option ℕ) (chs : List (List ℕ))
        → chs ≢ []
        → is_empty (record { chunks = chs; limit = limit }) ≡ false
    of_chunks limit [] h = absurd (h refl)
    of_chunks limit (ch ∷ chs) h = refl

-- On a buffer without empty chunks `write_to` calls no writer if the queue is empty: it returns 0,
-- whatever the writer does, and the queue stays as it is. Otherwise it offers the writer up to 64
-- chunks, and takes away the bytes that the writer took: as many as it returns leave the queue, none
-- when it fails.
pub write_to_lem :
    {E : Type 0} (wr : List (List ℕ) → Result ℕ E) (b : ChunkVecBuffer)
    → IsValid b
    → (b.chunks ≡ [] → write_to wr b ≡ (ok 0, b))
      × (b.chunks ≢ []
          → ((n : ℕ) × (wr (take 64 b.chunks) ≡ ok n)
              × ((write_to wr b).0 ≡ ok n)
              × (bytes_of (write_to wr b).1 ≡ drop n (bytes_of b))
              × IsValid (write_to wr b).1)
            ⊎ ((e : E) × (wr (take 64 b.chunks) ≡ err e)
                × ((write_to wr b).0 ≡ err e)
                × ((write_to wr b).1 ≡ b)))
unfolding write_to written
write_to_lem wr b v = (
  λ none_there. rw (is_empty_nil b none_there) refl,
  λ some_there.
      let there = is_empty_cons b some_there in
      elim (Result-cases (wr (take 64 b.chunks))) [
        | inl (n, took) ↦
            let (left, _, kept) = consume_lem n b v in
            inl (n, took, rw (there, took), rw (there, took) left, rw (there, took) kept)
        | inr (e, refused) ↦ inr (e, refused, rw (there, refused), rw (there, refused))
      ],
)
