-- ===== src/Client/Vecbuf/Queue.antt =====
-- The chunk queue is a queue of bytes with a limit.
use tlsn.Common.{
  ℕ, ◌+◌, ◌-◌, ◌<◌, ◌≤◌, ◌≡◌, ◌⊎◌, refl, sym, ap, ◌∙◌, min, List, [], ◌∷◌, ◌++◌, Option, none, some,
  true, ltb, Bool-cases, inl, inr, ltb→lt, lt→ltb, length, take, drop, concat, All, All-append,
  append-nil, append_assoc, length-append, length-take, drop-append, drop-append_le, drop-drop,
  arith, drop_all, length-drop,
}
use tlsn.Client.Vecbuf.{
  ChunkVecBuffer, is_full, limited, reached, lengths, len, apply_limit, append, append_limited_copy,
  pop, consume_chunks, consume,
}

-- The bytes that a buffer holds, first in first out.
abbrev pub bytes_of : ChunkVecBuffer → List ℕ
bytes_of b = concat b.chunks

abbrev pub IsFilled : List ℕ → Type 0
IsFilled ch = 0 < length ch

-- No chunk is empty.
abbrev pub IsValid : ChunkVecBuffer → Type 0
IsValid b = All IsFilled b.chunks

lengths-concat : (n : ℕ) (chs : List (List ℕ)) → lengths n chs ≡ n + length (concat chs)
lengths-concat n [] = omega arith
lengths-concat n (ch ∷ chs) =
    omega (arith, lengths-concat (n + length ch) chs, length-append ch (concat chs))

pub len-bytes_of : (b : ChunkVecBuffer) → len b ≡ length (bytes_of b)
len-bytes_of b = omega (arith, lengths-concat 0 b.chunks)

concat-append : (xss yss : List (List ℕ)) → concat (xss ++ yss) ≡ concat xss ++ concat yss
concat-append [] yss = refl
concat-append (xs ∷ xss) yss =
    ap (λ t. xs ++ t) (concat-append xss yss) ∙ sym (append_assoc xs (concat xss) (concat yss))

-- `append` puts all the bytes behind those that are stored, and keeps chunks filled.
pub append_lem :
    (bytes : List ℕ) (b : ChunkVecBuffer)
    → IsValid b
    → ((append bytes b).0 ≡ length bytes)
      × (bytes_of (append bytes b).1 ≡ bytes_of b ++ bytes)
      × ((append bytes b).1.limit ≡ b.limit)
      × IsValid (append bytes b).1
unfolding append
append_lem [] b v = (refl, sym (append-nil (bytes_of b)), refl, v)
append_lem (x ∷ xs) b v = (
  refl,
  concat-append b.chunks ((x ∷ xs) ∷ []) ∙ ap (λ t. bytes_of b ++ t) (append-nil (x ∷ xs)),
  refl,
  All-append IsFilled b.chunks ((x ∷ xs) ∷ []) v (omega arith, tt),
)

-- The bytes behind the first `n`.
pub concat-consume_chunks :
    (n : ℕ) (chs : List (List ℕ)) → concat (consume_chunks n chs) ≡ drop n (concat chs)
unfolding consume_chunks
concat-consume_chunks n [] = sym (drop_all [] n (omega arith))
concat-consume_chunks n (ch ∷ chs) = elim (Bool-cases (ltb n (length ch))) [
  | inl inside ↦
      rw inside (sym (drop-append_le ch (concat chs) n (omega (arith, ltb→lt _ _ inside))))
  | inr past ↦ rw past (
      concat-consume_chunks (n - length ch) chs
      ∙ ap (λ t. drop (n - length ch) t) (sym (drop-append ch (concat chs) (length ch) refl))
      ∙ drop-drop (length ch) (n - length ch) n (ch ++ concat chs) (ground arith))
]

pub consume_chunks-IsFilled :
    (n : ℕ) (chs : List (List ℕ)) → All IsFilled chs → All IsFilled (consume_chunks n chs)
unfolding consume_chunks
consume_chunks-IsFilled n [] v = tt
consume_chunks-IsFilled n (ch ∷ chs) (f, v) = elim (Bool-cases (ltb n (length ch))) [
  | inl inside ↦ rw inside (omega (arith, ltb→lt _ _ inside, length-drop n ch), v)
  | inr past ↦ rw past (consume_chunks-IsFilled (n - length ch) chs v)
]

pub consume_chunks_none : (chs : List (List ℕ)) → All IsFilled chs → consume_chunks 0 chs ≡ chs
unfolding consume_chunks
consume_chunks_none [] v = refl
consume_chunks_none (ch ∷ chs) (f, v) = rw (lt→ltb 0 (length ch) f)

-- `consume` takes the first `n` bytes away, and keeps chunks filled.
pub consume_lem :
    (n : ℕ) (b : ChunkVecBuffer)
    → IsValid b
    → (bytes_of (consume n b) ≡ drop n (bytes_of b))
      × ((consume n b).limit ≡ b.limit)
      × IsValid (consume n b)
unfolding consume
consume_lem n b v = (concat-consume_chunks n b.chunks, refl, consume_chunks-IsFilled n b.chunks v)

-- Of a buffer without empty chunks, a chunk that is popped is the front of the bytes, and is not
-- empty; nothing is popped only if there are no bytes.
pub pop_lem :
    (b : ChunkVecBuffer)
    → IsValid b
    → ((ch : List ℕ) × ((pop b).0 ≡ some ch)
        × (0 < length ch)
        × (bytes_of b ≡ ch ++ bytes_of (pop b).1)
        × IsValid (pop b).1)
      ⊎ (((pop b).0 ≡ none) × (bytes_of b ≡ []))
unfolding pop
pop_lem b v = of_chunks b.limit b.chunks v
  where
    of_chunks :
        (limit : Option ℕ) (chs : List (List ℕ))
        → IsValid (record { chunks = chs; limit = limit })
        → ((ch : List ℕ) × ((pop (record { chunks = chs; limit = limit })).0 ≡ some ch)
            × (0 < length ch)
            × (concat chs ≡ ch ++ bytes_of (pop (record { chunks = chs; limit = limit })).1)
            × IsValid (pop (record { chunks = chs; limit = limit })).1)
          ⊎ (((pop (record { chunks = chs; limit = limit })).0 ≡ none) × (concat chs ≡ []))
    of_chunks limit [] v = inr (refl, refl)
    of_chunks limit (ch ∷ chs) (f, v) = inl (ch, refl, f, refl, v)

-- Whether a limit has been reached, of a number of stored bytes.
abbrev pub IsWithin : Option ℕ → ℕ → Type 0
IsWithin none n = Unit {0}
IsWithin (some limit) n = n ≤ limit

limited_lem :
    (o : Option ℕ) (stored n stored' : ℕ)
    → stored' ≡ stored + min (limited o stored n) n
    → (limited o stored n ≤ n)
      × ((limited o stored n ≡ n) ⊎ (reached o stored' ≡ true))
      × ((limited o stored n ≡ 0) ⊎ IsWithin o stored')
unfolding limited reached
limited_lem none stored n stored' h = (omega arith, inl refl, inr tt)
limited_lem (some limit) stored n stored' h = (omega arith, ground arith, ground arith)

apply_limit_lem :
    (n : ℕ) (b b' : ChunkVecBuffer)
    → b'.limit ≡ b.limit
    → len b' ≡ len b + min (apply_limit n b) n
    → (apply_limit n b ≤ n)
      × ((apply_limit n b ≡ n) ⊎ (is_full b' ≡ true))
      × ((apply_limit n b ≡ 0) ⊎ IsWithin b'.limit (len b'))
unfolding apply_limit is_full
apply_limit_lem n b b' same size = rw same (limited_lem b.limit (len b) n (len b') size)

-- On a buffer without empty chunks `append_limited_copy` stores a front of the bytes, as long as it
-- returns: all of them, or as many as fill the buffer to its limit; it stores nothing that goes
-- beyond the limit.
pub append_limited_copy_lem :
    (bytes : List ℕ) (b : ChunkVecBuffer)
    → IsValid b
    → ((append_limited_copy bytes b).0 ≤ length bytes)
      × (bytes_of (append_limited_copy bytes b).1
          ≡ bytes_of b ++ take (append_limited_copy bytes b).0 bytes)
      × IsValid (append_limited_copy bytes b).1
      × (((append_limited_copy bytes b).0 ≡ length bytes)
          ⊎ (is_full (append_limited_copy bytes b).1 ≡ true))
      × (((append_limited_copy bytes b).0 ≡ 0)
          ⊎ IsWithin (append_limited_copy bytes b).1.limit (len (append_limited_copy bytes b).1))
unfolding append_limited_copy
append_limited_copy_lem bytes b v =
    let n = apply_limit (length bytes) b in
    let (_, stored, same, valid) = append_lem (take n bytes) b v in
    let b' = (append (take n bytes) b).1 in
    let size : len b' ≡ len b + min n (length bytes) = omega (
      arith,
      len-bytes_of b',
      len-bytes_of b,
      ap length stored,
      length-append (bytes_of b) (take n bytes),
      length-take n bytes,
    ) in
    let (bound, reached, within) = apply_limit_lem (length bytes) b b' same size in
    (bound, stored, valid, reached, within)
