-- ===== src/Msgs/Fragmenter/Chunks.antt =====
-- The chunks of a slice.
use tlsn.Common.{
  ℕ, zero, suc, ◌<◌, ◌≤◌, ◌≡◌, refl, ap, ap₂, ◌∙◌, List, [], ◌∷◌, ◌++◌, arith, length, take, drop,
  take-append-drop, length-take, length-drop, concat, All, take_all, drop_all,
}
use tlsn.Msgs.Fragmenter.{chunks_loop, chunks}

concat-chunks_loop :
    (fuel n : ℕ) (xs : List ℕ) → 0 < n → length xs ≤ fuel → concat (chunks_loop fuel n xs) ≡ xs
unfolding chunks_loop
concat-chunks_loop zero n [] p h = refl
concat-chunks_loop zero n (x ∷ xs) p h = absurd (omega arith)
concat-chunks_loop (suc fuel) n [] p h = refl
concat-chunks_loop (suc fuel) n (x ∷ xs) p h =
    ap (λ t. take n (x ∷ xs) ++ t)
      (concat-chunks_loop fuel n (drop n (x ∷ xs)) p (omega (arith, length-drop n (x ∷ xs))))
    ∙ take-append-drop n (x ∷ xs)

-- Put together again, the chunks are the slice.
pub concat-chunks : (n : ℕ) (xs : List ℕ) → 0 < n → concat (chunks n xs) ≡ xs
unfolding chunks
concat-chunks n xs p = concat-chunks_loop (length xs) n xs p (omega arith)

abbrev pub IsChunk : ℕ → List ℕ → Type 0
IsChunk n c = (0 < length c) × (length c ≤ n)

chunks_loop-IsChunk : (fuel n : ℕ) (xs : List ℕ) → 0 < n → All (IsChunk n) (chunks_loop fuel n xs)
unfolding chunks_loop
chunks_loop-IsChunk zero n xs p = tt
chunks_loop-IsChunk (suc fuel) n [] p = tt
chunks_loop-IsChunk (suc fuel) n (x ∷ xs) p = (
  (omega (arith, length-take n (x ∷ xs)), omega (arith, length-take n (x ∷ xs))),
  chunks_loop-IsChunk fuel n (drop n (x ∷ xs)) p,
)

-- None is empty, and none is longer than asked for.
pub chunks-IsChunk : (n : ℕ) (xs : List ℕ) → 0 < n → All (IsChunk n) (chunks n xs)
unfolding chunks
chunks-IsChunk n xs p = chunks_loop-IsChunk (length xs) n xs p

chunks_loop-nil : (fuel n : ℕ) → chunks_loop fuel n [] ≡ []
unfolding chunks_loop
chunks_loop-nil zero n = refl
chunks_loop-nil (suc fuel) n = refl

pub chunks_empty : (n : ℕ) (xs : List ℕ) → length xs ≡ 0 → chunks n xs ≡ []
unfolding chunks chunks_loop
chunks_empty n [] h = refl
chunks_empty n (x ∷ xs) h = absurd (omega arith)

pub chunks_one : (n : ℕ) (xs : List ℕ) → 0 < length xs → length xs ≤ n → chunks n xs ≡ xs ∷ []
unfolding chunks
chunks_one n [] p h = absurd (omega arith)
chunks_one n (x ∷ xs) p h =
    ap₂ (λ s t. s ∷ t) (take_all (x ∷ xs) n h)
      (ap (chunks_loop (length xs) n) (drop_all (x ∷ xs) n h) ∙ chunks_loop-nil (length xs) n)
