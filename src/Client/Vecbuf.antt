-- ===== src/Client/Vecbuf.antt =====
-- crates/tls/client/src/vecbuf.rs: a queue of bytes, kept as a queue of chunks.
pub mod Queue
pub mod Reading
use tlsn.Common.{
  ℕ, zero, suc, ◌+◌, ◌-◌, min, List, [], ◌∷◌, ◌++◌, Option, none, some, Bool, true, false, not,
  ◌&&◌, ltb, leb, if◌then◌else◌, length, take, drop, concat, Result, ok, err,
}

pub record ChunkVecBuffer : Type 0 where
  pub chunks : List (List ℕ)
  pub limit : Option ℕ

abbrev pub new : Option ℕ → ChunkVecBuffer
new limit = record { chunks = []; limit = limit }

abbrev pub set_limit : Option ℕ → ChunkVecBuffer → ChunkVecBuffer
set_limit new_limit b = record b { limit = new_limit }

abbrev empty : List (List ℕ) → Bool
empty [] = true
empty (ch ∷ chs) = false

abbrev pub is_empty : ChunkVecBuffer → Bool
is_empty b = empty b.chunks

-- The loop of `len`.
abbrev pub lengths : ℕ → List (List ℕ) → ℕ
lengths n [] = n
lengths n (ch ∷ chs) = lengths (n + length ch) chs

-- `len`
abbrev pub len : ChunkVecBuffer → ℕ
len b = lengths 0 b.chunks

reached : Option ℕ → ℕ → Bool
reached none n = false
reached (some limit) n = leb limit n

unfoldable pub is_full : ChunkVecBuffer → Bool
unfolding reached
is_full b = reached b.limit (len b)

limited : Option ℕ → ℕ → ℕ → ℕ
limited none stored n = n
limited (some limit) stored n = min n (limit - stored)

-- The subtraction saturates at 0, as the source's does.
unfoldable pub apply_limit : ℕ → ChunkVecBuffer → ℕ
unfolding limited
apply_limit n b = limited b.limit (len b) n

-- `if !bytes.is_empty() { self.chunks.push_back(bytes) }`
abbrev pushed : List ℕ → ChunkVecBuffer → ChunkVecBuffer
pushed [] b = b
pushed (x ∷ xs) b = record b { chunks = b.chunks ++ ((x ∷ xs) ∷ []) }

unfoldable pub append : List ℕ → ChunkVecBuffer → ℕ × ChunkVecBuffer
append bytes b = (length bytes, pushed bytes b)

unfoldable pub append_limited_copy : List ℕ → ChunkVecBuffer → ℕ × ChunkVecBuffer
append_limited_copy bytes b =
    let n = apply_limit (length bytes) b in (n, (append (take n bytes) b).1)

-- `pop_front`, on the chunks.
front : Option ℕ → List (List ℕ) → Option (List ℕ) × ChunkVecBuffer
front limit [] = (none, record { chunks = []; limit = limit })
front limit (ch ∷ chs) = (some ch, record { chunks = chs; limit = limit })

unfoldable pub pop : ChunkVecBuffer → Option (List ℕ) × ChunkVecBuffer
unfolding front
pop b = front b.limit b.chunks

-- The loop of `consume`: it takes whole chunks away, also when nothing is left to consume and the
-- next chunk is empty, and cuts the first one that is longer.
unfoldable pub consume_chunks : ℕ → List (List ℕ) → List (List ℕ)
consume_chunks n [] = []
consume_chunks n (ch ∷ chs) =
    let rest = consume_chunks (n - length ch) chs in
    if ltb n (length ch) then drop n ch ∷ chs else rest

-- `consume`
unfoldable pub consume : ℕ → ChunkVecBuffer → ChunkVecBuffer
consume n b = record b { chunks = consume_chunks n b.chunks }

-- One round of `read`: what the first chunk gives into the `room` that is left, and the rest.
abbrev pub given : ℕ → List (List ℕ) → List ℕ
given room [] = []
given room (ch ∷ chs) = take room ch

read_more : List ℕ → Option (List ℕ × ChunkVecBuffer) → Option (List ℕ × ChunkVecBuffer)
read_more bytes none = none
read_more bytes (some (more, b')) = some (bytes ++ more, b')

-- The loop of `read` on fuel, for a slice with `room` bytes left; `none` means that the fuel ran out.
-- The bytes are those that it writes, one behind the other.
unfoldable pub read_loop : ℕ → ℕ → ChunkVecBuffer → Option (List ℕ × ChunkVecBuffer)
unfolding read_more
read_loop zero room b = none
read_loop (suc fuel) room b =
    let bytes = given room b.chunks in
    let rest = read_loop fuel (room - length bytes) (consume (length bytes) b) in
    if ltb 0 room && not (is_empty b) then read_more bytes rest else some ([], b)

-- `read` into a slice of `room` bytes: the first bytes of the slice, whose number it returns, and the
-- buffer. Each round empties the first chunk or fills the slice.
unfoldable pub read : ℕ → ChunkVecBuffer → Option (List ℕ × ChunkVecBuffer)
read room b = read_loop (suc (suc (length b.chunks))) room b

written : {E : Type 0} → Result ℕ E → ChunkVecBuffer → Result ℕ E × ChunkVecBuffer
written (ok n) b = (ok n, consume n b)
written (err e) b = (err e, b)

-- `write_to`: the writer is given up to 64 chunks, and takes some of their bytes or fails.
unfoldable pub write_to :
    {E : Type 0} → (List (List ℕ) → Result ℕ E) → ChunkVecBuffer → Result ℕ E × ChunkVecBuffer
unfolding written
write_to wr b = if is_empty b then (ok 0, b) else written (wr (take 64 b.chunks)) b
