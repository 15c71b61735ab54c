-- ===== src/Tests/Clients.antt =====
-- crates/tls/client/src/vecbuf.rs on a queue of two chunks.
use tlsn.Common.{
  ℕ, ◌≡◌, ◌≢◌, ◌≤◌, ◌⊎◌, some, List, [], ◌∷◌, ◌++◌, arith, take, drop, true, Result, ok, err,
}
use tlsn.Client.Vecbuf.{ChunkVecBuffer, append_limited_copy, is_full, len, read, write_to}
use tlsn.Client.Vecbuf.Queue.{bytes_of, IsValid, IsWithin, append_limited_copy_lem}
use tlsn.Client.Vecbuf.Reading.{Drained, read_lem, write_to_lem}

abbrev hello : ChunkVecBuffer
hello = record { chunks = (104 ∷ 101 ∷ []) ∷ (108 ∷ 108 ∷ 111 ∷ []) ∷ []; limit = some 7 }

hello-IsValid : IsValid hello
hello-IsValid = (omega arith, (omega arith, tt))

abbrev world : List ℕ
world = 119 ∷ 111 ∷ 114 ∷ 108 ∷ 100 ∷ []

append_limited_copy_lem_example :
    ((append_limited_copy world hello).0 ≤ 5)
    × (bytes_of (append_limited_copy world hello).1
        ≡ bytes_of hello ++ take (append_limited_copy world hello).0 world)
    × IsValid (append_limited_copy world hello).1
    × (((append_limited_copy world hello).0 ≡ 5)
        ⊎ (is_full (append_limited_copy world hello).1 ≡ true))
    × (((append_limited_copy world hello).0 ≡ 0)
        ⊎ IsWithin
            (append_limited_copy world hello).1.limit
            (len (append_limited_copy world hello).1))
append_limited_copy_lem_example = append_limited_copy_lem world hello hello-IsValid

read_lem_example :
    (b' : ChunkVecBuffer) × (read 3 hello ≡ some (104 ∷ 101 ∷ 108 ∷ [], b')) × Drained 3 hello b'
read_lem_example = read_lem 3 hello hello-IsValid

-- A writer that takes one byte, whatever it is given.
abbrev one_byte : List (List ℕ) → Result ℕ (Unit {0})
one_byte bufs = ok 1

write_to_lem_example :
    (hello.chunks ≡ [] → write_to one_byte hello ≡ (ok 0, hello))
    × (hello.chunks ≢ []
        → ((n : ℕ) × (one_byte (take 64 hello.chunks) ≡ ok n)
            × ((write_to one_byte hello).0 ≡ ok n)
            × (bytes_of (write_to one_byte hello).1 ≡ drop n (bytes_of hello))
            × IsValid (write_to one_byte hello).1)
          ⊎ ((e : Unit {0}) × (one_byte (take 64 hello.chunks) ≡ err e)
              × ((write_to one_byte hello).0 ≡ err e)
              × ((write_to one_byte hello).1 ≡ hello)))
write_to_lem_example = write_to_lem one_byte hello hello-IsValid
