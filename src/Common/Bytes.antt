-- ===== src/Common/Bytes.antt =====
-- Machine integers as plain numbers with their range, and their bytes, most significant first.
use Prim.Native.Nat.{ℕ, ◌/◌, ◌%◌, ◌^◌, ◌<◌}
use mathlib.Core.List.{List, [], ◌∷◌}

abbrev pub IsByte : ℕ → Type 0
IsByte b = b < 256

abbrev pub IsU16 : ℕ → Type 0
IsU16 v = v < 65536

abbrev pub IsU24 : ℕ → Type 0
IsU24 v = v < 16777216

abbrev pub IsU32 : ℕ → Type 0
IsU32 v = v < 2 ^ 32

abbrev pub IsU64 : ℕ → Type 0
IsU64 v = v < 2 ^ 64

-- `to_be_bytes` of `u16`, `u32` and `u64`.
abbrev pub be16 : ℕ → List ℕ
be16 v = (v / 256 % 256) ∷ (v % 256) ∷ []

abbrev pub be24 : ℕ → List ℕ
be24 v = (v / 65536 % 256) ∷ be16 v

abbrev pub be32 : ℕ → List ℕ
be32 v = (v / 16777216 % 256) ∷ be24 v

abbrev pub be64 : ℕ → List ℕ
be64 v = (v / 2 ^ 56 % 256) ∷ (v / 2 ^ 48 % 256) ∷ (v / 2 ^ 40 % 256) ∷ (v / 2 ^ 32 % 256) ∷ be32 v
