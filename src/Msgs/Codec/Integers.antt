-- ===== src/Msgs/Codec/Integers.antt =====
-- What a codec promises, and that the integers keep it.
use tlsn.Common.{
  ℕ, ◌<◌, ◌≡◌, refl, none, some, List, [], ◌∷◌, ◌++◌, arith, length, IsByte, IsU16, IsU24, IsU32,
  IsU64, be16, be24, be32, be64,
}
use tlsn.Msgs.Reader.{Reader, Read}
use tlsn.Msgs.Reader.Unread.{unread, advance, take_bytes-unread, take_bytes_short}
use tlsn.Msgs.Codec.{
  Codec, get_encoding, u8_codec, u16_codec, u24_codec, u32_codec, u64_codec, read_u8, read_u16,
  read_u24, read_u32, read_u64,
}

-- `read` takes `bytes` off the front of what is unread, and returns `a`.
abbrev pub Takes {ℓ} : {A : Type ℓ} → Read A → A → List ℕ → Type ℓ
Takes read a bytes =
    (r : Reader) (ys : List ℕ)
    → unread r ≡ bytes ++ ys
    → read r ≡ some (a, advance (length bytes) r)

-- The contract of the trait, for the values that satisfy `P`: encoding appends to what the buffer
-- holds, at least a byte, and reading returns the value and stops behind its encoding.
pub record RoundTrips {ℓ} {A : Type ℓ} (c : Codec A) (P : A → Type 0) : Type ℓ where
  pub appends : (a : A) (bytes : List ℕ) → c.encode a bytes ≡ bytes ++ get_encoding c a
  pub fills : (a : A) → 0 < length (get_encoding c a)
  pub takes : (a : A) → P a → Takes c.read a (get_encoding c a)

pub read_u8-Takes : (v : ℕ) → IsByte v → Takes read_u8 v (v ∷ [])
unfolding read_u8
read_u8-Takes v h r ys e = rw (take_bytes-unread 1 (v ∷ []) ys r refl e)

pub read_u16-Takes : (v : ℕ) → IsU16 v → Takes read_u16 v (be16 v)
unfolding read_u16
read_u16-Takes v h r ys e = rw (take_bytes-unread 2 (be16 v) ys r refl e) (ground arith)

pub read_u24-Takes : (v : ℕ) → IsU24 v → Takes read_u24 v (be24 v)
unfolding read_u24
read_u24-Takes v h r ys e = rw (take_bytes-unread 3 (be24 v) ys r refl e) (ground arith)

pub read_u32-Takes : (v : ℕ) → IsU32 v → Takes read_u32 v (be32 v)
unfolding read_u32
read_u32-Takes v h r ys e = rw (take_bytes-unread 4 (be32 v) ys r refl e) (ground arith)

pub read_u64-Takes : (v : ℕ) → IsU64 v → Takes read_u64 v (be64 v)
unfolding read_u64
read_u64-Takes v h r ys e = rw (take_bytes-unread 8 (be64 v) ys r refl e) (ground arith)

pub u8_codec-RoundTrips : RoundTrips u8_codec IsByte
u8_codec-RoundTrips = record {
  appends = λ a bytes. refl;
  fills = λ a. omega arith;
  takes = read_u8-Takes;
}

pub u16_codec-RoundTrips : RoundTrips u16_codec IsU16
u16_codec-RoundTrips = record {
  appends = λ a bytes. refl;
  fills = λ a. omega arith;
  takes = read_u16-Takes;
}

pub u24_codec-RoundTrips : RoundTrips u24_codec IsU24
u24_codec-RoundTrips = record {
  appends = λ a bytes. refl;
  fills = λ a. omega arith;
  takes = read_u24-Takes;
}

pub u32_codec-RoundTrips : RoundTrips u32_codec IsU32
u32_codec-RoundTrips = record {
  appends = λ a bytes. refl;
  fills = λ a. omega arith;
  takes = read_u32-Takes;
}

pub u64_codec-RoundTrips : RoundTrips u64_codec IsU64
u64_codec-RoundTrips = record {
  appends = λ a bytes. refl;
  fills = λ a. omega arith;
  takes = read_u64-Takes;
}

-- A reader with too few bytes left gets nothing.
pub read_u8_short : (r : Reader) → length (unread r) < 1 → read_u8 r ≡ none
unfolding read_u8
read_u8_short r h = rw (take_bytes_short 1 r h)

pub read_u16_short : (r : Reader) → length (unread r) < 2 → read_u16 r ≡ none
unfolding read_u16
read_u16_short r h = rw (take_bytes_short 2 r h)

pub read_u24_short : (r : Reader) → length (unread r) < 3 → read_u24 r ≡ none
unfolding read_u24
read_u24_short r h = rw (take_bytes_short 3 r h)
