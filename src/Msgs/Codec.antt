-- ===== src/Msgs/Codec.antt =====
-- crates/tls/core/src/msgs/codec.rs: the integers, the `Codec` trait and the length-prefixed vectors.
pub mod Integers
pub mod Vectors
pub mod Progress
use tlsn.Common.{
  ℕ, zero, suc, ◌+◌, ◌-◌, ◌*◌, ◌/◌, ◌%◌, ◌^◌, Option, none, some, List, [], ◌∷◌, ◌++◌, length,
  copy_from_slice, be16, be24, be32, be64, true, false, ltb, if◌then◌else◌,
}
use tlsn.Msgs.Reader.{Reader, Read, init, take_bytes, sub, any_left, ◌>>=◌}

-- The trait `Codec`: a type's own encoder, which appends to a buffer, and its decoder.
pub record Codec {ℓ} (A : Type ℓ) : Type ℓ where
  pub encode : A → List ℕ → List ℕ
  pub read : Read A

-- `Codec::get_encoding`
abbrev pub get_encoding {ℓ} : {A : Type ℓ} → Codec A → A → List ℕ
get_encoding c a = c.encode a []

-- `Codec::read_bytes`
abbrev pub read_bytes {ℓ} : {A : Type ℓ} → Codec A → List ℕ → Option (A × Reader)
read_bytes c bytes = c.read (init bytes)

-- The decoders of integers, on a slice of any length.
unfoldable pub decode_u8 : List ℕ → Option ℕ
decode_u8 (a ∷ []) = some a
decode_u8 _ = none

unfoldable pub decode_u16 : List ℕ → Option ℕ
decode_u16 (a ∷ b ∷ []) = some (a * 256 + b)
decode_u16 _ = none

-- `u24::decode`
unfoldable pub decode_u24 : List ℕ → Option ℕ
decode_u24 (a ∷ b ∷ c ∷ []) = some ((a * 256 + b) * 256 + c)
decode_u24 _ = none

unfoldable pub decode_u32 : List ℕ → Option ℕ
decode_u32 (a ∷ b ∷ c ∷ d ∷ []) = some (((a * 256 + b) * 256 + c) * 256 + d)
decode_u32 _ = none

unfoldable pub decode_u64 : List ℕ → Option ℕ
decode_u64 (a ∷ b ∷ c ∷ d ∷ e ∷ f ∷ g ∷ h ∷ []) =
    some (((((((a * 256 + b) * 256 + c) * 256 + d) * 256 + e) * 256 + f) * 256 + g) * 256 + h)
decode_u64 _ = none

-- `r.take(n).and_then(decode)`
and_then : (List ℕ → Option ℕ) → Option (List ℕ × Reader) → Option (ℕ × Reader)
and_then decode none = none
and_then decode (some (bytes, r)) = elim (decode bytes) [ none ↦ none | some v ↦ some (v, r) ]

unfoldable pub read_u8 : Read ℕ
unfolding and_then decode_u8
read_u8 r = and_then decode_u8 (take_bytes 1 r)

unfoldable pub read_u16 : Read ℕ
unfolding and_then decode_u16
read_u16 r = and_then decode_u16 (take_bytes 2 r)

unfoldable pub read_u24 : Read ℕ
unfolding and_then decode_u24
read_u24 r = and_then decode_u24 (take_bytes 3 r)

unfoldable pub read_u32 : Read ℕ
unfolding and_then decode_u32
read_u32 r = and_then decode_u32 (take_bytes 4 r)

unfoldable pub read_u64 : Read ℕ
unfolding and_then decode_u64
read_u64 r = and_then decode_u64 (take_bytes 8 r)

abbrev pub u8_codec : Codec ℕ
u8_codec = record { encode = λ v bytes. bytes ++ (v ∷ []); read = read_u8 }

abbrev pub u16_codec : Codec ℕ
u16_codec = record { encode = λ v bytes. bytes ++ be16 v; read = read_u16 }

-- A `u24` holds a `u32`, and writes its three low bytes.
abbrev pub u24_codec : Codec ℕ
u24_codec = record { encode = λ v bytes. bytes ++ be24 v; read = read_u24 }

abbrev pub u32_codec : Codec ℕ
u32_codec = record { encode = λ v bytes. bytes ++ be32 v; read = read_u32 }

abbrev pub u64_codec : Codec ℕ
u64_codec = record { encode = λ v bytes. bytes ++ be64 v; read = read_u64 }

module _ {ℓ} {A : Type ℓ} (c : Codec A) where
  -- `for i in items { i.encode(bytes) }`
  unfoldable pub encode_items : List ℕ → List A → List ℕ
  encode_items bytes [] = bytes
  encode_items bytes (i ∷ items) = encode_items (c.encode i bytes) items

  -- The length is written over the place that was kept for it. `as u8` and `as u16` wrap.
  unfoldable pub encode_vec_u8 : List ℕ → List A → List ℕ
  encode_vec_u8 bytes items =
      let len_offset = length bytes in
      let written = encode_items (bytes ++ (0 ∷ [])) items in
      let len = length written - len_offset - 1 in
      copy_from_slice written len_offset (len % 256 ∷ [])

  unfoldable pub encode_vec_u16 : List ℕ → List A → List ℕ
  encode_vec_u16 bytes items =
      let len_offset = length bytes in
      let written = encode_items (bytes ++ (0 ∷ 0 ∷ [])) items in
      let len = length written - len_offset - 2 in
      copy_from_slice written len_offset (be16 (len % 65536))

  unfoldable pub encode_vec_u24 : List ℕ → List A → List ℕ
  encode_vec_u24 bytes items =
      let len_offset = length bytes in
      let written = encode_items (bytes ++ (0 ∷ 0 ∷ 0 ∷ [])) items in
      let len = length written - len_offset - 3 in
      copy_from_slice written len_offset (be24 (len % 2 ^ 32))

  -- `while sub.any_left() { ret.push(T::read(&mut sub)?) }` on fuel: `none` in the first place means
  -- that the fuel ran out, `some none` that an item could not be read.
  unfoldable pub read_items : ℕ → Reader → List A → Option (Option (List A))
  read_items zero r ret = none
  read_items (suc fuel) r ret = elim (any_left r) [
    | false ↦ some (some ret)
    | true ↦ elim (c.read r) [
      | none ↦ some none
      | some (a, r') ↦ read_items fuel r' (ret ++ (a ∷ []))
    ]
  ]

  abbrev collected : Option (Option (List A)) → Reader → Option (List A × Reader)
  collected (some (some ret)) r = some (ret, r)
  collected _ r = none

  -- The loop over a sub-reader, which it leaves empty. A round takes a byte at least, for every codec
  -- that the source has, so the fuel suffices.
  unfoldable pub read_all : Reader × Reader → Option (List A × Reader)
  read_all (inner, r) = collected (read_items (suc (length inner.buf)) inner []) r

  unfoldable pub read_vec_u8 : Read (List A)
  unfolding read_all
  read_vec_u8 r = do (len, r1) ← read_u8 r; p ← sub len r1; read_all p

  unfoldable pub read_vec_u16 : Read (List A)
  unfolding read_all
  read_vec_u16 r = do (len, r1) ← read_u16 r; p ← sub len r1; read_all p

  unfoldable pub read_vec_u24_limited : ℕ → Read (List A)
  unfolding read_all
  read_vec_u24_limited max_bytes r = do
    (len, r1) ← read_u24 r
    if ltb max_bytes len then none else do p ← sub len r1; read_all p
