-- ===== src/Msgs/Codec/Vectors.antt =====
-- The length-prefixed vectors of any codec that keeps its contract.
use tlsn.Common.{
  ℕ, zero, suc, ◌-◌, ◌%◌, ◌^◌, ◌<◌, ◌≤◌, ◌≡◌, refl, sym, ap, ◌∙◌, none, some, List, [], ◌∷◌, ◌++◌,
  arith, length, All, length-append, copy_from_slice-append, append-nil, append_assoc, be16, be24,
  ge→ltb, lt→ltb, IsU24,
}
use native.Mathlib.Nat.{mod-eq_of_lt}
use tlsn.Msgs.Reader.{◌>>=◌, Reader, Read, init, sub}
use tlsn.Msgs.Reader.Unread.{
  unread, advance, advance-advance, unread-advance, sub-unread, any_left_end, any_left_more,
}
use tlsn.Msgs.Codec.{
  Codec, get_encoding, encode_items, encode_vec_u8, encode_vec_u16, encode_vec_u24, read_items,
  read_all, read_vec_u8, read_vec_u16, read_vec_u24_limited, read_u8, read_u16, read_u24,
}
use tlsn.Msgs.Codec.Integers.{Takes, RoundTrips, read_u8-Takes, read_u16-Takes, read_u24-Takes}

module _ {ℓ} {A : Type ℓ} (c : Codec A) where
  -- The encodings of all items, one after the other.
  abbrev pub encodings : List A → List ℕ
  encodings [] = []
  encodings (i ∷ items) = get_encoding c i ++ encodings items

  abbrev pub vec_u8_codec : Codec (List A)
  vec_u8_codec = record {
    encode = λ items bytes. encode_vec_u8 c bytes items;
    read = read_vec_u8 c;
  }

  abbrev pub vec_u16_codec : Codec (List A)
  vec_u16_codec = record {
    encode = λ items bytes. encode_vec_u16 c bytes items;
    read = read_vec_u16 c;
  }

module _ {ℓ} {A : Type ℓ} (c : Codec A) {P : A → Type 0} (law : RoundTrips c P) where
  encode_items-encodings :
      (items : List A) (bytes : List ℕ) → encode_items c bytes items ≡ bytes ++ encodings c items
  unfolding encode_items
  encode_items-encodings [] bytes = sym (append-nil bytes)
  encode_items-encodings (i ∷ items) bytes =
      encode_items-encodings items (c.encode i bytes)
      ∙ ap (λ t. t ++ encodings c items) (law.appends i bytes)
      ∙ append_assoc bytes (get_encoding c i) (encodings c items)

  -- What is written behind a place of `k` bytes is as long as the encodings.
  written_length :
      (items : List A) (bytes place : List ℕ) (k : ℕ)
      → length place ≡ k
      → length (encode_items c (bytes ++ place) items) - length bytes - k
        ≡ length (encodings c items)
  written_length items bytes place k h = omega (
    arith,
    ap length (encode_items-encodings items (bytes ++ place)),
    length-append (bytes ++ place) (encodings c items),
    length-append bytes place,
  )

  written_lem :
      (items : List A) (bytes place : List ℕ)
      → encode_items c (bytes ++ place) items ≡ bytes ++ (place ++ encodings c items)
  written_lem items bytes place =
      encode_items-encodings items (bytes ++ place) ∙ append_assoc bytes place (encodings c items)

  -- On every list of items the buffer gets the low byte of the length, and then the items.
  pub encode_vec_u8-encodings :
      (items : List A) (bytes : List ℕ)
      → encode_vec_u8 c bytes items
        ≡ bytes ++ ((length (encodings c items) % 256 ∷ []) ++ encodings c items)
  unfolding encode_vec_u8
  encode_vec_u8-encodings items bytes =
      rw (written_length items bytes (0 ∷ []) 1 refl, written_lem items bytes (0 ∷ []))
        (copy_from_slice-append bytes (0 ∷ []) (length (encodings c items) % 256 ∷ [])
          (encodings c items) refl)

  -- Two bytes of length.
  pub encode_vec_u16-encodings :
      (items : List A) (bytes : List ℕ)
      → encode_vec_u16 c bytes items
        ≡ bytes ++ (be16 (length (encodings c items) % 65536) ++ encodings c items)
  unfolding encode_vec_u16
  encode_vec_u16-encodings items bytes =
      rw (written_length items bytes (0 ∷ 0 ∷ []) 2 refl, written_lem items bytes (0 ∷ 0 ∷ []))
        (copy_from_slice-append bytes (0 ∷ 0 ∷ []) (be16 (length (encodings c items) % 65536))
          (encodings c items) refl)

  -- Three bytes of length.
  pub encode_vec_u24-encodings :
      (items : List A) (bytes : List ℕ)
      → encode_vec_u24 c bytes items
        ≡ bytes ++ (be24 (length (encodings c items) % 2 ^ 32) ++ encodings c items)
  unfolding encode_vec_u24
  encode_vec_u24-encodings items bytes =
      rw
        (
          written_length items bytes (0 ∷ 0 ∷ 0 ∷ []) 3 refl,
          written_lem items bytes (0 ∷ 0 ∷ 0 ∷ []),
        )
        (copy_from_slice-append bytes (0 ∷ 0 ∷ 0 ∷ []) (be24 (length (encodings c items) % 2 ^ 32))
          (encodings c items) refl)

  -- The loop reads back a sub-reader that holds the encodings and nothing else.
  read_items-encodings :
      (items : List A) (fuel : ℕ) (r : Reader) (ret : List A)
      → All P items
      → length (unread r) < fuel
      → unread r ≡ encodings c items
      → read_items c fuel r ret ≡ some (some (ret ++ items))
  unfolding read_items
  read_items-encodings items zero r ret h f e = absurd (omega arith)
  read_items-encodings [] (suc fuel) r ret h f e =
      rw (any_left_end r (ap length e), read_items, append-nil)
  read_items-encodings (i ∷ items) (suc fuel) r ret (p, h) f e =
      let bytes = get_encoding c i in
      let e' = unread-advance (length bytes) bytes (encodings c items) r refl e in
      let size = ap length e ∙ length-append bytes (encodings c items) in
      rw
        (
          any_left_more r (omega (arith, size, law.fills i)),
          law.takes i p r (encodings c items) e,
          read_items,
        )
        (read_items-encodings items fuel (advance (length bytes) r) (ret ++ (i ∷ [])) h
            (omega (arith, size, law.fills i, ap length e')) e'
          ∙ ap (λ t. some (some t)) (append_assoc ret (i ∷ []) items))

  read_all-encodings :
      (items : List A) (r : Reader)
      → All P items
      → read_all c (init (encodings c items), r) ≡ some (items, r)
  unfolding read_all
  read_all-encodings items r h = rw (
      read_items-encodings items (suc (length (encodings c items))) (init (encodings c items)) [] h
        (omega arith) refl)

  abbrev read_vec : Read ℕ → Read (List A)
  read_vec read_len r = do (len, r1) ← read_len r; p ← sub len r1; read_all c p

  -- A length in front, read by `read_len`, and then that many bytes of items.
  read_vec-Takes :
      (items : List A) (read_len : Read ℕ) (n : ℕ) (place : List ℕ)
      → All P items
      → length (encodings c items) ≡ n
      → Takes read_len n place
      → Takes (read_vec read_len) items (place ++ encodings c items)
  read_vec-Takes items read_len n place h size t r ys e =
      let bytes = encodings c items in
      let e1 : unread r ≡ place ++ (bytes ++ ys) = e ∙ append_assoc place bytes ys in
      let e2 = unread-advance (length place) place (bytes ++ ys) r refl e1 in
      rw
        (
          t r (bytes ++ ys) e1,
          sub-unread n bytes ys (advance (length place) r) size e2,
          read_all-encodings items (advance n (advance (length place) r)) h,
        )
        (ap (λ t. some (items, t))
          (advance-advance (length place) n (length (place ++ bytes)) r
            (omega (arith, size, length-append place bytes))))

  -- Behind any bytes already read, `read_vec_u8` returns the items that `encode_vec_u8` wrote and
  -- stops behind them, if their encodings fit the byte of length.
  pub read_vec_u8-encode :
      (items : List A)
      → All P items
      → length (encodings c items) < 256
      → (r : Reader) (ys : List ℕ) → unread r ≡ encode_vec_u8 c [] items ++ ys
      → read_vec_u8 c r ≡ some (items, advance (length (encode_vec_u8 c [] items)) r)
  unfolding read_vec_u8
  read_vec_u8-encode items h size =
      let n = length (encodings c items) in
      rw encode_vec_u8-encodings (
        read_vec-Takes items read_u8 n (n % 256 ∷ []) h refl
          (rw (mod-eq_of_lt size) (read_u8-Takes n size)))

  -- Behind any bytes already read, `read_vec_u16` returns the items that `encode_vec_u16` wrote and
  -- stops behind them, if their encodings fit two bytes of length.
  pub read_vec_u16-encode :
      (items : List A)
      → All P items
      → length (encodings c items) < 65536
      → (r : Reader) (ys : List ℕ) → unread r ≡ encode_vec_u16 c [] items ++ ys
      → read_vec_u16 c r ≡ some (items, advance (length (encode_vec_u16 c [] items)) r)
  unfolding read_vec_u16
  read_vec_u16-encode items h size =
      let n = length (encodings c items) in
      rw encode_vec_u16-encodings (
        read_vec-Takes items read_u16 n (be16 (n % 65536)) h refl
          (rw (mod-eq_of_lt size) (read_u16-Takes n size)))

  read_vec_u24_limited-read_vec :
      (max_bytes n : ℕ) (r r1 : Reader)
      → read_u24 r ≡ some (n, r1)
      → n ≤ max_bytes
      → read_vec_u24_limited c max_bytes r ≡ read_vec read_u24 r
  unfolding read_vec_u24_limited
  read_vec_u24_limited-read_vec max_bytes n r r1 e h = rw (e, ge→ltb max_bytes n h)

  -- Behind any bytes already read, `read_vec_u24_limited` returns the items that `encode_vec_u24` wrote
  -- and stops behind them, if their encodings fit three bytes of length and are within the limit.
  pub read_vec_u24_limited-encode :
      (items : List A) (max_bytes : ℕ)
      → All P items
      → length (encodings c items) < 16777216
      → length (encodings c items) ≤ max_bytes
      → (r : Reader) (ys : List ℕ) → unread r ≡ encode_vec_u24 c [] items ++ ys
      → read_vec_u24_limited c max_bytes r
        ≡ some (items, advance (length (encode_vec_u24 c [] items)) r)
  read_vec_u24_limited-encode items max_bytes h size bound =
      let n = length (encodings c items) in
      let small : n % 2 ^ 32 ≡ n = mod-eq_of_lt (omega arith) in
      rw (encode_vec_u24-encodings, small)
        (λ r ys e.
          read_vec_u24_limited-read_vec max_bytes n r (advance 3 r)
            (read_u24-Takes n size r (encodings c items ++ ys)
              (e ∙ append_assoc (be24 n) (encodings c items) ys))
            bound
          ∙ read_vec-Takes items read_u24 n (be24 n) h refl (read_u24-Takes n size) r ys e)

  -- A vector that announces more bytes than the limit is refused, whatever follows the announcement.
  pub read_vec_u24_limited_over :
      (max_bytes n : ℕ) (r : Reader) (ys : List ℕ)
      → IsU24 n
      → max_bytes < n
      → unread r ≡ be24 n ++ ys
      → read_vec_u24_limited c max_bytes r ≡ none
  unfolding read_vec_u24_limited
  read_vec_u24_limited_over max_bytes n r ys h over e =
      rw (read_u24-Takes n h r ys e, lt→ltb max_bytes n over)
