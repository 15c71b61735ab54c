-- ===== src/Msgs/Base/RoundTrip.antt =====
-- The payloads of `base.rs` keep the contract of a codec, up to the size that their length can state.
use native.Mathlib.Nat.{mod-eq_of_lt}
use tlsn.Common.{
  ℕ, ◌%◌, ◌<◌, ◌≡◌, ◌^◌, refl, ap, ◌∙◌, some, List, [], ◌∷◌, ◌++◌, arith, length, append_assoc,
  length-append, be16, be24,
}
use tlsn.Msgs.Reader.{Reader, Read, sub, ◌>>=◌}
use tlsn.Msgs.Reader.Unread.{unread, advance, advance-advance, unread-advance, sub-unread}
use tlsn.Msgs.Codec.{get_encoding, read_u8, read_u16, read_u24}
use tlsn.Msgs.Codec.Integers.{Takes, RoundTrips, read_u8-Takes, read_u16-Takes, read_u24-Takes}
use tlsn.Msgs.Base.{
  body_of, read_payload_u8, read_payload_u16, read_payload_u24, payload_u8_codec, payload_u16_codec,
  payload_u24_codec,
}

read_body : Read ℕ → Read (List ℕ)
unfolding body_of
read_body read_len r = do (len, r1) ← read_len r; p ← sub len r1; body_of p

-- A length in front, and then that many bytes.
read_body-Takes :
    (payload : List ℕ) (read_len : Read ℕ) (n : ℕ) (place : List ℕ)
    → length payload ≡ n
    → Takes read_len n place
    → Takes (read_body read_len) payload (place ++ payload)
unfolding read_body
read_body-Takes payload read_len n place size t r ys e =
    let e1 : unread r ≡ place ++ (payload ++ ys) = e ∙ append_assoc place payload ys in
    let e2 = unread-advance (length place) place (payload ++ ys) r refl e1 in
    rw (t r (payload ++ ys) e1, sub-unread n payload ys (advance (length place) r) size e2)
      (ap (λ s. some (payload, s))
        (advance-advance (length place) n (length (place ++ payload)) r
          (omega (arith, size, length-append place payload))))

pub payload_u8_codec-RoundTrips : RoundTrips payload_u8_codec (λ p. length p < 256)
unfolding read_payload_u8 read_body
payload_u8_codec-RoundTrips = record {
  appends = λ p bytes. append_assoc bytes _ p;
  fills = λ p. omega arith;
  takes = λ p size.
      let n = length p in
      read_body-Takes p read_u8 n (n % 256 ∷ []) refl
        (rw (mod-eq_of_lt size) (read_u8-Takes n size));
}

pub payload_u16_codec-RoundTrips : RoundTrips payload_u16_codec (λ p. length p < 65536)
unfolding read_payload_u16 read_body
payload_u16_codec-RoundTrips = record {
  appends = λ p bytes. append_assoc bytes _ p;
  fills = λ p. omega arith;
  takes = λ p size.
      let n = length p in
      read_body-Takes p read_u16 n (be16 (n % 65536)) refl
        (rw (mod-eq_of_lt size) (read_u16-Takes n size));
}

pub payload_u24_codec-RoundTrips : RoundTrips payload_u24_codec (λ p. length p < 16777216)
unfolding read_payload_u24 read_body
payload_u24_codec-RoundTrips = record {
  appends = λ p bytes. append_assoc bytes _ p;
  fills = λ p. omega arith;
  takes = λ p size.
      let n = length p in
      let small : n % 2 ^ 32 ≡ n = mod-eq_of_lt (omega arith) in
      read_body-Takes p read_u24 n (be24 (n % 2 ^ 32)) refl (rw small (read_u24-Takes n size));
}

-- One byte of length: a payload that it can state is read back from its encoding, whatever follows.
pub read_payload_u8-encode :
    (payload : List ℕ) (r : Reader) (ys : List ℕ)
    → length payload < 256
    → unread r ≡ get_encoding payload_u8_codec payload ++ ys
    → read_payload_u8 r ≡ some (payload, advance (length (get_encoding payload_u8_codec payload)) r)
read_payload_u8-encode payload r ys fits e = payload_u8_codec-RoundTrips.takes payload fits r ys e

-- A payload whose length two bytes can state is read back from its encoding, whatever follows behind
-- the cursor.
pub read_payload_u16-encode :
    (payload : List ℕ) (r : Reader) (ys : List ℕ)
    → length payload < 65536
    → unread r ≡ get_encoding payload_u16_codec payload ++ ys
    → read_payload_u16 r
      ≡ some (payload, advance (length (get_encoding payload_u16_codec payload)) r)
read_payload_u16-encode payload r ys fits e = payload_u16_codec-RoundTrips.takes payload fits r ys e

-- A payload whose length three bytes can state is read back from its encoding, whatever follows
-- behind the cursor.
pub read_payload_u24-encode :
    (payload : List ℕ) (r : Reader) (ys : List ℕ)
    → length payload < 16777216
    → unread r ≡ get_encoding payload_u24_codec payload ++ ys
    → read_payload_u24 r
      ≡ some (payload, advance (length (get_encoding payload_u24_codec payload)) r)
read_payload_u24-encode payload r ys fits e = payload_u24_codec-RoundTrips.takes payload fits r ys e
