-- ===== src/Msgs/Base.antt =====
-- crates/tls/core/src/msgs/base.rs: payloads, with and without a length in front. Each is a wrapper
-- of a byte vector in the source, and a list of bytes here.
pub mod RoundTrip
use tlsn.Common.{ℕ, ◌%◌, ◌^◌, Option, none, some, List, [], ◌∷◌, ◌++◌, length, be16, be24}
use tlsn.Msgs.Reader.{Reader, Read, rest, sub, ◌>>=◌}
use tlsn.Msgs.Codec.{Codec, read_u8, read_u16, read_u24}

-- `Payload::read`: whatever is left.
unfoldable pub read_payload : Reader → List ℕ × Reader
read_payload r = rest r

abbrev pub payload_codec : Codec (List ℕ)
payload_codec = record {
  encode = λ payload bytes. bytes ++ payload;
  read = λ r. some (read_payload r);
}

-- `sub.rest().to_vec()`
body_of : Reader × Reader → Option (List ℕ × Reader)
body_of (inner, r) = some ((rest inner).0, r)

unfoldable pub read_payload_u8 : Read (List ℕ)
unfolding body_of
read_payload_u8 r = do (len, r1) ← read_u8 r; p ← sub len r1; body_of p

unfoldable pub read_payload_u16 : Read (List ℕ)
unfolding body_of
read_payload_u16 r = do (len, r1) ← read_u16 r; p ← sub len r1; body_of p

unfoldable pub read_payload_u24 : Read (List ℕ)
unfolding body_of
read_payload_u24 r = do (len, r1) ← read_u24 r; p ← sub len r1; body_of p

-- `len() as u8`, `as u16` and `as u32` wrap.
abbrev pub payload_u8_codec : Codec (List ℕ)
payload_u8_codec = record {
  encode = λ payload bytes. (bytes ++ (length payload % 256 ∷ [])) ++ payload;
  read = read_payload_u8;
}

abbrev pub payload_u16_codec : Codec (List ℕ)
payload_u16_codec = record {
  encode = λ payload bytes. (bytes ++ be16 (length payload % 65536)) ++ payload;
  read = read_payload_u16;
}

-- Also the codec of `key::Certificate`.
abbrev pub payload_u24_codec : Codec (List ℕ)
payload_u24_codec = record {
  encode = λ payload bytes. (bytes ++ be24 (length payload % 2 ^ 32)) ++ payload;
  read = read_payload_u24;
}
