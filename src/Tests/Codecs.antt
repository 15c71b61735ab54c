-- ===== src/Tests/Codecs.antt =====
-- crates/tls/core/src/msgs/codec.rs, base.rs and enums.rs on small encodings.
use tlsn.Common.{ℕ, ◌≡◌, ◌≢◌, refl, none, some, List, [], ◌∷◌, ◌++◌, arith, length}
use tlsn.Msgs.Reader.{Reader, init}
use tlsn.Msgs.Reader.Unread.{advance}
use tlsn.Msgs.Codec.{u16_codec, read_vec_u24_limited, encode_vec_u24, read_items}
use tlsn.Msgs.Codec.Integers.{u16_codec-RoundTrips}
use tlsn.Msgs.Codec.Vectors.{read_vec_u24_limited-encode}
use tlsn.Msgs.Codec.Progress.{read_items_ends, u16_codec-Progresses}

abbrev groups : List ℕ
groups = 0x0017 ∷ 0x001d ∷ []

-- `init` on an encoding that two bytes follow.
abbrev behind : List ℕ → Reader
behind bytes = init (bytes ++ (7 ∷ 9 ∷ []))

read_vec_u24_limited-encode_example :
    read_vec_u24_limited u16_codec 4 (behind (encode_vec_u24 u16_codec [] groups))
    ≡ some (
      groups,
      advance
          (length (encode_vec_u24 u16_codec [] groups))
          (behind (encode_vec_u24 u16_codec [] groups)),
    )
read_vec_u24_limited-encode_example =
    read_vec_u24_limited-encode u16_codec u16_codec-RoundTrips groups 4
      (omega arith, (omega arith, tt)) (omega arith) (omega arith)
      (behind (encode_vec_u24 u16_codec [] groups)) (7 ∷ 9 ∷ []) refl

read_items_ends_example : read_items u16_codec 4 (init (0 ∷ 1 ∷ 2 ∷ [])) [] ≢ none
read_items_ends_example =
    read_items_ends u16_codec u16_codec-Progresses 4 (init (0 ∷ 1 ∷ 2 ∷ [])) [] (omega arith)
