-- ===== src/Msgs/Codec/Progress.antt =====
-- The loops over length-prefixed items end.
use tlsn.Common.{
  ℕ, zero, suc, ◌-◌, ◌<◌, ◌≤◌, ◌≡◌, ◌≢◌, ap, none, some, List, [], ◌∷◌, ◌++◌, arith, ltb→lt, length,
  Option-cases, Bool-cases, inl, inr,
}
use tlsn.Msgs.Reader.{Reader, any_left, take_bytes}
use tlsn.Msgs.Codec.{Codec, read_items, read_u8, read_u16, u8_codec, u16_codec}

-- Whatever it reads, a value takes a byte at least, and the cursor stays within its buffer.
pub record Progresses {ℓ} {A : Type ℓ} (c : Codec A) : Type ℓ where
  pub moves :
      (r : Reader) (a : A) (r' : Reader)
      → c.read r ≡ some (a, r')
      → (r'.buf ≡ r.buf) × (r.offs < r'.offs) × (r'.offs ≤ length r'.buf)

module _ {ℓ} {A : Type ℓ} (c : Codec A) (law : Progresses c) where
  -- The loop of `read_vec_u8`, `read_vec_u16` and `read_vec_u24_limited` ends on every input, with
  -- the items or with a refusal, on more fuel than there are unread bytes, for every codec whose
  -- reader takes a byte at least.
  pub read_items_ends :
      (fuel : ℕ) (r : Reader) (ret : List A)
      → length r.buf - r.offs < fuel
      → read_items c fuel r ret ≢ none
  unfolding read_items
  read_items_ends zero r ret h = absurd (omega arith)
  read_items_ends (suc fuel) r ret h = elim (Bool-cases (any_left r)) [
    | inr done ↦ rw (done, read_items) (λ e. cc)
    | inl more ↦ elim (Option-cases (c.read r)) [
      | inl failed ↦ rw (more, failed, read_items) (λ e. cc)
      | inr ((a, r'), e) ↦
          rw (more, e, read_items)
            (read_items_ends fuel r' (ret ++ (a ∷ [])) (
              let m = law.moves r a r' e in
              omega (arith, ap length m.0, m.1, m.2, ltb→lt _ _ more)))
    ]
  ]

pub u8_codec-Progresses : Progresses u8_codec
unfolding read_u8 take_bytes
u8_codec-Progresses = record { moves = λ r a r' e. ground arith }

pub u16_codec-Progresses : Progresses u16_codec
unfolding read_u16 take_bytes
u16_codec-Progresses = record { moves = λ r a r' e. ground arith }
