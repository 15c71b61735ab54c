-- ===== src/Mpc/Utils/Split.antt =====
-- Cutting the payload of a protected record into its parts.
use tlsn.Common.{
  ℕ, ◌-◌, ◌≤◌, ◌<◌, ◌≡◌, sym, ap, ◌∙◌, inl, inr, List, ◌++◌, append_assoc, arith, length, take,
  drop, length-take, length-drop, take-append-drop, ltb, Bool-cases, ok,
}
use tlsn.Transcript.Builder.{ended, panicked}
use tlsn.Mpc.Utils.{opaque_into_parts, split_front}

-- `opaque_into_parts` cuts every message of 24 bytes at least into 8 bytes, the rest, and 16 bytes, and
-- loses nothing; on a shorter message it panics.
pub opaque_into_parts_lem :
    (msg : List ℕ)
    → (24 ≤ length msg
        → (nonce : List ℕ) × (ciphertext : List ℕ) × (tag : List ℕ) × (opaque_into_parts msg
            ≡ ended (ok (nonce, ciphertext, tag)))
          × (nonce ++ (ciphertext ++ tag) ≡ msg)
          × (length nonce ≡ 8)
          × (length tag ≡ 16))
      × (length msg < 24 → opaque_into_parts msg ≡ panicked)
unfolding opaque_into_parts split_front
opaque_into_parts_lem msg =
    let n = length msg - 16 in
    let body = take n msg in
    let tag = drop n msg in
    let body_size = length-take n msg in
    let nonce_size = length-take 8 body in
    (
      λ h. (
        take 8 body,
        drop 8 body,
        tag,
        ground (arith, body_size, nonce_size),
        sym (append_assoc (take 8 body) (drop 8 body) tag)
            ∙ ap (λ t. t ++ tag) (take-append-drop 8 body)
            ∙ take-append-drop n msg,
        omega (arith, body_size, nonce_size),
        omega (arith, length-drop n msg),
      ),
      λ h. elim (Bool-cases (ltb (length msg) 16)) [
        | inl short ↦ ground (arith, body_size, short)
        | inr long ↦ ground (arith, body_size, long)
      ],
    )
