-- ===== src/Transcript/Parse/Within.antt =====
-- crates/core/src/transcript/tls/builder.rs: `scan_handshake_messages` stays within the bytes.
use tlsn.Common.{
  ℕ, zero, suc, inl, inr, ◌+◌, ◌-◌, ◌≤◌, ◌<◌, List, [], ◌∷◌, Bool-cases, arith, leb, ltb, length,
}
use tlsn.Transcript.Ending.{Ends, Ends->>=}
use tlsn.Transcript.Parse.{HandshakeMsgInfo, scan_loop, scan_handshake_messages}
use tlsn.Transcript.Parse.Header.{message_len, scan_next, scan_loop-header, scan_next-whole}

-- The ends of messages from `low` on, none before the one in front of it, within `high`.
abbrev pub AreWithin : ℕ → ℕ → List HandshakeMsgInfo → Type 0
AreWithin low high [] = Unit {0}
AreWithin low high (m ∷ ms) = (low ≤ m.end) × (m.end ≤ high) × AreWithin m.end high ms

-- The loop ends, never reads behind the bytes, and gives ends that ascend within them.
scan_loop-Ends :
    (fuel : ℕ) (bytes : List ℕ) (pos : ℕ)
    → length bytes - pos < fuel
    → Ends ⊥ (AreWithin pos (length bytes)) (scan_loop fuel bytes pos)
scan_loop-Ends zero bytes pos h = absurd (omega arith)
scan_loop-Ends (suc fuel) bytes pos h = elim (Bool-cases (leb (length bytes) pos)) [
  | inl done ↦ unfold scan_loop in rw done tt
  | inr more ↦ elim (Bool-cases (ltb (length bytes - pos) 4)) [
    | inl short ↦ unfold scan_loop in rw (more, short) tt
    | inr header ↦
        rw (scan_loop-header fuel bytes pos more header)
          (elim (Bool-cases (ltb (length bytes) (pos + 4 + message_len bytes pos))) [
            | inl short ↦ unfold scan_next in rw short tt
            | inr whole ↦
                let msg_end = pos + 4 + message_len bytes pos in
                let rest = scan_loop-Ends fuel bytes msg_end (ground arith) in
                rw (scan_next-whole fuel bytes pos whole) (
                  Ends->>= ⊥ (AreWithin msg_end (length bytes)) (AreWithin pos (length bytes))
                    (scan_loop fuel bytes msg_end) _ rest
                    (λ out within. (omega arith, ground arith, within)))
          ])
  ]
]

-- On all bytes: the scan ends, reads within the bytes, and gives ends that ascend within them.
pub scan_handshake_messages-Ends :
    (bytes : List ℕ) → Ends ⊥ (AreWithin 0 (length bytes)) (scan_handshake_messages bytes)
unfolding scan_handshake_messages
scan_handshake_messages-Ends bytes = scan_loop-Ends (suc (length bytes)) bytes 0 (omega arith)
