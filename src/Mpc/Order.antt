-- ===== src/Mpc/Order.antt =====
-- Strictly ascending lists of sequence numbers.
pub mod Sound
pub mod Steps
pub mod Setup
pub mod Reach
use tlsn.Common.{
  ℕ, suc, ◌+◌, ◌≤◌, ◌<◌, ◌≡◌, refl, sym, ap, subst, List, [], ◌∷◌, ◌++◌, append_assoc, arith,
}

-- The numbers ascend from `low` at least, and stay below `high`.
abbrev pub Ascending : ℕ → List ℕ → ℕ → Type 0
Ascending low [] high = low ≤ high
Ascending low (n ∷ ns) high = (low ≤ n) × Ascending (suc n) ns high

pub Ascending-lower :
    (low low' high : ℕ) (ns : List ℕ) → low ≤ low' → Ascending low' ns high → Ascending low ns high
Ascending-lower low low' high [] h a = omega arith
Ascending-lower low low' high (n ∷ ns) h (a, as_before) = (omega arith, as_before)

pub Ascending-bounds : (low high : ℕ) (ns : List ℕ) → Ascending low ns high → low ≤ high
Ascending-bounds low high [] a = a
Ascending-bounds low high (n ∷ ns) (a, rest) = omega (arith, Ascending-bounds (suc n) high ns rest)

pub Ascending-snoc :
    (low high : ℕ) (ns : List ℕ)
    → Ascending low ns high
    → Ascending low (ns ++ (high ∷ [])) (high + 1)
Ascending-snoc low high [] a = (a, omega arith)
Ascending-snoc low high (n ∷ ns) (a, rest) = (a, Ascending-snoc (suc n) high ns rest)

pub Ascending-higher :
    (low high high' : ℕ) (ns : List ℕ)
    → high ≤ high'
    → Ascending low ns high
    → Ascending low ns high'
Ascending-higher low high high' [] h a = omega arith
Ascending-higher low high high' (n ∷ ns) h (a, rest) =
    (a, Ascending-higher (suc n) high high' ns h rest)

drop_front : (low high : ℕ) (ys zs : List ℕ) → Ascending low (ys ++ zs) high → Ascending low zs high
drop_front low high [] zs a = a
drop_front low high (y ∷ ys) zs (a, rest) =
    Ascending-lower low (suc y) high zs (omega arith) (drop_front (suc y) high ys zs rest)

pub Ascending-omit :
    (low high : ℕ) (xs ys zs : List ℕ)
    → Ascending low (xs ++ (ys ++ zs)) high
    → Ascending low (xs ++ zs) high
Ascending-omit low high [] ys zs a = drop_front low high ys zs a
Ascending-omit low high (x ∷ xs) ys zs (a, rest) = (a, Ascending-omit (suc x) high xs ys zs rest)

-- A queue gives numbers away to what stands in front of it, and may lose those behind them.
pub Ascending-moved :
    (low high : ℕ) (old new lost queue : List ℕ)
    → Ascending low (old ++ ((new ++ lost) ++ queue)) high
    → Ascending low ((old ++ new) ++ queue) high
Ascending-moved low high old new lost queue a = Ascending-omit low high (old ++ new) lost queue (
    subst (λ t. Ascending low t high) (sym (append_assoc old new (lost ++ queue)))
      (subst (λ t. Ascending low (old ++ t) high) (append_assoc new lost queue) a))
