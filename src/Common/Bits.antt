-- ===== src/Common/Bits.antt =====
-- `v & 0xff00` on numbers of two bytes, by a fixed number of binary places.
use Prim.Native.Nat.{
  ℕ, zero, suc, ◌+◌, ◌*◌, ◌/◌, ◌%◌, ◌≤◌, ◌<◌, min, bit_and, digits, bit_and-bitwise,
}
use mathlib.Core.Path.{◌≡◌, refl, ap₂, ◌∙◌}
use native.Mathlib.Omega.{arith}

-- The numbers of `k` places are those below `range k`.
abbrev range : ℕ → ℕ
range zero = 1
range (suc k) = range k + range k

-- The lowest `k` places of `mask`, where `v` has a one as well.
unfoldable masked : ℕ → ℕ → ℕ → ℕ
masked zero v mask = 0
masked (suc k) v mask = masked k (v / 2) (mask / 2) * 2 + min (v % 2) (mask % 2)

masked-zero : (k mask : ℕ) → masked k 0 mask ≡ 0
unfolding masked
masked-zero zero mask = refl
masked-zero (suc k) mask = omega (arith, masked-zero k (mask / 2))

digits-masked :
    (fuel k v mask : ℕ)
    → v ≤ fuel
    → v < range k
    → digits (λ b. zero) min fuel v mask ≡ masked k v mask
unfolding masked
digits-masked zero k zero mask enough fits = omega (arith, masked-zero k mask)
digits-masked zero k (suc v) mask enough fits = absurd (omega arith)
digits-masked (suc fuel) k zero mask enough fits = omega (arith, masked-zero k mask)
digits-masked (suc fuel) zero (suc v) mask enough fits = absurd (omega arith)
digits-masked (suc fuel) (suc k) (suc v) mask enough fits =
    omega (arith, digits-masked fuel k (suc v / 2) (mask / 2) (omega arith) (omega arith))

-- Four places at once.
masked-nibble :
    (k v w mask high : ℕ)
    → v / 2 / 2 / 2 / 2 ≡ w
    → mask / 2 / 2 / 2 / 2 ≡ high
    → masked (suc (suc (suc (suc k)))) v mask ≡ masked k w high * 16 + masked 4 v mask
unfolding masked
masked-nibble k v w mask high e f =
    omega arith ∙ ap₂ (λ x y. masked k x y * 16 + masked 4 v mask) e f

masked_all_of : (v mask : ℕ) → mask % 16 ≡ 15 → masked 4 v mask ≡ v % 16
unfolding masked
masked_all_of v mask e = omega arith

masked_none : (v mask : ℕ) → mask % 16 ≡ 0 → masked 4 v mask ≡ 0
unfolding masked
masked_none v mask e = omega arith

masked_high : (v : ℕ) → masked 16 v 0xff00 ≡ v / 256 % 256 * 256
masked_high v = omega (
  arith,
  masked-nibble 12 v (v / 16) 0xff00 0xff0 (omega arith) refl,
  masked_none v 0xff00 refl,
  masked-nibble 8 (v / 16) (v / 256) 0xff0 0xff (omega arith) refl,
  masked_none (v / 16) 0xff0 refl,
  masked-nibble 4 (v / 256) (v / 4096) 0xff 0xf (omega arith) refl,
  masked_all_of (v / 256) 0xff refl,
  masked_all_of (v / 4096) 0xf refl,
)

-- The high byte.
pub bit_and-0xff00 : (v : ℕ) → v < 65536 → bit_and v 0xff00 ≡ v / 256 % 256 * 256
bit_and-0xff00 v fits =
    omega (
      arith,
      bit_and-bitwise v 0xff00,
      digits-masked v 16 v 0xff00 (omega arith) fits,
      masked_high v,
    )
