-- ===== src/Base/Bits.antt =====
-- Bits of a word: the mask of one bit, setting it, and fields side by side.
use Prim.Native.Nat.{ℕ, zero, suc, ◌+◌, ◌-◌, ◌*◌, ◌/◌, ◌%◌, ◌^◌, ◌<◌, bit_and, bit_or, max}
use mathlib.Core.Path.{◌≡◌, refl, ap}
use native.Mathlib.Nat.{pow-suc, one-le-pow, div-add-mod}
use native.Mathlib.Omega.{arith}
use master_pilot_custom_data.Base.Digits.{bit_or_step, bit_and_step, zero-bit_or, bit_and-zero}
use master_pilot_custom_data.Base.Tests.{◌==◌, if◌then◌else◌}

-- Bit `k` of `w`, as 0 or 1.
abbrev pub bit_at : ℕ → ℕ → ℕ
bit_at w zero = w % 2
bit_at w (suc k) = bit_at (w / 2) k

pub bit_at-lt : (w k : ℕ) → bit_at w k < 2
bit_at-lt w zero = omega arith
bit_at-lt w (suc k) = bit_at-lt (w / 2) k

half-pow : (k : ℕ) → 2 ^ suc k / 2 ≡ 2 ^ k
half-pow k = omega (arith, pow-suc 2 k)

half-field : (hi k : ℕ) → hi * 2 ^ suc k ≡ 2 * (hi * 2 ^ k)
half-field hi k = omega (arith, ap (λ (t : ℕ). hi * t) (pow-suc 2 k))

half-bit_or : (a b : ℕ) → bit_or a b / 2 ≡ bit_or (a / 2) (b / 2)
half-bit_or a b = omega (arith, bit_or_step a b)

pub bit_at-zero : (k : ℕ) → bit_at 0 k ≡ 0
bit_at-zero zero = refl
bit_at-zero (suc k) = bit_at-zero k

and-pow-suc : (w k : ℕ) → bit_and w (2 ^ suc k) ≡ bit_and (w / 2) (2 ^ k) * 2
and-pow-suc w k =
    omega (arith, bit_and_step w (2 ^ suc k), pow-suc 2 k, ap (bit_and (w / 2)) (half-pow k))

-- The mask of bit `k` keeps that bit alone.
pub bit_and-pow : (w k : ℕ) → bit_and w (2 ^ k) ≡ bit_at w k * 2 ^ k
bit_and-pow w zero = omega (arith, bit_and_step w 1, bit_and-zero (w / 2))
bit_and-pow w (suc k) =
    rw (and-pow-suc w k, bit_and-pow (w / 2) k) (omega (arith, half-field (bit_at (w / 2) k) k))

-- Setting bits sets each bit apart.
pub bit_at-bit_or : (a b k : ℕ) → bit_at (bit_or a b) k ≡ max (bit_at a k) (bit_at b k)
bit_at-bit_or a b zero = omega (arith, bit_or_step a b)
bit_at-bit_or a b (suc k) = rw (half-bit_or a b) (bit_at-bit_or (a / 2) (b / 2) k)

pub bit_at-pow : (j k : ℕ) → bit_at (2 ^ j) k ≡ (if j == k then 1 else 0)
bit_at-pow zero zero = refl
bit_at-pow zero (suc k) = ground (arith, bit_at-zero k)
bit_at-pow (suc j) zero = ground (arith, pow-suc 2 j)
bit_at-pow (suc j) (suc k) = rw half-pow (ground (arith, bit_at-pow j k))

-- `lo | (hi << k)` is a sum when `lo` fits `k` bits.
pub bit_or_fields : (k lo hi : ℕ) → lo < 2 ^ k → bit_or lo (hi * 2 ^ k) ≡ lo + hi * 2 ^ k
bit_or_fields zero zero hi h = ground (arith, zero-bit_or (hi * 1))
bit_or_fields zero (suc lo) hi h = absurd (omega arith)
bit_or_fields (suc k) lo hi h = ground (
  arith,
  bit_or_step lo (hi * 2 ^ suc k),
  pow-suc 2 k,
  half-field hi k,
  bit_or_fields k (lo / 2) hi (omega (arith, pow-suc 2 k)),
)

bit_and_fields : (k lo hi : ℕ) → lo < 2 ^ k → bit_and (lo + hi * 2 ^ k) (2 ^ k - 1) ≡ lo
bit_and_fields zero lo hi h = omega (arith, bit_and-zero (lo + hi * 1))
bit_and_fields (suc k) lo hi h = ground (
  arith,
  bit_and_step (lo + hi * 2 ^ suc k) (2 ^ suc k - 1),
  half-field hi k,
  pow-suc 2 k,
  one-le-pow k 2,
  bit_and_fields k (lo / 2) hi (omega (arith, pow-suc 2 k)),
)

-- A mask of the `k` low bits is the remainder by `2 ^ k`.
pub bit_and_low : (k a : ℕ) → bit_and a (2 ^ k - 1) ≡ a % 2 ^ k
bit_and_low k a =
    ground (arith, one-le-pow k 2, bit_and_fields k (a % 2 ^ k) (a / 2 ^ k), div-add-mod a (2 ^ k))
