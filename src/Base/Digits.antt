-- ===== src/Base/Digits.antt =====
-- The binary digits behind the bit operations: induction on halves, and the lowest digit apart.
use Prim.Native.Nat.{
  ℕ, zero, suc, ◌+◌, ◌-◌, ◌*◌, ◌/◌, ◌%◌, ◌≤◌, bit_and, bit_or, min, max, digits, bitwise,
  bit_and-bitwise, bit_or-bitwise,
}
use mathlib.Core.Path.{◌≡◌, refl, ◌∙◌, ap}
use native.Mathlib.Omega.{arith}

-- What holds of 0, and of a number if of its half, holds of all.
module _ (P : ℕ → Type 0) (base : P 0) (double : (n : ℕ) → P (suc n / 2) → P (suc n)) where
  halves_up_to : (bound n : ℕ) → n ≤ bound → P n
  halves_up_to bound zero le = base
  halves_up_to zero (suc n) le = absurd (omega arith)
  halves_up_to (suc bound) (suc n) le = double n (halves_up_to bound (suc n / 2) (omega arith))

  pub by_halves : (n : ℕ) → P n
  by_halves n = halves_up_to n n (omega arith)

module _ (rest : ℕ → ℕ) (op : ℕ → ℕ → ℕ) where
  -- A digit count that is long enough may be one longer.
  spare_digit :
      (count x y : ℕ) → x ≤ count → digits rest op (suc count) x y ≡ digits rest op count x y
  spare_digit zero zero y le = refl
  spare_digit zero (suc x) y le = absurd (omega arith)
  spare_digit (suc count) zero y le = refl
  spare_digit (suc count) (suc x) y le =
      ap (λ d. d * 2 + op (suc x % 2) (y % 2)) (spare_digit count (suc x / 2) (y / 2) (omega arith))

  spare_digits :
      (more count total x y : ℕ)
      → total ≡ more + count
      → x ≤ count
      → digits rest op total x y ≡ digits rest op count x y
  spare_digits zero count total x y e le =
      ap (λ t. digits rest op t x y) {x = total} {y = count} (omega arith)
  spare_digits (suc more) count zero x y e le = absurd (omega arith)
  spare_digits (suc more) count (suc total) x y e le =
      spare_digit total x y (omega arith) ∙ spare_digits more count total x y (omega arith) le

  pub lowest_digit :
      (x y : ℕ)
      → bitwise rest op (suc x) y ≡ bitwise rest op (suc x / 2) (y / 2) * 2 + op (suc x % 2) (y % 2)
  lowest_digit x y =
      ap (λ d. d * 2 + op (suc x % 2) (y % 2))
        (spare_digits (x - suc x / 2) (suc x / 2) x (suc x / 2) (y / 2) (omega arith) (omega arith))

pub bit_or_step : (x y : ℕ) → bit_or x y ≡ bit_or (x / 2) (y / 2) * 2 + max (x % 2) (y % 2)
bit_or_step zero y = simp bit_or-bitwise (omega arith)
bit_or_step (suc x) y = simp bit_or-bitwise (lowest_digit (λ d. d) max x y)

pub bit_and_step : (x y : ℕ) → bit_and x y ≡ bit_and (x / 2) (y / 2) * 2 + min (x % 2) (y % 2)
bit_and_step zero y = simp bit_and-bitwise (omega arith)
bit_and_step (suc x) y = simp bit_and-bitwise (lowest_digit (λ d. 0) min x y)

pub zero-bit_or : (y : ℕ) → bit_or 0 y ≡ y
zero-bit_or y = bit_or-bitwise 0 y

pub bit_and-zero : (x : ℕ) → bit_and x 0 ≡ 0
bit_and-zero =
    by_halves (λ x. bit_and x 0 ≡ 0) refl λ n half. omega (arith, bit_and_step (suc n) 0, half)

pub bit_or-zero : (x : ℕ) → bit_or x 0 ≡ x
bit_or-zero =
    by_halves (λ x. bit_or x 0 ≡ x) refl λ n half. omega (arith, bit_or_step (suc n) 0, half)

pub bit_or_comm : (x y : ℕ) → bit_or x y ≡ bit_or y x
bit_or_comm =
    by_halves (λ x. (y : ℕ) → bit_or x y ≡ bit_or y x)
      (λ y. omega (arith, zero-bit_or y, bit_or-zero y))
      (λ n half y. omega (arith, bit_or_step (suc n) y, bit_or_step y (suc n), half (y / 2)))
