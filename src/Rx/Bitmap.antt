-- ===== src/Rx/Bitmap.antt =====
-- The bitmap of received slices as a set of slice indices.
use native.Mathlib.Nat.{one-le-pow}
use native.Mathlib.Decide.{ℕ_discrete}
use master_pilot_custom_data.Base.{
  ℕ, zero, suc, ◌*◌, ◌/◌, ◌%◌, ◌^◌, ◌<◌, bit_and, bit_or, true, false, not, List, ◌≡◌, ◌≢◌, refl,
  arith, ◌==◌, if◌then◌else◌, length, get_or, get_or-set_self, get_or-set_ne, length-set, bit_at,
  bit_and-pow, bit_at-bit_or, bit_at-pow, bit_at-lt, bit_at-zero, replicate, bit_and_low, ap, ◌∙◌,
}
use master_pilot_custom_data.Rx.{has_slice, set_slice}

-- Bit `i % 32` of word `i / 32`.
abbrev slot_bit : List ℕ → ℕ → ℕ
slot_bit bitmap i = bit_at (get_or bitmap (i / 32) 0) (i % 32)

mask_alone : (w k b : ℕ) → bit_at w k ≡ b → bit_and w (1 * 2 ^ k) ≡ b * 2 ^ k
mask_alone w k b e =
    ap (bit_and w) {x = 1 * 2 ^ k} {y = 2 ^ k} (omega arith)
    ∙ bit_and-pow w k
    ∙ ap (λ c. c * 2 ^ k) e

mask_test : (w k : ℕ) → (bit_and w (1 * 2 ^ k) == 0) ≡ (bit_at w k == 0)
mask_test w k = elim (ℕ_discrete (bit_at w k) 0) [
  | yes z ↦ ground (arith, mask_alone w k 0 z)
  | no nz ↦
      ground (arith, mask_alone w k 1 (omega (arith, bit_at-lt w k)), one-le-pow k 2, bit_at-lt w k)
]

has_slice-bit : (bitmap : List ℕ) (i : ℕ) → has_slice bitmap i ≡ not (slot_bit bitmap i == 0)
unfolding has_slice
has_slice-bit bitmap i =
    rw (bit_and_low 5 i) (ap not (mask_test (get_or bitmap (i / 32) 0) (i % 32)))

pub length-set_slice : (bitmap : List ℕ) (i : ℕ) → length (set_slice bitmap i) ≡ length bitmap
unfolding set_slice
length-set_slice bitmap i = length-set bitmap _ _

same_word :
    (bitmap : List ℕ) (i j : ℕ)
    → i / 32 ≡ j / 32
    → i / 32 < length bitmap
    → slot_bit (set_slice bitmap i) j
      ≡ bit_at (bit_or (get_or bitmap (i / 32) 0) (2 ^ (i % 32))) (j % 32)
unfolding set_slice
same_word bitmap i j e h =
    rw
      (
        bit_and_low 5 i,
        ← e,
        get_or-set_self bitmap (i / 32) (bit_or (get_or bitmap (i / 32) 0) (1 * 2 ^ (i % 32))) 0 h,
      )
      (ap (λ m. bit_at (bit_or (get_or bitmap (i / 32) 0) m) (j % 32)) (omega arith))

other_word :
    (bitmap : List ℕ) (i j : ℕ)
    → i / 32 ≢ j / 32
    → get_or (set_slice bitmap i) (j / 32) 0 ≡ get_or bitmap (j / 32) 0
unfolding set_slice
other_word bitmap i j ne = get_or-set_ne bitmap (i / 32) (j / 32) _ 0 ne

-- Recording a slice adds its index to the set, and no other.
pub has_slice-set_slice :
    (bitmap : List ℕ) (i j : ℕ)
    → length bitmap ≡ 8
    → i < 2 ^ 8
    → has_slice (set_slice bitmap i) j ≡ (if i == j then true else has_slice bitmap j)
has_slice-set_slice bitmap i j len hi =
    rw (has_slice-bit (set_slice bitmap i) j, has_slice-bit bitmap j)
      (elim (ℕ_discrete (i / 32) (j / 32)) [
        | yes e ↦ ground (
          arith,
          same_word bitmap i j e (omega (arith, len)),
          bit_at-bit_or (get_or bitmap (i / 32) 0) (2 ^ (i % 32)) (j % 32),
          bit_at-pow (i % 32) (j % 32),
          bit_at-lt (get_or bitmap (j / 32) 0) (j % 32),
          ap (λ k. bit_at (get_or bitmap k 0) (j % 32)) e,
        )
        | no ne ↦ ground (
          arith,
          other_word bitmap i j ne,
          ap (λ w. bit_at w (j % 32)) (other_word bitmap i j ne),
        )
      ])

zeros : (n i : ℕ) → get_or {A = ℕ} (replicate n 0) i 0 ≡ 0
zeros zero i = refl
zeros (suc n) zero = refl
zeros (suc n) (suc i) = zeros n i

pub has_slice-none : (i : ℕ) → has_slice (replicate 8 0) i ≡ false
has_slice-none i =
    has_slice-bit (replicate 8 0) i
    ∙ ap (λ w. not (bit_at w (i % 32) == 0)) (zeros 8 (i / 32))
    ∙ ap (λ b. not (b == 0)) (bit_at-zero (i % 32))
