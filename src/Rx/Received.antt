-- ===== src/Rx/Received.antt =====
-- Sets of slice indices as tests, and how many of them lie below a bound.
use native.Mathlib.Decide.{ℕ_discrete}
use mathlib.Core.Path.{subst}
use master_pilot_custom_data.Base.{
  ℕ, zero, suc, ◌+◌, ◌≤◌, ◌<◌, Bool, true, false, ◌≡◌, ◌⊎◌, inl, inr, refl, arith, ◌==◌,
  if◌then◌else◌, Bool-cases,
}

abbrev pub Received : Type 0
Received = ℕ → Bool

abbrev pub nothing : Received
nothing i = false

abbrev pub with_slice : Received → ℕ → Received
with_slice got i j = if i == j then true else got j

-- All indices from `k` on, below `n`, are in.
abbrev pub AllFrom : Received → ℕ → ℕ → Type 0
AllFrom got k n = (m : ℕ) → k ≤ m → m < n → got m ≡ true

abbrev pub count_below : Received → ℕ → ℕ
count_below got zero = 0
count_below got (suc n) = count_below got n + (if got n then 1 else 0)

pub count-nothing : (n : ℕ) → count_below nothing n ≡ 0
count-nothing zero = refl
count-nothing (suc n) = omega (arith, count-nothing n)

pub count-out :
    (got : Received) (i n : ℕ) → n ≤ i → count_below (with_slice got i) n ≡ count_below got n
count-out got i zero h = refl
count-out got i (suc n) h = ground (arith, count-out got i n)

pub count-in :
    (got : Received) (i n : ℕ)
    → i < n
    → got i ≡ false
    → count_below (with_slice got i) n ≡ count_below got n + 1
count-in got i zero h new = absurd (omega arith)
count-in got i (suc n) h new = elim (ℕ_discrete i n) [
  | yes e ↦ ground (arith, count-out got i n)
  | no ne ↦ ground (arith, count-in got i n)
]

pub count-le : (got : Received) (n : ℕ) → count_below got n ≤ n
count-le got zero = omega arith
count-le got (suc n) = ground (arith, count-le got n)

pub count-all : (got : Received) (n : ℕ) → AllFrom got 0 n → count_below got n ≡ n
count-all got zero all = refl
count-all got (suc n) all = ground (arith, all n, count-all got n (λ m p q. all m p (omega arith)))

pub count-missing : (got : Received) (m n : ℕ) → m < n → got m ≡ false → count_below got n < n
count-missing got m zero h missing = absurd (omega arith)
count-missing got m (suc n) h missing = elim (ℕ_discrete m n) [
  | yes e ↦ ground (arith, count-le got n)
  | no ne ↦ ground (arith, count-missing got m n)
]

AllFrom-back : (got : Received) (k n : ℕ) → got k ≡ true → AllFrom got (suc k) n → AllFrom got k n
AllFrom-back got k n here run m above below = elim (ℕ_discrete k m) [
  | yes e ↦ subst (λ j. got j ≡ true) e here
  | no ne ↦ run m (omega arith) below
]

-- Either all `d` indices from `k` on are in, or there is a first one that is not.
pub first_gap :
    (got : Received) (d k n : ℕ)
    → n ≡ k + d
    → ((g : ℕ) × (k ≤ g) × (g < n) × (got g ≡ false) × AllFrom got k g) ⊎ AllFrom got k n
first_gap got zero k n e = inr (λ m p q. absurd (omega arith))
first_gap got (suc d) k n e = elim (Bool-cases (got k)) [
  | inr missing ↦ inl (k, omega arith, omega arith, missing, λ m p q. absurd (omega arith))
  | inl here ↦ elim (first_gap got d (suc k) n (omega arith)) [
    | inl (g, above, below, missing, run) ↦
        inl (g, omega arith, below, missing, AllFrom-back got k g here run)
    | inr run ↦ inr (AllFrom-back got k n here run)
  ]
]
