-- ===== src/Base/Blocks.antt =====
-- Blocks copied into an array.
use Prim.Native.Nat.{ℕ, zero, suc, ◌+◌, ◌-◌, ◌≤◌}
use mathlib.Core.Path.{◌≡◌, refl, ap, ◌∙◌}
use mathlib.Core.List.{List, [], ◌∷◌, ◌++◌}
use native.Mathlib.Omega.{arith}
use master_pilot_custom_data.Base.Lists.{
  suc_add, length, take, drop, length-append, length-take, length-drop, take-append, drop-append,
  drop-take, drop-drop, drop-past,
}

module _ {ℓ} {A : Type ℓ} where
  -- `memcpy` of a block to offset `off`, within bounds.
  abbrev pub overwrite : List A → ℕ → List A → List A
  overwrite xs off block = take off xs ++ block ++ drop (off + length block) xs

  pub length-overwrite :
      (xs : List A) (off : ℕ) (block : List A)
      → off + length block ≤ length xs
      → length (overwrite xs off block) ≡ length xs
  length-overwrite xs off block h =
      let rest = drop (off + length block) xs in
      let parts : length (take off xs ++ block ++ rest) ≡ length xs = omega (
        arith,
        length-append (take off xs ++ block) rest,
        length-append (take off xs) block,
        length-take off xs,
        length-drop (off + length block) xs,
      ) in
      parts

  -- A block written behind the first `n` elements from offset `m` on follows them.
  pub take-drop-overwrite :
      (xs : List A) (m n : ℕ) (block : List A)
      → m + n ≤ length xs
      → take (n + length block) (drop m (overwrite xs (m + n) block)) ≡ take n (drop m xs) ++ block
  take-drop-overwrite xs m n block h =
      let rest = drop (m + n + length block) xs in
      let kept = take n (drop m xs) in
      let long : n ≡ length kept = omega (arith, length-take n (drop m xs), length-drop m xs) in
      let before = take (m + n) xs in
      let cut : drop m (overwrite xs (m + n) block) ≡ kept ++ block ++ rest =
        drop-append m (before ++ block) rest
          (omega (arith, length-take (m + n) xs, length-append before block))
        ∙ ap (λ l. l ++ rest)
            (drop-append m before block (omega (arith, length-take (m + n) xs))
              ∙ ap (λ l. l ++ block) (drop-take m n xs)) in
      ap (take (n + length block)) cut
      ∙ ap (λ k. take k (kept ++ block ++ rest)) (omega (arith, length-append kept block))
      ∙ take-append (kept ++ block) rest

  -- A block leaves what stands before it, and what stands behind it.
  pub take-drop-before :
      (m n off : ℕ) (xs block : List A)
      → m + n ≤ off
      → off ≤ length xs
      → take n (drop m (overwrite xs off block)) ≡ take n (drop m xs)
  take-drop-before zero zero off xs block h le = refl
  take-drop-before (suc m) n zero xs block h le = absurd (omega arith)
  take-drop-before zero (suc n) zero xs block h le = absurd (omega arith)
  take-drop-before (suc m) n (suc off) [] block h le = absurd (omega arith)
  take-drop-before zero (suc n) (suc off) [] block h le = absurd (omega arith)
  take-drop-before (suc m) n (suc off) (x ∷ xs) block h le =
      rw (suc_add off (length block))
        (take-drop-before m n off xs block (omega arith) (omega arith))
  take-drop-before zero (suc n) (suc off) (x ∷ xs) block h le =
      rw (suc_add off (length block))
        (ap (λ l. x ∷ l) (take-drop-before zero n off xs block (omega arith) (omega arith)))

  pub drop-behind :
      (m off : ℕ) (xs block : List A)
      → off + length block ≤ m
      → off ≤ length xs
      → drop m (overwrite xs off block) ≡ drop m xs
  drop-behind m zero xs block h le =
      drop-past m block (drop (0 + length block) xs) (omega arith)
      ∙ drop-drop (0 + length block) (m - length block) xs
      ∙ ap (λ k. drop k xs) (omega arith)
  drop-behind zero (suc off) xs block h le = absurd (omega arith)
  drop-behind (suc m) (suc off) [] block h le = absurd (omega arith)
  drop-behind (suc m) (suc off) (x ∷ xs) block h le =
      rw (suc_add off (length block)) (drop-behind m off xs block (omega arith) (omega arith))
