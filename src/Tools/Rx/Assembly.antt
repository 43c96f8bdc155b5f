-- ===== src/Tools/Rx/Assembly.antt =====
-- Which slices of a package the rx command's assembly buffer holds.
use mathlib.Core.Path.{subst}
use native.Mathlib.Decide.{ℕ_discrete, dec_lt}
use native.Mathlib.Nat.{mul-le-mul_right}
use master_pilot_custom_data.Base.{
  ℕ, ◌+◌, ◌*◌, ◌≤◌, true, false, List, ltb, ◌≡◌, ◌≢◌, refl, arith, ap, ◌∙◌, sym, if◌then◌else◌,
  length, take, drop, overwrite, inl, inr, Bool-cases, le→ltb, ltb→le, length-take, length-drop,
  length-overwrite, take-drop-overwrite, take-drop-before, drop-behind, length-zero,
}
use master_pilot_custom_data.Coordinate.{Coordinate}
use master_pilot_custom_data.Rx.Received.{Received, with_slice}
use master_pilot_custom_data.Rx.Package.{Shape, IsShape, total, size_of}
use master_pilot_custom_data.Tools.Rx.{RxCtx, payload_put}
use master_pilot_custom_data.Tools.Rx.Delivery.{part_of}

module _ (sh : Shape) (good : IsShape sh) (bytes : List ℕ) (whole : length bytes ≡ total sh) where
  open sh use {p, last, tail}

  abbrev part : ℕ → List ℕ
  part m = part_of p bytes m

  -- The buffer holds the bytes of slice `m`.
  abbrev pub Held : List ℕ → ℕ → Type 0
  Held assembly m = take (size_of sh m) (drop (m * p) assembly) ≡ part m

  pub slice_end : (m : ℕ) → m ≤ last → m * p + size_of sh m ≤ total sh
  slice_end m h = elim (ℕ_discrete m last) [
    | yes e ↦ ground (arith, ap (λ (n : ℕ). n * p) e)
    | no ne ↦ ground (arith, mul-le-mul_right {m = m + 1} {n = last} p (omega arith))
  ]

  length-part : (m : ℕ) → m ≤ last → length (part m) ≡ size_of sh m
  length-part m h = elim (ℕ_discrete m last) [
    | yes e ↦ ground (
      arith,
      good,
      whole,
      ap (λ (n : ℕ). n * p) e,
      length-take p (drop (m * p) bytes),
      length-drop (m * p) bytes,
    )
    | no ne ↦ ground (
      arith,
      whole,
      mul-le-mul_right {m = m + 1} {n = last} p (omega arith),
      length-take p (drop (m * p) bytes),
      length-drop (m * p) bytes,
    )
  ]

  Held-written :
      (assembly block : List ℕ) (i : ℕ)
      → i ≤ last
      → total sh ≤ length assembly
      → block ≡ part i
      → Held (overwrite assembly (i * p) block) i
  Held-written assembly block i within roomy e =
      let size : length block ≡ size_of sh i = ap length e ∙ length-part i within in
      let place : i * p + 0 ≡ i * p = omega arith in
      let count : 0 + length block ≡ size_of sh i = omega (arith, size) in
      let written : take (0 + length block) (drop (i * p) (overwrite assembly (i * p + 0) block))
          ≡ block =
        take-drop-overwrite assembly (i * p) 0 block (omega (arith, slice_end i within)) in
      ap (λ n. take n (drop (i * p) (overwrite assembly (i * p) block))) (sym count)
      ∙ ap (λ o. take (0 + length block) (drop (i * p) (overwrite assembly o block))) (sym place)
      ∙ written
      ∙ e

  Held-kept :
      (assembly block : List ℕ) (i m : ℕ)
      → i ≤ last
      → m ≤ last
      → i ≢ m
      → total sh ≤ length assembly
      → block ≡ part i
      → Held assembly m
      → Held (overwrite assembly (i * p) block) m
  Held-kept assembly block i m within hm ne roomy e held =
      let size : length block ≡ size_of sh i = ap length e ∙ length-part i within in
      elim (dec_lt m i) [
        | yes before ↦
            take-drop-before (m * p) (size_of sh m) (i * p) assembly block
              (ground (arith, good, mul-le-mul_right {m = m + 1} {n = i} p (omega arith)))
              (omega (arith, slice_end i within))
            ∙ held
        | no not_before ↦
            ap (take (size_of sh m)) (
              drop-behind (m * p) (i * p) assembly block
                (ground (arith, good, size, mul-le-mul_right {m = i + 1} {n = m} p (omega arith)))
                (omega (arith, slice_end i within)))
            ∙ held
      ]

  -- The buffer holds the slices `got`, and has room for the package.
  pub record Holds (got : Received) (assembly : List ℕ) : Type 0 where
    pub roomy : total sh ≤ length assembly
    pub held : (m : ℕ) → m ≤ last → got m ≡ true → Held assembly m

  pub Holds-overwrite :
      (got : Received) (assembly block : List ℕ) (i : ℕ)
      → i ≤ last
      → Holds got assembly
      → block ≡ part i
      → Holds (with_slice got i) (overwrite assembly (i * p) block)
  Holds-overwrite got assembly block i within holds e =
      let size : length block ≡ size_of sh i = ap length e ∙ length-part i within in
      record {
        roomy = omega (
          arith,
          holds,
          length-overwrite assembly (i * p) block (omega (arith, holds, slice_end i within)),
        );
        held = λ m hm seen. elim (ℕ_discrete i m) [
          | yes same ↦
              subst (Held (overwrite assembly (i * p) block)) same
                (Held-written assembly block i within holds.roomy e)
          | no ne ↦
              Held-kept assembly block i m within hm ne holds.roomy e
                (holds.held m hm (ground arith))
        ];
      }

  -- An empty slice is held without a copy.
  pub Holds-empty :
      (got : Received) (assembly : List ℕ) (i : ℕ)
      → i ≤ last
      → size_of sh i ≡ 0
      → Holds got assembly
      → Holds (with_slice got i) assembly
  Holds-empty got assembly i within none_there holds = record {
    roomy = holds.roomy;
    held = λ m hm seen. elim (ℕ_discrete i m) [
      | yes same ↦ subst (Held assembly) same (
          ap (λ n. take n (drop (i * p) assembly)) none_there
          ∙ sym (length-zero (part i) (length-part i within ∙ none_there)))
      | no ne ↦ holds.held m hm (ground arith)
    ];
  }

  -- What the callback does with the payload of slice `i`.
  abbrev Puts : Received → RxCtx → ℕ → RxCtx → Type 0
  Puts got c i c' =
      (assembly : List ℕ) × (c' ≡ record c { assembly = assembly; fault = false })
      × Holds (with_slice got i) assembly

  pub put-Holds :
      (got : Received) (c : RxCtx) (coord : Coordinate) (i : ℕ) (rest : List ℕ)
      → i ≤ last
      → coord.offset ≡ i * p
      → size_of sh i ≤ length rest
      → take (size_of sh i) rest ≡ part i
      → Holds got c.assembly
      → c.fault ≡ false
      → Puts got c i (if ltb 0 (size_of sh i) then payload_put c coord rest (size_of sh i) else c)
  unfolding payload_put
  put-Holds got c coord i rest within place long content holds safe =
      elim (Bool-cases (ltb 0 (size_of sh i))) [
        | inr empty ↦ (
          c.assembly,
          rw (empty, safe) refl,
          Holds-empty got c.assembly i within (omega (arith, ltb→le 0 (size_of sh i) empty)) holds,
        )
        | inl some_bytes ↦
            let read : ltb (length rest) (size_of sh i) ≡ false = le→ltb _ _ long in
            let room : ltb (length c.assembly) (i * p + size_of sh i) ≡ false =
              le→ltb _ _ (omega (arith, holds, slice_end i within)) in
            (
              overwrite c.assembly (i * p) (take (size_of sh i) rest),
              rw (some_bytes, place, safe, read, room) refl,
              Holds-overwrite got c.assembly (take (size_of sh i) rest) i within holds content,
            )
      ]
