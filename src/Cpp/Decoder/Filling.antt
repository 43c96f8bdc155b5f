-- ===== src/Cpp/Decoder/Filling.antt =====
-- Which slices of a package a slot's bytes hold, and the package once it holds all.
use native.Mathlib.Decide.{ℕ_discrete, dec_lt}
use master_pilot_custom_data.Base.{
  ℕ, zero, suc, ◌+◌, ◌-◌, ◌*◌, ◌≤◌, ◌<◌, true, List, ◌++◌, ◌≡◌, refl, arith, ap, ap₂, ◌∙◌, sym,
  length, take, drop, take-add, take_all, take-append-drop, length-drop,
}
use mathlib.Core.Path.{subst}
use master_pilot_custom_data.Rx.Received.{Received, with_slice, nothing, AllFrom}
use master_pilot_custom_data.Rx.Package.{Shape, IsShape, total, size_of}
use master_pilot_custom_data.Tools.Rx.Delivery.{part_of}
use master_pilot_custom_data.Tools.Rx.Assembly.{Holds, Holds-overwrite, Holds-empty, slice_end}
use master_pilot_custom_data.Cpp.Coordinator.{resize}
use master_pilot_custom_data.Cpp.Coordinator.Bytes.{
  bytes_with, length-resize, take-resize, length-bytes_with, resize-bytes_with,
}

several : (last p tail : ℕ) → 0 < last * p + tail → ¬ (0 < tail) → 0 < last
several zero p tail more full = absurd (omega arith)
several (suc last) p tail more full = omega arith

module _ (sh : Shape) (good : IsShape sh) (bytes : List ℕ) (filled : length bytes ≡ total sh) where
  open sh use {p, last, tail}

  -- The slices `got` are there, and the array reaches to the end of each.
  pub record Fills (got : Received) (slot : List ℕ) : Type 0 where
    pub holds : Holds sh good bytes filled got (resize slot (total sh))
    pub covers :
        (m : ℕ) → m ≤ last → got m ≡ true → 0 < size_of sh m → m * p + size_of sh m ≤ length slot

  pub Fills-start : (slot : List ℕ) → Fills nothing slot
  Fills-start slot = record {
    holds = record {
      roomy = omega (arith, length-resize slot (total sh));
      held = λ m h seen. absurd (cc);
    };
    covers = λ m h seen some_bytes. absurd (cc);
  }

  pub Fills-empty :
      (got : Received) (slot : List ℕ) (i : ℕ)
      → i ≤ last
      → size_of sh i ≡ 0
      → Fills got slot
      → Fills (with_slice got i) slot
  Fills-empty got slot i within none_there fills = record {
    holds =
        Holds-empty sh good bytes filled got (resize slot (total sh)) i within none_there
          fills.holds;
    covers = λ m h seen some_bytes. elim (ℕ_discrete i m) [
      | yes same ↦ absurd (omega (arith, ap (size_of sh) same))
      | no ne ↦ fills.covers m h (ground arith) some_bytes
    ];
  }

  pub Fills-put :
      (got : Received) (slot payload : List ℕ) (i : ℕ)
      → i ≤ last
      → length payload ≡ size_of sh i
      → payload ≡ part_of p bytes i
      → Fills got slot
      → Fills (with_slice got i) (bytes_with slot (i * p) payload)
  Fills-put got slot payload i within size content fills =
      let long = length-bytes_with slot (i * p) payload in
      record {
        holds =
            subst (Holds sh good bytes filled (with_slice got i))
              (sym (
                resize-bytes_with slot (i * p) payload (total sh)
                  (omega (arith, size, slice_end sh good bytes filled i within))))
              (Holds-overwrite sh good bytes filled got (resize slot (total sh)) payload i within
                fills.holds content);
        covers = λ m h seen some_bytes. elim (ℕ_discrete i m) [
          | yes same ↦ omega (arith, long, size, ap (size_of sh) same, ap (λ (n : ℕ). n * p) same)
          | no ne ↦ omega (arith, long, fills.covers m h (ground arith) some_bytes)
        ];
      }

  module _ (slot : List ℕ) (got : Received) (fills : Fills got slot)
      (all : AllFrom got 0 (suc last)) where
    abbrev array : List ℕ
    array = resize slot (total sh)

    prefix : (k : ℕ) → k ≤ last → take (k * p) array ≡ take (k * p) bytes
    prefix zero h =
        ap₂ take {x = 0 * p} {y = 0} (omega arith) refl
        ∙ ap (λ n. take n bytes) {x = 0} {y = 0 * p} (omega arith)
    prefix (suc k) h =
        let next : suc k * p ≡ k * p + p = omega arith in
        let inner : size_of sh k ≡ p = ground arith in
        let here : take p (drop (k * p) array) ≡ take p (drop (k * p) bytes) =
          ap (λ n. take n (drop (k * p) array)) (sym inner)
          ∙ fills.holds.held k (omega arith) (all k (omega arith) (omega arith)) in
        rw (next, take-add (k * p) p array, take-add (k * p) p bytes)
          (ap₂ (λ a b. a ++ b) (prefix k (omega arith)) here)

    array-whole : take (total sh) array ≡ bytes
    array-whole =
        let end : size_of sh last ≡ tail = ground arith in
        let short : length (drop (last * p) bytes) ≤ p =
          omega (arith, good, filled, length-drop (last * p) bytes) in
        let here : take tail (drop (last * p) array) ≡ drop (last * p) bytes =
          ap (λ n. take n (drop (last * p) array)) (sym end)
          ∙ fills.holds.held last (omega arith) (all last (omega arith) (omega arith))
          ∙ take_all p (drop (last * p) bytes) short in
        take-add (last * p) tail array
        ∙ ap₂ (λ a b. a ++ b) (prefix last (omega arith)) here
        ∙ take-append-drop (last * p) bytes

    -- The array reaches to the end of the package.
    pub Fills-reaches : total sh ≤ length slot
    Fills-reaches = elim (dec_lt 0 tail) [
      | yes some_bytes ↦
          let end : size_of sh last ≡ tail = ground arith in
          omega (
            arith,
            fills.covers last (omega arith) (all last (omega arith) (omega arith))
                (omega (arith, end)),
            end,
          )
      | no full ↦
          let before : 0 < last = several last p tail good.not_empty full in
          let inner : size_of sh (last - 1) ≡ p = ground arith in
          let last_end : (last - 1) * p + p ≡ last * p =
            omega (arith, ap (λ (n : ℕ). n * p) {x = last} {y = last - 1 + 1} (omega arith)) in
          omega (
            arith,
            fills.covers (last - 1) (omega arith) (all (last - 1) (omega arith) (omega arith))
                (omega (arith, good, inner)),
            inner,
            last_end,
          )
    ]

    pub Fills-whole : take (total sh) slot ≡ bytes
    Fills-whole = sym (take-resize slot (total sh) (total sh) Fills-reaches) ∙ array-whole
