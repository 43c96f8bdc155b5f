-- ===== src/Tools/Transfer.antt =====
-- What the tx command writes for a package, the rx command puts together.
pub mod RoundTrip
pub mod Packages
use mathlib.Core.Path.{subst}
use native.Mathlib.Nat.{mul-le-mul_right}
use master_pilot_custom_data.Base.{
  ℕ, zero, suc, ◌+◌, ◌-◌, ◌*◌, ◌≤◌, ◌<◌, ◌^◌, min, Bool, true, false, List, [], ◌∷◌, ◌++◌, ltb,
  if◌then◌else◌, ◌≡◌, refl, arith, ap, ◌∙◌, sym, length, length-append, take, drop, get_or,
  take_all, take-append, drop-past, le→ltb, lt→ltb,
}
use master_pilot_custom_data.Header.{header_size, packed_header_to_array}
use master_pilot_custom_data.Tx.Laws.{slot_header}
use master_pilot_custom_data.TxStream.Framer.{Slice}
use master_pilot_custom_data.TxStream.Package.{Packaged, last, full}
use master_pilot_custom_data.RxStream.Frame.{frame_of}
use master_pilot_custom_data.Tools.Rx.Delivery.{part_of}
use master_pilot_custom_data.Tools.Tx.Sink.{AreFrames, frame_and}

-- How many of the bytes `xs` the `n`-th slice from their start on has.
abbrev pub size_at : ℕ → List ℕ → ℕ → ℕ
size_at p xs n = min p (length xs - n * p)

-- The block is the frame of slice `j`, which has the `n`-th `p` bytes of `xs`, and the end mark by
-- how many bytes are left there.
abbrev pub Carries : (ends : ℕ → Bool) (tu p sender pkg j : ℕ) → List ℕ → (n : ℕ) → List ℕ → Type 0
Carries ends tu p sender pkg j xs n block =
    (rest : List ℕ) × (block
      ≡ frame_of (slot_header sender pkg j (size_at p xs n) (ends (length xs - n * p))) rest)
    × (length block ≡ tu)
    × (size_at p xs n ≤ length rest)
    × (take (size_at p xs n) rest ≡ part_of p xs n)

-- A frame whose payload is `payload` carries a slice with those bytes.
pub frame-Carries :
    (ends : ℕ → Bool) (tu p sender pkg j n size : ℕ) (xs payload stale : List ℕ) (eop : Bool)
    → length (frame_of (slot_header sender pkg j size eop) (payload ++ stale)) ≡ tu
    → length payload ≡ size
    → size ≡ size_at p xs n
    → eop ≡ ends (length xs - n * p)
    → payload ≡ part_of p xs n
    → Carries ends tu p sender pkg j xs n
        (frame_of (slot_header sender pkg j size eop) (payload ++ stale))
frame-Carries ends tu p sender pkg j n size xs payload stale eop long filled sized ended content =
    let count : size_at p xs n ≡ length payload = omega (arith, filled, sized) in
    (
      payload ++ stale,
      ap (λ s. frame_of (slot_header sender pkg j s eop) (payload ++ stale)) sized
          ∙ ap (λ e. frame_of (slot_header sender pkg j (size_at p xs n) e) (payload ++ stale))
              ended,
      long,
      omega (arith, count, length-append payload stale),
      ap (λ s. take s (payload ++ stale)) count ∙ take-append payload stale ∙ content,
    )

-- What a slice carries is seen by how much is left and by its bytes.
pub Carries-same :
    (ends : ℕ → Bool) (tu p sender pkg j n m : ℕ) (xs ys block : List ℕ)
    → length xs - n * p ≡ length ys - m * p
    → part_of p xs n ≡ part_of p ys m
    → Carries ends tu p sender pkg j ys m block
    → Carries ends tu p sender pkg j xs n block
Carries-same ends tu p sender pkg j n m xs ys block left content carries =
    rw (left, content) carries

pub part_of-append :
    (p n : ℕ) (block rest : List ℕ)
    → length block ≡ p
    → part_of p (block ++ rest) (suc n) ≡ part_of p rest n
part_of-append p n block rest filled =
    let past : suc n * p - length block ≡ n * p = omega (arith, filled) in
    ap (take p)
      (drop-past (suc n * p) block rest (omega (arith, filled)) ∙ ap (λ k. drop k rest) past)

-- The C sender's last slice is the one that is not full.
abbrev pub not_full : ℕ → ℕ → Bool
not_full p left = ltb left p

-- The `n`-th block written carries the `n`-th slice.
pub block-Carries :
    (tu p sender pkg i j : ℕ) (xs : List ℕ) (slices : List Slice) (blocks : List (List ℕ)) (n : ℕ)
    → 0 < p
    → Packaged p sender pkg i xs slices
    → AreFrames tu slices blocks
    → n * p ≤ length xs
    → i + n ≡ j
    → Carries (not_full p) tu p sender pkg j xs n (get_or blocks n [])
block-Carries tu p sender pkg i j xs slices blocks zero pos (last _ _ short)
      (frame_and _ stale long _) within e =
    let first : 0 * p ≡ 0 = omega arith in
    let here : i ≡ j = omega (arith, e) in
    subst
      (λ k.
        Carries (not_full p) tu p sender pkg k xs 0
          (frame_of (slot_header sender pkg i (length xs) true) (xs ++ stale)))
      here
      (frame-Carries (not_full p) tu p sender pkg i 0 (length xs) xs xs stale true long refl
        (omega arith) (ground arith)
        (sym (ap (λ k. take p (drop k xs)) first ∙ take_all p xs (omega arith))))
block-Carries tu p sender pkg i j xs slices blocks (suc n) pos (last _ _ short) written within e =
    absurd (omega (arith, mul-le-mul_right {m = 1} {n = suc n} p (omega arith)))
block-Carries tu p sender pkg i j xs slices blocks zero pos (full block rest filled split more)
      (frame_and _ stale long _) within e =
    let first : 0 * p ≡ 0 = omega arith in
    let here : i ≡ j = omega (arith, e) in
    let size : length xs ≡ p + length rest =
      omega (arith, ap length split, length-append block rest, filled) in
    subst
      (λ k.
        Carries (not_full p) tu p sender pkg k xs 0
          (frame_of (slot_header sender pkg i p false) (block ++ stale)))
      here
      (frame-Carries (not_full p) tu p sender pkg i 0 p xs block stale false long filled
        (omega arith) (ground arith)
        (sym (
          ap (λ k. take p (drop k xs)) first
          ∙ ap (take p) split
          ∙ ap (λ k. take k (block ++ rest)) (sym filled)
          ∙ take-append block rest)))
block-Carries tu p sender pkg i j xs slices blocks (suc n) pos (full block rest filled split more)
      (frame_and _ _ _ written) within e =
    let size : length xs ≡ p + length rest =
      omega (arith, ap length split, length-append block rest, filled) in
    Carries-same (not_full p) tu p sender pkg j (suc n) n xs rest _ (omega arith)
      (ap (λ l. part_of p l (suc n)) split ∙ part_of-append p n block rest filled)
      (block-Carries tu p sender pkg (suc i) j rest _ _ n pos more written (omega arith)
        (omega arith))
