-- ===== src/Embedded/Decode/Pull.antt =====
-- The pull stream on the payload of a package: what each request reads.
use mathlib.Core.Path.{subst}
use native.Mathlib.Nat.{div-lt_iff_lt-mul, div-mul-le_self, lt-div-mul-add}
use native.Mathlib.Decide.{ℕ_discrete}
use master_pilot_custom_data.Base.{
  ℕ, zero, suc, ◌+◌, ◌-◌, ◌*◌, ◌/◌, ◌≤◌, ◌<◌, min, false, Option, some, List, [], ◌≡◌, refl, arith,
  ap, ◌∙◌, sym, leb, ◌==◌, length, take, drop, u8, u16, u32, sub32, inl, inr, Bool-cases, take-add,
  take-drop-take, drop-drop, length-take, length-drop,
}
use master_pilot_custom_data.Coordinate.{Coordinate, offset_to_slice_idx, slice_idx_to_offset}
use master_pilot_custom_data.Coordinate.Laws.{offset_exact}
use master_pilot_custom_data.Rx.Package.{Shape, IsShape, total, size_of}
use master_pilot_custom_data.RxStream.{RxCoordinator}
use master_pilot_custom_data.Tools.Rx.Delivery.{part_of}
use master_pilot_custom_data.Embedded.Decode.{
  Reader, ends, reads, SlicePull, pull_take, pull_bytes, pull_loop, slice_pull_callback, run_reader,
}

-- The decoder on a list of bytes. A request for more than are left ends the decoding with an
-- error, as nanopb's `pb_read` does.
abbrev pub run_list : {M : Type 0} → Reader M → List ℕ → Option M
run_list (ends result) bytes = result
run_list (reads count next) bytes = run_list (next (take count bytes)) (drop count bytes)

-- The decoder never asks for more than the `n` bytes that are left: `pb_read` checks `bytes_left`
-- before each call.
abbrev pub Within : {M : Type 0} → ℕ → Reader M → Type 0
Within n (ends result) = Unit {0}
Within n (reads count next) =
    (count ≤ n) × ((bytes : List ℕ) → length bytes ≡ count → Within (n - count) (next bytes))

module _ (sh : Shape) (good : IsShape sh) (bytes : List ℕ) (whole : length bytes ≡ total sh)
    {W : Type 0} (store : RxCoordinator W) (w : W) (memory : List ℕ)
    (gets : (coord : Coordinate) → store.payload_get w coord ≡ drop coord.offset memory)
    (stored : (m : ℕ)
      → m ≤ sh.last
      → take (size_of sh m) (drop (m * sh.p) memory) ≡ part_of sh.p bytes m)
    (base : Coordinate) where
  open sh use {p, last, tail}

  -- The stream after `n` bytes.
  abbrev pub pull_at : ℕ → SlicePull
  pull_at n = record { base_coord = base; termination = total sh; max_payload = p; consumed = n }

  slice_of : (n : ℕ) → n < total sh → n / p ≤ last
  slice_of n h =
      let below : n < (last + 1) * p = omega (arith, good) in
      omega (arith, (div-lt_iff_lt-mul {x = n} {y = last + 1} good.some_payload).1 below)

  -- The slice that byte `n` is in, and the place of the byte in it.
  start_of :
      (n : ℕ) → n < total sh → slice_idx_to_offset (offset_to_slice_idx (u16 n) p) p ≡ n / p * p
  unfolding offset_to_slice_idx
  start_of n h =
      let low : u16 n ≡ n = omega (arith, good) in
      let index : u8 (n / p) ≡ n / p = omega (arith, slice_of n h, good) in
      ap (λ k. slice_idx_to_offset (u8 (k / p)) p) low
      ∙ ap (λ k. slice_idx_to_offset k p) index
      ∙ offset_exact (n / p) p (omega (arith, good, div-mul-le_self n p))

  abbrev place : ℕ → ℕ
  place n = n - n / p * p

  place-lt : (n : ℕ) → (n / p * p ≤ n) × (place n < p)
  place-lt n = (
    div-mul-le_self n p,
    omega (arith, lt-div-mul-add {a = n} good.some_payload, div-mul-le_self n p),
  )

  abbrev portion : ℕ → ℕ → ℕ
  portion n count = min count (min (total sh - n) (p - place n))

  pull_take-portion :
      (n count : ℕ)
      → n < total sh
      → n + count ≤ total sh
      → pull_take store w (pull_at n) count ≡ portion n count
  unfolding pull_take
  pull_take-portion n count h fits = rw (start_of n h) (ground (arith, good, place-lt n))

  -- Slice `n / p` has the portion.
  portion_inside : (n count : ℕ) → n < total sh → place n + portion n count ≤ size_of sh (n / p)
  portion_inside n count h = elim (ℕ_discrete (n / p) last) [
    | yes e ↦ ground (arith, place-lt n, ap (λ (j : ℕ). j * p) e)
    | no ne ↦ ground (arith, place-lt n)
  ]

  pull_bytes-portion :
      (n count : ℕ)
      → n < total sh
      → pull_bytes store w (pull_at n) (portion n count) ≡ take (portion n count) (drop n bytes)
  unfolding pull_bytes
  pull_bytes-portion n count h =
      let m = n / p in
      let k = portion n count in
      let at_place : sub32 n (m * p) ≡ place n = omega (arith, place-lt n, good) in
      let together : m * p + place n ≡ n = omega (arith, place-lt n) in
      rw (start_of n h, gets, at_place)
        (sym (
            take-drop-take (place n) k (size_of sh m) (drop (m * p) memory)
              (portion_inside n count h))
          ∙ ap (λ l. take k (drop (place n) l)) (stored m (slice_of n h))
          ∙ take-drop-take (place n) k p (drop (m * p) bytes) (omega (arith, place-lt n))
          ∙ ap (take k) (drop-drop (m * p) (place n) bytes ∙ ap (λ o. drop o bytes) together))

  pull_loop-reads :
      (fuel n count : ℕ)
      → count < fuel
      → n + count ≤ total sh
      → pull_loop store w fuel (pull_at n) count
        ≡ some (take count (drop n bytes), pull_at (n + count))
  unfolding pull_loop
  pull_loop-reads zero n count enough fits = absurd (omega arith)
  pull_loop-reads (suc fuel) n zero enough fits = ap (λ k. some ([], pull_at k)) (omega arith)
  pull_loop-reads (suc fuel) n (suc c) enough fits =
      let h : n < total sh = omega arith in
      let k = portion n (suc c) in
      let more : (suc c == 0) ≡ false = ground arith in
      let next : u32 (n + k) ≡ n + k = omega (arith, good) in
      let some_bytes : 0 < k = omega (arith, place-lt n) in
      rw (more, pull_take-portion n (suc c) h fits, next, pull_bytes-portion n (suc c) h)
        (elim (Bool-cases (leb (total sh) (n + k))) [
          | inl done ↦
              let all : k ≡ suc c = ground arith in
              rw done (ap (λ j. some (take j (drop n bytes), pull_at (n + j))) all)
          | inr rest ↦
              let together : k + (suc c - k) ≡ suc c = omega arith in
              let along : n + k + (suc c - k) ≡ n + suc c = omega arith in
              rw
                (
                  rest,
                  pull_loop-reads fuel (n + k) (suc c - k) (omega arith) (omega arith),
                  ← drop-drop n k bytes,
                  ← take-add k (suc c - k) (drop n bytes),
                  together,
                  along,
                )
                refl
        ])

  pull-reads :
      (n count : ℕ)
      → n + count ≤ total sh
      → slice_pull_callback store w (pull_at n) count
        ≡ some (take count (drop n bytes), pull_at (n + count))
  unfolding slice_pull_callback
  pull-reads n count fits = pull_loop-reads (suc count) n count (omega arith) fits

  -- For a package that is not empty, has at most 256 slices, and whose slots end below 2^16, and
  -- payload callbacks over one array that holds each slice at its offset: a decoder that asks for
  -- no more bytes than are left reads through the pull stream, from any byte on, what it reads
  -- from the list of the bytes of the package, and every callback returns.
  pub run_reader-list :
      {M : Type 0} (reader : Reader M) (n : ℕ)
      → n ≤ total sh
      → Within (total sh - n) reader
      → run_reader store w reader (pull_at n) ≡ some (run_list reader (drop n bytes))
  unfolding run_reader
  run_reader-list (ends result) n h within = refl
  run_reader-list (reads count next) n h (enough, onward) =
      let request = take count (drop n bytes) in
      let size : length request ≡ count =
        omega (arith, length-take count (drop n bytes), length-drop n bytes, whole) in
      let left : total sh - n - count ≡ total sh - (n + count) = omega arith in
      rw (pull-reads n count (omega arith), drop-drop n count bytes)
        (run_reader-list (next request) (n + count) (omega arith)
          (subst (λ k. Within k (next request)) left (onward request size)))
