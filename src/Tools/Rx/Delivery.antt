-- ===== src/Tools/Rx/Delivery.antt =====
-- What the rx command's event callback writes: the bytes of consecutive slices.
use native.Mathlib.Nat.{mul-le-mul_right}
use master_pilot_custom_data.Base.{
  ℕ, zero, suc, ◌+◌, ◌-◌, ◌*◌, ◌≤◌, ◌<◌, ◌^◌, true, false, ◌||◌, Option, some, List, ◌++◌, ltb, ◌≡◌,
  refl, arith, ap, ◌∙◌, sym, ◌==◌, length, take, drop, u16, u32, sub32, lt→ltb, le→ltb, take-add,
  length-drop, append_assoc, append-nil,
}
use master_pilot_custom_data.Coordinate.{Coordinate}
use master_pilot_custom_data.Rx.{deliver_size}
use master_pilot_custom_data.Tools.Rx.{RxCtx, coordinator, payload_get, write_loop, deliver_loop}

-- The output takes something at each call, and never fails.
abbrev pub Takes : (ℕ → ℕ → Option ℕ) → Type 0
Takes writes =
    (n count : ℕ) → 0 < count → (k : ℕ) × (writes n count ≡ some k) × (0 < k) × (k ≤ count)

-- The same but for what has been written, and the number of calls.
abbrev pub put_out : RxCtx → (calls : ℕ) → List ℕ → RxCtx
put_out c calls bytes = record c { written = c.written ++ bytes; calls = calls }

-- The bytes of slice `m`.
abbrev pub part_of : ℕ → List ℕ → ℕ → List ℕ
part_of p bytes m = take p (drop (m * p) bytes)

module _ (writes : ℕ → ℕ → Option ℕ) (takes : Takes writes) where
  write_loop-all :
      (fuel : ℕ) (c : RxCtx) (p : List ℕ) (rem : ℕ)
      → rem < fuel
      → rem < 2 ^ 32
      → (calls : ℕ) × (write_loop writes fuel c p rem ≡ some (true, put_out c calls (take rem p)))
  unfolding write_loop
  write_loop-all zero c p rem enough word = absurd (omega arith)
  write_loop-all (suc fuel) c p zero enough word =
      (c.calls, ap (λ l. some (true, record c { written = l })) (sym (append-nil c.written)))
  write_loop-all (suc fuel) c p (suc r) enough word =
      let (n, wrote, some_bytes, within) = takes c.calls (suc r) (omega arith) in
      let (calls, rest) =
        write_loop-all fuel (record c { calls = suc c.calls; written = c.written ++ take n p })
          (drop n p) (suc r - n) (omega arith) (omega arith) in
      let more : (suc r == 0) ≡ false = ground arith in
      let left : sub32 (suc r) n ≡ suc r - n = omega arith in
      let together : n + (suc r - n) ≡ suc r = omega arith in
      let whole : take n p ++ take (suc r - n) (drop n p) ≡ take (suc r) p =
        sym (take-add n (suc r - n) p) ∙ ap (λ k. take k p) together in
      (
        calls,
        rw (more, wrote, left)
            (rest
              ∙ ap (λ l. some (true, record c { written = l; calls = calls }))
                  (append_assoc c.written (take n p) (take (suc r - n) (drop n p))
                    ∙ ap (λ l. c.written ++ l) whole)),
      )

  module _ (p : ℕ) (bytes : List ℕ) (coord : Coordinate) (wm : ℕ) where
    abbrev part : ℕ → List ℕ
    part m = part_of p bytes m

    -- The slice is before the watermark, and its bytes stand in the assembly buffer.
    abbrev pub Ready : List ℕ → ℕ → Type 0
    Ready assembly m =
        (m * p < wm)
        × (m * p + deliver_size (m * p) wm p ≤ length assembly)
        × (take (deliver_size (m * p) wm p) (drop (m * p) assembly) ≡ part m)

    deliver_size-lt : (off : ℕ) → p < 2 ^ 16 → deliver_size off wm p < 2 ^ 32
    unfolding deliver_size
    deliver_size-lt off h = ground arith

    abbrev pub delivered : ℕ → RxCtx → ℕ → RxCtx
    delivered j c calls = record c { written = take (j * p) bytes; calls = calls; fault = false }

    part-next : (j : ℕ) → take (j * p) bytes ++ part j ≡ take (suc j * p) bytes
    part-next j =
        let next : j * p + p ≡ suc j * p = omega arith in
        sym (take-add (j * p) p bytes) ∙ ap (λ n. take n bytes) next

    round_by :
        (fuel j calls : ℕ) (c : RxCtx)
        → Ready c.assembly j
        → suc j * p < 2 ^ 16
        → c.fault ≡ false
        → c.written ≡ take (j * p) bytes
        → let sz = deliver_size (j * p) wm p in
          let bytes_held = drop (j * p) c.assembly in
          write_loop writes (suc sz) (record c { fault = false }) bytes_held sz
            ≡ some (true, put_out (record c { fault = false }) calls (take sz bytes_held))
          → deliver_loop writes (suc fuel) c coordinator coord wm p (j * p)
            ≡ deliver_loop writes fuel
                (delivered (suc j) c calls)
                coordinator
                coord
                wm
                p
                (suc j * p)
    unfolding deliver_loop coordinator payload_get
    round_by fuel j calls c (before, held, content) fits safe wrote all =
        let sz = deliver_size (j * p) wm p in
        let bytes_held = drop (j * p) c.assembly in
        let next : suc j * p ≡ j * p + p = omega arith in
        let place : u16 (j * p) ≡ j * p = omega arith in
        let step : u32 (j * p + p) ≡ suc j * p = omega arith in
        let inside : ltb (length bytes_held) sz ≡ false =
          le→ltb (length bytes_held) sz (omega (arith, length-drop (j * p) c.assembly)) in
        let faultless : (c.fault || ltb (length bytes_held) sz) ≡ false =
          ap (λ b. b || ltb (length bytes_held) sz) safe ∙ inside in
        let appended : c.written ++ take sz bytes_held ≡ take (suc j * p) bytes =
          ap (λ l. l ++ take sz bytes_held) wrote
          ∙ ap (λ l. take (j * p) bytes ++ l) content
          ∙ part-next j in
        rw (lt→ltb (j * p) wm before, place, faultless, all, step)
          (ap
            (λ l.
              deliver_loop writes fuel (record c { written = l; calls = calls; fault = false })
                coordinator coord wm p (suc j * p))
            appended)

    -- A round writes the bytes of a slice.
    deliver_round :
        (fuel j : ℕ) (c : RxCtx)
        → p < 2 ^ 16
        → Ready c.assembly j
        → suc j * p < 2 ^ 16
        → c.fault ≡ false
        → c.written ≡ take (j * p) bytes
        → (calls : ℕ) × (deliver_loop writes (suc fuel) c coordinator coord wm p (j * p)
            ≡ deliver_loop writes fuel
                (delivered (suc j) c calls)
                coordinator
                coord
                wm
                p
                (suc j * p))
    deliver_round fuel j c word ready fits safe wrote =
        let sz = deliver_size (j * p) wm p in
        let (calls, all) =
          write_loop-all (suc sz) (record c { fault = false }) (drop (j * p) c.assembly) sz
            (omega arith) (deliver_size-lt (j * p) word) in
        (calls, round_by fuel j calls c ready fits safe wrote all)

    deliver_none :
        (fuel j : ℕ) (c : RxCtx)
        → wm ≤ j * p
        → c.fault ≡ false
        → c.written ≡ take (j * p) bytes
        → deliver_loop writes (suc fuel) c coordinator coord wm p (j * p)
          ≡ some (delivered (j + 0) c c.calls)
    unfolding deliver_loop
    deliver_none fuel j c done safe wrote =
        let same : (j + 0) * p ≡ j * p = omega arith in
        rw (le→ltb (j * p) wm done, same, safe)
          (ap (λ l. some (record c { written = l; fault = false })) wrote)

    pub deliver_loop-run :
        (d fuel j : ℕ) (c : RxCtx)
        → d < fuel
        → p < 2 ^ 16
        → ((m : ℕ) → j ≤ m → m < j + d → Ready c.assembly m)
        → wm ≤ (j + d) * p
        → (j + d) * p < 2 ^ 16
        → c.fault ≡ false
        → c.written ≡ take (j * p) bytes
        → (calls : ℕ) × (deliver_loop writes fuel c coordinator coord wm p (j * p)
            ≡ some (delivered (j + d) c calls))
    deliver_loop-run d zero j c enough word ready within fits safe wrote = absurd (omega arith)
    deliver_loop-run zero (suc fuel) j c enough word ready within fits safe wrote =
        (c.calls, deliver_none fuel j c (omega arith) safe wrote)
    deliver_loop-run (suc d) (suc fuel) j c enough word ready within fits safe wrote =
        let up : (suc j) * p ≤ (j + suc d) * p =
          mul-le-mul_right {m = suc j} {n = j + suc d} p (omega arith) in
        let (calls, round) =
          deliver_round fuel j c word (ready j (omega arith) (omega arith)) (omega arith) safe
            wrote in
        let (calls', rest) =
          deliver_loop-run d fuel (suc j) (delivered (suc j) c calls) (omega arith) word
            (λ m from to. ready m (omega arith) (omega arith)) (omega arith) (omega arith) refl
            refl in
        (calls', round ∙ rest ∙ ap (λ n. some (delivered n c calls')) (omega arith))
