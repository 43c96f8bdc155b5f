-- ===== src/Tools/Rx/Event.antt =====
-- The rx command's event callback on the slices of a package.
use mathlib.Core.Path.{subst}
use native.Mathlib.Decide.{dec_lt}
use native.Mathlib.Nat.{mul-le-mul_right, mul-le-mul_left}
use master_pilot_custom_data.Base.{
  ℕ, suc, ◌+◌, ◌-◌, ◌*◌, ◌≤◌, ◌<◌, ◌^◌, true, false, Option, some, List, ltb, ◌≡◌, refl, arith, ap,
  ◌∙◌, sym, if◌then◌else◌, length, take, drop, inl, inr, Bool-cases, ltb→le,
}
use master_pilot_custom_data.Coordinate.{Coordinate, max_payload}
use master_pilot_custom_data.Rx.{StreamEvent, SliceState, deliver_size}
use master_pilot_custom_data.Rx.Received.{Received, with_slice}
use master_pilot_custom_data.Rx.Package.{Shape, IsShape, total, size_of}
use master_pilot_custom_data.Tools.Rx.{RxCtx, coordinator, on_event, deliver_loop}
use master_pilot_custom_data.Tools.Rx.Delivery.{part_of, Takes, Ready, deliver_loop-run}
use master_pilot_custom_data.Tools.Rx.Assembly.{Holds, slice_end, put-Holds}

module _ (sh : Shape) (good : IsShape sh) (bytes : List ℕ) (whole : length bytes ≡ total sh)
    (writes : ℕ → ℕ → Option ℕ) (takes : Takes writes) where
  open sh use {p, last, tail}

  -- Slices `k` to `n - 1` are there and before the watermark, which is not behind slice `n`.
  pub record Span (got : Received) (wm k n : ℕ) : Type 0 where
    pub forward : k ≤ n
    pub within : n ≤ last + 1
    pub there : (m : ℕ) → k ≤ m → m < n → got m ≡ true
    pub before : (m : ℕ) → k ≤ m → m < n → m * p < wm
    pub sizes : (m : ℕ) → k ≤ m → m < n → deliver_size (m * p) wm p ≡ size_of sh m
    pub up_to : wm ≤ n * p

  Span-Ready :
      (got : Received) (wm k n : ℕ) (coord : Coordinate) (assembly : List ℕ)
      → Span got wm k n
      → Holds sh good bytes whole got assembly
      → (m : ℕ) → k ≤ m
      → m < n
      → Ready writes takes p bytes coord wm assembly m
  Span-Ready got wm k n coord assembly span holds m from to =
      let size = span.sizes m from to in
      let ends = slice_end sh good bytes whole m (omega (arith, span.within)) in
      (
        span.before m from to,
        omega (arith, size, ends, holds),
        ap (λ s. take s (drop (m * p) assembly)) size
            ∙ holds.held m (omega (arith, span.within)) (span.there m from to),
      )

  Span-length : (got : Received) (wm k n : ℕ) → Span got wm k n → n - k < suc wm
  Span-length got wm k n span = elim (dec_lt k n) [
    | yes some_slices ↦ omega (
      arith,
      span.before (n - 1) (omega arith) (omega arith),
      mul-le-mul_left {m = 1} {n = p} (n - 1) (omega (arith, good)),
    )
    | no nothing ↦ omega arith
  ]

  Span-done : (got : Received) (wm k n : ℕ) → Span got wm k n → wm ≤ k * p → k ≡ n
  Span-done got wm k n span done = elim (dec_lt k n) [
    | yes some_slices ↦ absurd (omega (arith, span.before k (omega arith) some_slices))
    | no nothing ↦ omega (arith, span.forward)
  ]

  deliver-Span :
      (got : Received) (c : RxCtx) (coord : Coordinate) (wm k n : ℕ)
      → Span got wm k n
      → Holds sh good bytes whole got c.assembly
      → c.fault ≡ false
      → c.written ≡ take (k * p) bytes
      → (calls : ℕ) × ((if ltb (k * p) wm
            then deliver_loop writes (suc wm) c coordinator coord wm p (k * p)
            else some c)
          ≡ some (record c { written = take (n * p) bytes; calls = calls; fault = false }))
  deliver-Span got c coord wm k n span holds safe wrote = elim (Bool-cases (ltb (k * p) wm)) [
    | inl more ↦
        let along : k + (n - k) ≡ n = omega (arith, span.forward) in
        let top : n * p < 2 ^ 16 =
          omega (arith, good.addressed, mul-le-mul_right {m = n} {n = last + 1} p span.within) in
        let (calls, run) =
          deliver_loop-run writes takes p bytes coord wm (n - k) (suc wm) k c
            (Span-length got wm k n span) (omega (arith, good))
            (λ m from to.
              Span-Ready got wm k n coord c.assembly span holds m from (omega (arith, along)))
            (subst (λ j. wm ≤ j * p) (sym along) span.up_to)
            (subst (λ j. j * p < 2 ^ 16) (sym along) top) safe wrote in
        (
          calls,
          rw more (
              run
              ∙ ap
                  (λ j.
                    some (record c { written = take (j * p) bytes; calls = calls; fault = false }))
                  along),
        )
    | inr done ↦
        let same : k ≡ n = Span-done got wm k n span (ltb→le (k * p) wm done) in
        (
          c.calls,
          rw (done, safe)
              (ap (λ l. some (record c { written = l; fault = false }))
                (wrote ∙ ap (λ j. take (j * p) bytes) same)),
        )
  ]

  -- What the callback leaves: the slice stored, and the bytes written up to slice `n`.
  abbrev pub Leaves : Received → RxCtx → (i n : ℕ) → Option RxCtx → Type 0
  Leaves got c i n result =
      (assembly : List ℕ) × (calls : ℕ) × (result
        ≡ some (record c {
          assembly = assembly;
          written = take (n * p) bytes;
          calls = calls;
          fault = false;
        }))
      × Holds sh good bytes whole (with_slice got i) assembly

  pub on_event-Leaves :
      (got : Received) (c : RxCtx) (e : StreamEvent) (coord : Coordinate) (state : SliceState)
      (i k n : ℕ) (rest : List ℕ)
      → i ≤ last
      → coord.offset ≡ i * p
      → size_of sh i ≤ length rest
      → take (size_of sh i) rest ≡ part_of p bytes i
      → max_payload (record { transmission_unit = c.session.transmission_unit }) ≡ p
      → Span (with_slice got i) state.watermark k n
      → Holds sh good bytes whole got c.assembly
      → c.fault ≡ false
      → c.written ≡ take (k * p) bytes
      → Leaves got c i n (on_event writes c e coord coordinator state (k * p) rest (size_of sh i))
  unfolding on_event coordinator
  on_event-Leaves got c e coord state i k n rest within place long content unit span holds safe
        wrote =
      let (assembly, puts, holds') =
        put-Holds sh good bytes whole got c coord i rest within place long content holds safe in
      let (calls, delivers) =
        deliver-Span (with_slice got i) (record c { assembly = assembly; fault = false }) coord
          state.watermark k n span holds' refl wrote in
      (
        assembly,
        calls,
        ap
              (λ c'.
                if ltb (k * p) state.watermark
                then deliver_loop writes (suc state.watermark) c' coordinator coord state.watermark
                    (max_payload (record { transmission_unit = c.session.transmission_unit }))
                    (k * p)
                else some c')
              puts
            ∙ rw unit delivers,
        holds',
      )
