-- ===== src/Rx/Step.antt =====
-- `mp_rx_calc_slice_step` on the slices of one package, in any order and with repetitions.
use native.Mathlib.Nat.{mul-le-mul_right}
use native.Mathlib.Decide.{ℕ_discrete, dec_lt}
use master_pilot_custom_data.Base.{
  ℕ, suc, ◌+◌, ◌-◌, ◌*◌, ◌^◌, ◌≤◌, ◌<◌, Bool, true, false, Option, some, ◌≡◌, ◌⊎◌, inl, inr, refl,
  arith, if◌then◌else◌, Bool-cases, lt→ltb, le→ltb, ap, ◌∙◌, sym, ◌>>=◌,
}
use master_pilot_custom_data.Coordinate.Laws.{offset_exact}
use master_pilot_custom_data.Rx.{
  SliceState, SliceInst, duplicate, new_slice_out_of_order, new_slice_in_order, complete,
  is_complete, record_slice, calc_slice_step, advance_watermark,
}
use master_pilot_custom_data.Rx.Scan.{advance-gap, advance-end}
use master_pilot_custom_data.Rx.Received.{
  Received, with_slice, AllFrom, count_below, count-all, count-missing, first_gap,
}
use master_pilot_custom_data.Rx.Package.{
  Shape, IsShape, Books, Waits, total, data_slices, size_of, eop_of, record_slice-Books,
  slice_count-total,
}

-- The step on slice `i` of a package.
abbrev pub step : Shape → SliceState → ℕ → Option SliceInst
step sh s i = calc_slice_step s i (size_of sh i) sh.p (eop_of sh i)

-- What the specification says of slice `i` while slice `k` is the first missing one.
pub data Outcome (sh : Shape) (got : Received) (k : ℕ) (s : SliceState) (i : ℕ)
    (result : Option SliceInst) : Type 0 where
  -- It has come before: nothing changes.
  again :
      got i ≡ true
      → result ≡ some (record { e = duplicate; next_state = s })
      → Outcome sh got k s i result
  -- It lies behind the gap: it is kept, and the gap stays.
  later :
      (s' : SliceState)
      → got i ≡ false
      → k < i
      → result ≡ some (record { e = new_slice_out_of_order; next_state = s' })
      → Waits sh (with_slice got i) k s'
      → Outcome sh got k s i result
  -- It fills the gap, and `k'` is the next one.
  grows :
      (k' : ℕ) (s' : SliceState)
      → i ≡ k
      → k < k'
      → result ≡ some (record { e = new_slice_in_order; next_state = s' })
      → Waits sh (with_slice got i) k' s'
      → Outcome sh got k s i result
  -- It was the only one missing.
  whole :
      (s' : SliceState)
      → i ≡ k
      → AllFrom (with_slice got i) 0 (suc sh.last)
      → result ≡ some (record { e = complete; next_state = s' })
      → s'.watermark ≡ total sh
      → s'.termination ≡ total sh
      → Outcome sh got k s i result

module _ (sh : Shape) (good : IsShape sh) (got : Received) (k : ℕ) (s : SliceState)
    (w : Waits sh got k s) (i : ℕ) (within : i ≤ sh.last) where
  open sh use {p, last, tail}

  abbrev noted : SliceState
  noted = record_slice s i (size_of sh i) p (eop_of sh i)

  abbrev got' : Received
  got' = with_slice got i

  offset_of : (j : ℕ) → j ≤ last → j * p < 2 ^ 16
  offset_of j h = omega (arith, good, mul-le-mul_right {m = j} {n = last + 1} p (omega arith))

  step-again : got i ≡ true → step sh s i ≡ some (record { e = duplicate; next_state = s })
  unfolding calc_slice_step
  step-again here = rw (w.books.bits i, here)

  step-later :
      got i ≡ false
      → k < i
      → step sh s i ≡ some (record { e = new_slice_out_of_order; next_state = noted })
  unfolding calc_slice_step
  step-later new behind = rw (
    w.books.bits i,
    new,
    offset_exact i p (offset_of i within),
    lt→ltb s.watermark (i * p)
        (omega (arith, good, w, mul-le-mul_right {m = k + 1} {n = i} p (omega arith))),
  )

  step-fills :
      (wm : ℕ)
      → got i ≡ false
      → i ≡ k
      → advance_watermark noted p ≡ some wm
      → let s' = record noted { watermark = wm } in
        step sh s i
        ≡ some (record {
          e = if is_complete s' p then complete else new_slice_in_order;
          next_state = s';
        })
  unfolding calc_slice_step
  step-fills wm new fills scans =
      rw
        (
          w.books.bits i,
          new,
          offset_exact i p (offset_of i within),
          le→ltb s.watermark (i * p) (omega (arith, w, ap (λ (t : ℕ). t * p) fills)),
        )
        (rw (scans, ◌>>=◌))

  noted-Books : got i ≡ false → Books sh got' noted
  noted-Books new = record_slice-Books sh good got s i w.books within new

  Waits-later : got i ≡ false → k < i → Waits sh got' k noted
  Waits-later new behind = record {
    books = noted-Books new;
    at_gap = unfold record_slice in w.at_gap;
    gap_within = w.gap_within;
    missing = ground (arith, w.missing);
    run = λ m above below. ground (arith, w.run m);
  }

  -- After the gap is filled, all slices before the next one are in.
  run-filled : (g : ℕ) → i ≡ k → AllFrom got' (suc k) g → AllFrom got' 0 g
  run-filled g fills run m above below = ground (arith, w.run m, run m)

  ended_if :
      (c : Bool) → got i ≡ false → got' last ≡ c → noted.termination ≡ (if c then total sh else 0)
  ended_if c new e = (noted-Books new).ended ∙ ap (λ d. if d then total sh else 0) e

  -- A missing slice is not behind the end of the package, as far as that is known.
  gap_before_end :
      (g : ℕ)
      → got i ≡ false
      → g ≤ last
      → got' g ≡ false
      → (noted.termination ≡ 0) ⊎ (g * p < noted.termination)
  gap_before_end g new below gap = elim (ℕ_discrete g last) [
    | yes e ↦ inl (ended_if false new (ap got' (sym e) ∙ gap))
    | no ne ↦
        let strict : (g + 1) * p ≤ last * p = mul-le-mul_right p (omega arith) in
        ground (arith, good, strict, (noted-Books new).ended)
  ]

  incomplete :
      (g wm : ℕ)
      → got i ≡ false
      → g ≤ last
      → got' g ≡ false
      → is_complete (record noted { watermark = wm }) p ≡ false
  unfolding is_complete
  incomplete g wm new below gap = elim (Bool-cases (got' last)) [
    | inr open_end ↦ let unknown : noted.termination ≡ 0 = ended_if false new open_end in rw unknown
    | inl end_in ↦
        let known : noted.termination ≡ total sh = ended_if true new end_in in
        let short : g < last = ground (arith, ap got') in
        rw (known, slice_count-total sh good)
          (ground (arith, (noted-Books new).counted, count-missing got' g (data_slices sh)))
  ]

  finished :
      (wm : ℕ)
      → got i ≡ false
      → AllFrom got' 0 (suc last)
      → is_complete (record noted { watermark = wm }) p ≡ true
  unfolding is_complete
  finished wm new all =
      let known : noted.termination ≡ total sh =
        ended_if true new (all last (omega arith) (omega arith)) in
      let full : count_below got' (data_slices sh) ≡ data_slices sh =
        count-all got' (data_slices sh) (λ m from to. all m from (ground arith)) in
      rw (known, slice_count-total sh good) (ground (arith, good, (noted-Books new).counted, full))

  grows_on :
      (g : ℕ)
      → got i ≡ false
      → i ≡ k
      → k < g
      → g ≤ last
      → got' g ≡ false
      → AllFrom got' (suc k) g
      → Outcome sh got k s i (step sh s i)
  grows_on g new fills above below gap run =
      let b = noted-Books new in
      let all = run-filled g fills run in
      let scans : advance_watermark noted p ≡ some (g * p) =
        advance-gap noted p good.some_payload k g (omega arith) (omega (arith, good))
          (offset_of g below) (unfold record_slice in w.at_gap)
          (λ m from to. b.bits m ∙ all m (omega arith) to) (b.bits g ∙ gap)
          (gap_before_end g new below gap) in
      grows g (record noted { watermark = g * p }) fills above
        (step-fills (g * p) new fills scans
          ∙ ap
              (λ c. some (record {
                e = if c then complete else new_slice_in_order;
                next_state = record noted { watermark = g * p };
              }))
              (incomplete g (g * p) new below gap))
        (record {
          books = record {
            eight_words = b.eight_words;
            bits = b.bits;
            counted = b.counted;
            ended = b.ended;
          };
          at_gap = refl;
          gap_within = below;
          missing = gap;
          run = all;
        })

  completes :
      got i ≡ false → i ≡ k → AllFrom got' (suc k) (suc last) → Outcome sh got k s i (step sh s i)
  completes new fills run =
      let b = noted-Books new in
      let all = run-filled (suc last) fills run in
      let ends : noted.termination ≡ total sh =
        ended_if true new (all last (omega arith) (omega arith)) in
      let scans : advance_watermark noted p ≡ some noted.termination =
        advance-end noted p good.some_payload k (last + 1) (omega (arith, w)) (omega (arith, good))
          good.addressed (unfold record_slice in w.at_gap)
          (λ m from to. b.bits m ∙ all m (omega arith) (omega arith)) (omega (arith, good))
          (omega (arith, good)) in
      whole (record noted { watermark = noted.termination }) fills all
        (step-fills noted.termination new fills scans
          ∙ ap
              (λ c. some (record {
                e = if c then complete else new_slice_in_order;
                next_state = record noted { watermark = noted.termination };
              }))
              (finished noted.termination new all))
        ends ends

  fills_of : got i ≡ false → ¬ (k < i) → i ≡ k
  fills_of new not_behind = ground (arith, w.run i)

  -- For a package that is not empty, has at most 256 slices, and whose slots end below 2^16: while
  -- slice k is the first missing one, the step on any slice of the package ends and does what the
  -- specification says. A repeated slice changes nothing, a later one is kept out of order, the
  -- missing one moves the watermark to the next gap, and the last missing one completes the
  -- package with the watermark at its end.
  pub step-Outcome : Outcome sh got k s i (step sh s i)
  step-Outcome = elim (Bool-cases (got i)) [
    | inl here ↦ again here (step-again here)
    | inr new ↦ elim (dec_lt k i) [
      | yes behind ↦ later noted new behind (step-later new behind) (Waits-later new behind)
      | no not_behind ↦
          let fills : i ≡ k = fills_of new not_behind in
          elim (first_gap got' (last - k) (suc k) (suc last) (omega (arith, w))) [
            | inl (g, above, below, gap, run) ↦ grows_on g new fills above (omega arith) gap run
            | inr run ↦ completes new fills run
          ]
    ]
  ]
