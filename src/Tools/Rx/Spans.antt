-- ===== src/Tools/Rx/Spans.antt =====
-- What is delivered as the watermark moves on: from one gap to the next, or to the end.
use native.Mathlib.Decide.{ℕ_discrete}
use native.Mathlib.Nat.{mul-le-mul_right}
use master_pilot_custom_data.Base.{
  ℕ, ◌+◌, ◌*◌, ◌≤◌, ◌<◌, true, Option, List, ◌≡◌, arith, ap, ◌∙◌, length,
}
use master_pilot_custom_data.Rx.{deliver_size}
use master_pilot_custom_data.Rx.Received.{Received}
use master_pilot_custom_data.Rx.Package.{Shape, IsShape, total, data_slices, size_of}
use master_pilot_custom_data.Tools.Rx.Delivery.{Takes}
use master_pilot_custom_data.Tools.Rx.Event.{Span}

module _ (sh : Shape) (good : IsShape sh) (bytes : List ℕ) (whole : length bytes ≡ total sh)
    (writes : ℕ → ℕ → Option ℕ) (takes : Takes writes) where
  open sh use {p, last, tail}

  abbrev pub Spans : Received → (wm k n : ℕ) → Type 0
  Spans got wm k n = Span sh good bytes whole writes takes got wm k n

  pub Span-none : (got : Received) (wm k : ℕ) → wm ≡ k * p → k ≤ last → Spans got wm k k
  Span-none got wm k e within = record {
    forward = omega arith;
    within = omega arith;
    there = λ m from to. absurd (omega arith);
    before = λ m from to. absurd (omega arith);
    sizes = λ m from to. absurd (omega arith);
    up_to = omega (arith, e);
  }

  pub Span-gap :
      (got : Received) (wm k n : ℕ)
      → wm ≡ n * p
      → k ≤ n
      → n ≤ last
      → ((m : ℕ) → m < n → got m ≡ true)
      → Spans got wm k n
  unfolding deliver_size
  Span-gap got wm k n e forward within run = record {
    forward = forward;
    within = omega arith;
    there = λ m from to. run m to;
    before =
        λ m from to. omega (arith, e, good, mul-le-mul_right {m = m + 1} {n = n} p (omega arith));
    sizes = λ m from to.
        let next : m * p + p ≤ n * p =
          omega (arith, mul-le-mul_right {m = m + 1} {n = n} p (omega arith)) in
        let top : n * p ≤ last * p = mul-le-mul_right p within in ground (arith, e, good);
    up_to = omega (arith, e);
  }

  end_before : (m : ℕ) → m < data_slices sh → m * p < total sh
  end_before m to = elim (ℕ_discrete m last) [
    | yes e ↦ ground (arith, ap (λ (j : ℕ). j * p) e)
    | no ne ↦ ground (arith, good, mul-le-mul_right {m = m + 1} {n = last} p (ground arith))
  ]

  end_sizes : (m : ℕ) → m < data_slices sh → deliver_size (m * p) (total sh) p ≡ size_of sh m
  unfolding deliver_size
  end_sizes m to = elim (ℕ_discrete m last) [
    | yes e ↦ ground (arith, good, ap (λ (j : ℕ). j * p) e)
    | no ne ↦ ground (arith, good, mul-le-mul_right {m = m + 1} {n = last} p (ground arith))
  ]

  pub Span-end :
      (got : Received) (wm k : ℕ)
      → wm ≡ total sh
      → k ≤ last
      → ((m : ℕ) → m ≤ last → got m ≡ true)
      → Spans got wm k (data_slices sh)
  Span-end got wm k e within run = record {
    forward = ground arith;
    within = ground arith;
    there = λ m from to. run m (ground arith);
    before = λ m from to. omega (arith, e, end_before m to);
    sizes = λ m from to. ap (λ t. deliver_size (m * p) t p) e ∙ end_sizes m to;
    up_to = ground (arith, e);
  }
