-- ===== src/RxStream/Course.antt =====
-- The course of a package at any receiver that keeps an invariant on each slice.
use mathlib.Core.Path.{subst, fun_ext}
use master_pilot_custom_data.Base.{
  ℕ, zero, suc, take, sym, ◌≤◌, ◌<◌, true, false, Option, some, List, [], ◌∷◌, ◌++◌, foldl, ◌≡◌,
  ◌≢◌, refl, arith, ap, ◌∙◌, ◌>>=◌,
}
use master_pilot_custom_data.Rx.{
  SliceState, duplicate, new_slice_out_of_order, new_slice_in_order, complete,
}
use master_pilot_custom_data.Rx.Received.{Received, with_slice, AllFrom}
use master_pilot_custom_data.Rx.Package.{Shape, IsShape, Waits, total}
use master_pilot_custom_data.Rx.Step.{step, Outcome, step-Outcome, again, later, grows, whole}
use master_pilot_custom_data.RxStream.Arrivals.{AllWithin, with_slice-seen, missing_before}

-- Feeding slices one after another.
unfoldable pub feed_each : {W : Type 0} → (W → ℕ → Option W) → W → List ℕ → Option W
feed_each feed w [] = some w
feed_each feed w (i ∷ order) = do w' ← feed w i; feed_each feed w' order

-- Two receivers that do the same on the slices of a package.
pub feed_each-same :
    {W : Type 0} (feed feed' : W → ℕ → Option W) (last : ℕ)
    → ((w : W) (i : ℕ) → i ≤ last → feed w i ≡ feed' w i)
    → (w : W) (order : List ℕ) → AllWithin last order
    → feed_each feed w order ≡ feed_each feed' w order
unfolding feed_each
feed_each-same feed feed' last same w [] inside = refl
feed_each-same feed feed' last same w (i ∷ order) inside =
    ap (λ r. r >>= (λ w'. feed_each feed w' order)) (same w i inside.0)
    ∙ ap (λ f. feed' w i >>= f)
        (fun_ext λ w'. feed_each-same feed feed' last same w' order inside.1)

-- Of the slices, only `i` is missing after `order`.
abbrev pub Only : ℕ → Received → List ℕ → ℕ → Type 0
Only last got order i =
    (foldl with_slice got order i ≡ false)
    × ((m : ℕ) → m ≤ last → m ≢ i → foldl with_slice got order m ≡ true)

-- A call that returns, with what holds after it.
abbrev pub Returns : {W : Type 0} → Option W → (W → Type 0) → Type 0
Returns {W} result P = (w : W) × (result ≡ some w) × P w

-- What a receiver does on each outcome of the step: it keeps `Inv`, and at the end has `End`.
pub record Receives (sh : Shape) {W : Type 0} (feed : W → ℕ → Option W)
    (Inv : Received → ℕ → SliceState → W → Type 0) (End : W → Type 0) : Type 0 where
  pub repeats :
      (got : Received) (k i : ℕ) (st : SliceState) (w : W)
      → Inv got k st w
      → i ≤ sh.last
      → step sh st i ≡ some (record { e = duplicate; next_state = st })
      → Returns (feed w i) (Inv got k st)
  pub keeps :
      (got : Received) (k i : ℕ) (st next : SliceState) (w : W)
      → Inv got k st w
      → Waits sh got k st
      → i ≤ sh.last
      → step sh st i ≡ some (record { e = new_slice_out_of_order; next_state = next })
      → Waits sh (with_slice got i) k next
      → Returns (feed w i) (Inv (with_slice got i) k next)
  pub grows_to :
      (got : Received) (k k' i : ℕ) (st next : SliceState) (w : W)
      → Inv got k st w
      → Waits sh got k st
      → i ≤ sh.last
      → k < k'
      → step sh st i ≡ some (record { e = new_slice_in_order; next_state = next })
      → Waits sh (with_slice got i) k' next
      → Returns (feed w i) (Inv (with_slice got i) k' next)
  pub finishes :
      (got : Received) (k i : ℕ) (st next : SliceState) (w : W)
      → Inv got k st w
      → Waits sh got k st
      → i ≤ sh.last
      → AllFrom (with_slice got i) 0 (suc sh.last)
      → step sh st i ≡ some (record { e = complete; next_state = next })
      → next.watermark ≡ total sh
      → next.termination ≡ total sh
      → Returns (feed w i) End

module _ (sh : Shape) (good : IsShape sh) {W : Type 0} (feed : W → ℕ → Option W)
    (Inv : Received → ℕ → SliceState → W → Type 0) (End : W → Type 0)
    (r : Receives sh feed Inv End) where
  open sh use {last}

  abbrev Completes : List ℕ → ℕ → Type 0
  Completes order i =
      (got : Received) (k : ℕ) (st : SliceState) (w : W)
      → Waits sh got k st
      → Inv got k st w
      → Only last got order i
      → Returns (feed_each feed w (order ++ i ∷ [])) End

  feed_then :
      (w w' : W) (i : ℕ) (order : List ℕ)
      → feed w i ≡ some w'
      → Returns (feed_each feed w' order) End
      → Returns (feed_each feed w (i ∷ order)) End
  unfolding feed_each
  feed_then w w' i order feeds (w'', goes, ending) =
      (w'', ap (λ m. m >>= (λ v. feed_each feed v order)) feeds ∙ goes, ending)

  last_slice :
      (got : Received) (k : ℕ) (st : SliceState) (w : W) (i : ℕ)
      → Waits sh got k st
      → Inv got k st w
      → i ≤ last
      → Only last got [] i
      → Outcome sh got k st i (step sh st i)
      → Returns (feed_each feed w (i ∷ [])) End
  unfolding feed_each
  last_slice got k st w i waits inv within only (again here steps) = absurd (cc (only.0))
  last_slice got k st w i waits inv within only (later s' new behind steps waits') =
      absurd (cc (waits.missing, only.1 k waits.gap_within (omega arith)))
  last_slice got k st w i waits inv within only (grows k' s' fills above steps waits') =
      let above_all : got k' ≡ true = only.1 k' waits'.gap_within (omega arith) in
      absurd (ground (arith, waits'.missing))
  last_slice got k st w i waits inv within only (whole s' fills all steps at_end ends) =
      let (w', feeds, ending) = r.finishes got k i st s' w inv waits within all steps at_end ends in
      feed_then w w' i [] feeds (w', refl, ending)

  next_slice :
      (order : List ℕ) (got : Received) (k : ℕ) (st : SliceState) (w : W) (i j : ℕ)
      → Waits sh got k st
      → Inv got k st w
      → j ≤ last
      → i ≤ last
      → Only last got (j ∷ order) i
      → Outcome sh got k st j (step sh st j)
      → Completes order i
      → Returns (feed_each feed w (j ∷ order ++ i ∷ [])) End
  next_slice order got k st w i j waits inv within hi only (again here steps) go =
      let same : with_slice got j ≡ got = with_slice-seen got j here in
      let (w', feeds, inv') = r.repeats got k j st w inv within steps in
      feed_then w w' j (order ++ i ∷ []) feeds
        (go got k st w' waits inv' (subst (λ g. Only last g order i) same only))
  next_slice order got k st w i j waits inv within hi only (later s' new behind steps waits') go =
      let (w', feeds, inv') = r.keeps got k j st s' w inv waits within steps waits' in
      feed_then w w' j (order ++ i ∷ []) feeds (go (with_slice got j) k s' w' waits' inv' only)
  next_slice order got k st w i j waits inv within hi only (grows k' s' fills above steps waits')
        go =
      let (w', feeds, inv') = r.grows_to got k k' j st s' w inv waits within above steps waits' in
      feed_then w w' j (order ++ i ∷ []) feeds (go (with_slice got j) k' s' w' waits' inv' only)
  next_slice order got k st w i j waits inv within hi only (whole s' fills all steps at_end ends)
        go =
      let missing : with_slice got j i ≡ false = missing_before order (with_slice got j) i only.0 in
      let here : with_slice got j i ≡ true = all i (omega arith) (omega arith) in absurd (cc)

  -- All slices but one, in any order and with repetitions, and then the missing one.
  pub course : (order : List ℕ) (i : ℕ) → AllWithin last order → i ≤ last → Completes order i
  course [] i inside within got k st w waits inv only =
      last_slice got k st w i waits inv within only (step-Outcome sh good got k st waits i within)
  course (j ∷ order) i inside within got k st w waits inv only =
      next_slice order got k st w i j waits inv inside.0 within only
        (step-Outcome sh good got k st waits j inside.0) (course order i inside.1 within)

  -- What the receiver keeps while slice `i` has not come.
  abbrev pub UnderWay : Received → W → Type 0
  UnderWay got w = (k : ℕ) × (st : SliceState) × Inv got k st w

  abbrev Waiting : List ℕ → ℕ → Type 0
  Waiting order i =
      (got : Received) (k : ℕ) (st : SliceState) (w : W)
      → Waits sh got k st
      → Inv got k st w
      → foldl with_slice got order i ≡ false
      → Returns (feed_each feed w order) (UnderWay (foldl with_slice got order))

  waits_on :
      (P : W → Type 0) (w w' : W) (i : ℕ) (order : List ℕ)
      → feed w i ≡ some w'
      → Returns (feed_each feed w' order) P
      → Returns (feed_each feed w (i ∷ order)) P
  unfolding feed_each
  waits_on P w w' i order feeds (w'', goes, ending) =
      (w'', ap (λ m. m >>= (λ v. feed_each feed v order)) feeds ∙ goes, ending)

  one_more :
      (order : List ℕ) (got : Received) (k : ℕ) (st : SliceState) (w : W) (i j : ℕ)
      → Waits sh got k st
      → Inv got k st w
      → j ≤ last
      → i ≤ last
      → foldl with_slice got (j ∷ order) i ≡ false
      → Outcome sh got k st j (step sh st j)
      → Waiting order i
      → Returns (feed_each feed w (j ∷ order)) (UnderWay (foldl with_slice got (j ∷ order)))
  one_more order got k st w i j waits inv within hi missing (again here steps) go =
      let same : with_slice got j ≡ got = with_slice-seen got j here in
      let (w', feeds, inv') = r.repeats got k j st w inv within steps in
      waits_on _ w w' j order feeds (
        subst (λ g. Returns (feed_each feed w' order) (UnderWay (foldl with_slice g order)))
          (sym same)
          (go got k st w' waits inv'
            (subst (λ g. foldl with_slice g order i ≡ false) same missing)))
  one_more order got k st w i j waits inv within hi missing (later s' new behind steps waits') go =
      let (w', feeds, inv') = r.keeps got k j st s' w inv waits within steps waits' in
      waits_on _ w w' j order feeds (go (with_slice got j) k s' w' waits' inv' missing)
  one_more order got k st w i j waits inv within hi missing (grows k' s' fills above steps waits')
        go =
      let (w', feeds, inv') = r.grows_to got k k' j st s' w inv waits within above steps waits' in
      waits_on _ w w' j order feeds (go (with_slice got j) k' s' w' waits' inv' missing)
  one_more order got k st w i j waits inv within hi missing (whole s' fills all steps at_end ends)
        go =
      let out : with_slice got j i ≡ false = missing_before order (with_slice got j) i missing in
      let here : with_slice got j i ≡ true = all i (omega arith) (omega arith) in absurd (cc)

  -- As long as slice `i` does not come.
  pub under_way : (order : List ℕ) (i : ℕ) → AllWithin last order → i ≤ last → Waiting order i
  unfolding feed_each
  under_way [] i inside within got k st w waits inv missing = (w, refl, (k, st, inv))
  under_way (j ∷ order) i inside within got k st w waits inv missing =
      one_more order got k st w i j waits inv inside.0 within missing
        (step-Outcome sh good got k st waits j inside.0) (under_way order i inside.1 within)

-- What is missing after all slices is missing after the first `n`.
pub missing-take :
    (n : ℕ) (order : List ℕ) (got : Received) (i : ℕ)
    → foldl with_slice got order i ≡ false
    → foldl with_slice got (take n order) i ≡ false
missing-take zero order got i e = missing_before order got i e
missing-take (suc n) [] got i e = e
missing-take (suc n) (j ∷ order) got i e = missing-take n order (with_slice got j) i e

pub AllWithin-take :
    (last n : ℕ) (order : List ℕ) → AllWithin last order → AllWithin last (take n order)
AllWithin-take last zero order inside = tt
AllWithin-take last (suc n) [] inside = tt
AllWithin-take last (suc n) (j ∷ order) inside = (inside.0, AllWithin-take last n order inside.1)
