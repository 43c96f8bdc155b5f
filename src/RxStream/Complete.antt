-- ===== src/RxStream/Complete.antt =====
-- A package is reported when its last missing slice comes, and not before.
use master_pilot_custom_data.Base.{
  ℕ, ◌^◌, ◌≤◌, ◌<◌, true, false, some, List, [], ◌∷◌, ◌++◌, ◌≡◌, ◌≢◌, refl, arith, ◌>>=◌, ap, ◌∙◌,
  >>=-through,
}
use master_pilot_custom_data.Header.{header_size}
use master_pilot_custom_data.Coordinate.{Config, max_payload}
use master_pilot_custom_data.Rx.{SliceState, StreamEvent, complete, zero_state}
use master_pilot_custom_data.Rx.Received.{nothing}
use master_pilot_custom_data.Rx.Package.{Shape, IsShape, Waits, zero_state-Waits}
use master_pilot_custom_data.Rx.Step.{step, step-Outcome, Outcome, again, later, grows, whole}
use master_pilot_custom_data.RxStream.{RxStream, rx_stream_feed, after_step}
use master_pilot_custom_data.RxStream.Arrivals.{
  Journal, journal_stream, feed_slices, seen, AllWithin, NoComplete, slice_frame, arrive,
  feed_one-step,
}

feed_slices-append :
    (sh : Shape) (sender pkg frame_size : ℕ) (rest : ℕ → List ℕ) (s : RxStream Journal)
    (xs ys : List ℕ)
    → feed_slices sh sender pkg frame_size rest s (xs ++ ys) ≡ (
        feed_slices sh sender pkg frame_size rest s xs
        >>= (λ s'. feed_slices sh sender pkg frame_size rest s' ys))
unfolding feed_slices
feed_slices-append sh sender pkg frame_size rest s [] ys = refl
feed_slices-append sh sender pkg frame_size rest s (x ∷ xs) ys =
    >>=-through (rx_stream_feed s (slice_frame sh sender pkg rest x) frame_size) _ _ _
      (λ s'. feed_slices-append sh sender pkg frame_size rest s' xs ys)

-- Only slice `i` of the package has not been seen.
abbrev pub OnlyMissing : ℕ → List ℕ → ℕ → Type 0
OnlyMissing last order i =
    (seen order i ≡ false) × ((j : ℕ) → j ≤ last → j ≢ i → seen order j ≡ true)

module _ (config : Config) (sh : Shape) (sender pkg frame_size : ℕ) (rest : ℕ → List ℕ)
    (good : IsShape sh) (small : sh.p < 2 ^ 12) (unit : max_payload config ≡ sh.p)
    (pkg_fits : pkg < 2 ^ 8) (long : header_size ≤ frame_size) where
  -- The state waits for the only missing slice, so that slice makes the package whole.
  last_one :
      (order : List ℕ) (i k : ℕ) (st : SliceState) (es : List StreamEvent)
      → Waits sh (seen order) k st
      → i ≤ sh.last
      → OnlyMissing sh.last order i
      → Outcome sh (seen order) k st i (step sh st i)
      → feed_slices sh sender pkg frame_size rest (journal_stream config st es) (i ∷ [])
        ≡ some (journal_stream config zero_state (es ++ complete ∷ []))
  unfolding feed_slices after_step
  last_one order i k st es w within only (again here steps) = absurd (cc (only.0))
  last_one order i k st es w within only (later s' new behind steps w') =
      absurd (cc (w.missing, only.1 k w.gap_within (omega arith)))
  last_one order i k st es w within only (grows k' s' fills above steps w') =
      let above_all : seen order k' ≡ true = only.1 k' w'.gap_within (omega arith) in
      absurd (ground (arith, w'.missing))
  last_one order i k st es w within only (whole s' fills all steps at ends) =
      ap (λ r. r >>= (λ s. some s))
        (feed_one-step config sh sender pkg frame_size rest good small unit pkg_fits long st es i _
          within steps)

  -- For a package that is not empty, has at most 256 slices, whose slots end below 2^16, and whose
  -- slices have fewer than 2^12 bytes of payload: from the zeroed state, on the frames of all its
  -- slices but one, in any order and with repetitions, and then the frame of the missing one,
  -- every feed returns, the package is reported complete at the last frame and not before, and the
  -- state is zeroed.
  pub complete_once :
      (order : List ℕ) (i : ℕ)
      → AllWithin sh.last order
      → i ≤ sh.last
      → OnlyMissing sh.last order i
      → (es : List StreamEvent) × NoComplete es
        × (feed_slices sh sender pkg frame_size rest
              (journal_stream config zero_state [])
              (order ++ i ∷ [])
            ≡ some (journal_stream config zero_state (es ++ complete ∷ [])))
  complete_once order i inside within only =
      let (k, st, es, goes, waits, none_complete) =
        arrive config sh sender pkg frame_size rest good small unit pkg_fits long order i inside
          within nothing 0 zero_state [] (zero_state-Waits sh) only.0 in
      (
        es,
        none_complete,
        feed_slices-append sh sender pkg frame_size rest _ order (i ∷ [])
            ∙ ap (λ r. r >>= (λ s. feed_slices sh sender pkg frame_size rest s (i ∷ []))) goes
            ∙ last_one order i k st es waits within only
                (step-Outcome sh good (seen order) k st waits i within),
      )
