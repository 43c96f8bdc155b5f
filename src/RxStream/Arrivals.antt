-- ===== src/RxStream/Arrivals.antt =====
-- The stream on the frames of one package, in any order and with repetitions, with a single stored
-- state, as the embedded decoder and the tool keep it.
use mathlib.Core.Path.{fun_ext, subst}
use native.Mathlib.Decide.{ℕ_discrete}
use master_pilot_custom_data.Base.{
  ℕ, ◌^◌, ◌≤◌, ◌<◌, true, false, Option, some, List, [], ◌∷◌, ◌++◌, foldl, ◌≡◌, ◌≢◌, arith, ◌>>=◌,
  ap, ◌∙◌, sym, append_assoc, append-nil,
}
use master_pilot_custom_data.Header.{header_size}
use master_pilot_custom_data.Coordinate.{Config, max_payload}
use master_pilot_custom_data.Tx.Laws.{slot_header}
use master_pilot_custom_data.Rx.{
  SliceState, SliceInst, StreamEvent, new_slice_out_of_order, new_slice_in_order, complete,
  header_to_coordinate,
}
use master_pilot_custom_data.Rx.Received.{Received, nothing, with_slice}
use master_pilot_custom_data.Rx.Package.{Shape, IsShape, Waits, size_of, eop_of}
use master_pilot_custom_data.Rx.Step.{step, step-Outcome, Outcome, again, later, grows, whole}
use master_pilot_custom_data.RxStream.{
  RxStream, RxCoordinator, RxEventCb, after_step, rx_stream_feed,
}
use master_pilot_custom_data.RxStream.Frame.{frame_of, feed-frame}

-- A receiver that stores one state and keeps a journal of its events.
pub record Journal : Type 0 where
  pub state : SliceState
  pub events : List StreamEvent

abbrev pub journal_coordinator : RxCoordinator Journal
journal_coordinator = record {
  state_get = λ j coord. j.state;
  state_put = λ j coord state. record j { state = state };
  payload_put = λ j coord payload size. j;
  payload_get = λ j coord. [];
}

abbrev pub note : RxEventCb Journal
note j e coord coordinator state old_watermark payload payload_size =
    some (record j { events = j.events ++ e ∷ [] })

abbrev pub journal_stream : Config → SliceState → List StreamEvent → RxStream Journal
journal_stream config state events = record {
  config = config;
  coordinator = journal_coordinator;
  on_event = note;
  world = record { state = state; events = events };
}

-- The frame of slice `i`; `rest i` follows its header.
abbrev pub slice_frame : Shape → (sender pkg : ℕ) → (ℕ → List ℕ) → ℕ → List ℕ
slice_frame sh sender pkg rest i =
    frame_of (slot_header sender pkg i (size_of sh i) (eop_of sh i)) (rest i)

-- Feeding the frames of the slices `order`, one after another.
module _ (sh : Shape) (sender pkg frame_size : ℕ) (rest : ℕ → List ℕ) where
  unfoldable pub feed_slices : RxStream Journal → List ℕ → Option (RxStream Journal)
  feed_slices s [] = some s
  feed_slices s (i ∷ order) = do
    s' ← rx_stream_feed s (slice_frame sh sender pkg rest i) frame_size
    feed_slices s' order

-- Which slices have been seen.
abbrev pub seen : List ℕ → Received
seen order = foldl with_slice nothing order

abbrev pub AllWithin : ℕ → List ℕ → Type 0
AllWithin last [] = Unit {0}
AllWithin last (i ∷ order) = (i ≤ last) × AllWithin last order

abbrev pub NoComplete : List StreamEvent → Type 0
NoComplete [] = Unit {0}
NoComplete (e ∷ events) = (e ≢ complete) × NoComplete events

-- What is missing at the end was missing at the start.
pub missing_before :
    (order : List ℕ) (got : Received) (m : ℕ) → foldl with_slice got order m ≡ false → got m ≡ false
missing_before [] got m e = e
missing_before (i ∷ order) got m e =
    let before : with_slice got i m ≡ false = missing_before order (with_slice got i) m e in
    ground arith

pub with_slice-seen : (got : Received) (i : ℕ) → got i ≡ true → with_slice got i ≡ got
with_slice-seen got i here =
    fun_ext λ j. elim (ℕ_discrete i j) [ yes e ↦ ground (arith, ap got e) | no ne ↦ ground arith ]

module _ (config : Config) (sh : Shape) (sender pkg frame_size : ℕ) (rest : ℕ → List ℕ)
    (good : IsShape sh) (small : sh.p < 2 ^ 12) (unit : max_payload config ≡ sh.p)
    (pkg_fits : pkg < 2 ^ 8) (long : header_size ≤ frame_size) where
  abbrev feed_one : SliceState → List StreamEvent → ℕ → Option (RxStream Journal)
  feed_one st es i =
      rx_stream_feed (journal_stream config st es) (slice_frame sh sender pkg rest i) frame_size

  abbrev feed_order : SliceState → List StreamEvent → List ℕ → Option (RxStream Journal)
  feed_order st es order =
      feed_slices sh sender pkg frame_size rest (journal_stream config st es) order

  pub feed_one-step :
      (st : SliceState) (es : List StreamEvent) (i : ℕ) (inst : SliceInst)
      → i ≤ sh.last
      → step sh st i ≡ some inst
      → feed_one st es i
        ≡ after_step
            (journal_stream config st es)
            (header_to_coordinate config (slot_header sender pkg i (size_of sh i) (eop_of sh i)))
            st.watermark
            (rest i)
            (size_of sh i)
            inst
  feed_one-step st es i inst within steps =
      feed-frame sh good small (journal_stream config st es) sender pkg i (rest i) frame_size unit
        pkg_fits within long
      ∙ ap
          (λ r.
            r
            >>= after_step (journal_stream config st es)
                (header_to_coordinate config
                  (slot_header sender pkg i (size_of sh i) (eop_of sh i)))
                st.watermark (rest i) (size_of sh i))
          steps

  -- The stream has taken the slices in, and waits for another.
  abbrev Goes : Received → SliceState → List StreamEvent → List ℕ → Type 0
  Goes got st es order =
      (k' : ℕ) × (st' : SliceState) × (es' : List StreamEvent) × (feed_order st es order
        ≡ some (journal_stream config st' (es ++ es')))
      × Waits sh (foldl with_slice got order) k' st'
      × NoComplete es'

  Goes-cons :
      (got : Received) (st st' : SliceState) (es : List StreamEvent) (e : StreamEvent) (i : ℕ)
      (order : List ℕ)
      → feed_one st es i ≡ some (journal_stream config st' (es ++ e ∷ []))
      → e ≢ complete
      → Goes (with_slice got i) st' (es ++ e ∷ []) order
      → Goes got st es (i ∷ order)
  unfolding feed_slices
  Goes-cons got st st' es e i order feeds ne (k', st'', es', goes, waits, none_complete) = (
    k',
    st'',
    e ∷ es',
    ap (λ r. r >>= (λ s. feed_slices sh sender pkg frame_size rest s order)) feeds
        ∙ goes
        ∙ ap (λ l. some (journal_stream config st'' l)) (append_assoc es (e ∷ []) es'),
    waits,
    (ne, none_complete),
  )

  -- What the rest of the order does, from any state.
  abbrev Later : List ℕ → ℕ → Type 0
  Later order m =
      (got : Received) (k : ℕ) (st : SliceState) (es : List StreamEvent)
      → Waits sh got k st
      → foldl with_slice got order m ≡ false
      → Goes got st es order

  arrive_by :
      (order : List ℕ) (got : Received) (k : ℕ) (st : SliceState) (es : List StreamEvent) (i m : ℕ)
      → Waits sh got k st
      → i ≤ sh.last
      → m ≤ sh.last
      → foldl with_slice got (i ∷ order) m ≡ false
      → Outcome sh got k st i (step sh st i)
      → Later order m
      → Goes got st es (i ∷ order)
  unfolding feed_slices after_step
  arrive_by order got k st es i m w within hm out (again here steps) go =
      let same : with_slice got i ≡ got = with_slice-seen got i here in
      let (k', st', es', goes, waits, none_complete) =
        go got k st es w (ap (λ g. foldl with_slice g order m) (sym same) ∙ out) in
      (
        k',
        st',
        es',
        ap (λ r. r >>= (λ s. feed_slices sh sender pkg frame_size rest s order))
              (feed_one-step st es i _ within steps)
            ∙ goes,
        subst (λ g. Waits sh (foldl with_slice g order) k' st') (sym same) waits,
        none_complete,
      )
  arrive_by order got k st es i m w within hm out (later s' new behind steps w') go =
      Goes-cons got st s' es new_slice_out_of_order i order (feed_one-step st es i _ within steps)
        (λ e. cc) (go (with_slice got i) k s' _ w' out)
  arrive_by order got k st es i m w within hm out (grows k' s' fills above steps w') go =
      Goes-cons got st s' es new_slice_in_order i order (feed_one-step st es i _ within steps)
        (λ e. cc) (go (with_slice got i) k' s' _ w' out)
  arrive_by order got k st es i m w within hm out (whole s' fills all steps at ends) go =
      let missing : with_slice got i m ≡ false = missing_before order (with_slice got i) m out in
      let here : with_slice got i m ≡ true = all m (omega arith) (omega arith) in absurd (cc)

  -- As long as a slice `m` of the package does not come, no package is reported.
  pub arrive : (order : List ℕ) (m : ℕ) → AllWithin sh.last order → m ≤ sh.last → Later order m
  unfolding feed_slices
  arrive [] m within hm got k st es w out =
      (k, st, [], ap (λ l. some (journal_stream config st l)) (sym (append-nil es)), w, tt)
  arrive (i ∷ order) m within hm got k st es w out =
      arrive_by order got k st es i m w within.0 hm out (step-Outcome sh good got k st w i within.0)
        (arrive order m within.1 hm)
