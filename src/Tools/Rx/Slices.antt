-- ===== src/Tools/Rx/Slices.antt =====
-- The rx command's stream on the frame of a slice of a package.
use native.Mathlib.Nat.{mul-le-mul_right}
use master_pilot_custom_data.Base.{
  ℕ, ◌+◌, ◌*◌, ◌≤◌, ◌<◌, ◌^◌, false, Option, some, List, ◌≡◌, refl, arith, ap, ◌∙◌, length, take,
  ◌>>=◌,
}
use master_pilot_custom_data.Header.{header_size}
use master_pilot_custom_data.Coordinate.{Coordinate, max_payload}
use master_pilot_custom_data.Coordinate.Laws.{offset_exact}
use master_pilot_custom_data.Tx.Laws.{slot_header}
use master_pilot_custom_data.Rx.{
  SliceState, SliceInst, StreamEvent, duplicate, new_slice_out_of_order, new_slice_in_order,
  complete, zero_state, header_to_coordinate,
}
use master_pilot_custom_data.Rx.Received.{Received, with_slice}
use master_pilot_custom_data.Rx.Package.{Shape, IsShape, total, size_of, eop_of}
use master_pilot_custom_data.Rx.Step.{step}
use master_pilot_custom_data.RxStream.{RxStream, after_step, rx_stream_feed}
use master_pilot_custom_data.RxStream.Frame.{feed-frame}
use master_pilot_custom_data.RxStream.Arrivals.{slice_frame}
use master_pilot_custom_data.Tools.Rx.{RxCtx, coordinator, state_get, state_put, on_event}
use master_pilot_custom_data.Tools.Rx.Delivery.{part_of, Takes}
use master_pilot_custom_data.Tools.Rx.Assembly.{Holds}
use master_pilot_custom_data.Tools.Rx.Event.{on_event-Leaves}
use master_pilot_custom_data.Tools.Rx.Spans.{Spans}

module _ (sh : Shape) (good : IsShape sh) (bytes : List ℕ) (whole : length bytes ≡ total sh)
    (writes : ℕ → ℕ → Option ℕ) (takes : Takes writes) where
  open sh use {p, last, tail}

  -- The stream and what it has gathered of the package.
  module _ (tu : ℕ) where
    abbrev pub at : RxCtx → RxStream RxCtx
    at c = record {
      config = record { transmission_unit = tu };
      coordinator = coordinator;
      on_event = on_event writes;
      world = c;
    }

    -- The slices `got` are stored, and those before slice `k` written.
    pub record Gathers (got : Received) (k : ℕ) (st : SliceState) (c : RxCtx) : Type 0 where
      pub stored : c.session.state ≡ st
      pub unit : c.session.transmission_unit ≡ tu
      pub holds : Holds sh good bytes whole got c.assembly
      pub wrote : c.written ≡ take (k * p) bytes
      pub safe : c.fault ≡ false

    -- The frames of the package: `rest i` is what follows the header.
    pub record AreRests (rest : ℕ → List ℕ) : Type 0 where
      pub long : (i : ℕ) → i ≤ last → size_of sh i ≤ length (rest i)
      pub content : (i : ℕ) → i ≤ last → take (size_of sh i) (rest i) ≡ part_of p bytes i

    module _ (sender pkg : ℕ) (rest : ℕ → List ℕ) (rests : AreRests rest) (small : p < 2 ^ 12)
        (units : max_payload (record { transmission_unit = tu }) ≡ p) (pkg_fits : pkg < 2 ^ 8)
        (long : header_size ≤ tu) where
      abbrev coord_of : ℕ → Coordinate
      coord_of i =
          header_to_coordinate (record { transmission_unit = tu })
            (slot_header sender pkg i (size_of sh i) (eop_of sh i))

      abbrev pub feed : RxCtx → ℕ → Option (RxStream RxCtx)
      feed c i = rx_stream_feed (at c) (slice_frame sh sender pkg rest i) tu

      offset_of : (i : ℕ) → i ≤ last → (coord_of i).offset ≡ i * p
      unfolding header_to_coordinate
      offset_of i within = rw units (
          offset_exact i p
            (omega (arith, good, mul-le-mul_right {m = i} {n = last + 1} p (omega arith))))

      feed-step :
          (got : Received) (k i : ℕ) (st : SliceState) (c : RxCtx) (inst : SliceInst)
          → Gathers got k st c
          → i ≤ last
          → step sh st i ≡ some inst
          → feed c i ≡ after_step (at c) (coord_of i) st.watermark (rest i) (size_of sh i) inst
      unfolding coordinator state_get
      feed-step got k i st c inst gathers within steps =
          feed-frame sh good small (at c) sender pkg i (rest i) tu units pkg_fits within long
          ∙ ap
              (λ s.
                step sh s i >>= after_step (at c) (coord_of i) s.watermark (rest i) (size_of sh i))
              gathers.stored
          ∙ ap (λ r. r >>= after_step (at c) (coord_of i) st.watermark (rest i) (size_of sh i))
              steps

      -- The stream has taken slice `i` in, has written up to slice `n`, and stores `st'`.
      abbrev pub Fed : Received → (i n : ℕ) → SliceState → Option (RxStream RxCtx) → Type 0
      Fed got i n st' result =
          (c' : RxCtx) × (result ≡ some (at c')) × Gathers (with_slice got i) n st' c'

      event-Fed :
          (got : Received) (k n i : ℕ) (st st' next : SliceState) (c : RxCtx) (e : StreamEvent)
          → Gathers got k st c
          → i ≤ last
          → st.watermark ≡ k * p
          → Spans sh good bytes whole writes takes (with_slice got i) next.watermark k n
          → Fed got i n st' (
              on_event writes
                (state_put c (coord_of i) st')
                e
                (coord_of i)
                coordinator
                next
                st.watermark
                (rest i)
                (size_of sh i)
              >>= (λ w. some (at w)))
      unfolding state_put
      event-Fed got k n i st st' next c e gathers within here span =
          let (assembly, calls, leaves, holds) =
            on_event-Leaves sh good bytes whole writes takes got (state_put c (coord_of i) st') e
              (coord_of i) next i k n (rest i) within (offset_of i within) (rests.long i within)
              (rests.content i within)
              (ap (λ t. max_payload (record { transmission_unit = t })) gathers.unit ∙ units) span
              gathers.holds gathers.safe gathers.wrote in
          let session = c.session in
          (
            record c {
              session = record session { state = st' };
              assembly = assembly;
              written = take (n * p) bytes;
              calls = calls;
              fault = false;
            },
            ap
                  (λ wm.
                    on_event writes (state_put c (coord_of i) st') e (coord_of i) coordinator next
                      wm (rest i) (size_of sh i)
                    >>= (λ w. some (at w)))
                  here
                ∙ ap (λ r. r >>= (λ w. some (at w))) leaves,
            record { stored = refl; unit = gathers.unit; holds = holds; wrote = refl; safe = refl },
          )

      -- The three events that reach the callback.
      pub feed-later :
          (got : Received) (k n i : ℕ) (st next : SliceState) (c : RxCtx)
          → Gathers got k st c
          → i ≤ last
          → st.watermark ≡ k * p
          → Spans sh good bytes whole writes takes (with_slice got i) next.watermark k n
          → step sh st i ≡ some (record { e = new_slice_out_of_order; next_state = next })
          → Fed got i n next (feed c i)
      unfolding after_step coordinator
      feed-later got k n i st next c gathers within here span steps =
          let (c', feeds, gathers') =
            event-Fed got k n i st next next c new_slice_out_of_order gathers within here span in
          (c', feed-step got k i st c _ gathers within steps ∙ feeds, gathers')

      pub feed-grows :
          (got : Received) (k n i : ℕ) (st next : SliceState) (c : RxCtx)
          → Gathers got k st c
          → i ≤ last
          → st.watermark ≡ k * p
          → Spans sh good bytes whole writes takes (with_slice got i) next.watermark k n
          → step sh st i ≡ some (record { e = new_slice_in_order; next_state = next })
          → Fed got i n next (feed c i)
      unfolding after_step coordinator
      feed-grows got k n i st next c gathers within here span steps =
          let (c', feeds, gathers') =
            event-Fed got k n i st next next c new_slice_in_order gathers within here span in
          (c', feed-step got k i st c _ gathers within steps ∙ feeds, gathers')

      pub feed-whole :
          (got : Received) (k n i : ℕ) (st next : SliceState) (c : RxCtx)
          → Gathers got k st c
          → i ≤ last
          → st.watermark ≡ k * p
          → Spans sh good bytes whole writes takes (with_slice got i) next.watermark k n
          → step sh st i ≡ some (record { e = complete; next_state = next })
          → Fed got i n zero_state (feed c i)
      unfolding after_step coordinator
      feed-whole got k n i st next c gathers within here span steps =
          let (c', feeds, gathers') =
            event-Fed got k n i st zero_state next c complete gathers within here span in
          (c', feed-step got k i st c _ gathers within steps ∙ feeds, gathers')

      pub feed-again :
          (got : Received) (k i : ℕ) (st : SliceState) (c : RxCtx)
          → Gathers got k st c
          → i ≤ last
          → step sh st i ≡ some (record { e = duplicate; next_state = st })
          → feed c i ≡ some (at c)
      unfolding after_step
      feed-again got k i st c gathers within steps = feed-step got k i st c _ gathers within steps
