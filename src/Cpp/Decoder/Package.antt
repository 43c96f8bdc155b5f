-- ===== src/Cpp/Decoder/Package.antt =====
-- What the C++ receiver makes of the blocks of a package.
use mathlib.Core.Path.{subst}
use native.Mathlib.Nat.{mul-le-mul_right}
use master_pilot_custom_data.Base.{
  ℕ, suc, ◌+◌, ◌-◌, ◌*◌, ◌≤◌, ◌<◌, ◌^◌, ◌%◌, min, false, Option, some, List, [], ◌∷◌, ◌++◌, ltb,
  ◌≡◌, refl, arith, ap, ◌∙◌, sym, length, take, ◌>>=◌, u16, inl, inr, Bool-cases, ltb→le, ltb→lt,
  le→ltb, length-take,
}
use master_pilot_custom_data.Header.{HeaderMeta, header_size, packed_header_to_array}
use master_pilot_custom_data.Coordinate.{Coordinate, max_payload}
use master_pilot_custom_data.Coordinate.Laws.{offset_exact}
use master_pilot_custom_data.Tx.Laws.{slot_header}
use master_pilot_custom_data.Rx.{
  SliceState, SliceInst, new_slice_out_of_order, new_slice_in_order, complete, zero_state,
  header_to_coordinate, calc_slice_step,
}
use master_pilot_custom_data.Rx.Received.{Received, with_slice, nothing, AllFrom}
use master_pilot_custom_data.Rx.Package.{Shape, IsShape, total, size_of, eop_of, zero_state-Waits}
use master_pilot_custom_data.Rx.Step.{step}
use master_pilot_custom_data.RxStream.Frame.{frame_of, read-frame, payload_of-frame, mark_read}
use master_pilot_custom_data.RxStream.Arrivals.{slice_frame, AllWithin}
use master_pilot_custom_data.RxStream.Complete.{OnlyMissing}
use master_pilot_custom_data.RxStream.Course.{
  feed_each, Returns, Receives, course, under_way, missing-take, AllWithin-take,
}
use master_pilot_custom_data.Tools.Rx.Delivery.{part_of}
use master_pilot_custom_data.Cpp.Coordinator.{
  Coordinator, Slot, slot_index, slot_at, gc_hook, get_state, set_state, put_payload, get_payload,
}
use master_pilot_custom_data.Cpp.Coordinator.Bytes.{bytes_with}
use master_pilot_custom_data.Cpp.Coordinator.Clock.{
  At, At-get, At-next, At-set, At-put, At-view, get_payload-At, next_slot,
}
use master_pilot_custom_data.Cpp.Decoder.{
  RxDecoder, Impl, observed, store_slice, finish_package, handle, handle_block, push,
}
use master_pilot_custom_data.Cpp.Decoder.Filling.{
  Fills, Fills-start, Fills-empty, Fills-put, Fills-reaches, Fills-whole,
}

length-frame : (h : HeaderMeta) (r : List ℕ) → length (frame_of h r) ≡ header_size + length r
unfolding packed_header_to_array
length-frame h r = omega arith

-- The package's coordinate.
abbrev pub key : (sender pkg : ℕ) → Coordinate
key sender pkg = record { sender_id = sender % 8; package_id = pkg; offset = 0 }

-- The package's bytes have gone to protobuf, and its message, if they hold one, to the observer.
abbrev pub Reports :
    {U M : Type 0} → RxDecoder U M → (sender pkg : ℕ) → (bytes : List ℕ) → U → Impl U → Type 0
Reports decoder sender pkg bytes u0 impl =
    (impl.outer ≡ observed decoder u0 (decoder.parse_from_array bytes))
    × ((next_slot impl.coordinator (key sender pkg)).state ≡ zero_state)

-- The observer is as it was after each of the first calls.
abbrev pub StaysQuiet : {U : Type 0} → (Impl U → ℕ → Option (Impl U)) → Impl U → List ℕ → Type 0
StaysQuiet {U} feed impl order =
    (n : ℕ)
    → Returns (feed_each feed impl (take n order)) (λ (impl' : Impl U). impl'.outer ≡ impl.outer)

module _ {U M : Type 0} (decoder : RxDecoder U M) (sh : Shape) (good : IsShape sh) (bytes : List ℕ)
    (filled : length bytes ≡ total sh) (sender pkg : ℕ) (rest : ℕ → List ℕ)
    (rest_long : (i : ℕ) → i ≤ sh.last → size_of sh i ≤ length (rest i))
    (rest_content : (i : ℕ) → i ≤ sh.last → take (size_of sh i) (rest i) ≡ part_of sh.p bytes i)
    (small : sh.p < 2 ^ 12) (units : max_payload decoder.config ≡ sh.p)
    (pkg_fits : pkg < 2 ^ 8) where
  open sh use {p, last, tail}

  abbrev coord_of : ℕ → Coordinate
  coord_of i =
      header_to_coordinate decoder.config (slot_header sender pkg i (size_of sh i) (eop_of sh i))

  place_of : (i : ℕ) → i ≤ last → (coord_of i).offset ≡ i * p
  unfolding header_to_coordinate
  place_of i within = rw units (
      offset_exact i p
        (omega (arith, good, mul-le-mul_right {m = i} {n = last + 1} p (omega arith))))

  abbrev payload_of : ℕ → List ℕ
  payload_of i = take (size_of sh i) (rest i)

  length-payload_of : (i : ℕ) → i ≤ last → length (payload_of i) ≡ size_of sh i
  length-payload_of i within =
      omega (arith, rest_long i within, length-take (size_of sh i) (rest i))

  -- On the block of slice `i` the receiver handles the slice's payload.
  push-frame :
      (impl : Impl U) (i : ℕ)
      → i ≤ last
      → push decoder impl (slice_frame sh sender pkg rest i)
        ≡ handle_block decoder impl (coord_of i) i (payload_of i) (eop_of sh i)
  unfolding push
  push-frame impl i within =
      let frame = slice_frame sh sender pkg rest i in
      let size = size_of sh i in
      let fits : size < 2 ^ 12 = ground (arith, good) in
      let long : length frame ≡ header_size + length (rest i) = length-frame _ (rest i) in
      let cut : u16 (min size (length frame - header_size)) ≡ size =
        omega (arith, long, rest_long i within, fits) in
      rw
        (
          read-frame sender pkg i size (eop_of sh i) (rest i) pkg_fits (omega (arith, good)) fits,
          payload_of-frame,
          cut,
          le→ltb (length frame) header_size (omega (arith, long)),
          mark_read (eop_of sh i),
        )
        refl

  next_slot-key :
      (c : Coordinator) (i : ℕ) → next_slot c (coord_of i) ≡ next_slot c (key sender pkg)
  unfolding slot_at slot_index header_to_coordinate
  next_slot-key c i = refl

  abbrev entered : Impl U → ℕ → Impl U
  entered impl i =
      let coord = coord_of i in
      record impl {
        coordinator =
            (get_state (gc_hook impl.coordinator coord.sender_id coord.package_id) coord).1;
      }

  abbrev stored_in : Impl U → ℕ → SliceInst → Impl U
  stored_in impl i inst = store_slice decoder (entered impl i) (coord_of i) (payload_of i) inst

  module _ (u0 : U) where
    -- The next block of the package meets the state `st` and the slices `got`; nothing is observed.
    pub record Gathers (got : Received) (k : ℕ) (st : SliceState) (impl : Impl U) : Type 0 where
      pub at_state : (next_slot impl.coordinator (key sender pkg)).state ≡ st
      pub fills : Fills sh good bytes filled got (next_slot impl.coordinator (key sender pkg)).bytes
      pub quiet : impl.outer ≡ u0

    module _ (got : Received) (k i : ℕ) (st : SliceState) (impl : Impl U)
        (g : Gathers got k st impl) (within : i ≤ last) where
      push-step :
          (inst : SliceInst)
          → step sh st i ≡ some inst
          → push decoder impl (slice_frame sh sender pkg rest i)
            ≡ handle decoder (entered impl i) (coord_of i) (payload_of i) inst
      unfolding handle_block get_state
      push-step inst steps =
          push-frame impl i within
          ∙ rw (length-payload_of i within, units)
              (ap
                  (λ (s : Slot).
                    calc_slice_step s.state i (size_of sh i) p (eop_of sh i)
                    >>= handle decoder (entered impl i) (coord_of i) (payload_of i))
                  (next_slot-key impl.coordinator i)
                ∙ ap
                    (λ s.
                      step sh s i >>= handle decoder (entered impl i) (coord_of i) (payload_of i))
                    g.at_state
                ∙ ap (λ r. r >>= handle decoder (entered impl i) (coord_of i) (payload_of i)) steps)

      -- The slot after the slice is stored.
      abbrev Holding : SliceState → Coordinator → Type 0
      Holding st' c =
          (slot : Slot) × At c (sender % 8) pkg slot
          × (slot.state ≡ st')
          × Fills sh good bytes filled (with_slice got i) slot.bytes

      storing : (inst : SliceInst) → Holding inst.next_state (stored_in impl i inst).coordinator
      unfolding store_slice header_to_coordinate
      storing inst =
          let c = impl.coordinator in
          let slot = next_slot c (coord_of i) in
          let c1 = (entered impl i).coordinator in
          let at : At c1 (sender % 8) pkg slot = At-get c (coord_of i) in
          let size = length-payload_of i within in
          let fills =
            subst (λ (s : Slot). Fills sh good bytes filled got s.bytes) (sym (next_slot-key c i))
              g.fills in
          elim (Bool-cases (ltb 0 (length (payload_of i)))) [
            | inl some_bytes ↦
                let slot' : Slot = record slot {
                  bytes = bytes_with slot.bytes (coord_of i).offset (payload_of i);
                } in
                let at' =
                  At-put c1 (coord_of i) slot at (payload_of i)
                    (ltb→lt 0 (length (payload_of i)) some_bytes) in
                let fills' =
                  Fills-put sh good bytes filled got slot.bytes (payload_of i) i within size
                    (rest_content i within) fills in
                rw some_bytes (
                  record slot' { state = inst.next_state },
                  At-set (put_payload c1 (coord_of i) (payload_of i)) (coord_of i) slot' at'
                      inst.next_state,
                  refl,
                  subst
                      (λ o.
                        Fills sh good bytes filled (with_slice got i)
                          (bytes_with slot.bytes o (payload_of i)))
                      (sym (place_of i within)) fills',
                )
            | inr empty ↦
                let none_there : size_of sh i ≡ 0 =
                  omega (arith, size, ltb→le 0 (length (payload_of i)) empty) in
                rw empty (
                  record slot { state = inst.next_state },
                  At-set c1 (coord_of i) slot at inst.next_state,
                  refl,
                  Fills-empty sh good bytes filled got slot.bytes i within none_there fills,
                )
          ]

      outer-stored : (inst : SliceInst) → (stored_in impl i inst).outer ≡ u0
      unfolding store_slice
      outer-stored inst = g.quiet

      Gathers-stored_in :
          (inst : SliceInst) (k' : ℕ)
          → Gathers (with_slice got i) k' inst.next_state (stored_in impl i inst)
      unfolding header_to_coordinate
      Gathers-stored_in inst k' =
          let (slot, at, state, fills) = storing inst in
          let c = (stored_in impl i inst).coordinator in
          let meets : next_slot c (key sender pkg) ≡ slot = At-next c (key sender pkg) slot at in
          record {
            at_state = ap (λ (s : Slot). s.state) meets ∙ state;
            fills =
                subst (λ (s : Slot). Fills sh good bytes filled (with_slice got i) s.bytes)
                  (sym meets) fills;
            quiet = outer-stored inst;
          }

    finishing :
        (got : Received) (impl : Impl U) (slot : Slot) (i : ℕ)
        → At impl.coordinator (sender % 8) pkg slot
        → impl.outer ≡ u0
        → Fills sh good bytes filled got slot.bytes
        → AllFrom got 0 (suc last)
        → Returns
            (finish_package decoder impl (coord_of i) (total sh))
            (Reports decoder sender pkg bytes u0)
    unfolding finish_package header_to_coordinate
    finishing got impl slot i at quiet fills all =
        let normalized : Coordinate = record (coord_of i) { offset = 0 } in
        let c = impl.coordinator in
        let view : (get_payload c normalized).0 ≡ slot.bytes =
          get_payload-At c normalized slot at in
        let reach = Fills-reaches sh good bytes filled slot.bytes got fills all in
        let enough : ltb (length slot.bytes) (total sh) ≡ false = le→ltb _ _ reach in
        let whole = Fills-whole sh good bytes filled slot.bytes got fills all in
        let c' = (get_payload c normalized).1 in
        let at' = At-set c' normalized slot (At-view c normalized slot at) zero_state in
        (
          record {
            coordinator = set_state c' normalized zero_state;
            outer = observed decoder u0 (decoder.parse_from_array bytes);
          },
          rw (view, enough, whole, quiet) refl,
          (
            refl,
            ap (λ (s : Slot). s.state)
                (At-next (set_state c' normalized zero_state) (key sender pkg)
                  (record slot { state = zero_state }) at'),
          ),
        )

    abbrev pub pushes : Impl U → ℕ → Option (Impl U)
    pushes impl i = push decoder impl (slice_frame sh sender pkg rest i)

    again-Gathers :
        (got : Received) (k i : ℕ) (st : SliceState) (impl : Impl U)
        → Gathers got k st impl
        → Gathers got k st (entered impl i)
    unfolding header_to_coordinate
    again-Gathers got k i st impl g =
        let c = impl.coordinator in
        let meets : next_slot (entered impl i).coordinator (key sender pkg)
            ≡ next_slot c (key sender pkg) =
          At-next (entered impl i).coordinator (key sender pkg) (next_slot c (coord_of i))
            (At-get c (coord_of i))
          ∙ next_slot-key c i in
        record {
          at_state = ap (λ (s : Slot). s.state) meets ∙ g.at_state;
          fills = subst (λ (s : Slot). Fills sh good bytes filled got s.bytes) (sym meets) g.fills;
          quiet = g.quiet;
        }

    receives : Receives sh pushes Gathers (Reports decoder sender pkg bytes u0)
    unfolding handle
    receives = record {
      repeats = λ got k i st impl g within steps. (
        entered impl i,
        push-step got k i st impl g within _ steps,
        again-Gathers got k i st impl g,
      );
      keeps = λ got k i st next impl g waits within steps waits'. (
        stored_in impl i _,
        push-step got k i st impl g within _ steps,
        Gathers-stored_in got k i st impl g within
            (record { e = new_slice_out_of_order; next_state = next }) k,
      );
      grows_to = λ got k k' i st next impl g waits within further steps waits'. (
        stored_in impl i _,
        push-step got k i st impl g within _ steps,
        Gathers-stored_in got k i st impl g within
            (record { e = new_slice_in_order; next_state = next }) k',
      );
      finishes = λ got k i st next impl g waits within all steps at_end ends.
          let inst : SliceInst = record { e = complete; next_state = next } in
          let (slot, at, state, fills) = storing got k i st impl g within inst in
          let (impl', finishes, reports) =
            finishing (with_slice got i) (stored_in impl i inst) slot i at
              (outer-stored got k i st impl g within inst) fills all in
          (
            impl',
            push-step got k i st impl g within inst steps
                ∙ ap (finish_package decoder (stored_in impl i inst) (coord_of i)) ends
                ∙ finishes,
            reports,
          );
    }

  -- For a package that is not empty, has at most 256 slices, whose slots end below 2^16, and whose
  -- slices have fewer than 2^12 bytes of payload, and blocks that carry its slices, from any state
  -- in which the next block of the package meets a zeroed slice state: on all slices but one, in
  -- any order and with repetitions, and then the missing one, every call of the C++ receiver
  -- returns, so that no assertion fails. After each of the calls before the last, what the
  -- observer reaches is as it was; at the last, the bytes of the package are parsed, and the
  -- message, if it is one, is observed, once; and the next block of the package meets a zeroed
  -- state again.
  pub push-package :
      (impl : Impl U) (order : List ℕ) (i : ℕ)
      → (next_slot impl.coordinator (key sender pkg)).state ≡ zero_state
      → AllWithin last order
      → i ≤ last
      → OnlyMissing last order i
      → StaysQuiet (λ d j. push decoder d (slice_frame sh sender pkg rest j)) impl order
        × Returns
            (feed_each
              (λ d j. push decoder d (slice_frame sh sender pkg rest j))
              impl
              (order ++ i ∷ []))
            (Reports decoder sender pkg bytes impl.outer)
  push-package impl order i fresh inside within only =
      let start : Gathers impl.outer nothing 0 zero_state impl = record {
        at_state = fresh;
        fills = Fills-start sh good bytes filled _;
        quiet = refl;
      } in
      let before : StaysQuiet (pushes impl.outer) impl order = λ n.
        let (impl', goes, (k, st, g)) =
          under_way sh good (pushes impl.outer) (Gathers impl.outer)
            (Reports decoder sender pkg bytes impl.outer) (receives impl.outer) (take n order) i
            (AllWithin-take last n order inside) within nothing 0 zero_state impl
            (zero_state-Waits sh) start (missing-take n order nothing i only.0) in
        (impl', goes, g.quiet) in
      (
        before,
        course sh good (pushes impl.outer) (Gathers impl.outer)
            (Reports decoder sender pkg bytes impl.outer) (receives impl.outer) order i inside
            within nothing 0 zero_state impl (zero_state-Waits sh) start only,
      )
