-- ===== src/Cpp/Decoder/Isolation.antt =====
-- What a block leaves alone: the slots of other packages, and other senders.
use mathlib.Core.Path.{subst}
use native.Mathlib.Decide.{dec_lt}
use mathlib.Core.Option.{some-injective}
use master_pilot_custom_data.Base.{
  ℕ, ◌-◌, min, Bool, true, false, not, none, some, List, ltb, ◌==◌, if◌then◌else◌, ◌>>=◌, ◌≡◌, ◌≢◌,
  refl, sym, ap, ◌∙◌, arith, length, take, drop, u16, inl, inr, Bool-cases, Option-cases, ◌≤◌,
  lt→ltb, le→ltb,
}
use master_pilot_custom_data.Header.{header_size, header_unpack, array_to_packed_header}
use master_pilot_custom_data.Coordinate.{Coordinate, max_payload}
use master_pilot_custom_data.Rx.{
  SliceState, StreamEvent, SliceInst, duplicate, new_slice_out_of_order, new_slice_in_order,
  complete, header_to_coordinate, calc_slice_step, zero_state,
}
use master_pilot_custom_data.Cpp.Coordinator.{
  Coordinator, slot_index, gc_hook, get_state, set_state, put_payload, get_payload,
}
use master_pilot_custom_data.Cpp.Decoder.{
  RxDecoder, Impl, store_slice, finish_package, handle, handle_block, push,
}

-- But for the slot at `n` and the sender `sender`, the two are the same.
pub record Apart (n sender : ℕ) (c c' : Coordinator) : Type 0 where
  pub slots : (j : ℕ) → n ≢ j → c'.slots j ≡ c.slots j
  pub senders : (s : ℕ) → sender ≢ s → c'.sender_meta s ≡ c.sender_meta s

-- A check that has passed.
passed : {A : Type 0} (b : Bool) (x y : A) → (if b then none else some x) ≡ some y → x ≡ y
passed true x y e = absurd (cc)
passed false x y e = some-injective _ _ e

module _ {U M : Type 0} (decoder : RxDecoder U M) where
  module _ (coord : Coordinate) (c0 : Coordinator) where
    -- But for the block's slot, and with the clock set on, the coordinator is as before.
    pub record Kept (c : Coordinator) : Type 0 where
      pub slots : (j : ℕ) → slot_index coord ≢ j → c.slots j ≡ c0.slots j
      pub clock :
          (s : ℕ) → c.sender_meta s ≡ (gc_hook c0 coord.sender_id coord.package_id).sender_meta s

    set_state-Kept : (c : Coordinator) (st : SliceState) → Kept c → Kept (set_state c coord st)
    unfolding set_state
    set_state-Kept c st k = record { slots = λ j ne. ground (arith, k.slots j ne); clock = k.clock }

    visited-Kept : (c : Coordinator) → Kept c → Kept (get_state c coord).1
    unfolding get_state
    visited-Kept c k = record { slots = λ j ne. ground (arith, k.slots j ne); clock = k.clock }

    get_payload-Kept : (c : Coordinator) → Kept c → Kept (get_payload c coord).1
    unfolding get_payload
    get_payload-Kept c k = record { slots = λ j ne. ground (arith, k.slots j ne); clock = k.clock }

    put_payload-Kept :
        (c : Coordinator) (payload : List ℕ) → Kept c → Kept (put_payload c coord payload)
    unfolding put_payload
    put_payload-Kept c payload k = record {
      slots = λ j ne. ground (arith, k.slots j ne);
      clock = λ s. ground (arith, k.clock s);
    }

    gc_hook-Kept : Kept (gc_hook c0 coord.sender_id coord.package_id)
    unfolding gc_hook
    gc_hook-Kept = record { slots = λ j ne. refl; clock = λ s. refl }

    store_slice-Kept :
        (impl : Impl U) (payload : List ℕ) (inst : SliceInst)
        → Kept impl.coordinator
        → Kept (store_slice decoder impl coord payload inst).coordinator
    unfolding store_slice
    store_slice-Kept impl payload inst k = elim (Bool-cases (ltb 0 (length payload))) [
      | inl e ↦ rw e (set_state-Kept _ _ (put_payload-Kept _ payload k))
      | inr e ↦ rw e (set_state-Kept _ _ k)
    ]

  finish_package-Kept :
      (coord : Coordinate) (c0 : Coordinator) (impl impl' : Impl U) (termination : ℕ)
      → Kept coord c0 impl.coordinator
      → finish_package decoder impl coord termination ≡ some impl'
      → Kept coord c0 impl'.coordinator
  unfolding finish_package slot_index
  finish_package-Kept coord c0 impl impl' termination k e =
      let normalized : Coordinate = record coord { offset = 0 } in
      let viewed =
        get_payload-Kept normalized c0 impl.coordinator
          (record { slots = k.slots; clock = k.clock }) in
      let kept = set_state-Kept normalized c0 _ zero_state viewed in
      subst (λ (o : Impl U). Kept coord c0 o.coordinator)
        (passed (ltb (length (get_payload impl.coordinator normalized).0) termination) _ _ e)
        (record { slots = kept.slots; clock = kept.clock })

  handle-Kept :
      (coord : Coordinate) (c0 : Coordinator) (impl impl' : Impl U) (payload : List ℕ)
      (e : StreamEvent) (next : SliceState)
      → Kept coord c0 impl.coordinator
      → handle decoder impl coord payload (record { e = e; next_state = next }) ≡ some impl'
      → Kept coord c0 impl'.coordinator
  unfolding handle
  handle-Kept coord c0 impl impl' payload duplicate next k r =
      subst (λ o. Kept coord c0 o.coordinator) (some-injective _ _ r) k
  handle-Kept coord c0 impl impl' payload new_slice_out_of_order next k r =
      subst (λ o. Kept coord c0 o.coordinator) (some-injective _ _ r)
        (store_slice-Kept coord c0 impl payload _ k)
  handle-Kept coord c0 impl impl' payload new_slice_in_order next k r =
      subst (λ o. Kept coord c0 o.coordinator) (some-injective _ _ r)
        (store_slice-Kept coord c0 impl payload _ k)
  handle-Kept coord c0 impl impl' payload complete next k r =
      finish_package-Kept coord c0 _ impl' next.termination
        (store_slice-Kept coord c0 impl payload _ k) r

  handle_block-Kept :
      (coord : Coordinate) (impl impl' : Impl U) (serial : ℕ) (payload : List ℕ) (eop : Bool)
      → handle_block decoder impl coord serial payload eop ≡ some impl'
      → Kept coord impl.coordinator impl'.coordinator
  unfolding handle_block
  handle_block-Kept coord impl impl' serial payload eop r =
      let c0 = impl.coordinator in
      let hooked = get_state (gc_hook c0 coord.sender_id coord.package_id) coord in
      let entered : Kept coord c0 hooked.1 = visited-Kept coord c0 _ (gc_hook-Kept coord c0) in
      let steps =
        calc_slice_step hooked.0 serial (length payload) (max_payload decoder.config) eop in
      elim (Option-cases steps) [
        | inl never ↦ absurd (cc)
        | inr (inst, ends) ↦
            handle-Kept coord c0 (record impl { coordinator = hooked.1 }) impl' payload inst.e
              inst.next_state entered
              (sym (
                  ap
                    (λ o.
                      o >>= handle decoder (record impl { coordinator = hooked.1 }) coord payload)
                    ends)
                ∙ r)
      ]

  -- A block that has a header is handled.
  pub push-Kept :
      (impl impl' : Impl U) (block : List ℕ)
      → header_size ≤ length block
      → push decoder impl block ≡ some impl'
      → Kept
          (header_to_coordinate decoder.config (header_unpack (array_to_packed_header block)))
          impl.coordinator
          impl'.coordinator
  unfolding push
  push-Kept impl impl' block long r =
      let hdr = header_unpack (array_to_packed_header block) in
      let goes : ltb (length block) header_size ≡ false = le→ltb _ _ long in
      handle_block-Kept _ impl impl' hdr.slice_serial
        (take (u16 (min hdr.slice_payload_size (length block - header_size)))
          (drop header_size block))
        (not (hdr.eop == 0)) (sym (rw goes refl) ∙ r)

  -- Whatever a block holds, and if the call returns: it leaves the slots of all other packages as
  -- they are, and all other senders.
  pub push-Apart :
      (impl impl' : Impl U) (block : List ℕ)
      → push decoder impl block ≡ some impl'
      → let coord =
          header_to_coordinate decoder.config (header_unpack (array_to_packed_header block)) in
        Apart (slot_index coord) coord.sender_id impl.coordinator impl'.coordinator
  unfolding push gc_hook
  push-Apart impl impl' block r = elim (dec_lt (length block) header_size) [
    | yes short ↦
        let stays : ltb (length block) header_size ≡ true = lt→ltb _ _ short in
        let same : impl' ≡ impl = some-injective _ _ (sym r ∙ rw stays refl) in
        record {
          slots = λ j ne. ap (λ (o : Impl U). o.coordinator.slots j) same;
          senders = λ j ne. ap (λ (o : Impl U). o.coordinator.sender_meta j) same;
        }
    | no long ↦
        let k = push-Kept impl impl' block (omega arith) r in
        record { slots = k.slots; senders = λ s ne. k.clock s ∙ ground arith }
  ]
