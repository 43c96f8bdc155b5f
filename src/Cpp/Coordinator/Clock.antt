-- ===== src/Cpp/Coordinator/Clock.antt =====
-- The slot of one package under the coordinator's operations, and what the generations do to it.
use master_pilot_custom_data.Base.{
  ℕ, ◌<◌, false, List, ◌==◌, ◌≡◌, refl, arith, ap, length, drop, bit_or, ◌<<<◌,
}
use master_pilot_custom_data.Coordinate.{Coordinate}
use master_pilot_custom_data.Rx.{SliceState, zero_state}
use master_pilot_custom_data.Cpp.Coordinator.{
  Coordinator, Slot, slot_index, slot_at, gc_clock_hook, gc_hook, get_state, set_state, put_payload,
  get_payload,
}
use master_pilot_custom_data.Cpp.Coordinator.Bytes.{bytes_with}

-- The slot that the next block of a package meets.
abbrev pub next_slot : Coordinator → Coordinate → Slot
next_slot c coord = slot_at (gc_hook c coord.sender_id coord.package_id) coord

-- The last block of the sender was of this package, and `slot` is the package's slot, of the
-- sender's generation.
pub record At (c : Coordinator) (sender pkg : ℕ) (slot : Slot) : Type 0 where
  pub last_pkg : (c.sender_meta sender).pkg ≡ pkg
  pub same_gen : slot.gen ≡ (c.sender_meta sender).gen
  pub there : c.slots (bit_or (sender <<< 8) pkg) ≡ slot

module _ (c : Coordinator) (coord : Coordinate) where
  open coord use {sender_id, package_id, offset}

  pub At-get :
      At
        (get_state (gc_hook c sender_id package_id) coord).1
        sender_id
        package_id
        (next_slot c coord)
  unfolding get_state gc_hook slot_at gc_clock_hook slot_index
  At-get = record { last_pkg = ground arith; same_gen = ground arith; there = ground arith }

  module _ (slot : Slot) (at : At c sender_id package_id slot) where
    -- The slot's own generation is the sender's: it stays as it is.
    pub slot_at-At : slot_at c coord ≡ slot
    unfolding slot_at gc_clock_hook slot_index
    slot_at-At = rw (at.there) (ground (arith, at.same_gen))

    pub At-next : next_slot c coord ≡ slot
    unfolding slot_at gc_clock_hook slot_index gc_hook
    At-next = rw (at.there) (ground (arith, at.same_gen, at.last_pkg))

    pub At-set :
        (st : SliceState)
        → At (set_state c coord st) sender_id package_id (record slot { state = st })
    unfolding set_state slot_index
    At-set st = record {
      last_pkg = at.last_pkg;
      same_gen = at.same_gen;
      there = rw slot_at-At (ground arith);
    }

    pub At-put :
        (payload : List ℕ)
        → 0 < length payload
        → At
            (put_payload c coord payload)
            sender_id
            package_id
            (record slot { bytes = bytes_with slot.bytes offset payload })
    unfolding put_payload slot_index
    At-put payload some_bytes =
        let more : (length payload == 0) ≡ false = ground arith in
        rw (more, slot_at-At)
          (record { last_pkg = at.last_pkg; same_gen = at.same_gen; there = ground arith })

    pub get_payload-At : (get_payload c coord).0 ≡ drop offset slot.bytes
    unfolding get_payload
    get_payload-At = ap (λ (s : Slot). drop offset s.bytes) slot_at-At

    pub At-view : At (get_payload c coord).1 sender_id package_id slot
    unfolding get_payload slot_index
    At-view = record {
      last_pkg = at.last_pkg;
      same_gen = at.same_gen;
      there = rw slot_at-At (ground arith);
    }

  -- The bytes of a slot are never cleared.
  pub next_slot-bytes : (next_slot c coord).bytes ≡ (c.slots (slot_index coord)).bytes
  unfolding slot_at gc_clock_hook gc_hook
  next_slot-bytes = ground arith

  pub next_slot-zero :
      (c.slots (slot_index coord)).state ≡ zero_state → (next_slot c coord).state ≡ zero_state
  unfolding slot_at gc_clock_hook gc_hook
  next_slot-zero zeroed = rw zeroed refl
