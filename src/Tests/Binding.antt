-- ===== src/Tests/Binding.antt =====
-- The C++ binding: src/cpp/customdata-protobuf-tx.cpp and customdata-protobuf-rx.cpp.
use master_pilot_custom_data.Base.{
  ℕ, zero, suc, ◌-◌, ◌<◌, ◌^◌, ◌≤◌, ◌≢◌, ◌↔◌, true, some, List, ◌≡◌, refl, arith, [], ◌∷◌, ◌++◌,
  length, take, drop, replicate,
}
use master_pilot_custom_data.Header.{header_unpack, array_to_packed_header}
use master_pilot_custom_data.Coordinate.{Coordinate, max_payload, slice_idx_to_offset}
use master_pilot_custom_data.TxStream.Framer.{Slice}
use master_pilot_custom_data.Rx.{
  zero_state, header_to_coordinate, calc_slice_step, has_slice, record_slice, set_slice,
  calc_termination,
}
use master_pilot_custom_data.Rx.Package.{Shape, IsShape, size_of}
use master_pilot_custom_data.RxStream.Arrivals.{seen, slice_frame}
use master_pilot_custom_data.RxStream.Course.{Returns, feed_each}
use master_pilot_custom_data.Tools.Rx.Delivery.{part_of}
use master_pilot_custom_data.Tools.Tx.Sink.{AreFrames}
use master_pilot_custom_data.Cpp.Coordinator.{
  slot_index, slot_at, gc_hook, gc_clock_hook, get_state, set_state, put_payload,
}
use master_pilot_custom_data.Cpp.Coordinator.Slots.{slot_index-unpack}
use master_pilot_custom_data.Cpp.Coordinator.Clock.{next_slot}
use master_pilot_custom_data.Cpp.Decoder.{RxDecoder, Impl, handle_block, handle, store_slice}
use master_pilot_custom_data.Cpp.Decoder as Decoder
use master_pilot_custom_data.Cpp.Decoder.Isolation.{Apart, push-Apart}
use master_pilot_custom_data.Cpp.Decoder.Generations.{push-near, push-late}
use master_pilot_custom_data.Cpp.Decoder.Package.{Reports, StaysQuiet, push-package}
use master_pilot_custom_data.Cpp.Encoder.{
  Serialization, returns, next, back_up, TxEncoderCore, CoreState,
}
use master_pilot_custom_data.Cpp.Encoder as Encoder
use master_pilot_custom_data.Cpp.Encoder.Slices.{Sliced, Serializes, part, whole}
use master_pilot_custom_data.Cpp.Encoder.Package.{push-Sliced, after_push, unit}
use master_pilot_custom_data.Cpp.Encoder.Frames.{push-frame_size}

abbrev core : TxEncoderCore (List (List ℕ))
core = record { observer = λ seen frame. seen ++ frame ∷ []; sender_id = 2; tu = 7 }

abbrev at_nine : CoreState (List (List ℕ))
at_nine = record { current_package_id = 9; outer = [] }

abbrev bytes : List ℕ
bytes = 1 ∷ 2 ∷ 3 ∷ 4 ∷ 5 ∷ []

-- Two buffers, the second in part.
abbrev message : Serialization
message =
    next (λ n. take n bytes) (λ n. next (λ m. drop n bytes) (λ m. back_up (m - 2) (returns true)))

message-Serializes : Serializes 3 bytes message
message-Serializes = whole (4 ∷ 5 ∷ []) refl refl (part (omega arith) (omega arith) refl refl)

abbrev buffer : List ℕ
buffer = replicate 7 0

abbrev decoder : RxDecoder (List (List ℕ)) (List ℕ)
decoder = record {
  config = record { transmission_unit = 7 };
  observer = λ seen msg. seen ++ msg ∷ [];
  parse_from_array = λ xs. some xs;
}

abbrev idle : Impl (List (List ℕ))
idle = record {
  coordinator = record {
    slots = λ i. record { state = zero_state; bytes = []; gen = 0 };
    sender_meta = λ s. record { pkg = 0; gen = 0 };
  };
  outer = [];
}

abbrev five : Shape
five = record { p = 3; last = 1; tail = 2 }

five-IsShape : IsShape five
five-IsShape = omega arith

only_first : (m : ℕ) → m ≤ 1 → m ≢ 0 → seen (1 ∷ 1 ∷ []) m ≡ true
only_first zero h ne = absurd (ne refl)
only_first (suc zero) h ne = refl
only_first (suc (suc m)) h ne = absurd (omega arith)

push-Sliced_example :
    (slices : List Slice) × (blocks : List (List ℕ)) × Sliced
      (max_payload (unit core))
      2
      9
      0
      bytes
      slices
    × AreFrames 7 slices blocks
    × (Encoder.push core at_nine message buffer ≡ (true, after_push core at_nine blocks))
unfolding max_payload
push-Sliced_example =
    push-Sliced core at_nine message buffer bytes (omega arith) (omega arith) refl
      message-Serializes (omega arith) (omega arith) (omega arith)

abbrev OfSize : ℕ → List (List ℕ) → Type 0
OfSize n [] = Unit {0}
OfSize n (frame ∷ frames) = (length frame ≡ n) × OfSize n frames

OfSize-snoc :
    (n : ℕ) (frames : List (List ℕ)) (frame : List ℕ)
    → length frame ≡ n
    → OfSize n frames
    → OfSize n (frames ++ frame ∷ [])
OfSize-snoc n [] frame e all = (e, tt)
OfSize-snoc n (f ∷ frames) frame e all = (all.0, OfSize-snoc n frames frame e all.1)

-- A buffer of nine bytes, for a transmission unit of seven.
push-frame_size_example : OfSize 9 (Encoder.push core at_nine message (replicate 9 0)).1.outer
push-frame_size_example =
    push-frame_size core (OfSize 9) at_nine message (replicate 9 0) (omega arith) tt
      (λ frames frame e all. OfSize-snoc 9 frames frame e all)

slot_index-unpack_example :
    (slot_index (header_to_coordinate decoder.config (header_unpack 0x128d_c807)) < 2 ^ 11)
    × (slot_index (header_to_coordinate decoder.config (header_unpack 7)) < 2 ^ 11)
    × ((slot_index (header_to_coordinate decoder.config (header_unpack 0x128d_c807))
          ≡ slot_index (header_to_coordinate decoder.config (header_unpack 7)))
        ↔ (((header_unpack 0x128d_c807).sender_id ≡ (header_unpack 7).sender_id)
            × ((header_unpack 0x128d_c807).package_serial ≡ (header_unpack 7).package_serial)))
slot_index-unpack_example = slot_index-unpack decoder.config 0x128d_c807 7

abbrev rest : ℕ → List ℕ
rest zero = 1 ∷ 2 ∷ 3 ∷ []
rest (suc i) = 4 ∷ 5 ∷ []

rest-long : (i : ℕ) → i ≤ 1 → size_of five i ≤ length (rest i)
rest-long zero h = omega arith
rest-long (suc zero) h = omega arith
rest-long (suc (suc i)) h = absurd (omega arith)

rest-content : (i : ℕ) → i ≤ 1 → take (size_of five i) (rest i) ≡ part_of 3 bytes i
rest-content zero h = refl
rest-content (suc zero) h = refl
rest-content (suc (suc i)) h = absurd (omega arith)

push-package_example :
    StaysQuiet (λ d j. Decoder.push decoder d (slice_frame five 2 9 rest j)) idle (1 ∷ 1 ∷ [])
    × Returns
        (feed_each
          (λ d j. Decoder.push decoder d (slice_frame five 2 9 rest j))
          idle
          (1 ∷ 1 ∷ 0 ∷ []))
        (Reports decoder 2 9 bytes [])
unfolding max_payload slot_at gc_clock_hook gc_hook
push-package_example =
    push-package decoder five five-IsShape bytes refl 2 9 rest rest-long rest-content (omega arith)
      refl (omega arith) idle (1 ∷ 1 ∷ []) 0 refl (omega arith, (omega arith, tt)) (omega arith)
      (refl, only_first)

-- Every package is in progress, and the sender's last block was of package 3.
abbrev busy : Impl (List (List ℕ))
busy = record {
  coordinator = record {
    slots = λ i. record { state = record zero_state { received_count = 1 }; bytes = []; gen = 5 };
    sender_meta = λ s. record { pkg = 3; gen = 5 };
  };
  outer = [];
}

-- The last slice, of two bytes, of package `pkg` of sender 2.
abbrev block_of : ℕ → List ℕ
block_of pkg = pkg ∷ 1 ∷ 42 ∷ 0 ∷ 4 ∷ 5 ∷ []

abbrev coord_of : ℕ → Coordinate
coord_of pkg = record { sender_id = 2; package_id = pkg; offset = 3 }

abbrev after_block : ℕ → Impl (List (List ℕ))
after_block pkg =
    let c = (get_state (gc_hook busy.coordinator 2 pkg) (coord_of pkg)).1 in
    record busy {
      coordinator = set_state (put_payload c (coord_of pkg) (4 ∷ 5 ∷ [])) (coord_of pkg) (record {
        bitmap = 2 ∷ replicate 7 0;
        received_count = 2;
        termination = 5;
        watermark = 0;
      });
    }

takes_block-near : Decoder.push decoder busy (block_of 4) ≡ some (after_block 4)
unfolding Decoder.push handle_block handle store_slice get_state gc_hook slot_at gc_clock_hook
    calc_slice_step has_slice record_slice set_slice slice_idx_to_offset header_to_coordinate
    header_unpack array_to_packed_header max_payload calc_termination
takes_block-near = refl

takes_block-late : Decoder.push decoder busy (block_of 200) ≡ some (after_block 200)
unfolding Decoder.push handle_block handle store_slice get_state gc_hook slot_at gc_clock_hook
    calc_slice_step has_slice record_slice set_slice slice_idx_to_offset header_to_coordinate
    header_unpack array_to_packed_header max_payload calc_termination
takes_block-late = refl

push-Apart_example :
    let coord =
      header_to_coordinate decoder.config (header_unpack (array_to_packed_header (block_of 4))) in
    Apart (slot_index coord) coord.sender_id busy.coordinator (after_block 4).coordinator
push-Apart_example = push-Apart decoder busy (after_block 4) (block_of 4) takes_block-near

push-near_example : next_slot (after_block 4).coordinator (coord_of 3) ≡ busy.coordinator.slots 515
unfolding header_to_coordinate header_unpack array_to_packed_header slot_index
push-near_example =
    push-near decoder busy (after_block 4) (block_of 4) (coord_of 3) (omega arith) (omega arith)
      takes_block-near refl (omega arith) (omega arith) (omega arith)

push-late_example : (next_slot (after_block 200).coordinator (coord_of 3)).state ≡ zero_state
unfolding header_to_coordinate header_unpack array_to_packed_header slot_index
push-late_example =
    push-late decoder busy (after_block 200) (block_of 200) (coord_of 3) (omega arith) (omega arith)
      takes_block-late refl (omega arith)
