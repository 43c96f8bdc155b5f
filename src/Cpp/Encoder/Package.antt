-- ===== src/Cpp/Encoder/Package.antt =====
-- What the C++ sender's observer is given for a message.
use mathlib.Core.Path.{subst}
use master_pilot_custom_data.Base.{
  ℕ, ◌+◌, ◌*◌, ◌≤◌, ◌<◌, ◌^◌, Bool, true, false, List, if◌then◌else◌, foldl, ◌≡◌, refl, arith, ap,
  length, take, drop, u8, drop_all, length-drop, length-take,
}
use master_pilot_custom_data.Header.{header_size}
use master_pilot_custom_data.Coordinate.{Config, max_payload}
use master_pilot_custom_data.TxStream.Framer.{Slice}
use master_pilot_custom_data.Coordinate.Laws.{max_payload_lem}
use master_pilot_custom_data.Tools.Tx.Sink.{AreFrames}
use master_pilot_custom_data.Cpp.Encoder.{
  Serialization, OutputStream, commit_used, finalize, serialize_to, TxEncoderCore, CoreState,
  open_stream, push,
}
use master_pilot_custom_data.Cpp.Encoder.Slices.{Sliced, Serializes}
use master_pilot_custom_data.Cpp.Encoder.Serialize.{sends}

module _ {V : Type 0} (core : TxEncoderCore V) where
  open core use {sender_id, tu, observer}

  abbrev pub unit : Config
  unit = record { transmission_unit = tu }

  abbrev pub after_push : CoreState V → List (List ℕ) → CoreState V
  after_push state blocks = record {
    current_package_id = u8 (state.current_package_id + 1);
    outer = foldl observer state.outer blocks;
  }

  finished : CoreState V → Bool × OutputStream V → Bool × CoreState V
  finished state (ok, stream) =
      let stream' = if ok then finalize stream else stream in
      (ok, record { current_package_id = u8 (state.current_package_id + 1); outer = stream'.outer })

  finished_if_ok :
      (state : CoreState V) (result : Bool × OutputStream V) (blocks : List (List ℕ))
      → result.0 ≡ true
      → (finalize result.1).outer ≡ foldl observer state.outer blocks
      → finished state result ≡ (true, after_push state blocks)
  unfolding finished
  finished_if_ok state (ok, stream) blocks yes_ok outer = rw (yes_ok, outer) refl

  -- For a transmission unit from 5 to 2^16 - 1 and a buffer of its size: a message of at least one
  -- byte, and fewer than 2^16, which fits 256 slices, is pushed with success; the observer is given,
  -- in order, the frames of the slices of the package that holds the message's bytes; and the next
  -- package has the next number, after 255 again 0.
  pub push-Sliced :
      (state : CoreState V) (msg : Serialization) (buffer xs : List ℕ)
      → 4 < tu
      → tu < 2 ^ 16
      → length buffer ≡ tu
      → Serializes (max_payload unit) xs msg
      → 0 < length xs
      → length xs < 2 ^ 16
      → length xs ≤ 2 ^ 8 * max_payload unit
      → (slices : List Slice) × (blocks : List (List ℕ)) × Sliced
          (max_payload unit)
          sender_id
          state.current_package_id
          0
          xs
          slices
        × AreFrames tu slices blocks
        × (push core state msg buffer ≡ (true, after_push state blocks))
  unfolding push open_stream commit_used finished
  push-Sliced state msg buffer xs more word size writes some_bytes short few =
      let units : max_payload unit + 4 ≡ tu = max_payload_lem unit (omega arith) word in
      let first : 0 ≡ 0 * max_payload unit = omega arith in
      let s = open_stream core state buffer in
      let (slices, blocks, sliced, frames, ok, outer) =
        sends unit (omega (arith, units)) observer sender_id state.current_package_id xs msg s 0
          state.outer (take header_size buffer) (drop header_size buffer) 0 0 false writes
          (ap
            (λ o. record s {
              cursor = record {
                sender_id = sender_id;
                package_id = state.current_package_id;
                offset = o;
              };
            })
            first)
          (omega (arith, units, size, length-drop 4 buffer))
          (drop_all 4 (take 4 buffer) (omega (arith, length-take 4 buffer))) some_bytes
          (omega arith) (omega arith) in
      (
        slices,
        blocks,
        sliced,
        subst (λ n. AreFrames n slices blocks) units frames,
        finished_if_ok state (serialize_to msg s) blocks ok outer,
      )
