-- ===== src/Embedded/RoundTrip.antt =====
-- The embedded decoder on what the embedded encoder sends.
use mathlib.Core.List.{flatten}
use mathlib.Core.Path.{subst}
use master_pilot_custom_data.Base.{
  ℕ, ◌+◌, ◌≤◌, ◌<◌, ◌^◌, Bool, true, false, Option, some, List, [], ◌∷◌, ◌++◌, ◌≡◌, arith, ap, ◌∙◌,
  length, get_or,
}
use master_pilot_custom_data.Coordinate.{max_payload}
use master_pilot_custom_data.Coordinate.Laws.{max_payload_lem}
use master_pilot_custom_data.TxStream.Package.{AreBuffers, Packaged}
use master_pilot_custom_data.Rx.{zero_state}
use master_pilot_custom_data.Rx.Package.{Shape, IsShape, total}
use master_pilot_custom_data.RxStream.Arrivals.{AllWithin}
use master_pilot_custom_data.RxStream.Complete.{OnlyMissing}
use master_pilot_custom_data.RxStream.Course.{feed_each, feed_each-same}
use master_pilot_custom_data.Tools.Transfer.{Carries, not_full, block-Carries}
use master_pilot_custom_data.Tools.Transfer.RoundTrip.{
  rest, block-frame, rests-long, rests-content, AllWithin-snoc, package_fits, before_end,
  end_at-shape,
}
use master_pilot_custom_data.Embedded.Encode.{PbEncoder, all_empty, pb_encode_message}
use master_pilot_custom_data.Embedded.Encode.Device.{Device}
use master_pilot_custom_data.Embedded.Encode.Packages.{encode-Packaged}
use master_pilot_custom_data.Embedded.Decode.{PbDecoder, Reader, pb_decode_init, pb_decode_feed}
use master_pilot_custom_data.Embedded.Decode.Pull.{Within, run_list}
use master_pilot_custom_data.Embedded.Decode.Events.{Memory, Stores}
use master_pilot_custom_data.Embedded.Decode.Package.{Called, reported, decode-package}

module _ {U M : Type 0} (decoder : PbDecoder U M) (pb_decode : ℕ → Reader M) where
  -- The decoder takes in block `i` of those sent.
  abbrev pub takes_block : (tu : ℕ) → List (List ℕ) → Called U → ℕ → Option (Called U)
  takes_block tu blocks (inst, ok) i = pb_decode_feed decoder pb_decode inst (get_or blocks i []) tu

  -- The decoder has written payload alone before it hands the message on, at the last block.
  abbrev pub Delivers : U → M → Option (Called U) → Type 0
  Delivers u0 msg result =
      (u : U) × Stores decoder u0 u
      × (result
          ≡ some (
            record { state = zero_state; last_decode_ok = true; outer = decoder.on_message u msg },
            true,
          ))

module _ {W U M Message : Type 0} (encoder : PbEncoder W)
    (pb_encode : Message → Bool × List (List ℕ)) (device : Device encoder) (decoder : PbDecoder U M)
    (mem : Memory decoder) (pb_decode : ℕ → Reader M) (sh : Shape) (good : IsShape sh)
    (partial : sh.tail < sh.p) where
  open encoder.config use {transmission_unit}

  abbrev bytes_of : Message → List ℕ
  bytes_of message = flatten (pb_encode message).1

  -- The decoder on blocks that carry the slices of a package.
  carried-Delivers :
      (bytes : List ℕ) (filled : length bytes ≡ total sh) (sender pkg : ℕ) (blocks : List (List ℕ))
      (u0 : U) (msg : M) (order : List ℕ) (i : ℕ)
      → ((m : ℕ)
          → m ≤ sh.last
          → Carries
              (not_full sh.p)
              transmission_unit
              sh.p
              sender
              pkg
              m
              bytes
              m
              (get_or blocks m []))
      → Within (total sh) (pb_decode (total sh))
      → sh.p < 2 ^ 12
      → max_payload decoder.config ≡ sh.p
      → pkg < 2 ^ 8
      → 4 ≤ transmission_unit
      → run_list (pb_decode (total sh)) bytes ≡ some msg
      → total sh ≤ length (mem.memory u0)
      → AllWithin sh.last order
      → i ≤ sh.last
      → OnlyMissing sh.last order i
      → Delivers decoder pb_decode u0 msg (
          feed_each
            (takes_block decoder pb_decode transmission_unit blocks)
            (pb_decode_init decoder pb_decode u0, true)
            (order ++ i ∷ []))
  carried-Delivers bytes filled sender pkg blocks u0 msg order i carries modest small units pkg_fits
        long parses roomy inside within only =
      let tu = transmission_unit in
      let (_, (called, goes, reports)) =
        decode-package decoder mem pb_decode sh good bytes filled modest sender pkg tu
          (rest sh good bytes filled (not_full sh.p) tu sender pkg blocks
            (end_at-shape sh good bytes filled partial) carries)
          (rests-long sh good bytes filled (not_full sh.p) tu sender pkg blocks
            (end_at-shape sh good bytes filled partial) carries)
          (rests-content sh good bytes filled (not_full sh.p) tu sender pkg blocks
            (end_at-shape sh good bytes filled partial) carries)
          small units pkg_fits long u0 order i roomy inside within only in
      let (u, stores, ending) = reports in
      (
        u,
        stores,
        feed_each-same _ _ sh.last
              (λ called m h.
                ap (λ b. pb_decode_feed decoder pb_decode called.0 b tu)
                  (block-frame sh good bytes filled (not_full sh.p) tu sender pkg blocks
                    (end_at-shape sh good bytes filled partial) carries m h))
              (pb_decode_init decoder pb_decode u0, true) (order ++ i ∷ [])
              (AllWithin-snoc sh.last order i inside within)
            ∙ goes
            ∙ ap some ending
            ∙ ap (λ r. some (reported decoder u r)) parses,
      )

  -- For the encoder on a device that has sent nothing, with a transmission unit from 5 to 4096, and
  -- a message that pb_encode encodes, into at least one byte and into buffers of fewer than 2^16,
  -- for a package of at most 256 slices whose slots end below 2^16; and for a decoder with the same
  -- configuration, payload callbacks over an array with room for the package, and a pb_decode
  -- that asks for no more bytes than are left and that reads `msg` from these bytes: the encoder
  -- returns true, and on all blocks that its device sent but one, in any order and with
  -- repetitions, and then the missing one, every call of the decoder returns; it has written
  -- payload alone until, at the last, it hands `msg` to the message callback, once, and returns
  -- true; and its state is zeroed.
  pub decode-encode :
      (user : W) (message : Message) (package_serial : ℕ) (u0 : U) (msg : M) (order : List ℕ)
      (i : ℕ)
      → decoder.config ≡ encoder.config
      → max_payload encoder.config ≡ sh.p
      → length (bytes_of message) ≡ total sh
      → 4 < transmission_unit
      → transmission_unit ≤ 4096
      → package_serial < 2 ^ 8
      → (pb_encode message).0 ≡ true
      → AreBuffers (pb_encode message).1
      → all_empty encoder (pb_encode message).1 ≡ false
      → device.sent user ≡ []
      → Within (total sh) (pb_decode (total sh))
      → run_list (pb_decode (total sh)) (bytes_of message) ≡ some msg
      → total sh ≤ length (mem.memory u0)
      → AllWithin sh.last order
      → i ≤ sh.last
      → OnlyMissing sh.last order i
      → (user' : W) × (pb_encode_message encoder pb_encode user message package_serial
          ≡ some (true, user'))
        × Delivers decoder pb_decode u0 msg (
            feed_each
              (takes_block decoder pb_decode transmission_unit (device.sent user'))
              (pb_decode_init decoder pb_decode u0, true)
              (order ++ i ∷ []))
  decode-encode user message package_serial u0 msg order i same units filled more fits pkg_fits ok
        buffers some_bytes silent modest parses roomy inside within only =
      let tu = transmission_unit in
      let bytes = bytes_of message in
      let unit : sh.p + 4 ≡ tu =
        omega (arith, units, max_payload_lem encoder.config (omega arith) (omega arith)) in
      let (short, few) = package_fits sh good partial in
      let (slices, user', packaged, sends, frames) =
        encode-Packaged encoder pb_encode device user message package_serial more (omega arith) ok
          some_bytes buffers (omega (arith, filled, short)) (omega (arith, filled, few, units))
          silent in
      let carries : (m : ℕ)
          → m ≤ sh.last
          → Carries (not_full sh.p) tu sh.p encoder.sender_id package_serial m bytes m
              (get_or (device.sent user') m []) =
        λ m h.
          block-Carries tu sh.p encoder.sender_id package_serial 0 m bytes slices
            (device.sent user') m good.some_payload
            (subst (λ n. Packaged n encoder.sender_id package_serial 0 bytes slices) units packaged)
            frames (before_end sh bytes filled m h) (omega arith) in
      (
        user',
        sends,
        carried-Delivers bytes filled encoder.sender_id package_serial (device.sent user') u0 msg
            order i carries modest (omega (arith, unit)) (ap max_payload same ∙ units) pkg_fits
            (omega arith) parses roomy inside within only,
      )
