-- ===== src/Tests/Decoding.antt =====
-- The embedded decoder: src/embedded/customdata-embedded-decode.c.
use mathlib.Core.List.{flatten}
use master_pilot_custom_data.Base.{
  ℕ, zero, suc, ◌-◌, ◌*◌, ◌≤◌, ◌≢◌, true, some, List, ◌≡◌, refl, arith, [], ◌∷◌, ◌++◌, length, take,
  drop, overwrite, replicate,
}
use master_pilot_custom_data.Coordinate.{max_payload}
use master_pilot_custom_data.Rx.{zero_state}
use master_pilot_custom_data.Rx.Package.{Shape, IsShape, size_of}
use master_pilot_custom_data.RxStream.Arrivals.{seen}
use master_pilot_custom_data.RxStream.Course.{Returns, feed_each}
use master_pilot_custom_data.Tools.Rx.Delivery.{part_of}
use master_pilot_custom_data.Embedded.Encode.{pb_encode_message}
use master_pilot_custom_data.Embedded.Decode.{
  PbDecoder, DecoderInst, Reader, ends, reads, pb_coordinator, run_reader, pb_decode_init,
}
use master_pilot_custom_data.Embedded.Decode.Pull.{Within, run_reader-list}
use master_pilot_custom_data.Embedded.Decode.Events.{Memory}
use master_pilot_custom_data.Embedded.Decode.Package.{
  takes_frame, Reports, OnlyStores, decode-package,
}
use master_pilot_custom_data.Tests.Encoding.{Port, encoder, device, port, pb_encode}
use master_pilot_custom_data.Embedded.RoundTrip.{takes_block, Delivers, decode-encode}

-- An array for payload, and the messages that have come.
record Inbox : Type 0 where
  cells : List ℕ
  messages : List (List ℕ)

abbrev decoder : PbDecoder Inbox (List ℕ)
decoder = record {
  config = record { transmission_unit = 7 };
  payload_put =
      λ u coord bytes size. record u { cells = overwrite u.cells coord.offset (take size bytes) };
  payload_get = λ u coord. drop coord.offset u.cells;
  on_message = λ u msg. record u { messages = u.messages ++ msg ∷ [] };
}

abbrev array : Memory decoder
array = record {
  memory = λ u. u.cells;
  gets = λ u coord. refl;
  puts = λ u coord bytes size long fits. refl;
}

-- A message is a byte, and then all bytes that are left.
abbrev pb_decode : ℕ → Reader (List ℕ)
pb_decode n = reads 1 (λ first. reads (n - 1) (λ others. ends (some (others ++ first))))

abbrev five : Shape
five = record { p = 3; last = 1; tail = 2 }

five-IsShape : IsShape five
five-IsShape = omega arith

abbrev bytes : List ℕ
bytes = 8 ∷ 2 ∷ 3 ∷ 4 ∷ 5 ∷ []

pb_decode-Within : Within 5 (pb_decode 5)
pb_decode-Within = (omega arith, λ b e. (omega arith, λ c f. tt))

abbrev inbox : Inbox
inbox = record { cells = replicate 6 0; messages = [] }

abbrev held : DecoderInst Inbox
held = record {
  state = zero_state;
  last_decode_ok = true;
  outer = record { cells = bytes; messages = [] };
}

stored : (m : ℕ) → m ≤ 1 → take (size_of five m) (drop (m * 3) bytes) ≡ part_of 3 bytes m
stored zero h = refl
stored (suc zero) h = refl
stored (suc (suc m)) h = absurd (omega arith)

run_reader-list_example :
    run_reader (pb_coordinator decoder pb_decode) held (pb_decode 5) (record {
      base_coord = record { sender_id = 0; package_id = 0; offset = 3 };
      termination = 5;
      max_payload = 3;
      consumed = 0;
    })
    ≡ some (some (2 ∷ 3 ∷ 4 ∷ 5 ∷ 8 ∷ []))
unfolding pb_coordinator
run_reader-list_example =
    run_reader-list five five-IsShape bytes refl (pb_coordinator decoder pb_decode) held bytes
      (λ c. refl) stored (record { sender_id = 0; package_id = 0; offset = 3 }) (pb_decode 5) 0
      (omega arith) pb_decode-Within

abbrev rest : ℕ → List ℕ
rest zero = 8 ∷ 2 ∷ 3 ∷ []
rest (suc i) = 4 ∷ 5 ∷ 0 ∷ []

rest-long : (i : ℕ) → i ≤ 1 → size_of five i ≤ length (rest i)
rest-long zero h = omega arith
rest-long (suc zero) h = omega arith
rest-long (suc (suc i)) h = absurd (omega arith)

rest-content : (i : ℕ) → i ≤ 1 → take (size_of five i) (rest i) ≡ part_of 3 bytes i
rest-content zero h = refl
rest-content (suc zero) h = refl
rest-content (suc (suc i)) h = absurd (omega arith)

only_first : (m : ℕ) → m ≤ 1 → m ≢ 0 → seen (1 ∷ 1 ∷ []) m ≡ true
only_first zero h ne = absurd (ne refl)
only_first (suc zero) h ne = refl
only_first (suc (suc m)) h ne = absurd (omega arith)

decode-package_example :
    OnlyStores decoder array pb_decode five five-IsShape bytes refl pb_decode-Within 2 9 7 rest
      rest-long rest-content
      (omega arith)
      (unfold max_payload in refl)
      (omega arith)
      (omega arith)
      inbox
      (pb_decode_init decoder pb_decode inbox, true)
      (1 ∷ 1 ∷ [])
    × Returns
        (feed_each
          (takes_frame decoder array pb_decode five five-IsShape bytes refl pb_decode-Within 2 9 7
            rest rest-long rest-content
            (omega arith)
            (unfold max_payload in refl)
            (omega arith)
            (omega arith)
            inbox)
          (pb_decode_init decoder pb_decode inbox, true)
          (1 ∷ 1 ∷ 0 ∷ []))
        (Reports decoder array pb_decode five five-IsShape bytes refl pb_decode-Within 2 9 7 rest
          rest-long rest-content
          (omega arith)
          (unfold max_payload in refl)
          (omega arith)
          (omega arith)
          inbox)
unfolding max_payload
decode-package_example =
    decode-package decoder array pb_decode five five-IsShape bytes refl pb_decode-Within 2 9 7 rest
      rest-long rest-content (omega arith) refl (omega arith) (omega arith) inbox (1 ∷ 1 ∷ []) 0
      (omega arith) (omega arith, (omega arith, tt)) (omega arith) (refl, only_first)

decode-encode_example :
    (user' : Port) × (pb_encode_message encoder pb_encode port 8 9 ≡ some (true, user'))
    × Delivers decoder pb_decode inbox (2 ∷ 3 ∷ 4 ∷ 5 ∷ 8 ∷ []) (
        feed_each
          (takes_block decoder pb_decode 7 user'.sent)
          (pb_decode_init decoder pb_decode inbox, true)
          (1 ∷ 1 ∷ 0 ∷ []))
unfolding max_payload flatten
decode-encode_example =
    decode-encode encoder pb_encode device decoder array pb_decode five five-IsShape (omega arith)
      port 8 9 inbox (2 ∷ 3 ∷ 4 ∷ 5 ∷ 8 ∷ []) (1 ∷ 1 ∷ []) 0 refl refl refl (omega arith)
      (omega arith) (omega arith) refl (omega arith, (omega arith, tt)) refl refl pb_decode-Within
      refl (omega arith) (omega arith, (omega arith, tt)) (omega arith) (refl, only_first)
