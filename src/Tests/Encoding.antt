-- ===== src/Tests/Encoding.antt =====
-- The embedded encoder: src/embedded/customdata-embedded-encode.c.
use mathlib.Core.List.{flatten}
use native.Mathlib.Decide.{dec_le}
use master_pilot_custom_data.Base.{
  ℕ, ◌+◌, ◌≤◌, Bool, true, false, some, List, ◌≡◌, refl, arith, [], ◌∷◌, ◌++◌, ◌∙◌, length, take,
  overwrite, replicate, length-overwrite, length-take,
}
use master_pilot_custom_data.Coordinate.{max_payload}
use master_pilot_custom_data.TxStream.Framer.{Slice}
use master_pilot_custom_data.TxStream.Package.{Packaged}
use master_pilot_custom_data.Tools.Tx.Sink.{AreFrames}
use master_pilot_custom_data.Embedded.Encode.{PbEncoder, pb_encode_message}
use master_pilot_custom_data.Embedded.Encode.Device.{Device}
use master_pilot_custom_data.Embedded.Encode.Packages.{encode-empty, encode-Packaged}

-- A device with a block of seven bytes.
pub record Port : Type 0 where
  pub cells : List ℕ
  pub seven : length cells ≡ 7
  pub sent : List (List ℕ)

abbrev pub put_if : (w : Port) (off : ℕ) (block : List ℕ) → Dec (off + length block ≤ 7) → Port
put_if w off block (yes fits) = record w {
  cells = overwrite w.cells off block;
  seven = length-overwrite w.cells off block (omega (arith, fits, w.seven)) ∙ w.seven;
}
put_if w off block (no too_long) = w

abbrev pub put_cells : Port → ℕ → List ℕ → ℕ → Port
put_cells w off bytes size =
    put_if w off (take size bytes) (dec_le (off + length (take size bytes)) 7)

abbrev pub encoder : PbEncoder Port
encoder = record {
  config = record { transmission_unit = 7 };
  sender_id = 2;
  data_put_cb = put_cells;
  send_signal_cb = λ w. record w { sent = w.sent ++ w.cells ∷ [] };
}

pub put_if-cells :
    (w : Port) (off : ℕ) (block : List ℕ) (d : Dec (off + length block ≤ 7))
    → off + length block ≤ 7
    → (put_if w off block d).cells ≡ overwrite w.cells off block
put_if-cells w off block (yes h) fits = refl
put_if-cells w off block (no too_long) fits = absurd (too_long fits)

pub put_if-sent :
    (w : Port) (off : ℕ) (block : List ℕ) (d : Dec (off + length block ≤ 7))
    → (put_if w off block d).sent ≡ w.sent
put_if-sent w off block (yes h) = refl
put_if-sent w off block (no too_long) = refl

abbrev pub device : Device encoder
device = record {
  block = λ w. w.cells;
  sent = λ w. w.sent;
  sized = λ w. w.seven;
  puts = λ w off bytes size held fits.
      put_if-cells w off (take size bytes) _ (omega (arith, fits, w.seven, length-take size bytes));
  puts_quietly = λ w off bytes size. put_if-sent w off (take size bytes) _;
  sends = λ w. refl;
}

abbrev pub port : Port
port = record { cells = replicate 7 0; seven = refl; sent = [] }

-- What `pb_encode` hands on: two buffers.
abbrev pub pb_encode : ℕ → Bool × List (List ℕ)
pb_encode message = (true, (message ∷ 2 ∷ []) ∷ (3 ∷ 4 ∷ 5 ∷ []) ∷ [])

abbrev pb_encode_nothing : ℕ → Bool × List (List ℕ)
pb_encode_nothing message = (false, [] ∷ [])

encode-empty_example : pb_encode_message encoder pb_encode_nothing port 8 9 ≡ some (false, port)
encode-empty_example = encode-empty encoder pb_encode_nothing port 8 9 refl

encode-Packaged_example :
    (slices : List Slice) × (user : Port) × Packaged
      (max_payload encoder.config)
      2
      9
      0
      (8 ∷ 2 ∷ 3 ∷ 4 ∷ 5 ∷ [])
      slices
    × (pb_encode_message encoder pb_encode port 8 9 ≡ some (true, user))
    × AreFrames 7 slices user.sent
unfolding max_payload flatten
encode-Packaged_example =
    encode-Packaged encoder pb_encode device port 8 9 (omega arith) (omega arith) refl refl
      (omega arith, (omega arith, tt)) (omega arith) (omega arith) refl
