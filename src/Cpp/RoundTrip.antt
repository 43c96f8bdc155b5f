-- ===== src/Cpp/RoundTrip.antt =====
-- The C++ receiver on what the C++ sender's observer was given.
use master_pilot_custom_data.Base.{ℕ, ◌<◌, Bool, Option, List, [], leb, get_or}
use master_pilot_custom_data.Rx.Package.{Shape, IsShape}
use master_pilot_custom_data.Cpp.Decoder.{RxDecoder, Impl, observed}
use master_pilot_custom_data.Cpp.Decoder as Decoder
use master_pilot_custom_data.Cpp.Encoder.{TxEncoderCore}
use master_pilot_custom_data.Cpp.Encoder as Encoder

-- The C++ sender's last slice is the one that no byte is left behind.
abbrev pub no_more : ℕ → ℕ → Bool
no_more p left = leb left p

module _ {V U M : Type 0} (core : TxEncoderCore V) (decoder : RxDecoder U M) (sh : Shape)
    (good : IsShape sh) (full_or_part : 0 < sh.tail) where
  open core use {tu, sender_id}

  -- The receiver takes in frame `j` of those that the observer was given.
  abbrev pub pushes_frame : List (List ℕ) → Impl U → ℕ → Option (Impl U)
  pushes_frame blocks impl j = Decoder.push decoder impl (get_or blocks j [])
