-- ===== src/RxStream/Frame.antt =====
-- The stream on a frame that carries a slice of a package: the step it takes.
use master_pilot_custom_data.Base.{
  ℕ, ◌^◌, ◌≤◌, ◌<◌, Bool, true, false, not, List, ◌++◌, ◌≡◌, refl, arith, ◌==◌, if◌then◌else◌,
  ◌>>=◌, drop, ap, ◌∙◌, le→ltb,
}
use master_pilot_custom_data.Header.{
  HeaderMeta, header_size, header_pack, header_unpack, packed_header_to_array,
  array_to_packed_header,
}
use master_pilot_custom_data.Header.Layout.{IsTyped, unpack-pack, pack-lt}
use master_pilot_custom_data.Header.Wire.{array-packed}
use master_pilot_custom_data.Coordinate.{max_payload}
use master_pilot_custom_data.Tx.Laws.{slot_header}
use master_pilot_custom_data.Rx.{header_to_coordinate}
use master_pilot_custom_data.Rx.Package.{Shape, IsShape, size_of, eop_of}
use master_pilot_custom_data.Rx.Step.{step}
use master_pilot_custom_data.RxStream.{RxStream, after_step, rx_stream_feed}

-- The bytes of a frame: a header on the wire, then the rest.
abbrev pub frame_of : HeaderMeta → List ℕ → List ℕ
frame_of header rest = packed_header_to_array (header_pack header) ++ rest

-- A header whose fields fit their bits is read back from the frame.
pub read-frame :
    (sender pkg i size : ℕ) (eop : Bool) (rest : List ℕ)
    → pkg < 2 ^ 8
    → i < 2 ^ 8
    → size < 2 ^ 12
    → header_unpack (array_to_packed_header (frame_of (slot_header sender pkg i size eop) rest))
      ≡ slot_header sender pkg i size eop
read-frame sender pkg i size eop rest hp hi hs =
    let typed : IsTyped (slot_header sender pkg i size eop) = ground arith in
    ap header_unpack
      (array-packed (header_pack (slot_header sender pkg i size eop)) rest (pack-lt _ typed))
    ∙ unpack-pack _ typed
    ∙ ground arith

pub mark_read : (b : Bool) → not ((if b then 1 else 0) == 0) ≡ b
mark_read true = refl
mark_read false = refl

pub payload_of-frame : (h : HeaderMeta) (rest : List ℕ) → drop header_size (frame_of h rest) ≡ rest
unfolding packed_header_to_array
payload_of-frame h rest = refl

module _ {W : Type 0} (sh : Shape) (good : IsShape sh) (small : sh.p < 2 ^ 12) where
  -- For a package that is not empty, has at most 256 slices, whose slots end below 2^16, and whose
  -- slices have fewer than 2^12 bytes of payload: on the frame of any of its slices, of at least
  -- four bytes, a stream whose transmission unit has the slice size of the package takes the step
  -- of that slice on the state stored for the coordinate of the slice, and passes the rest of the
  -- frame on.
  pub feed-frame :
      (s : RxStream W) (sender pkg i : ℕ) (rest : List ℕ) (frame_size : ℕ)
      → max_payload s.config ≡ sh.p
      → pkg < 2 ^ 8
      → i ≤ sh.last
      → header_size ≤ frame_size
      → let header = slot_header sender pkg i (size_of sh i) (eop_of sh i) in
        let coord = header_to_coordinate s.config header in
        let state = s.coordinator.state_get s.world coord in
        rx_stream_feed s (frame_of header rest) frame_size
        ≡ (step sh state i >>= after_step s coord state.watermark rest (size_of sh i))
  unfolding rx_stream_feed
  feed-frame s sender pkg i rest frame_size unit hp hi hf =
      rw
        (
          read-frame sender pkg i (size_of sh i) (eop_of sh i) rest hp (omega (arith, good))
              (ground (arith, good)),
          payload_of-frame,
          le→ltb frame_size header_size hf,
          unit,
          mark_read (eop_of sh i),
        )
        refl
