-- ===== src/Embedded/Encode.antt =====
-- The embedded encoder, src/embedded/customdata-embedded-encode.h and customdata-embedded-encode.c.
-- `pb_encode` of nanopb is a parameter: the buffers that it hands to the stream's callback, and its
-- result. The callback never refuses a buffer, so neither depends on it.
pub mod Device
pub mod Packages
use master_pilot_custom_data.Base.{
  ℕ, zero, ◌+◌, Bool, true, false, ◌&&◌, not, Option, none, some, List, [], ◌∷◌, ◌==◌,
  if◌then◌else◌, ◌>>=◌, length, take, u16,
}
use master_pilot_custom_data.Header.{HeaderMeta, header_size, header_pack, packed_header_to_array}
use master_pilot_custom_data.Coordinate.{Config}
use master_pilot_custom_data.TxStream.{TxStream, TxAction, tx_stream_feed, tx_stream_finalize}

-- `mp_pb_encoder_inst_t`, without its internal state. What the callbacks reach through `user` is a
-- value that each call replaces.
pub record PbEncoder (W : Type 0) : Type 0 where
  pub config : Config
  pub sender_id : ℕ
  pub data_put_cb : W → (offset : ℕ) → List ℕ → (size : ℕ) → W
  pub send_signal_cb : W → W

-- What the sink changes of the instance: `user` and `accumulated`.
pub record Pipeline (W : Type 0) : Type 0 where
  pub user : W
  pub accumulated : ℕ

module _ {W : Type 0} (instance_ : PbEncoder W) where
  -- `if(nullable_data && size)`.
  unfoldable pub put_payload : Pipeline W → Option (List ℕ) → ℕ → Pipeline W
  put_payload u none size = u
  put_payload u (some bytes) size = if size == 0 then u else record {
    user = instance_.data_put_cb u.user (u16 (u.accumulated + header_size)) bytes size;
    accumulated = u16 (u.accumulated + size);
  }

  -- `if(nullable_header)`.
  unfoldable pub put_header : Pipeline W → Option HeaderMeta → Pipeline W
  put_header u none = u
  put_header u (some header) = record {
    user =
        instance_.send_signal_cb (
          instance_.data_put_cb u.user 0 (packed_header_to_array (header_pack header)) header_size);
    accumulated = 0;
  }

  -- `mp_tx_push_pipeline`.
  unfoldable pub tx_push_pipeline :
      Pipeline W → TxAction → Option HeaderMeta → Option (List ℕ) → ℕ → Pipeline W
  tx_push_pipeline u act header bytes size = put_header (put_payload u bytes size) header

  -- `pb_ostream_pipeline` on each buffer; the count is cut to 16 bits by the call.
  unfoldable pub pb_ostream_pipeline :
      TxStream (Pipeline W) → List (List ℕ) → Option (TxStream (Pipeline W))
  pb_ostream_pipeline s [] = some s
  pb_ostream_pipeline s (buf ∷ bufs) = do
    s' ← tx_stream_feed s buf (u16 (length buf))
    pb_ostream_pipeline s' bufs

  unfoldable pub encoder_stream : W → (package_serial : ℕ) → TxStream (Pipeline W)
  encoder_stream user package_serial = record {
    config = instance_.config;
    cursor = record { sender_id = instance_.sender_id; package_id = package_serial; offset = 0 };
    fill = 0;
    downstream = record { push = tx_push_pipeline; user = record { user = user; accumulated = 0 } };
  }

  abbrev pub all_empty : List (List ℕ) → Bool
  all_empty [] = true
  all_empty (buf ∷ bufs) = length buf == 0 && all_empty bufs

  module _ {Message : Type 0} (pb_encode : Message → Bool × List (List ℕ)) where
    -- `mp_pb_encode`: its result and what `user` reaches after it. `bytes_written` is 0 exactly if
    -- every buffer is empty.
    unfoldable pub pb_encode_message : W → Message → (package_serial : ℕ) → Option (Bool × W)
    pb_encode_message user message package_serial =
        let (ok, bufs) = pb_encode message in
        do
          stream ← pb_ostream_pipeline (encoder_stream user package_serial) bufs
          let stream' = if ok && not (all_empty bufs) then tx_stream_finalize stream else stream
          some (ok, stream'.downstream.user.user)
