-- ===== src/TxStream.antt =====
-- The sending stream, src/core/customdata-stream-tx.h and customdata-stream-tx.c. The sink's `user`
-- pointer is a value that each call of `push` replaces; the sink holds no pointer to the stream.
pub mod Framer
pub mod Feed
pub mod Package
pub mod Rounds
pub mod Simulation
use master_pilot_custom_data.Base.{
  ℕ, zero, suc, ◌+◌, Bool, false, true, Option, none, some, List, ltb, ◌==◌, if◌then◌else◌, drop,
  u16, sub16,
}
use master_pilot_custom_data.Header.{HeaderMeta}
use master_pilot_custom_data.Coordinate.{Config, Coordinate, max_payload}
use master_pilot_custom_data.Tx.{TxSlice, tx_prepare}

-- `mp_tx_action_t`.
pub data TxAction : Type 0 where
  act_data act_finalize : TxAction

-- `mp_tx_sink_t` with its `mp_tx_push_cb`. A null pointer is `none`; a data pointer is the bytes
-- from it on, of which the first `size` are meant.
pub record TxSink (W : Type 0) : Type 0 where
  pub push : W → TxAction → Option HeaderMeta → Option (List ℕ) → ℕ → W
  pub user : W

-- `mp_tx_stream_t`.
pub record TxStream (W : Type 0) : Type 0 where
  pub config : Config
  pub cursor : Coordinate
  pub fill : ℕ
  pub downstream : TxSink W

-- How much of `data[off..size)` goes into the slice being filled.
unfoldable pub take_size : ℕ → ℕ → ℕ → ℕ → ℕ
take_size max_p size off fill =
    let take = sub16 size off in let room = sub16 max_p fill in if ltb room take then room else take

module _ {W : Type 0} where
  -- `s->downstream.push(s->downstream.user, …)`.
  abbrev pub push : TxStream W → TxAction → Option HeaderMeta → Option (List ℕ) → ℕ → TxStream W
  push s act header bytes size =
      let sink = s.downstream in
      record s { downstream = record sink { user = sink.push sink.user act header bytes size } }

  -- A full slice gets its header, and the cursor moves on.
  flush_full : ℕ → TxStream W → TxStream W
  flush_full max_p s =
      let slice = tx_prepare s.config s.cursor max_p false in
      let s' = push s act_data (some slice.header) none 0 in
      if s.fill == max_p then record s' { cursor = slice.next; fill = 0 } else s

  -- One round of the loop, the change of `off` apart.
  unfoldable pub feed_round : ℕ → List ℕ → ℕ → ℕ → TxStream W → TxStream W
  unfolding flush_full
  feed_round max_p bytes size off s =
      let take = take_size max_p size off s.fill in
      let s' = push s act_data none (some (drop off bytes)) take in
      flush_full max_p (record s' { fill = u16 (s.fill + take) })

  -- `while (off < size)` on fuel; `none` means that the fuel ran out.
  unfoldable pub feed_loop : ℕ → ℕ → List ℕ → ℕ → ℕ → TxStream W → Option (TxStream W)
  feed_loop zero max_p bytes size off s = none
  feed_loop (suc fuel) max_p bytes size off s =
      let rest =
        feed_loop fuel max_p bytes size (u16 (off + take_size max_p size off s.fill))
          (feed_round max_p bytes size off s) in
      if ltb off size then rest else some s

  -- `mp_tx_stream_feed`. A round takes a byte at least, unless the slice is full at the start.
  unfoldable pub tx_stream_feed : TxStream W → List ℕ → ℕ → Option (TxStream W)
  tx_stream_feed s bytes size = feed_loop (size + 2) (max_payload s.config) bytes size 0 s

  -- `mp_tx_stream_finalize`.
  unfoldable pub tx_stream_finalize : TxStream W → TxStream W
  tx_stream_finalize s =
      let slice = tx_prepare s.config s.cursor s.fill true in
      record (push s act_finalize (some slice.header) none 0) { cursor = slice.next; fill = 0 }
