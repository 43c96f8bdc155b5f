-- ===== src/Tools/Tx.antt =====
-- The `tx` command, src/tools/tx.c. `takes n count` is what the `n`-th `write` of `count` bytes to the
-- standard output returns.
pub mod Sink
pub mod Frames
use master_pilot_custom_data.Base.{
  ℕ, zero, suc, ◌+◌, ◌^◌, Bool, true, false, ◌||◌, ◌&&◌, not, Option, none, some, List, [], ◌∷◌,
  ◌++◌, ltb, ◌==◌, if◌then◌else◌, ◌>>=◌, length, take, overwrite, replicate, u8, u16,
}
use master_pilot_custom_data.Header.{HeaderMeta, header_size, header_pack, packed_header_to_array}
use master_pilot_custom_data.Coordinate.{Config, Coordinate}
use master_pilot_custom_data.TxStream.{TxStream, TxAction, tx_stream_feed, tx_stream_finalize}
use master_pilot_custom_data.TxStream.Package.{feed_all, send}
use master_pilot_custom_data.Tools.Session.{TxSession}

-- `sizeof stdout_block`.
abbrev pub block_size : ℕ
block_size = 4096

-- `tx_user_t` with what its callback reaches: the block, and what was written. `fault` marks an access
-- outside the block, which C leaves undefined; `exited` is the status of `exit`.
pub record TxUser : Type 0 where
  pub tu : ℕ
  pub fill : ℕ
  pub block : List ℕ
  pub written : List (List ℕ)
  pub fault : Bool
  pub exited : Option ℕ

-- `if (nullable_data && size)`.
unfoldable pub store_payload : TxUser → Option (List ℕ) → ℕ → TxUser
store_payload u none size = u
store_payload u (some bytes) size = if size == 0 then u else record u {
  block = overwrite u.block (u.fill + header_size) (take size bytes);
  fill = u16 (u.fill + size);
  fault = u.fault || ltb block_size (u.fill + header_size + size);
}

module _ (takes : ℕ → ℕ → ℕ) where
  -- `if (nullable_header)`.
  unfoldable pub send_block : TxUser → Option HeaderMeta → TxUser
  send_block u none = u
  send_block u (some header) =
      let block = overwrite u.block 0 (packed_header_to_array (header_pack header)) in
      let n_wrote = takes (length u.written) u.tu in
      record u {
        block = block;
        written = u.written ++ take n_wrote block ∷ [];
        fault = u.fault || ltb block_size u.tu;
        fill = if n_wrote == u.tu then 0 else u.fill;
        exited = if n_wrote == u.tu then none else some 1;
      }

  -- `push_cb`. After `exit` nothing runs.
  unfoldable pub push_cb : TxUser → TxAction → Option HeaderMeta → Option (List ℕ) → ℕ → TxUser
  unfolding store_payload send_block
  push_cb u act header bytes size = elim u.exited [
    | some status ↦ u
    | none ↦ send_block (store_payload u bytes size) header
  ]

  -- The stream that `cmd_tx` sets up.
  unfoldable pub tx_stream_of : TxSession → (sender_id : ℕ) → TxStream TxUser
  unfolding push_cb
  tx_stream_of session sender_id =
      let coord = session.coord in
      record {
        config = record { transmission_unit = session.transmission_unit };
        cursor = record coord { sender_id = u8 sender_id };
        fill = 0;
        downstream = record {
          push = push_cb;
          user = record {
            tu = session.transmission_unit;
            fill = 0;
            block = replicate block_size 0;
            written = [];
            fault = false;
            exited = none;
          };
        };
      }

  -- `cmd_tx`, from the loaded session on: `reads` are the buffers that `read` fills. The result is
  -- the saved session and the sink; if the sink has exited, the session is not saved, and
  -- `tx_command` says what it holds.
  unfoldable pub cmd_tx : TxSession → (sender_id : ℕ) → List (List ℕ) → Option (TxSession × TxUser)
  unfolding tx_stream_of
  cmd_tx session sender_id reads = do
    stream ← send (tx_stream_of session sender_id) reads
    let cursor = stream.cursor
    let saved = record session {
      coord = record cursor { package_id = u8 (cursor.package_id + 1); offset = 0 };
    }
    some (saved, stream.downstream.user)
