-- ===== src/Tools/Session/File.antt =====
-- The bytes of the session files, packed as src/tools/session.h declares, and the loops of
-- src/tools/session.c that write them out. `writes n count` is what the `n`-th `write` of `count`
-- bytes returns, `none` for a negative result.
use master_pilot_custom_data.Base.{
  ℕ, zero, suc, ◌+◌, ◌-◌, ◌*◌, ◌^◌, Bool, true, false, Option, none, some, List, [], ◌∷◌, ◌++◌, ltb,
  ◌==◌, if◌then◌else◌, ◌>>=◌, either_way, length, take, drop, get_or, replicate, u8, ◌>>>◌,
}
use master_pilot_custom_data.Tools.Session.{
  TxSession, RxSession, rx_buffer_size, session_tx_create, session_rx_create, session_tx_load,
  session_rx_load,
}

-- A word of a little-endian machine, and its bytes.
abbrev pub bytes16 : ℕ → List ℕ
bytes16 n = u8 n ∷ u8 (n >>> 8) ∷ []

abbrev pub bytes32 : ℕ → List ℕ
bytes32 n = u8 n ∷ u8 (n >>> 8) ∷ u8 (n >>> 16) ∷ u8 (n >>> 24) ∷ []

abbrev pub word16 : List ℕ → ℕ → ℕ
word16 file off = get_or file off 0 + get_or file (off + 1) 0 * 2 ^ 8

abbrev pub word32 : List ℕ → ℕ → ℕ
word32 file off = word16 file off + word16 file (off + 2) * 2 ^ 16

-- `mp_tx_session_t` in its file.
unfoldable pub tx_session_bytes : TxSession → List ℕ
tx_session_bytes s =
    let coord = s.coord in
    bytes32 s.magic
    ++ (bytes16 s.transmission_unit ++ (coord.sender_id ∷ coord.package_id ∷ bytes16 coord.offset))

unfoldable pub tx_session_of : List ℕ → TxSession
tx_session_of file = record {
  magic = word32 file 0;
  transmission_unit = word16 file 4;
  coord = record {
    sender_id = get_or file 6 0;
    package_id = get_or file 7 0;
    offset = word16 file 8;
  };
}

-- The eight words of the bitmap.
abbrev pub bitmap_bytes : List ℕ → List ℕ
bitmap_bytes [] = []
bitmap_bytes (word ∷ words) = bytes32 word ++ bitmap_bytes words

abbrev pub bitmap_of : List ℕ → (words off : ℕ) → List ℕ
bitmap_of file zero off = []
bitmap_of file (suc words) off = word32 file off ∷ bitmap_of file words (off + 4)

-- `sizeof(mp_rx_session_t)`: the state has 40 bytes, the last two of which are padding.
abbrev pub rx_session_size : ℕ
rx_session_size = 46

unfoldable pub rx_session_bytes : RxSession → List ℕ
rx_session_bytes s =
    let st = s.state in
    bytes32 s.magic
    ++ (bytes16 s.transmission_unit
        ++ (bitmap_bytes st.bitmap
            ++ (bytes16 st.received_count
                ++ (bytes16 st.termination ++ (bytes16 st.watermark ++ (0 ∷ 0 ∷ []))))))

unfoldable pub rx_session_of : List ℕ → RxSession
rx_session_of file = record {
  magic = word32 file 0;
  transmission_unit = word16 file 4;
  state = record {
    bitmap = bitmap_of file 8 6;
    received_count = word16 file 38;
    termination = word16 file 40;
    watermark = word16 file 42;
  };
}

-- `mp_session_tx_load` and `mp_session_rx_load` on a file that is there and can be mapped.
unfoldable pub load_tx_file : List ℕ → Option TxSession
load_tx_file file = session_tx_load (length file) (tx_session_of file)

unfoldable pub load_rx_file : List ℕ → Option (RxSession × List ℕ)
load_rx_file file =
    if ltb (length file) rx_session_size
    then none
    else session_rx_load (rx_session_of file, drop rx_session_size file)

-- The standard output: what has been written, and the calls made.
pub record Output : Type 0 where
  pub written : List ℕ
  pub calls : ℕ

module _ (writes : ℕ → ℕ → Option ℕ) where
  -- `while (len > 0)`, on fuel: `none` where it runs out, as for a `write` that keeps taking nothing.
  unfoldable pub write_out : ℕ → Output → List ℕ → Option (Bool × Output)
  write_out zero out p = none
  write_out (suc fuel) out p =
      let result =
        either_way (writes out.calls (length p))
          (some (false, record out { calls = suc out.calls }))
          (λ n.
            write_out fuel (record { written = out.written ++ take n p; calls = suc out.calls })
              (drop n p)) in
      if length p == 0 then some (true, out) else result

  -- `while (buf_sz > 0)`, on fuel: zeros in chunks of 4096.
  unfoldable pub write_zeros : ℕ → Output → (buf_sz : ℕ) → Option (Bool × Output)
  write_zeros zero out buf_sz = none
  write_zeros (suc fuel) out buf_sz =
      let chunk = if ltb buf_sz 4096 then buf_sz else 4096 in
      let result = write_out (suc chunk) out (replicate chunk 0) >>= (λ (ok, out').
        if ok then write_zeros fuel out' (buf_sz - chunk) else some (false, out')) in
      if buf_sz == 0 then some (true, out) else result

  -- `mp_session_tx_create`.
  unfoldable pub create_tx_file : Output → (transmission_unit : ℕ) → Option (Bool × Output)
  create_tx_file out transmission_unit =
      let p = tx_session_bytes (session_tx_create transmission_unit) in
      write_out (suc (length p)) out p

  -- `mp_session_rx_create`.
  unfoldable pub create_rx_file : Output → (transmission_unit : ℕ) → Option (Bool × Output)
  create_rx_file out transmission_unit =
      let p = rx_session_bytes (session_rx_create transmission_unit).0 in
      let size = rx_buffer_size transmission_unit in
      write_out (suc (length p)) out p
      >>= (λ (ok, out'). if ok then write_zeros (suc size) out' size else some (false, out'))

-- What the file holds once `mp_session_tx_save` and `mp_session_rx_save` have synced the memory that
-- is mapped to it.
unfoldable pub save_tx_file : TxSession → List ℕ
save_tx_file session = tx_session_bytes session

unfoldable pub save_rx_file : RxSession → (assembly_buffer : List ℕ) → List ℕ
save_rx_file session assembly_buffer = rx_session_bytes session ++ assembly_buffer
