-- ===== src/Tools/Tx/Sink.antt =====
-- The tx command's sink: what its block and its output hold for what the stream pushed.
use mathlib.Core.Path.{subst}
use master_pilot_custom_data.Base.{
  ℕ, zero, suc, ◌+◌, ◌-◌, ◌≤◌, true, false, Option, none, some, List, [], ◌∷◌, ◌++◌, ltb, ◌≡◌, refl,
  arith, ap, ◌∙◌, sym, eq→==, ◌==◌, length, take, drop, overwrite, length-take, length-drop,
  length-append, take-add, length-overwrite, take-drop-overwrite, append-nil, le→ltb,
}
use master_pilot_custom_data.Header.{HeaderMeta, header_size, header_pack, packed_header_to_array}
use master_pilot_custom_data.Coordinate.{max_payload}
use master_pilot_custom_data.Coordinate.Laws.{max_payload_lem}
use master_pilot_custom_data.TxStream.{TxAction, act_data}
use master_pilot_custom_data.TxStream.Framer.{Slice, Gathered, gather}
use master_pilot_custom_data.TxStream.Rounds.{Follows}
use master_pilot_custom_data.RxStream.Frame.{frame_of}
use master_pilot_custom_data.Tools.Tx.{TxUser, block_size, store_payload, send_block, push_cb}

-- The blocks that carry the slices: each a frame of `tu` bytes, filled up with what was in the block.
pub data AreFrames (tu : ℕ) : List Slice → List (List ℕ) → Type 0 where
  no_frames : AreFrames tu [] []
  frame_and :
      (s : Slice) (stale : List ℕ) {slices : List Slice} {blocks : List (List ℕ)}
      → length (frame_of s.header (s.payload ++ stale)) ≡ tu
      → AreFrames tu slices blocks
      → AreFrames tu (s ∷ slices) (frame_of s.header (s.payload ++ stale) ∷ blocks)

pub AreFrames-snoc :
    {tu : ℕ} {slices : List Slice} {blocks : List (List ℕ)}
    → AreFrames tu slices blocks
    → (s : Slice) (stale : List ℕ) → length (frame_of s.header (s.payload ++ stale)) ≡ tu
    → AreFrames tu (slices ++ s ∷ []) (blocks ++ frame_of s.header (s.payload ++ stale) ∷ [])
AreFrames-snoc no_frames s stale h = frame_and s stale h no_frames
AreFrames-snoc (frame_and s' stale' h' rest) s stale h =
    frame_and s' stale' h' (AreFrames-snoc rest s stale h)

-- The block holds the payload of the slice under way behind the header's place, and the output
-- the frames of the slices sent.
pub record Mirrors (tu : ℕ) (u : TxUser) (g : Gathered) : Type 0 where
  pub unit : u.tu ≡ tu
  pub filled : u.fill ≡ length g.pending
  pub safe : u.fault ≡ false
  pub runs : u.exited ≡ none
  pub sized : length u.block ≡ block_size
  pub holds : take (length g.pending) (drop header_size u.block) ≡ g.pending
  pub wrote : AreFrames tu g.sent u.written

module _ (tu : ℕ) (takes : ℕ → ℕ → ℕ) (small : 4 ≤ tu) (fits : tu ≤ 4096) where
  store-Mirrors :
      (u : TxUser) (g : Gathered) (bytes : List ℕ) (size : ℕ)
      → Mirrors tu u g
      → size ≤ length bytes
      → length g.pending + size + 4 ≤ tu
      → Mirrors tu
          (store_payload u (some bytes) size)
          (record g { pending = g.pending ++ take size bytes })
  unfolding store_payload
  store-Mirrors u g bytes zero m held room = rw append-nil m
  store-Mirrors u g bytes (suc n) m held room =
      let some_bytes : (suc n == 0) ≡ false = ground arith in
      let size_read : length (take (suc n) bytes) ≡ suc n =
        omega (arith, length-take (suc n) bytes) in
      let inside : ltb block_size (u.fill + header_size + suc n) ≡ false =
        le→ltb block_size (u.fill + header_size + suc n) (omega (arith, m.filled)) in
      let place : u.fill + header_size ≡ header_size + length g.pending = omega (arith, m.filled) in
      rw (some_bytes, inside, place)
        (record {
          unit = m.unit;
          filled = omega (arith, m.filled, size_read, length-append g.pending (take (suc n) bytes));
          safe = rw m.safe refl;
          runs = m.runs;
          sized =
              length-overwrite u.block (header_size + length g.pending) (take (suc n) bytes)
                (omega (arith, size_read, m.sized))
              ∙ m.sized;
          holds =
              ap
                (λ k. take k (
                  drop header_size
                    (overwrite u.block (header_size + length g.pending) (take (suc n) bytes))))
                (length-append g.pending (take (suc n) bytes))
              ∙ take-drop-overwrite u.block header_size (length g.pending) (take (suc n) bytes)
                  (omega (arith, m.sized))
              ∙ ap (λ l. l ++ take (suc n) bytes) m.holds;
          wrote = m.wrote;
        })

  send-Mirrors :
      (whole : (n : ℕ) → takes n tu ≡ tu) (u : TxUser) (g : Gathered) (header : HeaderMeta)
      → Mirrors tu u g
      → length g.pending + 4 ≤ tu
      → Mirrors tu (send_block takes u (some header)) (record {
        pending = [];
        sent = g.sent ++ record { header = header; payload = g.pending } ∷ [];
      })
  unfolding send_block packed_header_to_array
  send-Mirrors whole u g header m room =
      let k = length g.pending in
      let rest = drop header_size u.block in
      let stale = take (tu - 4 - k) (drop k rest) in
      let parts : take (tu - 4) rest ≡ g.pending ++ stale =
        ap (λ n. take n rest) (omega arith)
        ∙ take-add k (tu - 4 - k) rest
        ∙ ap (λ l. l ++ stale) m.holds in
      let size : tu ≡ suc (suc (suc (suc (tu - 4)))) = omega arith in
      let read : take tu (overwrite u.block 0 (packed_header_to_array (header_pack header)))
          ≡ frame_of header (g.pending ++ stale) =
        ap (λ n. take n (overwrite u.block 0 (packed_header_to_array (header_pack header)))) size
        ∙ ap (frame_of header) parts in
      let length_read : length (frame_of header (g.pending ++ stale)) ≡ tu = omega (
        arith,
        ap length parts,
        length-take (tu - 4) rest,
        length-drop header_size u.block,
        m.sized,
      ) in
      let inside : ltb block_size tu ≡ false = le→ltb block_size tu fits in
      let all : (tu == tu) ≡ true = eq→== tu tu refl in
      rw (m.unit, whole (length u.written), all, inside)
        (record {
          unit = refl;
          filled = refl;
          safe = rw m.safe refl;
          runs = refl;
          sized =
              length-overwrite u.block 0 (packed_header_to_array (header_pack header))
                (omega (arith, m.sized))
              ∙ m.sized;
          holds = refl;
          wrote = rw read (
              AreFrames-snoc m.wrote (record { header = header; payload = g.pending }) stale
                length_read);
        })

  running :
      (u : TxUser) (act : TxAction) (header : Option HeaderMeta) (bytes : Option (List ℕ))
      (size : ℕ)
      → u.exited ≡ none
      → push_cb takes u act header bytes size ≡ send_block takes (store_payload u bytes size) header
  unfolding push_cb
  running u act header bytes size runs =
      ap
        (λ o. elim o [
          | some status ↦ u
          | none ↦ send_block takes (store_payload u bytes size) header
        ])
        runs

  -- The sink stays in step with the gathering one while `write` takes whole blocks.
  pub push_cb-Follows :
      ((n : ℕ) → takes n tu ≡ tu)
      → Follows (record { transmission_unit = tu }) (push_cb takes) (Mirrors tu)
  unfolding store_payload send_block
  push_cb-Follows whole =
      let unit : max_payload (record { transmission_unit = tu }) + 4 ≡ tu =
        max_payload_lem (record { transmission_unit = tu }) small (omega arith) in
      record {
        takes_payload = λ u g bytes size m held room.
            subst (λ v. Mirrors tu v (record g { pending = g.pending ++ take size bytes }))
              (sym (running u act_data none (some bytes) size m.runs))
              (store-Mirrors u g bytes size m held (omega (arith, unit)));
        takes_header = λ u g act header m room.
            subst (λ v. Mirrors tu v (gather g act (some header) none 0))
              (sym (running u act (some header) none 0 m.runs))
              (rw append-nil (send-Mirrors whole u g header m (omega (arith, unit))));
      }
