-- ===== src/Tools/Tx/Frames.antt =====
-- What the tx command writes for a package, and the session that it saves.
use mathlib.Core.List.{flatten}
use mathlib.Core.Path.{subst}
use master_pilot_custom_data.Base.{
  ℕ, ◌+◌, ◌*◌, ◌≤◌, ◌<◌, ◌^◌, Bool, true, false, none, some, List, [], ◌∷◌, ◌++◌, foldl, ◌≡◌, refl,
  arith, ap, ◌∙◌, inl, inr, Bool-cases, ◌==◌, length, replicate, length-replicate, u8, ◌>>=◌,
}
use master_pilot_custom_data.Coordinate.{Config, Coordinate, max_payload}
use master_pilot_custom_data.Coordinate.Laws.{max_payload_lem}
use master_pilot_custom_data.Tx.{tx_advance}
use master_pilot_custom_data.TxStream.{TxStream}
use master_pilot_custom_data.TxStream.Framer.{Framer, Slice, emit, put_byte}
use master_pilot_custom_data.TxStream.Simulation.{send_with}
use master_pilot_custom_data.TxStream.Package.{send, AreBuffers, Packaged, framer-Packaged, opening}
use master_pilot_custom_data.Tools.Session.{TxSession}
use master_pilot_custom_data.Tools.Tx.{TxUser, block_size, push_cb, tx_stream_of, cmd_tx}
use master_pilot_custom_data.Tools.Tx.Sink.{AreFrames, Mirrors, no_frames, push_cb-Follows}

-- Which package the cursor is in.
abbrev identity_of : Coordinate → ℕ × ℕ
identity_of cursor = (cursor.sender_id, cursor.package_id)

abbrev identity : Framer → ℕ × ℕ
identity f = identity_of f.cursor

put_byte-identity :
    (config : Config) (f : Framer) (x : ℕ) → identity (put_byte config f x) ≡ identity f
unfolding put_byte tx_advance
put_byte-identity config f x =
    elim (Bool-cases (length (f.gathered.pending ++ x ∷ []) == max_payload config)) [
      | inl full ↦ rw full refl
      | inr part ↦ rw part refl
    ]

bytes-identity :
    (config : Config) (xs : List ℕ) (f : Framer)
    → identity (foldl (put_byte config) f xs) ≡ identity f
bytes-identity config [] f = refl
bytes-identity config (x ∷ xs) f =
    bytes-identity config xs (put_byte config f x) ∙ put_byte-identity config f x

emit-identity :
    (config : Config) (eop : Bool) (f : Framer) → identity (emit config eop f) ≡ identity f
unfolding tx_advance
emit-identity config eop f = refl

abbrev fresh_user : ℕ → TxUser
fresh_user tu = record {
  tu = tu;
  fill = 0;
  block = replicate block_size 0;
  written = [];
  fault = false;
  exited = none;
}

fresh-Mirrors : (tu : ℕ) → Mirrors tu (fresh_user tu) (record { pending = []; sent = [] })
fresh-Mirrors tu = record {
  unit = refl;
  filled = refl;
  safe = refl;
  runs = refl;
  sized = length-replicate {A = ℕ} block_size 0;
  holds = refl;
  wrote = no_frames;
}

module _ (takes : ℕ → ℕ → ℕ) (session : TxSession) (sender_id : ℕ) where
  -- What the command has at its end.
  abbrev pub SavedWith : List (List ℕ) → TxUser → Type 0
  SavedWith reads sink =
      let coord = session.coord in
      cmd_tx takes session sender_id reads
      ≡ some (
        record session {
          coord = record {
            sender_id = u8 sender_id;
            package_id = u8 (coord.package_id + 1);
            offset = 0;
          };
        },
        sink,
      )

  abbrev unit_config : Config
  unit_config = record { transmission_unit = session.transmission_unit }

  abbrev finish : TxStream TxUser → TxSession × TxUser
  finish stream =
      let cursor = stream.cursor in
      (
        record session {
          coord = record cursor { package_id = u8 (cursor.package_id + 1); offset = 0 };
        },
        stream.downstream.user,
      )

  abbrev begun : ℕ → TxStream TxUser
  begun offset = record {
    config = unit_config;
    cursor = record {
      sender_id = u8 sender_id;
      package_id = session.coord.package_id;
      offset = offset;
    };
    fill = 0;
    downstream = record { push = push_cb takes; user = fresh_user session.transmission_unit };
  }

  begins :
      session.coord.offset ≡ 0
      → tx_stream_of takes session sender_id ≡ begun (0 * max_payload unit_config)
  unfolding tx_stream_of
  begins at_start = ap begun (omega arith)

  ends-SavedWith :
      (reads : List (List ℕ)) (stream : TxStream TxUser)
      → session.coord.offset ≡ 0
      → send (begun (0 * max_payload unit_config)) reads ≡ some stream
      → identity_of stream.cursor ≡ identity_of (begun 0).cursor
      → SavedWith reads stream.downstream.user
  unfolding cmd_tx
  ends-SavedWith reads stream at_start sends names =
      ap (λ r. r >>= (λ s. some (finish s))) (ap (λ s. send s reads) (begins at_start) ∙ sends)
      ∙ ap
          (λ id. some (
            record session {
              coord = record { sender_id = id.0; package_id = u8 (id.1 + 1); offset = 0 };
            },
            stream.downstream.user,
          ))
          names

  -- With a transmission unit from 5 to 4096, the cursor at the start of a package, and an output
  -- that takes whole blocks: on input of fewer than 2^16 bytes, which fit 256 slices, read in any
  -- buffers, the command ends and writes the frames of the slices of the package that holds the
  -- input, one block of the transmission unit each; it stays within its block, does not exit
  -- early, and saves the session at the start of the next package.
  pub cmd_tx-Packaged :
      (reads : List (List ℕ))
      → 4 < session.transmission_unit
      → session.transmission_unit ≤ 4096
      → ((n : ℕ) → takes n session.transmission_unit ≡ session.transmission_unit)
      → session.coord.offset ≡ 0
      → AreBuffers reads
      → length (flatten reads) < 2 ^ 16
      → length (flatten reads) < 2 ^ 8 * max_payload unit_config
      → (slices : List Slice) × (sink : TxUser) × Packaged
          (max_payload unit_config)
          (u8 sender_id)
          session.coord.package_id
          0
          (flatten reads)
          slices
        × SavedWith reads sink
        × AreFrames session.transmission_unit slices sink.written
        × (sink.fault ≡ false)
        × (sink.exited ≡ none)
  cmd_tx-Packaged reads more fits whole at_start buffers short few =
      let tu = session.transmission_unit in
      let pkg = session.coord.package_id in
      let config = unit_config in
      let pos : 0 < max_payload config =
        omega (arith, max_payload_lem config (omega arith) (omega arith)) in
      let f = opening config (u8 sender_id) pkg in
      let follows = push_cb-Follows tu takes (omega arith) fits whole in
      let (sink, sends, mirrors) =
        send_with config (push_cb takes) (Mirrors tu) follows pos reads f (fresh_user tu)
          (fresh-Mirrors tu) pos buffers in
      let (slices, packaged, sent) =
        framer-Packaged config pos (u8 sender_id) pkg (flatten reads) 0 [] [] pos (omega arith)
          (omega arith) in
      let names =
        emit-identity config true (foldl (put_byte config) f (flatten reads))
        ∙ bytes-identity config (flatten reads) f in
      (
        slices,
        sink,
        packaged,
        ends-SavedWith reads _ at_start sends names,
        subst (λ g. AreFrames tu g.sent sink.written) sent mirrors.wrote,
        mirrors.safe,
        mirrors.runs,
      )
