-- ===== src/Tools/Transfer/RoundTrip.antt =====
-- The rx command on the blocks of the tx command, in any order and with repetitions.
use mathlib.Core.List.{flatten}
use mathlib.Core.Path.{subst}
use native.Mathlib.Decide.{ℕ_discrete}
use native.Mathlib.Nat.{mul-le-mul_right}
use master_pilot_custom_data.Base.{
  ℕ, ◌+◌, ◌-◌, ◌*◌, ◌≤◌, ◌<◌, ◌^◌, false, Option, none, some, List, [], ◌∷◌, ◌++◌, Bool, ◌≡◌, refl,
  arith, ap, ◌∙◌, sym, length, take, drop, get_or, u8,
}
use master_pilot_custom_data.Header.{header_size}
use master_pilot_custom_data.Coordinate.{max_payload}
use master_pilot_custom_data.Coordinate.Laws.{max_payload_lem}
use master_pilot_custom_data.Tx.Laws.{slot_header}
use master_pilot_custom_data.TxStream.Package.{AreBuffers, Packaged}
use master_pilot_custom_data.Rx.{zero_state}
use master_pilot_custom_data.Rx.Package.{Shape, IsShape, total, size_of, eop_of}
use master_pilot_custom_data.RxStream.Frame.{frame_of, payload_of-frame}
use master_pilot_custom_data.RxStream.Arrivals.{slice_frame, AllWithin}
use master_pilot_custom_data.RxStream.Complete.{OnlyMissing}
use master_pilot_custom_data.Tools.Session.{TxSession, RxSession}
use master_pilot_custom_data.Tools.Tx.{TxUser, cmd_tx}
use master_pilot_custom_data.Tools.Tx.Frames.{cmd_tx-Packaged}
use master_pilot_custom_data.Tools.Rx.{RxCtx, cmd_rx}
use master_pilot_custom_data.Tools.Rx.Delivery.{Takes, part_of}
use master_pilot_custom_data.Tools.Rx.Slices.{AreRests}
use master_pilot_custom_data.Tools.Rx.Package.{input, cmd_rx-bytes}
use master_pilot_custom_data.Tools.Transfer.{Carries, size_at, not_full, block-Carries}

-- The blocks of the given numbers, as one input.
abbrev pub pick : List (List ℕ) → List ℕ → List ℕ
pick blocks [] = []
pick blocks (i ∷ order) = get_or blocks i [] ++ pick blocks order

-- What the rx command has at its end.
abbrev pub Received : List ℕ → Option RxCtx → Type 0
Received bytes result =
    (c : RxCtx) × (result ≡ some c)
    × (c.written ≡ bytes)
    × (c.session.state ≡ zero_state)
    × (c.fault ≡ false)

-- A session that has received nothing.
abbrev pub fresh : (magic tu : ℕ) → RxSession
fresh magic tu = record { magic = magic; transmission_unit = tu; state = zero_state }

pub AllWithin-snoc :
    (last : ℕ) (order : List ℕ) (i : ℕ)
    → AllWithin last order
    → i ≤ last
    → AllWithin last (order ++ i ∷ [])
AllWithin-snoc last [] i inside within = (within, tt)
AllWithin-snoc last (j ∷ order) i inside within =
    (inside.0, AllWithin-snoc last order i inside.1 within)

module _ (sh : Shape) (good : IsShape sh) (bytes : List ℕ) (filled : length bytes ≡ total sh) where
  open sh use {p, last, tail}

  size_at-shape : (m : ℕ) → m ≤ last → size_at p bytes m ≡ size_of sh m
  size_at-shape m within = elim (ℕ_discrete m last) [
    | yes e ↦ ground (arith, good, filled, ap (λ (j : ℕ). j * p) e)
    | no ne ↦ ground (arith, filled, mul-le-mul_right {m = m + 1} {n = last} p (omega arith))
  ]

  pub end_at-shape : tail < p → (m : ℕ) → m ≤ last → not_full p (length bytes - m * p) ≡ eop_of sh m
  end_at-shape partial m within = elim (ℕ_discrete m last) [
    | yes e ↦ ground (arith, good, filled, ap (λ (j : ℕ). j * p) e)
    | no ne ↦ ground (arith, filled, mul-le-mul_right {m = m + 1} {n = last} p (omega arith))
  ]

  module _ (ends : ℕ → Bool) (tu sender pkg : ℕ) (blocks : List (List ℕ))
      (end_at : (m : ℕ) → m ≤ last → ends (length bytes - m * p) ≡ eop_of sh m)
      (carries : (m : ℕ)
        → m ≤ last
        → Carries ends tu p sender pkg m bytes m (get_or blocks m [])) where
    abbrev pub rest : ℕ → List ℕ
    rest m = drop header_size (get_or blocks m [])

    pub block-frame : (m : ℕ) → m ≤ last → get_or blocks m [] ≡ slice_frame sh sender pkg rest m
    block-frame m within =
        let (r, framed, exact, long, content) = carries m within in
        framed
        ∙ ap (λ s. frame_of (slot_header sender pkg m s (ends (length bytes - m * p))) r)
            (size_at-shape m within)
        ∙ ap (λ e. frame_of (slot_header sender pkg m (size_of sh m) e) r) (end_at m within)
        ∙ ap (frame_of (slot_header sender pkg m (size_of sh m) (eop_of sh m)))
            (sym (payload_of-frame _ r) ∙ ap (drop header_size) (sym framed))

    pub rests-long : (m : ℕ) → m ≤ last → size_of sh m ≤ length (rest m)
    rests-long m within =
        let (r, framed, exact, long, content) = carries m within in
        let same : rest m ≡ r = ap (drop header_size) framed ∙ payload_of-frame _ r in
        omega (arith, long, size_at-shape m within, ap length same)

    pub rests-content : (m : ℕ) → m ≤ last → take (size_of sh m) (rest m) ≡ part_of p bytes m
    rests-content m within =
        let (r, framed, exact, long, content) = carries m within in
        let same : rest m ≡ r = ap (drop header_size) framed ∙ payload_of-frame _ r in
        ap (take (size_of sh m)) same ∙ ap (λ s. take s r) (sym (size_at-shape m within)) ∙ content

    frame-exact : (m : ℕ) → m ≤ last → length (slice_frame sh sender pkg rest m) ≡ tu
    frame-exact m within =
        let (r, framed, exact, long, content) = carries m within in
        ap length (sym (block-frame m within)) ∙ exact

    module _ (writes : ℕ → ℕ → Option ℕ) (takes : Takes writes) (small : p < 2 ^ 12)
        (units : max_payload (record { transmission_unit = tu }) ≡ p) (pkg_fits : pkg < 2 ^ 8)
        (long : header_size ≤ tu) where
      rests : AreRests sh good bytes filled writes takes tu rest
      rests = record { long = rests-long; content = rests-content }

      abbrev frames_in : List ℕ → List ℕ
      frames_in order =
          input sh good bytes filled writes takes tu sender pkg rest rests small units pkg_fits long
            frame-exact order

      pick-input : (order : List ℕ) → AllWithin last order → pick blocks order ≡ frames_in order
      pick-input [] inside = refl
      pick-input (m ∷ order) inside =
          ap (λ l. l ++ pick blocks order) (block-frame m inside.0)
          ∙ ap (λ l. slice_frame sh sender pkg rest m ++ l) (pick-input order inside.1)

      picked-Received :
          (magic : ℕ) (assembly : List ℕ) (order : List ℕ) (i : ℕ)
          → total sh ≤ length assembly
          → AllWithin last order
          → i ≤ last
          → OnlyMissing last order i
          → Received bytes
              (cmd_rx writes (fresh magic tu, assembly) (pick blocks (order ++ i ∷ [])))
      picked-Received magic assembly order i roomy inside within only =
          let (c, goes, bytes_out, zeroed, safe) =
            cmd_rx-bytes sh good bytes filled writes takes tu sender pkg rest rests small units
              pkg_fits long frame-exact magic assembly order i roomy inside within only in
          (
            c,
            ap (cmd_rx writes (fresh magic tu, assembly))
                  (pick-input (order ++ i ∷ []) (AllWithin-snoc last order i inside within))
                ∙ goes,
            bytes_out,
            zeroed,
            safe,
          )

-- The session at the start of the next package.
abbrev pub AtNext : TxSession → TxSession → Type 0
AtNext session saved =
    (saved.magic ≡ session.magic)
    × (saved.transmission_unit ≡ session.transmission_unit)
    × (saved.coord.package_id ≡ u8 (session.coord.package_id + 1))
    × (saved.coord.offset ≡ 0)

-- What the tx command has written, and the rx command on its blocks in the given order.
abbrev pub Transfers :
    TxSession
    → List (List ℕ)
    → (order : List ℕ) → Option (TxSession × TxUser)
    → (List ℕ → Option RxCtx)
    → Type 0
Transfers session reads order sends receives =
    (saved : TxSession) × (sink : TxUser) × (sends ≡ some (saved, sink))
    × (sink.fault ≡ false)
    × (sink.exited ≡ none)
    × AtNext session saved
    × Received (flatten reads) (receives (pick sink.written order))

pub package_fits :
    (sh : Shape) → IsShape sh → sh.tail < sh.p → (total sh < 2 ^ 16) × (total sh < 2 ^ 8 * sh.p)
package_fits sh good partial =
    let slots : (sh.last + 1) * sh.p ≤ 2 ^ 8 * sh.p = mul-le-mul_right sh.p (omega (arith, good)) in
    (omega (arith, good), omega (arith, good, slots))

pub before_end :
    (sh : Shape) (bytes : List ℕ)
    → length bytes ≡ total sh
    → (m : ℕ) → m ≤ sh.last
    → m * sh.p ≤ length bytes
before_end sh bytes filled m h =
    omega (arith, filled, mul-le-mul_right {m = m} {n = sh.last} sh.p h)

-- The tx command, with a transmission unit from 5 to 4096, the cursor at the start of a package,
-- and an output that takes whole blocks, on a package that is not empty, has at most 256 slices of
-- which the last is not full, and whose slots end below 2^16; and the rx command, with a fresh
-- session whose buffer has room for the package and an output that takes something at each call,
-- on all blocks that tx wrote but one, in any order and with repetitions, and then the missing
-- one: both end, tx does not exit early, rx has written the input of tx, each byte once and in
-- order, it saves a zeroed state, tx saves its session at the start of the next package, and neither
-- makes an access out of bounds.
pub cmd_rx-cmd_tx :
    (sh : Shape) (takes : ℕ → ℕ → ℕ) (session : TxSession) (sender_id : ℕ) (reads : List (List ℕ))
    (writes : ℕ → ℕ → Option ℕ) (magic : ℕ) (assembly : List ℕ) (order : List ℕ) (i : ℕ)
    → IsShape sh
    → sh.tail < sh.p
    → max_payload (record { transmission_unit = session.transmission_unit }) ≡ sh.p
    → length (flatten reads) ≡ total sh
    → 4 < session.transmission_unit
    → session.transmission_unit ≤ 4096
    → ((n : ℕ) → takes n session.transmission_unit ≡ session.transmission_unit)
    → session.coord.offset ≡ 0
    → session.coord.package_id < 2 ^ 8
    → AreBuffers reads
    → Takes writes
    → total sh ≤ length assembly
    → AllWithin sh.last order
    → i ≤ sh.last
    → OnlyMissing sh.last order i
    → Transfers session reads
        (order ++ i ∷ [])
        (cmd_tx takes session sender_id reads)
        (cmd_rx writes (fresh magic session.transmission_unit, assembly))
cmd_rx-cmd_tx sh takes session sender_id reads writes magic assembly order i good partial units
      filled more fits whole at_start pkg_fits buffers writes_all roomy inside within only =
    let tu = session.transmission_unit in
    let pkg = session.coord.package_id in
    let unit : sh.p + 4 ≡ tu = omega (
      arith,
      units,
      max_payload_lem (record { transmission_unit = tu }) (omega arith) (omega arith),
    ) in
    let (short, few) = package_fits sh good partial in
    let (slices, sink, packaged, saves, frames, safe, runs) =
      cmd_tx-Packaged takes session sender_id reads more fits whole at_start buffers
        (omega (arith, filled, short)) (omega (arith, filled, few, units)) in
    let carries : (m : ℕ)
        → m ≤ sh.last
        → Carries (not_full sh.p) tu sh.p (u8 sender_id) pkg m (flatten reads) m
            (get_or sink.written m []) =
      λ m h.
        block-Carries tu sh.p (u8 sender_id) pkg 0 m (flatten reads) slices sink.written m
          good.some_payload
          (subst (λ n. Packaged n (u8 sender_id) pkg 0 (flatten reads) slices) units packaged)
          frames (before_end sh (flatten reads) filled m h) (omega arith) in
    (
      _,
      sink,
      saves,
      safe,
      runs,
      (refl, refl, refl, refl),
      picked-Received sh good (flatten reads) filled (not_full sh.p) tu (u8 sender_id) pkg
          sink.written (end_at-shape sh good (flatten reads) filled partial) carries writes
          writes_all (omega (arith, unit)) units pkg_fits (omega arith) magic assembly order i roomy
          inside within only,
    )
