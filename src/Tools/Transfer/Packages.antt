-- ===== src/Tools/Transfer/Packages.antt =====
-- Packages one after another, through the session files of both commands.
use mathlib.Core.List.{flatten}
use master_pilot_custom_data.Base.{
  ℕ, ◌+◌, ◌≤◌, ◌<◌, false, Option, none, some, List, [], ◌∷◌, ◌++◌, ◌≡◌, length, u8,
}
use master_pilot_custom_data.TxStream.Package.{AreBuffers}
use master_pilot_custom_data.Rx.Package.{Shape, IsShape, total}
use master_pilot_custom_data.RxStream.Arrivals.{AllWithin}
use master_pilot_custom_data.RxStream.Complete.{OnlyMissing}
use master_pilot_custom_data.Tools.Session.{
  TxSession, RxSession, session_send_magic, rx_buffer_size,
}
use master_pilot_custom_data.Tools.Session.File.{
  load_tx_file, load_rx_file, save_tx_file, save_rx_file,
}
use master_pilot_custom_data.Tools.Tx.{TxUser, cmd_tx}
use master_pilot_custom_data.Tools.Rx.{RxCtx, cmd_rx}
use master_pilot_custom_data.Tools.Transfer.RoundTrip.{pick}

-- A package: the buffers that tx reads, and the blocks that rx gets, of which `missing` is the last.
pub record Parcel : Type 0 where
  pub shape : Shape
  pub reads : List (List ℕ)
  pub order : List ℕ
  pub missing : ℕ

-- The package fits the transmission unit and the buffer of a session, and all of its blocks arrive.
pub record Fits (tu : ℕ) (x : Parcel) : Type 0 where
  pub good : IsShape x.shape
  pub partial : x.shape.tail < x.shape.p
  pub unit : x.shape.p + 4 ≡ tu
  pub filled : length (flatten x.reads) ≡ total x.shape
  pub buffers : AreBuffers x.reads
  pub roomy : total x.shape ≤ rx_buffer_size tu
  pub inside : AllWithin x.shape.last x.order
  pub within : x.missing ≤ x.shape.last
  pub only : OnlyMissing x.shape.last x.order x.missing

abbrev pub AllFit : ℕ → List Parcel → Type 0
AllFit tu [] = Unit {0}
AllFit tu (x ∷ xs) = Fits tu x × AllFit tu xs

-- The send session at the start of package `pkg`.
abbrev pub at_package : (tu sender pkg : ℕ) → TxSession
at_package tu sender pkg = record {
  magic = session_send_magic;
  transmission_unit = tu;
  coord = record { sender_id = sender; package_id = pkg; offset = 0 };
}

module _ (takes : ℕ → ℕ → ℕ) (writes : ℕ → ℕ → Option ℕ) (sender_id : ℕ) where
  -- Each package in turn, from the session files: tx loads its session, at package `pkg`, and sends the
  -- package; rx loads its own, gets the blocks and writes the bytes. What both save is what the next
  -- package is sent and received with.
  abbrev pub Relays : (tx_file rx_file : List ℕ) (pkg : ℕ) → List Parcel → Type 0
  Relays tx_file rx_file pkg [] = Unit {0}
  Relays tx_file rx_file pkg (x ∷ xs) =
      (session : TxSession) × (opened : RxSession × List ℕ) × (saved : TxSession) × (sink : TxUser)
      × (c : RxCtx) × (load_tx_file tx_file ≡ some session)
      × (session.coord.package_id ≡ pkg)
      × (cmd_tx takes session sender_id x.reads ≡ some (saved, sink))
      × (sink.exited ≡ none)
      × (sink.fault ≡ false)
      × (load_rx_file rx_file ≡ some opened)
      × (cmd_rx writes opened (pick sink.written (x.order ++ x.missing ∷ [])) ≡ some c)
      × (c.written ≡ flatten x.reads)
      × (c.fault ≡ false)
      × Relays (save_tx_file saved) (save_rx_file c.session c.assembly) (u8 (pkg + 1)) xs
