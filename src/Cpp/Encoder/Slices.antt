-- ===== src/Cpp/Encoder/Slices.antt =====
-- What a package's slices are for the C++ sender, and what protobuf is taken to do.
use master_pilot_custom_data.Base.{
  ℕ, suc, ◌-◌, ◌≤◌, ◌<◌, true, false, List, [], ◌∷◌, ◌++◌, ◌≡◌, length,
}
use master_pilot_custom_data.Tx.Laws.{slot_header}
use master_pilot_custom_data.TxStream.Framer.{Slice}
use master_pilot_custom_data.Cpp.Encoder.{Serialization, returns, next, back_up}

-- The slices of a package that holds the given bytes, from the `i`-th slice on: full slices
-- without an end mark while bytes are left behind them, then one with the mark, which may be full.
pub data Sliced (p sender pkg : ℕ) : ℕ → List ℕ → List Slice → Type 0 where
  last :
      (i : ℕ) (xs : List ℕ)
      → 0 < length xs
      → length xs ≤ p
      → Sliced p sender pkg i xs
          (record { header = slot_header sender pkg i (length xs) true; payload = xs } ∷ [])
  full :
      {i : ℕ} {all : List ℕ} {slices : List Slice} (xs rest : List ℕ)
      → length xs ≡ p
      → 0 < length rest
      → all ≡ xs ++ rest
      → Sliced p sender pkg (suc i) rest slices
      → Sliced p sender pkg i all
          (record { header = slot_header sender pkg i p false; payload = xs } ∷ slices)

-- Serialization of `xs` on buffers of `n` bytes, as ZeroCopyOutputStream documents it: a buffer is
-- used up before the next one is asked for, what is left of the last one is backed up, and no
-- buffer is asked for that nothing is written to.
pub data Serializes (n : ℕ) : List ℕ → Serialization → Type 0 where
  none_left : Serializes n [] (returns true)
  part :
      {xs : List ℕ} {bytes : ℕ → List ℕ} {after : ℕ → Serialization}
      → 0 < length xs
      → length xs < n
      → bytes n ≡ xs
      → after n ≡ back_up (n - length xs) (returns true)
      → Serializes n xs (next bytes after)
  whole :
      {xs : List ℕ} {bytes : ℕ → List ℕ} {after : ℕ → Serialization} (rest : List ℕ)
      → length (bytes n) ≡ n
      → xs ≡ bytes n ++ rest
      → Serializes n rest (after n)
      → Serializes n xs (next bytes after)
