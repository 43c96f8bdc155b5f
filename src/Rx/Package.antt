-- ===== src/Rx/Package.antt =====
-- Receiving the slices of one package: what the state means, and the bookkeeping of a new slice.
use native.Mathlib.Nat.{div-eq_of_lt-le}
use native.Mathlib.Decide.{ℕ_discrete}
use master_pilot_custom_data.Base.{
  ℕ, ◌+◌, ◌-◌, ◌*◌, ◌^◌, ◌≤◌, ◌<◌, Bool, true, false, ◌≡◌, refl, arith, ◌==◌, if◌then◌else◌, length,
  ap, ◌∙◌, sym, u32, sub32,
}
use master_pilot_custom_data.Coordinate.Laws.{offset_exact}
use master_pilot_custom_data.Rx.{
  SliceState, zero_state, has_slice, calc_termination, termination_to_slice_count, record_slice,
}
use master_pilot_custom_data.Rx.Bitmap.{length-set_slice, has_slice-none, has_slice-set_slice}
use master_pilot_custom_data.Rx.Received.{
  Received, with_slice, AllFrom, count_below, count-in, count-out, count-le, nothing, count-nothing,
}

-- The package: `max_payload`, the index of the last slice, and that slice's size. Where the bytes
-- fill slices exactly, the C sender adds an empty last slice, and the C++ sender leaves it full.
pub record Shape : Type 0 where
  pub p : ℕ
  pub last : ℕ
  pub tail : ℕ

abbrev pub total : Shape → ℕ
total sh = sh.last * sh.p + sh.tail

-- The slices that hold bytes.
abbrev pub data_slices : Shape → ℕ
data_slices sh = if sh.tail == 0 then sh.last else sh.last + 1

abbrev pub size_of : Shape → ℕ → ℕ
size_of sh i = if i == sh.last then sh.tail else sh.p

abbrev pub eop_of : Shape → ℕ → Bool
eop_of sh i = i == sh.last

-- A package that a sender can number, with at least one byte, whose scan cannot wrap.
pub record IsShape (sh : Shape) : Type 0 where
  pub some_payload : 0 < sh.p
  pub numbered : sh.last < 2 ^ 8
  pub addressed : (sh.last + 1) * sh.p < 2 ^ 16
  pub tail_within : sh.tail ≤ sh.p
  pub not_empty : 0 < total sh

-- The state keeps the book on the slices `got`.
pub record Books (sh : Shape) (got : Received) (s : SliceState) : Type 0 where
  pub eight_words : length s.bitmap ≡ 8
  pub bits : (i : ℕ) → has_slice s.bitmap i ≡ got i
  pub counted : s.received_count ≡ count_below got (data_slices sh)
  pub ended : s.termination ≡ (if got sh.last then total sh else 0)

-- The state waits for slice `k`, the first that has not come.
pub record Waits (sh : Shape) (got : Received) (k : ℕ) (s : SliceState) : Type 0 where
  pub books : Books sh got s
  pub at_gap : s.watermark ≡ k * sh.p
  pub gap_within : k ≤ sh.last
  pub missing : got k ≡ false
  pub run : AllFrom got 0 k

module _ (sh : Shape) (good : IsShape sh) where
  open sh use {p, last, tail}

  pub calc_termination-last : calc_termination last tail p ≡ total sh
  unfolding calc_termination
  calc_termination-last = omega (arith, offset_exact last p (omega (arith, good)), good)

  wrap_free : sub32 (u32 (total sh + p)) 1 ≡ total sh + p - 1
  wrap_free = omega (arith, good)

  -- For a package that is not empty, has at most 256 slices, and whose slots end below 2^16: the
  -- slice count computed from its total size is the number of its slices that hold bytes.
  pub slice_count-total : termination_to_slice_count (total sh) p ≡ data_slices sh
  unfolding termination_to_slice_count
  slice_count-total = elim (ℕ_discrete tail 0) [
    | yes whole ↦ ground (
      arith,
      good,
      wrap_free,
      div-eq_of_lt-le {k = last} p {m = total sh + p - 1} (omega (arith, good))
          (omega (arith, good)),
    )
    | no part ↦ ground (
      arith,
      good,
      wrap_free,
      div-eq_of_lt-le {k = last + 1} p {m = total sh + p - 1} (omega (arith, good))
          (omega (arith, good)),
    )
  ]

  pub record_slice-Books :
      (got : Received) (s : SliceState) (i : ℕ)
      → Books sh got s
      → i ≤ last
      → got i ≡ false
      → Books sh (with_slice got i) (record_slice s i (size_of sh i) p (eop_of sh i))
  unfolding record_slice
  record_slice-Books got s i b within new = record {
    eight_words = length-set_slice s.bitmap i ∙ b.eight_words;
    bits = λ j.
        has_slice-set_slice s.bitmap i j b.eight_words (omega (arith, good))
        ∙ ap (λ c. if i == j then true else c) (b.bits j);
    counted = ground (
      arith,
      good,
      count-in got i (data_slices sh),
      count-out got i (data_slices sh),
      count-le got (data_slices sh),
    );
    ended = ground (arith, good, calc_termination-last);
  }

-- A zeroed state waits for the first slice.
pub zero_state-Waits : (sh : Shape) → Waits sh nothing 0 zero_state
zero_state-Waits sh = record {
  books = record {
    eight_words = refl;
    bits = has_slice-none;
    counted = sym (count-nothing (data_slices sh));
    ended = refl;
  };
  at_gap = omega arith;
  gap_within = omega arith;
  missing = refl;
  run = λ m above below. absurd (omega arith);
}
