-- ===== src/Embedded/Decode/Events.antt =====
-- The embedded decoder's event callback over a store that is an array.
use mathlib.Core.Path.{subst}
use master_pilot_custom_data.Base.{
  ℕ, ◌+◌, ◌*◌, ◌≤◌, true, some, List, ltb, ◌≡◌, refl, arith, ap, ◌∙◌, sym, if◌then◌else◌, ◌>>=◌,
  length, take, drop, overwrite, inl, inr, Bool-cases, ltb→le,
}
use master_pilot_custom_data.Coordinate.{Coordinate, max_payload}
use master_pilot_custom_data.Rx.{SliceState, new_slice_out_of_order, new_slice_in_order, complete}
use master_pilot_custom_data.Rx.Received.{Received, with_slice}
use master_pilot_custom_data.Rx.Package.{Shape, IsShape, total, size_of}
use master_pilot_custom_data.Tools.Rx.Delivery.{part_of}
use master_pilot_custom_data.Tools.Rx.Assembly.{Holds, Holds-overwrite, Holds-empty, slice_end}
use master_pilot_custom_data.Embedded.Decode.{
  PbDecoder, DecoderInst, Reader, pb_coordinator, pb_on_event, decoded, slice_istream_init,
  run_reader,
}
use master_pilot_custom_data.Embedded.Decode.Pull.{Within, run_list, run_reader-list}

-- What the decoder needs of the user's two callbacks: an array of bytes, written and read at the
-- offset of the coordinate.
pub record Memory {U M : Type 0} (decoder : PbDecoder U M) : Type 0 where
  pub memory : U → List ℕ
  pub gets :
      (u : U) (coord : Coordinate) → decoder.payload_get u coord ≡ drop coord.offset (memory u)
  pub puts :
      (u : U) (coord : Coordinate) (bytes : List ℕ) (size : ℕ)
      → size ≤ length bytes
      → coord.offset + size ≤ length (memory u)
      → memory (decoder.payload_put u coord bytes size)
        ≡ overwrite (memory u) coord.offset (take size bytes)

-- `u` comes from `u0` by writes of payload alone.
pub data Stores {U M : Type 0} (decoder : PbDecoder U M) (u0 : U) : U → Type 0 where
  at_first : Stores decoder u0 u0
  then_put :
      {u : U} (coord : Coordinate) (bytes : List ℕ) (size : ℕ)
      → Stores decoder u0 u
      → Stores decoder u0 (decoder.payload_put u coord bytes size)

module _ {U M : Type 0} (decoder : PbDecoder U M) (mem : Memory decoder) (pb_decode : ℕ → Reader M)
    (sh : Shape) (good : IsShape sh) (bytes : List ℕ) (filled : length bytes ≡ total sh) where
  open sh use {p, last, tail}

  abbrev pub Stored : Received → U → Type 0
  Stored got u = Holds sh good bytes filled got (mem.memory u)

  -- What the callback does with the payload of slice `i`.
  abbrev pub Puts : Received → U → DecoderInst U → ℕ → DecoderInst U → Type 0
  Puts got u0 inst i inst' =
      (u : U) × (inst' ≡ record inst { outer = u })
      × Stored (with_slice got i) u
      × Stores decoder u0 u

  decoding :
      {got : Received} (inst : DecoderInst U) (coord : Coordinate)
      → Within (total sh) (pb_decode (total sh))
      → Stored got inst.outer
      → ((m : ℕ) → m ≤ last → got m ≡ true)
      → (run_reader
            (pb_coordinator decoder pb_decode)
            inst
            (pb_decode (total sh))
            (slice_istream_init coord (total sh) p)
          >>= (λ result. some (decoded decoder pb_decode inst result)))
        ≡ some (decoded decoder pb_decode inst (run_list (pb_decode (total sh)) bytes))
  unfolding pb_coordinator slice_istream_init
  decoding inst coord modest holds all =
      ap (λ r. r >>= (λ result. some (decoded decoder pb_decode inst result)))
        (run_reader-list sh good bytes filled (pb_coordinator decoder pb_decode) inst
          (mem.memory inst.outer) (λ c. mem.gets inst.outer c)
          (λ m within. holds.held m within (all m within)) coord (pb_decode (total sh)) 0
          (omega arith) (subst (λ n. Within n (pb_decode (total sh))) (omega arith) modest))

  module _ (got : Received) (u0 : U) (inst : DecoderInst U) (coord : Coordinate) (i : ℕ)
      (rest : List ℕ) (within : i ≤ last) (place : coord.offset ≡ i * p)
      (long : size_of sh i ≤ length rest) (content : take (size_of sh i) rest ≡ part_of p bytes i)
      (holds : Stored got inst.outer) (stores : Stores decoder u0 inst.outer) where
    abbrev pub kept : DecoderInst U
    kept =
        if ltb 0 (size_of sh i)
        then (pb_coordinator decoder pb_decode).payload_put inst coord rest (size_of sh i)
        else inst

    pub put-Stored : Puts got u0 inst i kept
    unfolding pb_coordinator
    put-Stored = elim (Bool-cases (ltb 0 (size_of sh i))) [
      | inr empty ↦ (
        inst.outer,
        rw empty refl,
        Holds-empty sh good bytes filled got (mem.memory inst.outer) i within
            (omega (arith, ltb→le 0 (size_of sh i) empty)) holds,
        stores,
      )
      | inl some_bytes ↦
          let room : i * p + size_of sh i ≤ length (mem.memory inst.outer) =
            omega (arith, holds, slice_end sh good bytes filled i within) in
          let written : mem.memory (decoder.payload_put inst.outer coord rest (size_of sh i))
              ≡ overwrite (mem.memory inst.outer) (i * p) (take (size_of sh i) rest) =
            mem.puts inst.outer coord rest (size_of sh i) long (omega (arith, place, room))
            ∙ ap (λ o. overwrite (mem.memory inst.outer) o (take (size_of sh i) rest)) place in
          (
            decoder.payload_put inst.outer coord rest (size_of sh i),
            rw some_bytes refl,
            subst (Holds sh good bytes filled (with_slice got i)) (sym written) (
                Holds-overwrite sh good bytes filled got (mem.memory inst.outer)
                  (take (size_of sh i) rest) i within holds content),
            then_put coord rest (size_of sh i) stores,
          )
    ]

    pub later-told :
        (state : SliceState) (wm : ℕ)
        → pb_on_event decoder pb_decode inst new_slice_out_of_order coord
            (pb_coordinator decoder pb_decode)
            state
            wm
            rest
            (size_of sh i)
          ≡ some kept
    unfolding pb_on_event
    later-told state wm = refl

    pub grows-told :
        (state : SliceState) (wm : ℕ)
        → pb_on_event decoder pb_decode inst new_slice_in_order coord
            (pb_coordinator decoder pb_decode)
            state
            wm
            rest
            (size_of sh i)
          ≡ some kept
    unfolding pb_on_event
    grows-told state wm = refl

    -- The package is whole: `pb_decode` reads its bytes.
    pub whole-told :
        (state : SliceState) (wm : ℕ)
        → max_payload decoder.config ≡ p
        → state.termination ≡ total sh
        → Within (total sh) (pb_decode (total sh))
        → ((m : ℕ) → m ≤ last → with_slice got i m ≡ true)
        → pb_on_event decoder pb_decode inst complete coord
            (pb_coordinator decoder pb_decode)
            state
            wm
            rest
            (size_of sh i)
          ≡ some (decoded decoder pb_decode kept (run_list (pb_decode (total sh)) bytes))
    unfolding pb_on_event slice_istream_init
    whole-told state wm units ends modest all =
        let (u, puts, holds', stores') = put-Stored in
        let outer : kept.outer ≡ u = ap (λ (d : DecoderInst U). d.outer) puts in
        rw (units, ends)
          (decoding kept coord modest (subst (Stored (with_slice got i)) (sym outer) holds') all)
