-- ===== src/Rx/Typed.antt =====
-- The receive state stays within its C types, whatever slices come in.
use mathlib.Core.Path.{subst}
use mathlib.Core.Option.{some-injective}
use native.Mathlib.Nat.{pow-suc, pow-le-pow_right}
use master_pilot_custom_data.Base.{
  ℕ, zero, suc, ◌+◌, ◌/◌, ◌^◌, ◌<◌, bit_and, bit_or, Bool, ◌&&◌, some, List, [], ◌∷◌, ◌≡◌, refl,
  arith, ap, ◌∙◌, sym, ltb, leb, if◌then◌else◌, ◌>>=◌, length, get_or, set, u16, bit_and_low,
  length-set, Bool-cases, Option-cases, either_end, inl, inr, ◌>>>◌, ◌<<<◌, bit_or_step,
}
use master_pilot_custom_data.Coordinate.{slice_idx_to_offset, offset_to_slice_idx}
use master_pilot_custom_data.Rx.{
  zero_state, SliceState, SliceInst, scan, advance_watermark, set_slice, record_slice,
  calc_termination, calc_slice_step, scan_fuel, has_slice, is_complete, new_slice_in_order,
  complete,
}

abbrev pub AllBelow : ℕ → List ℕ → Type 0
AllBelow n [] = Unit {0}
AllBelow n (x ∷ xs) = (x < n) × AllBelow n xs

-- `mp_rx_slice_state_t` as C holds it: eight words of 32 bits, and three of 16.
pub record IsTyped (s : SliceState) : Type 0 where
  pub eight_words : length s.bitmap ≡ 8
  pub words_fit : AllBelow (2 ^ 32) s.bitmap
  pub count_fits : s.received_count < 2 ^ 16
  pub termination_fits : s.termination < 2 ^ 16
  pub watermark_fits : s.watermark < 2 ^ 16

pub zero_state-IsTyped : IsTyped zero_state
zero_state-IsTyped = record {
  eight_words = refl;
  words_fit = omega arith;
  count_fits = omega arith;
  termination_fits = omega arith;
  watermark_fits = omega arith;
}

bit_or-lt : (k a b : ℕ) → a < 2 ^ k → b < 2 ^ k → bit_or a b < 2 ^ k
bit_or-lt zero zero zero ha hb = omega arith
bit_or-lt zero zero (suc b) ha hb = absurd (omega arith)
bit_or-lt zero (suc a) b ha hb = absurd (omega arith)
bit_or-lt (suc k) a b ha hb = omega (
  arith,
  bit_or_step a b,
  pow-suc 2 k,
  bit_or-lt k (a / 2) (b / 2) (omega (arith, pow-suc 2 k)) (omega (arith, pow-suc 2 k)),
)

get_or-AllBelow : (n : ℕ) (xs : List ℕ) (i : ℕ) → 0 < n → AllBelow n xs → get_or xs i 0 < n
get_or-AllBelow n [] i pos all = pos
get_or-AllBelow n (x ∷ xs) zero pos all = all.0
get_or-AllBelow n (x ∷ xs) (suc i) pos all = get_or-AllBelow n xs i pos all.1

set-AllBelow : (n : ℕ) (xs : List ℕ) (i v : ℕ) → v < n → AllBelow n xs → AllBelow n (set xs i v)
set-AllBelow n [] i v h all = tt
set-AllBelow n (x ∷ xs) zero v h all = (h, all.1)
set-AllBelow n (x ∷ xs) (suc i) v h all = (all.0, set-AllBelow n xs i v h all.1)

pow-lt_word : (k : ℕ) → k < 32 → 2 ^ k < 2 ^ 32
pow-lt_word k h =
    omega (arith, pow-le-pow_right {n = 2} (omega arith) {i = k} {j = 31} (omega arith))

mask-lt : (i : ℕ) → 1 <<< bit_and i 31 < 2 ^ 32
mask-lt i = omega (arith, pow-lt_word (bit_and i 31) (omega (arith, bit_and_low 5 i)))

set_slice-AllBelow :
    (words : List ℕ) (i : ℕ) → AllBelow (2 ^ 32) words → AllBelow (2 ^ 32) (set_slice words i)
unfolding set_slice
set_slice-AllBelow words i all =
    set-AllBelow (2 ^ 32) words (i >>> 5) _
      (bit_or-lt 32 (get_or words (i >>> 5) 0) (1 <<< bit_and i 31)
        (get_or-AllBelow (2 ^ 32) words (i >>> 5) (omega arith) all) (mask-lt i))
      all

record_slice-IsTyped :
    (s : SliceState) (i size p : ℕ) (eop : Bool) → IsTyped s → IsTyped (record_slice s i size p eop)
unfolding record_slice calc_termination set_slice
record_slice-IsTyped s i size p eop t = record {
  eight_words = length-set s.bitmap (i >>> 5) _ ∙ t.eight_words;
  words_fit = set_slice-AllBelow s.bitmap i t.words_fit;
  count_fits = ground (arith, t.count_fits);
  termination_fits = ground (arith, t.termination_fits);
  watermark_fits = t.watermark_fits;
}

scan-lt :
    (fuel : ℕ) (s : SliceState) (p wm wm' : ℕ)
    → wm < 2 ^ 16
    → scan fuel s p wm ≡ some wm'
    → wm' < 2 ^ 16
unfolding scan
scan-lt zero s p wm wm' h e = absurd (cc)
scan-lt (suc fuel) s p wm wm' h e =
    either_end (λ w. w < 2 ^ 16) (ltb 0 s.termination && leb s.termination wm) wm wm' _ h
      (λ goes_on. elim (Bool-cases (has_slice s.bitmap (offset_to_slice_idx wm p))) [
        | inl has ↦
            scan-lt fuel s p (u16 (wm + p)) wm' (omega arith)
              (sym (ap (λ b. if b then scan fuel s p (u16 (wm + p)) else some wm) has) ∙ goes_on)
        | inr lacks ↦
            subst (λ w. w < 2 ^ 16)
              (some-injective _ _ (
                sym (ap (λ b. if b then scan fuel s p (u16 (wm + p)) else some wm) lacks)
                ∙ goes_on))
              h
      ])
      e

-- What follows the scan.
abbrev clip : SliceState → ℕ → ℕ
clip s wm = if ltb 0 s.termination && ltb s.termination wm then s.termination else wm

clip-lt : (s : SliceState) (wm : ℕ) → s.termination < 2 ^ 16 → wm < 2 ^ 16 → clip s wm < 2 ^ 16
clip-lt s wm t w = ground arith

advance_watermark-lt :
    (s : SliceState) (p wm : ℕ)
    → s.termination < 2 ^ 16
    → s.watermark < 2 ^ 16
    → advance_watermark s p ≡ some wm
    → wm < 2 ^ 16
unfolding advance_watermark
advance_watermark-lt s p wm t w e = elim (Option-cases (scan scan_fuel s p s.watermark)) [
  | inl stops ↦ absurd (cc)
  | inr (wm', found) ↦
      subst (λ v. v < 2 ^ 16)
        (some-injective _ _ (sym (ap (λ r. r >>= (λ v. some (clip s v))) found) ∙ e))
        (clip-lt s wm' t (scan-lt scan_fuel s p s.watermark wm' w found))
]

abbrev in_order : SliceState → ℕ → ℕ → SliceInst
in_order next p wm =
    let next' = record next { watermark = wm } in
    record { e = if is_complete next' p then complete else new_slice_in_order; next_state = next' }

moved-IsTyped :
    (s : SliceState) (wm : ℕ) → wm < 2 ^ 16 → IsTyped s → IsTyped (record s { watermark = wm })
moved-IsTyped s wm h t = record {
  eight_words = t.eight_words;
  words_fit = t.words_fit;
  count_fits = t.count_fits;
  termination_fits = t.termination_fits;
  watermark_fits = h;
}

-- The state that C keeps in a `mp_rx_slice_state_t` stays one: from a state with eight words of 32 bits
-- and a count, a termination and a watermark of 16 bits, a step on any slice, whatever its index, size
-- and end mark, and the slice size, leaves such a state, if it returns.
pub calc_slice_step-IsTyped :
    (s : SliceState) (slice_id payload_size p : ℕ) (is_eop : Bool) (inst : SliceInst)
    → IsTyped s
    → calc_slice_step s slice_id payload_size p is_eop ≡ some inst
    → IsTyped inst.next_state
unfolding calc_slice_step
calc_slice_step-IsTyped s slice_id payload_size p is_eop inst t e =
    let next = record_slice s slice_id payload_size p is_eop in
    let next-IsTyped = record_slice-IsTyped s slice_id payload_size p is_eop t in
    either_end (λ i. IsTyped i.next_state) (has_slice s.bitmap slice_id) _ inst _ t
      (λ new.
        either_end (λ i. IsTyped i.next_state) (ltb s.watermark (slice_idx_to_offset slice_id p)) _
          inst _ next-IsTyped
          (λ first. elim (Option-cases (advance_watermark next p)) [
            | inl stops ↦ absurd (cc)
            | inr (wm, found) ↦
                subst (λ i. IsTyped i.next_state)
                  (some-injective _ _
                    (sym (ap (λ r. r >>= (λ w. some (in_order next p w))) found) ∙ first))
                  (moved-IsTyped next wm
                    (advance_watermark-lt next p wm next-IsTyped.termination_fits
                      next-IsTyped.watermark_fits found)
                    next-IsTyped)
          ])
          new)
      e
