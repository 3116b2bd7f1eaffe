-- ===== src/Cron/Range.antt =====
-- The values of a range with a step: what `rangeOf` gives, and where its int overflows.
use native.Mathlib.Decide.{dec_lt}
use native.Mathlib.Nat.{mod-eq_of_lt, mod-eq-sub-mod}
use skifity.Prelude.{
  leb, nat_beq, ℕ, zero, suc, ◌+◌, ◌-◌, ◌%◌, ◌^◌, ◌≤◌, ◌<◌, ◌≡◌, refl, sym, ap, ◌∙◌, Bool, true,
  false, ◌&&◌, ◌||◌, List, [], ◌∷◌, arith,
}
use skifity.Prelude.Int.{ℤ, leb_ℤ, eqb_ℤ, pos, negsuc}
use skifity.Cron.Number.{max_int, add_int, range_loop, range_fuel, range_of, contains_value}

-- Whether a value is one of low, low + step, low + 2 * step, … up to high.
abbrev pub on_grid : ℕ → ℕ → ℕ → ℤ → Bool
on_grid low high step (pos v) = leb low v && (leb v high && nat_beq ((v - low) % step) 0)
on_grid low high step (negsuc v) = false

mod_later : (low step v : ℕ) → low + step ≤ v → (v - low) % step ≡ (v - (low + step)) % step
mod_later low step v h =
    let e : (v - low) % step ≡ ((v - low) - step) % step = mod-eq-sub-mod (omega arith) in
    let f : (v - low) - step ≡ v - (low + step) = omega arith in e ∙ ap (λ x. x % step) f

mod_near : (low step v : ℕ) → v < low + step → low ≤ v → (v - low) % step ≡ v - low
mod_near low step v h l = mod-eq_of_lt (omega arith)

grid_step :
    (low high step : ℕ) (v : ℤ)
    → 0 < step
    → low ≤ high
    → (eqb_ℤ (pos low) v || on_grid (low + step) high step v) ≡ on_grid low high step v
grid_step low high step (negsuc v) h l = ground arith
grid_step low high step (pos v) h l = elim (dec_lt v (low + step)) [
  | yes near ↦ ground (arith, mod_near low step v near)
  | no far ↦ ground (arith, far, mod_later low step v)
]

off_grid : (low high step : ℕ) (v : ℤ) → high < low → on_grid low high step v ≡ false
off_grid low high step (pos v) h = ground arith
off_grid low high step (negsuc v) h = refl

add_int_fits : (low step : ℕ) → low + step ≤ max_int → add_int (pos low) step ≡ pos (low + step)
unfolding add_int
add_int_fits low step h = ground arith

range_turn :
    (low high step : ℕ) (v : ℤ) (rest : List ℤ)
    → 0 < step
    → low ≤ high
    → contains_value rest v ≡ on_grid (low + step) high step v
    → contains_value (elim (leb_ℤ (pos low) (pos high)) [ true ↦ pos low ∷ rest | false ↦ [] ]) v
      ≡ on_grid low high step v
unfolding contains_value
range_turn low high step v rest h l e = ground (arith, l, e, grid_step low high step v h l)

range_loop-on_grid :
    (fuel low high step : ℕ) (v : ℤ)
    → 0 < step
    → high + step ≤ max_int
    → high < low + fuel
    → contains_value (range_loop fuel (pos low) high step) v ≡ on_grid low high step v
unfolding range_loop contains_value
range_loop-on_grid zero low high step v h fits enough = sym (off_grid low high step v (omega arith))
range_loop-on_grid (suc fuel) low high step v h fits enough = elim (dec_lt high low) [
  | yes past ↦ ground (arith, past, off_grid low high step v past)
  | no within ↦
      range_turn low high step v (range_loop fuel (add_int (pos low) step) high step) h
        (omega arith)
        (rw (add_int_fits low step (omega arith))
          (range_loop-on_grid fuel (low + step) high step v h fits (omega arith)))
]

-- A range of at most 128 values, whose step is positive and does not reach past the largest int
-- from its end, holds exactly the values from its low end that are whole steps away, up to the
-- end.
pub range_of-on_grid :
    (low high step : ℕ) (v : ℤ)
    → 0 < step
    → high + step ≤ max_int
    → high < low + range_fuel
    → contains_value (range_of (pos low) high step) v ≡ on_grid low high step v
unfolding range_of
range_of-on_grid low high step v h fits enough =
    range_loop-on_grid range_fuel low high step v h fits enough

range_loop-head :
    (fuel : ℕ) (v : ℤ) (high step : ℕ)
    → leb_ℤ v (pos high) ≡ true
    → range_loop (suc fuel) v high step ≡ v ∷ range_loop fuel (add_int v step) high step
unfolding range_loop
range_loop-head fuel v high step e =
    ap (λ b. elim b [ true ↦ v ∷ range_loop fuel (add_int v step) high step | false ↦ [] ]) e

add_int_wraps :
    (low step : ℕ)
    → max_int < low + step
    → add_int (pos low) step ≡ negsuc (2 ^ 64 - (low + step) - 1)
unfolding add_int
add_int_wraps low step over = ground (arith, over)

leb_ℤ_pos : (low high : ℕ) → low ≤ high → leb_ℤ (pos low) (pos high) ≡ true
leb_ℤ_pos low high l = ground (arith, l)

leb_ℤ_negsuc : (w high : ℕ) → leb_ℤ (negsuc w) (pos high) ≡ true
leb_ℤ_negsuc w high = ground arith

contains_second :
    (fuel low high step : ℕ) (w : ℕ)
    → low ≤ high
    → add_int (pos low) step ≡ negsuc w
    → contains_value (range_loop (suc (suc fuel)) (pos low) high step) (negsuc w) ≡ true
unfolding contains_value
contains_second fuel low high step w l e =
    rw
      (
        range_loop-head (suc fuel) (pos low) high step (leb_ℤ_pos low high l),
        e,
        range_loop-head fuel (negsuc w) high step (leb_ℤ_negsuc w high),
      )
      (ground arith)

-- Where a step reaches past the largest int from the low end of a range, the int wraps: the range
-- holds a negative number, which no field has.
pub range_of_overflow :
    (low high step : ℕ)
    → low ≤ high
    → step ≤ max_int
    → high ≤ max_int
    → max_int < low + step
    → contains_value (range_of (pos low) high step) (negsuc (2 ^ 64 - (low + step) - 1)) ≡ true
unfolding range_of
range_of_overflow low high step l s h over =
    contains_second 126 low high step (2 ^ 64 - (low + step) - 1) l (add_int_wraps low step over)
