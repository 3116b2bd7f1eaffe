-- ===== src/Cron/Fuel.antt =====
-- The fuel of `rangeOf` is enough, also where its int wraps.
use native.Mathlib.Decide.{dec_lt}
use skifity.Prelude.{
  ℕ, zero, suc, ◌+◌, ◌-◌, ◌*◌, ◌^◌, ◌≤◌, ◌<◌, ◌≡◌, refl, sym, ap, subst, ◌∙◌, true, false, List, [],
  ◌∷◌, arith,
}
use skifity.Prelude.Int.{ℤ, leb_ℤ, pos, negsuc}
use skifity.Cron.Number.{max_int, add_int, range_loop, range_fuel, range_of}

-- More fuel gives the same values.
Settled : ℕ → ℤ → ℕ → ℕ → Type 0
Settled fuel v high step =
    (more : ℕ) → fuel ≤ more → range_loop more v high step ≡ range_loop fuel v high step

Settled-more :
    (fuel fuel' : ℕ) (v : ℤ) (high step : ℕ)
    → fuel ≤ fuel'
    → Settled fuel v high step
    → Settled fuel' v high step
unfolding Settled
Settled-more fuel fuel' v high step l h = λ more m. h more (omega (arith, l, m)) ∙ sym (h fuel' l)

stopped-Settled :
    (fuel : ℕ) (v : ℤ) (high step : ℕ)
    → leb_ℤ v (pos high) ≡ false
    → range_loop fuel v high step ≡ []
unfolding range_loop
stopped-Settled zero v high step e = refl
stopped-Settled (suc fuel) v high step e =
    ap
      (λ b. elim b as (λ _. List ℤ) [
        | true ↦ v ∷ range_loop fuel (add_int v step) high step
        | false ↦ []
      ])
      e

past-Settled :
    (fuel : ℕ) (v : ℤ) (high step : ℕ) → leb_ℤ v (pos high) ≡ false → Settled fuel v high step
unfolding Settled
past-Settled fuel v high step e =
    λ more m. stopped-Settled more v high step e ∙ sym (stopped-Settled fuel v high step e)

next-Settled :
    (fuel : ℕ) (v : ℤ) (high step : ℕ)
    → Settled fuel (add_int v step) high step
    → Settled (suc fuel) v high step
unfolding Settled range_loop
next-Settled fuel v high step h zero m = absurd (omega (arith, m))
next-Settled fuel v high step h (suc more) m =
    ap (λ rest. elim (leb_ℤ v (pos high)) as (λ _. List ℤ) [ true ↦ v ∷ rest | false ↦ [] ])
      (h more (omega (arith, m)))

is_past : (n high : ℕ) → high < n → leb_ℤ (pos n) (pos high) ≡ false
is_past n high l = ground (arith, l)

add_int-pos : (n step : ℕ) → n + step ≤ max_int → add_int (pos n) step ≡ pos (n + step)
unfolding add_int
add_int-pos n step l = ground (arith, l)

-- A step that cannot wrap.
small-Settled :
    (fuel n high step : ℕ)
    → 0 < step
    → high + step ≤ max_int
    → high < n + fuel
    → Settled fuel (pos n) high step
small-Settled zero n high step s fits enough =
    past-Settled zero (pos n) high step (is_past n high (omega (arith, enough)))
small-Settled (suc fuel) n high step s fits enough = elim (dec_lt high n) [
  | yes past ↦ past-Settled (suc fuel) (pos n) high step (is_past n high past)
  | no within ↦ next-Settled fuel (pos n) high step (
      subst (λ v. Settled fuel v high step) (sym (add_int-pos n step (omega arith)))
        (small-Settled fuel (n + step) high step s fits (omega arith)))
]

add_int-wraps :
    (n step : ℕ) → max_int < n + step → add_int (pos n) step ≡ negsuc (2 ^ 64 - (n + step) - 1)
unfolding add_int
add_int-wraps n step l = ground (arith, l)

add_int-returns : (w step : ℕ) → w + 1 ≤ step → add_int (negsuc w) step ≡ pos (step - (w + 1))
unfolding add_int
add_int-returns w step l = ground (arith, l)

add_int-stays : (w step : ℕ) → step < w + 1 → add_int (negsuc w) step ≡ negsuc (w - step)
unfolding add_int
add_int-stays w step l = ground (arith, l)

-- `v + step` may be replaced by what it is.
after-Settled :
    (fuel : ℕ) (v next : ℤ) (high step : ℕ)
    → add_int v step ≡ next
    → Settled fuel next high step
    → Settled (suc fuel) v high step
after-Settled fuel v next high step e h =
    next-Settled fuel v high step (subst (λ x. Settled fuel x high step) (sym e) h)

wrapped-Settled :
    (fuel w n high step : ℕ)
    → step ≤ max_int
    → high ≤ 60
    → max_int < n + step
    → n ≤ high
    → w ≡ 2 ^ 64 - (n + step) - 1
    → ((m : ℕ) → m + 2 ≤ n → Settled (suc fuel) (pos m) high step)
    → Settled (suc (suc fuel)) (negsuc w) high step
wrapped-Settled fuel w n high step s h over l e rounds = elim (dec_lt step (w + 1)) [
  | no back ↦
      after-Settled (suc fuel) (negsuc w) (pos (step - (w + 1))) high step
        (add_int-returns w step (omega arith)) (rounds (step - (w + 1)) (omega arith))
  | yes below ↦
      after-Settled (suc fuel) (negsuc w) (negsuc (w - step)) high step (add_int-stays w step below)
        (after-Settled fuel (negsuc (w - step)) (pos (step - (w - step + 1))) high step
          (add_int-returns (w - step) step (omega arith))
          (past-Settled fuel (pos (step - (w - step + 1))) high step
            (is_past _ high (omega arith))))
]

-- The turns that so many returns take, beyond the first.
abbrev turns : ℕ → ℕ
turns zero = 2
turns (suc rounds) = suc (suc (turns rounds))

-- A step that wraps comes back at least two below where it was, or runs past the end.
large-Settled :
    (rounds n high step : ℕ)
    → step ≤ max_int
    → high ≤ 60
    → max_int < high + step
    → n < 2 * rounds
    → Settled (suc (turns rounds)) (pos n) high step
large-Settled zero n high step s h over l = absurd (omega (arith, l))
large-Settled (suc rounds) n high step s h over l = elim (dec_lt high n) [
  | yes past ↦ past-Settled _ (pos n) high step (is_past n high past)
  | no within ↦ elim (dec_lt max_int (n + step)) [
    | no fits ↦
        after-Settled (suc (suc (turns rounds))) (pos n) (pos (n + step)) high step
          (add_int-pos n step (omega arith))
          (past-Settled _ (pos (n + step)) high step (is_past (n + step) high (omega arith)))
    | yes wraps ↦
        after-Settled (suc (suc (turns rounds))) (pos n) (negsuc (2 ^ 64 - (n + step) - 1)) high
          step (add_int-wraps n step wraps)
          (wrapped-Settled (turns rounds) (2 ^ 64 - (n + step) - 1) n high step s h wraps
            (omega arith) refl (λ m below. large-Settled rounds m high step s h over (omega arith)))
  ]
]

-- For a range whose end is at most 60 and not below its start, and a positive step that an int
-- holds, the fuel of the loop is enough: with more of it the range is the same.
pub range_of_enough :
    (low high step more : ℕ)
    → 0 < step
    → step ≤ max_int
    → low ≤ high
    → high ≤ 60
    → range_fuel ≤ more
    → range_loop more (pos low) high step ≡ range_of (pos low) high step
unfolding range_of Settled
range_of_enough low high step more p s l h m = elim (dec_lt max_int (high + step)) [
  | yes wraps ↦
      Settled-more (suc (turns 31)) range_fuel (pos low) high step (omega arith)
        (large-Settled 31 low high step s h wraps (omega arith)) more m
  | no fits ↦
      Settled-more 61 range_fuel (pos low) high step (omega arith)
        (small-Settled 61 low high step p (omega arith) (omega arith)) more m
]
