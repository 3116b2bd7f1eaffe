-- ===== src/Cron/Number.antt =====
-- internal/cron/cron.go: Go's int, which has 64 bits, and the loop of `rangeOf`.
use skifity.Prelude.{
  ltb, if◌then◌else◌, ◌==◌, nat_eq, ℕ, zero, suc, ◌+◌, ◌-◌, ◌^◌, ◌≡◌, refl, Bool, true, false, ◌||◌,
  Option, none, some, List, [], ◌∷◌,
}
use skifity.Prelude.Int.{ℤ, sub_ℕ, leb_ℤ, eqb_ℤ, pos, negsuc}
use skifity.Prelude.Text.{Text, text_eq}
use skifity.Prelude.Decimal.{read_digits}

abbrev pub max_int : ℕ
max_int = 2 ^ 63 - 1

-- `strconv.Atoi`.
unfoldable pub atoi : Text → Option ℤ
unfolding read_digits
atoi [] = none
atoi (c ∷ s) =
    if c == b'-'
    then elim (read_digits s) [
      | none ↦ none
      | some n ↦ if ltb (max_int + 1) n then none else some (sub_ℕ 0 n)
    ]
    else elim (read_digits (if c == b'+' then s else c ∷ s)) [
      | none ↦ none
      | some n ↦ if ltb max_int n then none else some (pos n)
    ]

-- `v + step` for a positive step: the sum wraps past the largest int.
unfoldable pub add_int : ℤ → ℕ → ℤ
add_int (pos n) step =
    if ltb max_int (n + step) then negsuc (2 ^ 64 - (n + step) - 1) else pos (n + step)
add_int (negsuc n) step = sub_ℕ step (suc n)

unfoldable pub range_loop : ℕ → ℤ → ℕ → ℕ → List ℤ
unfolding add_int
range_loop zero v high step = []
range_loop (suc fuel) v high step = elim (leb_ℤ v (pos high)) [
  | true ↦ v ∷ range_loop fuel (add_int v step) high step
  | false ↦ []
]

-- No field has more than 60 values.
abbrev pub range_fuel : ℕ
range_fuel = 128

unfoldable pub range_of : ℤ → ℕ → ℕ → List ℤ
unfolding range_loop
range_of low high step = range_loop range_fuel low high step

unfoldable pub contains_value : List ℤ → ℤ → Bool
contains_value [] v = false
contains_value (item ∷ values) v = eqb_ℤ item v || contains_value values v

range_of_example : range_of (pos 5) 59 15 ≡ pos 5 ∷ pos 20 ∷ pos 35 ∷ pos 50 ∷ []
unfolding range_of
range_of_example = refl

-- A step near the largest int wraps, and the loop goes on below its start.
range_of_wraps :
    range_of (pos 5) 59 max_int
    ≡ pos 5
      ∷ negsuc (2 ^ 63 - 5)
      ∷ pos 3
      ∷ negsuc (2 ^ 63 - 3)
      ∷ pos 1
      ∷ negsuc (2 ^ 63 - 1)
      ∷ negsuc 0
      ∷ []
unfolding range_of
range_of_wraps = refl
