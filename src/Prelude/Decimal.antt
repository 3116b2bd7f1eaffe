-- ===== src/Prelude/Decimal.antt =====
-- Decimal numbers in text: what strconv prints and reads.
use Prim.Native.Nat.{ℕ, zero, suc, ◌+◌, ◌-◌, ◌*◌, ◌/◌, ◌%◌}
use mathlib.Core.Path.{◌≡◌, refl}
use mathlib.Core.Bool.{◌||◌}
use mathlib.Core.List.{[], ◌∷◌}
use mathlib.Core.Option.{Option, none, some}
use skifity.Prelude.Tests.{ltb, nat_beq, if◌then◌else◌}
use skifity.Prelude.Text.{Text, codes}

digits_from : ℕ → ℕ → Text → Text
digits_from zero n out = out
digits_from (suc fuel) n out =
    let more = digits_from fuel (n / 10) ((b'0' + n % 10) ∷ out) in
    if nat_beq n 0 then out else more

-- `strconv.FormatUint(n, 10)`. A uint64 has at most twenty digits.
unfoldable pub format_uint : ℕ → Text
unfolding digits_from
format_uint n = if nat_beq n 0 then b'0' ∷ [] else digits_from 20 n []

scan_digits : ℕ → Text → Option ℕ
scan_digits n [] = some n
scan_digits n (c ∷ s) =
    if ltb c b'0' || ltb b'9' c then none else scan_digits (n * 10 + (c - b'0')) s

-- The value of a non-empty run of digits, with no bound.
unfoldable pub read_digits : Text → Option ℕ
unfolding scan_digits
read_digits [] = none
read_digits (c ∷ s) = scan_digits 0 (c ∷ s)

format_uint_example : format_uint 13335 ≡ codes "13335"
unfolding format_uint
format_uint_example = refl

read_digits_example : read_digits (codes "0042") ≡ some 42
unfolding read_digits
read_digits_example = refl
