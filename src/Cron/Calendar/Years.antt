-- ===== src/Cron/Calendar/Years.antt =====
-- A date and the days since 1970 that it stands for, and how far off the date five years on is.
use skifity.Prelude.{
  nat_eq, ◌==◌, ltb, if◌then◌else◌, Bool-cases, ℕ, zero, suc, ◌+◌, ◌-◌, ◌*◌, ◌/◌, ◌%◌, ◌≤◌, ◌≡◌,
  refl, ap, ◌∙◌, inl, inr, Bool, true, false, arith,
}
use skifity.Cron.Calendar.{
  is_leap, year_length, month_length, Date, month_from, date_from, date_of, years_days, months_days,
  five_years_on,
}

months_days_step :
    (i m k : ℕ) (leap : Bool)
    → k ≡ m + i
    → months_days (suc i) m leap ≡ months_days i m leap + month_length k leap
unfolding months_days
months_days_step zero m k leap e =
    let same : month_length k leap ≡ month_length m leap =
      ap (λ x. month_length x leap) {x = k} {y = m} (omega (arith, e)) in
    omega (arith, same)
months_days_step (suc i) m k leap e =
    omega (arith, months_days_step i (m + 1) k leap (omega (arith, e)))

years_days_step : (i y z : ℕ) → z ≡ y + i → years_days (suc i) y ≡ years_days i y + year_length z
unfolding years_days
years_days_step zero y z e =
    let same : year_length z ≡ year_length y = ap year_length {x = z} {y = y} (omega (arith, e)) in
    omega (arith, same)
years_days_step (suc i) y z e = omega (arith, years_days_step i (y + 1) z (omega (arith, e)))

-- The days since the year began, of a month and a day.
abbrev days_in : ℕ × ℕ → Bool → ℕ
days_in (m, d) leap = months_days (m - 1) 1 leap + (d - 1)

here :
    (i m : ℕ) (leap : Bool) (d : ℕ) → m ≡ suc i → days_in (m, d + 1) leap ≡ months_days i 1 leap + d
here i m leap d e =
    let same : months_days (m - 1) 1 leap ≡ months_days i 1 leap =
      ap (λ x. months_days x 1 leap) {x = m - 1} {y = i} (omega (arith, e)) in
    omega (arith, same)

month_from-days_in :
    (fuel i m : ℕ) (leap : Bool) (d : ℕ)
    → m ≡ suc i
    → days_in (month_from fuel m leap d) leap ≡ months_days i 1 leap + d
unfolding month_from
month_from-days_in zero i m leap d e = here i m leap d e
month_from-days_in (suc fuel) i m leap d e = elim (Bool-cases (ltb d (month_length m leap))) [
  | inl h ↦ rw h (here i m leap d e)
  | inr h ↦ rw h (
      let later =
        month_from-days_in fuel (suc i) (m + 1) leap (d - month_length m leap) (omega (arith, e)) in
      let step = months_days_step i 1 m leap (omega (arith, e)) in ground (arith, later, step, h))
]

-- The days since the start of 1970.
abbrev days_since : Date → ℕ
days_since date =
    years_days (date.year - 1970) 1970
    + months_days (date.month - 1) 1 (is_leap date.year)
    + (date.day - 1)

from_the_start : (leap : Bool) (d : ℕ) → months_days 0 1 leap + d ≡ d
unfolding months_days
from_the_start leap d = omega arith

pick :
    (M : Date → Type 0) (b : Bool) (x y : Date)
    → (b ≡ true → M x)
    → (b ≡ false → M y)
    → M (if b then x else y)
pick M true x y f g = f refl
pick M false x y f g = g refl

-- A date that is some days after 1970.
abbrev IsAfter : ℕ → Date → Type 0
IsAfter days date = (days_since date ≡ days) × (1970 ≤ date.year)

in_year :
    (i y d m n : ℕ)
    → y ≡ 1970 + i
    → days_in (m, n) (is_leap y) ≡ d
    → IsAfter (years_days i 1970 + d) (record { year = y; month = m; day = n })
in_year i y d m n e h =
    let same : years_days (y - 1970) 1970 ≡ years_days i 1970 =
      ap (λ x. years_days x 1970) {x = y - 1970} {y = i} (omega (arith, e)) in
    (omega (arith, same, h), omega (arith, e))

date_from-IsAfter :
    (fuel i y d : ℕ) → y ≡ 1970 + i → IsAfter (years_days i 1970 + d) (date_from fuel y d)
unfolding date_from
date_from-IsAfter zero i y d e =
    in_year i y d 1 (d + 1) e (here 0 1 (is_leap y) d refl ∙ from_the_start (is_leap y) d)
date_from-IsAfter (suc fuel) i y d e =
    pick (IsAfter (years_days i 1970 + d)) (ltb d (year_length y))
      (record {
        year = y;
        month = (month_from 11 1 (is_leap y) d).0;
        day = (month_from 11 1 (is_leap y) d).1;
      })
      (date_from fuel (y + 1) (d - year_length y))
      (λ h.
        in_year i y d (month_from 11 1 (is_leap y) d).0 (month_from 11 1 (is_leap y) d).1 e
          (month_from-days_in 11 0 1 (is_leap y) d refl ∙ from_the_start (is_leap y) d))
      (λ h.
        let later = date_from-IsAfter fuel (suc i) (y + 1) (d - year_length y) (omega (arith, e)) in
        let step = years_days_step i 1970 y (omega (arith, e)) in
        (
          next (years_days (suc i) 1970) (years_days i 1970) (year_length y) d _ h later.0 step,
          later.1,
        ))
  where
    next : (a b l d n : ℕ) → ltb d l ≡ false → n ≡ a + (d - l) → a ≡ b + l → n ≡ b + d
    next a b l d n h e f = ground (arith, h, e, f)

date_of-IsAfter : (days : ℕ) → IsAfter days (date_of days)
unfolding date_of
date_of-IsAfter days =
    let after = date_from-IsAfter (days / 365 + 1) 0 1970 days (omega arith) in
    (after.0 ∙ no_years days, after.1)
  where
    no_years : (d : ℕ) → years_days 0 1970 + d ≡ d
    no_years d = unfold years_days in omega arith

month_length-leap : (m : ℕ) → month_length m true ≡ month_length m false + (if m == 2 then 1 else 0)
month_length-leap m = ground arith

-- A leap year has one day more, from March on.
months_days-leap :
    (k m : ℕ)
    → (months_days k m false ≤ months_days k m true)
      × (months_days k m true ≤ months_days k m false + (if ltb m 3 then 1 else 0))
unfolding months_days
months_days-leap zero m = (omega arith, omega arith)
months_days-leap (suc k) m =
    let later = months_days-leap k (m + 1) in
    let now = month_length-leap m in (ground (arith, later, now), ground (arith, later, now))

year_length-days : (y : ℕ) → year_length y ≡ (if is_leap y then 366 else 365)
unfolding year_length
year_length-days y = refl

five_lengths :
    (i y : ℕ) → y ≡ 1970 + i → years_days i 1970 + year_length y + 1460 ≤ years_days (i + 5) 1970
five_lengths i y e =
    let s0 = years_days_step i 1970 y (omega (arith, e)) in
    let s1 = years_days_step (suc i) 1970 (y + 1) (omega (arith, e)) in
    let s2 = years_days_step (suc (suc i)) 1970 (y + 2) (omega (arith, e)) in
    let s3 = years_days_step (suc (suc (suc i))) 1970 (y + 3) (omega (arith, e)) in
    let s4 = years_days_step (suc (suc (suc (suc i)))) 1970 (y + 4) (omega (arith, e)) in
    let all_of : years_days (i + 5) 1970 ≡ years_days (suc (suc (suc (suc (suc i))))) 1970 =
      ap (λ x. years_days x 1970) {x = i + 5} {y = suc (suc (suc (suc (suc i))))} (omega arith) in
    omega
      (arith, s0, s1, s2, s3, s4, all_of, long (y + 1), long (y + 2), long (y + 3), long (y + 4))
  where
    long : (z : ℕ) → 365 ≤ year_length z
    long z = ground (arith, year_length-days z)

shifted :
    (k : ℕ) (a b : Bool) → months_days k 1 a + 365 ≤ months_days k 1 b + (if a then 366 else 365)
shifted k true true = omega arith
shifted k true false = omega (arith, months_days-leap k 1)
shifted k false true = omega (arith, months_days-leap k 1)
shifted k false false = omega arith

-- Five years have at least 1825 days.
pub five_years_on-long : (n : ℕ) → n + 1825 * 1440 ≤ five_years_on n
unfolding five_years_on
five_years_on-long n = late (date_of (n / 1440)) (date_of-IsAfter (n / 1440))
  where
    late :
        (date : Date)
        → IsAfter (n / 1440) date
        → n + 1825 * 1440
          ≤ (years_days (date.year + 5 - 1970) 1970
                + months_days (date.month - 1) 1 (is_leap (date.year + 5))
                + (date.day - 1))
              * 1440
            + n % 1440
    late date after =
        let i = date.year - 1970 in
        let same : years_days (date.year + 5 - 1970) 1970 ≡ years_days (i + 5) 1970 =
          ap (λ x. years_days x 1970) {x = date.year + 5 - 1970} {y = i + 5}
            (omega (arith, after.1)) in
        let lengths = five_lengths i date.year (omega (arith, after.1)) in
        let months = shifted (date.month - 1) (is_leap date.year) (is_leap (date.year + 5)) in
        omega (arith, same, lengths, months, after.0, year_length-days date.year)
