-- ===== src/Cron/Schedule.antt =====
-- internal/cron/cron.go: parsing, matching and the canonical spelling.
use skifity.Prelude.{
  ltb, if◌then◌else◌, ◌==◌, nat_eq, length, ℕ, suc, Bool, true, false, not, ◌||◌, Option, none,
  some, List, [], ◌∷◌, ◌++◌, map,
}
use skifity.Prelude.Int.{ℤ, pos_part, leb_ℤ, ltb_ℤ, eqb_ℤ, pos, negsuc}
use skifity.Prelude.Text.{Text, codes, text_eq, contains_byte, split, cut, fields, join}
use skifity.Prelude.Decimal.{format_uint}
use skifity.Cron.Number.{atoi, range_of, contains_value}

pub data FieldError : Type 0 where
  bad_step not_a_number out_of_range no_values : FieldError

pub data ScheduleError : Type 0 where
  wrong_field_count : ℕ → ScheduleError
  minute hour day_of_month month day_of_week : FieldError → ScheduleError

pub data Result {ℓ κ} (E : Type ℓ) (A : Type κ) : Type (ℓ ⊔ κ) where
  ok : A → Result E A
  err : E → Result E A

infixl 5 ◌>>=◌
abbrev pub ◌>>=◌ {ℓ κ ι} :
    {E : Type ℓ} {A : Type κ} {B : Type ι} → Result E A → (A → Result E B) → Result E B
ok a >>= f = f a
err e >>= f = err e

abbrev pub or_error {ℓ κ} : {E : Type ℓ} {A : Type κ} → Option A → E → Result E A
or_error none e = err e
or_error (some a) e = ok a

abbrev wrap {ℓ κ ι} : {E : Type ℓ} {F : Type κ} {A : Type ι} → (E → F) → Result E A → Result F A
wrap f (ok a) = ok a
wrap f (err e) = err (f e)

-- The step of a part that has one.
unfoldable pub parse_step : Text → Result FieldError ℕ
parse_step text = elim (atoi text) [
  | none ↦ err bad_step
  | some (pos n) ↦ if n == 0 then err bad_step else ok n
  | some (negsuc n) ↦ err bad_step
]

-- `start-end`.
unfoldable pub parse_range : ℕ → ℕ → ℕ → Text → Text → Result FieldError (List ℤ)
parse_range low high step start_text end_text = do
  start ← or_error (atoi start_text) not_a_number
  end ← or_error (atoi end_text) not_a_number
  if ltb_ℤ start (pos low) || (ltb_ℤ (pos high) end || ltb_ℤ end start)
      then err out_of_range
      else ok (range_of start (pos_part end) step)

unfoldable pub parse_single : ℕ → ℕ → ℕ → Text → Result FieldError (List ℤ)
parse_single low high step part = do
  value ← or_error (atoi part) not_a_number
  if ltb_ℤ value (pos low) || ltb_ℤ (pos high) value
      then err out_of_range
      else if ltb 1 step
      then ok (range_of value high step)
      else ok (value ∷ [])

unfoldable pub parse_base : ℕ → ℕ → ℕ → Text → Result FieldError (List ℤ)
unfolding cut
parse_base low high step part =
    if part == b'*' ∷ []
    then ok (range_of (pos low) high step)
    else if contains_byte part b'-'
    then (let (start_text, end_text, _) = cut part b'-' in
        parse_range low high step start_text end_text)
    else parse_single low high step part

unfoldable pub parse_part : ℕ → ℕ → Text → Result FieldError (List ℤ)
unfolding parse_step parse_range parse_single parse_base atoi range_of contains_byte
parse_part low high part =
    let (base, step_text, has_step) = cut part b'/' in
    if has_step
    then parse_step step_text >>= (λ step. parse_base low high step base)
    else parse_base low high 1 part

unfoldable pub parse_parts : ℕ → ℕ → List Text → List ℤ → Result FieldError (List ℤ)
parse_parts low high [] out = ok out
parse_parts low high (part ∷ parts) out =
    parse_part low high part >>= (λ values. parse_parts low high parts (out ++ values))

abbrev pub some_values : List ℤ → Result FieldError (List ℤ)
some_values [] = err no_values
some_values (v ∷ vs) = ok (v ∷ vs)

unfoldable pub parse_field : Text → ℕ → ℕ → Result FieldError (List ℤ)
unfolding parse_parts parse_part range_of split
parse_field field low high =
    if field == b'*' ∷ []
    then ok (range_of (pos low) high 1)
    else parse_parts low high (split field b',') [] >>= some_values

pub record Schedule : Type 0 where
  pub minutes : List ℤ
  pub hours : List ℤ
  pub days_of_week : List ℤ
  pub days_of_month : List ℤ
  pub months : List ℤ
  pub day_of_month_restricted : Bool
  pub day_of_week_restricted : Bool

-- Cron accepts both 0 and 7 for Sunday.
abbrev sunday : ℤ → ℤ
sunday d = if eqb_ℤ d (pos 7) then pos 0 else d

unfoldable pub parse_fields : List Text → Result ScheduleError Schedule
parse_fields (f0 ∷ f1 ∷ f2 ∷ f3 ∷ f4 ∷ []) = do
  minutes ← wrap minute (parse_field f0 0 59)
  hours ← wrap hour (parse_field f1 0 23)
  days_of_month ← wrap day_of_month (parse_field f2 1 31)
  months ← wrap month (parse_field f3 1 12)
  days_of_week ← wrap day_of_week (parse_field f4 0 7)
  ok (record {
    minutes = minutes;
    hours = hours;
    days_of_week = map sunday days_of_week;
    days_of_month = days_of_month;
    months = months;
    day_of_month_restricted = not (f2 == b'*' ∷ []);
    day_of_week_restricted = not (f4 == b'*' ∷ []);
  })
parse_fields fs = err (wrong_field_count (length fs))

unfoldable pub parse_schedule : Text → Result ScheduleError Schedule
unfolding parse_fields
parse_schedule expression = parse_fields (fields expression)

-- What a schedule looks at in a time.
pub record Moment : Type 0 where
  pub minute : ℕ
  pub hour : ℕ
  pub day : ℕ
  pub month : ℕ
  pub weekday : ℕ

day_matches : Bool → Bool → Bool → Bool → Bool
day_matches true true dom dow = dom || dow
day_matches true false dom dow = dom
day_matches false true dom dow = dow
day_matches false false dom dow = true

unfoldable pub matches : Schedule → Moment → Bool
unfolding day_matches
matches s t =
    if not (contains_value s.minutes (pos t.minute))
      || (not (contains_value s.hours (pos t.hour)) || not (contains_value s.months (pos t.month)))
    then false
    else day_matches s.day_of_month_restricted s.day_of_week_restricted
        (contains_value s.days_of_month (pos t.day)) (contains_value s.days_of_week (pos t.weekday))

-- The loop of `joinValues` that leaves repeats out, in the order of first appearance.
distinct : List ℤ → List ℤ → List ℤ
distinct seen [] = []
distinct seen (v ∷ vs) =
    if contains_value seen v then distinct seen vs else v ∷ distinct (v ∷ seen) vs

-- `slices.Sort`.
insert_sorted : ℤ → List ℤ → List ℤ
insert_sorted v [] = v ∷ []
insert_sorted v (w ∷ ws) = if leb_ℤ v w then v ∷ w ∷ ws else w ∷ insert_sorted v ws

sort : List ℤ → List ℤ
sort [] = []
sort (v ∷ vs) = insert_sorted v (sort vs)

-- `strconv.Itoa`.
itoa : ℤ → Text
itoa (pos n) = format_uint n
itoa (negsuc n) = b'-' ∷ format_uint (suc n)

unfoldable pub join_values : List ℤ → Text
unfolding distinct insert_sorted sort itoa contains_value format_uint join
join_values values = join (map itoa (sort (distinct [] values))) (codes ",")

canonical_fields : List Text → Schedule → Text
canonical_fields (f0 ∷ f1 ∷ f2 ∷ f3 ∷ f4 ∷ []) s =
    join (f0 ∷ f1 ∷ f2 ∷ f3 ∷ (if f4 == b'*' ∷ [] then f4 else join_values s.days_of_week) ∷ [])
      (codes " ")
canonical_fields fs s = join fs (codes " ")

unfoldable pub canonical : Text → Result ScheduleError Text
unfolding canonical_fields
canonical expression = do
  schedule ← parse_schedule expression
  ok (canonical_fields (fields expression) schedule)
