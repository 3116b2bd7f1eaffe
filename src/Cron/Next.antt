-- ===== src/Cron/Next.antt =====
-- internal/cron/cron.go: `DueNow` and `NextRun`, and that the run they name is the first one.
use native.Mathlib.Decide.{ℕ_discrete}
use skifity.Prelude.{
  ℕ, zero, suc, ◌+◌, ◌-◌, ◌*◌, ◌/◌, ◌≤◌, ◌<◌, ◌≡◌, refl, sym, subst, Bool, true, false, Option,
  none, some, arith,
}
use skifity.Prelude.Text.{Text}
use skifity.Cron.Schedule.{ScheduleError, Result, Schedule, parse_schedule, matches, ok, err}
use skifity.Cron.Calendar.{moment, five_years_on}
use skifity.Cron.Calendar.Years.{five_years_on-long}

unfoldable pub due_now : Text → ℕ → Bool
due_now expression now = elim (parse_schedule expression) [
  | ok schedule ↦ matches schedule (moment now)
  | err _ ↦ false
]

pub data NextError : Type 0 where
  bad_schedule : ScheduleError → NextError
  never_fires : NextError

-- The loop, over the minutes that are left before the limit.
unfoldable pub scan : ℕ → Schedule → ℕ → Option ℕ
scan zero schedule candidate = none
scan (suc left) schedule candidate = elim (matches schedule (moment candidate)) [
  | true ↦ some candidate
  | false ↦ scan left schedule (candidate + 1)
]

-- `after` is in seconds; the candidates start with the minute that follows its own.
abbrev pub first_candidate : ℕ → ℕ
first_candidate after = after / 60 + 1

unfoldable pub next_of : Schedule → ℕ → Result NextError ℕ
unfolding scan
next_of schedule after =
    let candidate = first_candidate after in
    elim (scan (five_years_on candidate - candidate) schedule candidate) [
      | some time ↦ ok time
      | none ↦ err never_fires
    ]

unfoldable pub next_run : Text → ℕ → Result NextError ℕ
unfolding next_of
next_run expression after = elim (parse_schedule expression) [
  | ok schedule ↦ next_of schedule after
  | err e ↦ err (bad_schedule e)
]

abbrev pub Fires : Schedule → ℕ → Type 0
Fires schedule n = matches schedule (moment n) ≡ true

-- What a scan of the minutes from `low` up to `high` may answer.
abbrev pub IsFirst : Schedule → ℕ → ℕ → Option ℕ → Type 0
IsFirst schedule low high none = (n : ℕ) → low ≤ n → n < high → ¬ Fires schedule n
IsFirst schedule low high (some t) =
    (low ≤ t) × (t < high) × Fires schedule t × ((n : ℕ) → low ≤ n → n < t → ¬ Fires schedule n)

later-IsFirst :
    (schedule : Schedule) (low high : ℕ) (found : Option ℕ)
    → ¬ Fires schedule low
    → low < high
    → IsFirst schedule (low + 1) high found
    → IsFirst schedule low high found
later-IsFirst schedule low high none quiet h first = λ n p q f. elim (ℕ_discrete low n) [
  | yes same ↦ quiet (subst (Fires schedule) (sym same) f)
  | no other ↦ first n (omega arith) q f
]
later-IsFirst schedule low high (some t) quiet h (p, q, f, first) = (
  omega arith,
  q,
  f,
  λ n l u g. elim (ℕ_discrete low n) [
    | yes same ↦ quiet (subst (Fires schedule) (sym same) g)
    | no other ↦ first n (omega arith) u g
  ],
)

scan_step :
    (schedule : Schedule) (low high : ℕ) (now : Bool) (found : Option ℕ)
    → matches schedule (moment low) ≡ now
    → low < high
    → IsFirst schedule (low + 1) high found
    → IsFirst schedule low high (elim now [ true ↦ some low | false ↦ found ])
scan_step schedule low high true found e h first =
    (omega arith, h, e, λ n p q f. absurd (omega arith))
scan_step schedule low high false found e h first =
    later-IsFirst schedule low high found (λ f. cc) h first

scan-IsFirst :
    (left : ℕ) (schedule : Schedule) (low high : ℕ)
    → left ≡ high - low
    → IsFirst schedule low high (scan left schedule low)
unfolding scan
scan-IsFirst zero schedule low high e = λ n p q f. absurd (omega arith)
scan-IsFirst (suc left) schedule low high e =
    scan_step schedule low high (matches schedule (moment low)) (scan left schedule (low + 1)) refl
      (omega arith) (scan-IsFirst left schedule (low + 1) high (omega arith))

-- What `NextRun` promises of a time in seconds: a later minute at which the schedule fires, where
-- no minute between them does; or that no minute of the next 1825 days, five years, does.
abbrev pub IsNext : Schedule → ℕ → Result NextError ℕ → Type 0
IsNext schedule after (ok t) =
    (after < t * 60) × Fires schedule t × ((n : ℕ) → after < n * 60 → n < t → ¬ Fires schedule n)
IsNext schedule after (err never_fires) =
    (n : ℕ) → after < n * 60 → n * 60 ≤ after + 1825 * 86400 → ¬ Fires schedule n
IsNext schedule after (err (bad_schedule _)) = ⊥

-- What a scan from the first candidate means for the seconds.
scan-IsNext :
    (schedule : Schedule) (after : ℕ) (found : Option ℕ)
    → IsFirst schedule (first_candidate after) (five_years_on (first_candidate after)) found
    → IsNext schedule after (elim found [ some time ↦ ok time | none ↦ err never_fires ])
scan-IsNext schedule after none h = λ n p q.
    h n (omega (arith, p)) (omega (arith, p, q, five_years_on-long (first_candidate after)))
scan-IsNext schedule after (some t) (low, high, fires, first) =
    (omega (arith, low), fires, λ n p q. first n (omega (arith, p)) q)

-- For a schedule that is parsed, NextRun names a minute after the given time, in seconds, at
-- which the schedule fires, and no minute between them fires; or it says that it never fires, and
-- then no minute after the time and at most 1825 days later does.
pub next_of-IsNext :
    (schedule : Schedule) (after : ℕ) → IsNext schedule after (next_of schedule after)
unfolding next_of
next_of-IsNext schedule after =
    scan-IsNext schedule after
      (scan (five_years_on (first_candidate after) - first_candidate after) schedule
        (first_candidate after))
      (scan-IsFirst (five_years_on (first_candidate after) - first_candidate after) schedule
        (first_candidate after) (five_years_on (first_candidate after)) refl)
