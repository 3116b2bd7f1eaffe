-- ===== src/Deployments/Retention.antt =====
-- internal/store/retention.go: what the maintenance deletes, and the windows that
-- internal/serverapp/serverapp.go reads for it.
use skifity.Prelude.{
  ltb, leb, if◌then◌else◌, nat_eq, ◌==◌, any, filter, ℕ, zero, suc, ◌+◌, ◌-◌, ◌*◌, ◌/◌, ◌%◌, ◌^◌,
  Bool, true, false, not, ◌&&◌, ◌||◌, Option, none, some, List, [], ◌∷◌, ◌++◌,
}
use skifity.Prelude.Int.{ℤ, ltb_ℤ, pos, negsuc}
use skifity.Prelude.Text.{Text, codes, text_eq, trim_space, trim_right, text_ltb}
use skifity.Prelude.Tables.{count}
use skifity.Deployments.Rows.{
  is_terminal, Deployment, OperationStatus, Operation, Database, of_app, rank, op_succeeded,
  op_failed, op_cancelled,
}
use skifity.Cron.Number.{atoi}

pub record Retention : Type 0 where
  pub deployments_per_app : ℤ
  pub operation_days : ℤ
  pub audit_days : ℤ

abbrev pub default_retention : Retention
default_retention = record {
  deployments_per_app = pos 50;
  operation_days = pos 90;
  audit_days = pos 365;
}

pub record PruneReport : Type 0 where
  pub deployments : ℕ
  pub operations : ℕ
  pub audit_events : ℕ

abbrev pub is_empty_report : PruneReport → Bool
is_empty_report r = r.deployments == 0 && (r.operations == 0 && r.audit_events == 0)

abbrev pub day : ℕ
day = 24 * 3600 * 1000000000

-- `time.Duration(days) * 24 * time.Hour` in a signed integer of 64 bits, which wraps.
unfoldable pub window : ℕ → ℤ
window days =
    let bits = days * day % 2 ^ 64 in
    if ltb bits (2 ^ 63) then pos bits else negsuc (2 ^ 64 - bits - 1)

abbrev pub nanos : ℕ
nanos = 1000000000

-- The last digits of a number, as many as are asked for.
unfoldable pub padded : ℕ → ℕ → Text
padded zero n = []
padded (suc k) n = padded k (n / 10) ++ (48 + n % 10) ∷ []

-- What `FormatTime` writes after the seconds: the fraction without its last zeros, if it has one.
unfoldable pub stamp_tail : ℕ → Text
unfolding padded trim_right
stamp_tail at =
    if at % nanos == 0
    then codes "Z"
    else b'.' ∷ trim_right (λ c. c == b'0') (padded 9 (at % nanos)) ++ codes "Z"

-- A comparison of two times as texts. Up to the seconds they have the same width, so that there
-- their order is that of the seconds.
unfoldable pub is_before : ℕ → ℕ → Bool
unfolding stamp_tail text_ltb
is_before a b =
    ltb (a / nanos) (b / nanos)
    || (a / nanos == b / nanos && text_ltb (stamp_tail a) (stamp_tail b))

-- `created_at < now - window`, for a time that is not before 1970.
unfoldable pub is_older : ℕ → ℕ → ℤ → Bool
unfolding is_before
is_older now at (pos age) = leb age now && is_before at (now - age)
is_older now at (negsuc age) = is_before at (now + suc age)

abbrev pub is_finished : OperationStatus → Bool
is_finished op_succeeded = true
is_finished op_failed = true
is_finished op_cancelled = true
is_finished _ = false

abbrev pub or_default : ℤ → ℕ → ℕ
or_default (pos (suc n)) standard = suc n
or_default _ standard = standard

-- A finished deployment that `keep` finished ones of its app are newer than.
abbrev pub is_spare : List Deployment → ℕ → Deployment → Bool
is_spare rows keep d =
    is_terminal d.status && ltb keep (rank (λ e. is_terminal e.status && of_app d.app_id e) rows d)

-- The rows that a `DELETE` takes, whose build logs go with them.
unfoldable pub prune_deployments : ℕ → Database → ℕ × Database
unfolding count
prune_deployments keep db =
    let spare = is_spare db.deployments keep in
    let kept = filter (λ d. not (spare d)) db.deployments in
    (
      count spare db.deployments,
      record db {
        deployments = kept;
        build_logs =
            filter (λ l. not (any (λ d. spare d && d.id == l.deployment_id) db.deployments))
              db.build_logs;
      },
    )

abbrev pub old_operation : ℕ → ℤ → Operation → Bool
old_operation now age o = is_finished o.status && is_older now o.created_at age

unfoldable pub prune_operations : ℕ → ℤ → Database → ℕ × Database
unfolding count is_older
prune_operations now age db = (
  count (old_operation now age) db.operations,
  record db { operations = filter (λ o. not (old_operation now age o)) db.operations },
)

unfoldable pub prune_audit : ℕ → ℤ → Database → ℕ × Database
unfolding count is_older
prune_audit now age db = (
  count (λ e. is_older now e.at age) db.audit_events,
  record db { audit_events = filter (λ e. not (is_older now e.at age)) db.audit_events },
)

unfoldable pub prune : ℕ → Retention → Database → PruneReport × Database
prune now keep db =
    let (deployments, db1) = prune_deployments (or_default keep.deployments_per_app 50) db in
    let (operations, db2) = prune_operations now (window (or_default keep.operation_days 90)) db1 in
    let (audit, db3) = prune_audit now (window (or_default keep.audit_days 365)) db2 in
    (record { deployments = deployments; operations = operations; audit_events = audit }, db3)

unfoldable pub window_setting : Option Text → ℤ → ℤ
unfolding atoi trim_space
window_setting none standard = standard
window_setting (some value) standard = elim (atoi (trim_space value)) [
  | none ↦ standard
  | some n ↦ if ltb_ℤ (pos 0) n then n else standard
]

-- The windows of the settings; a setting that cannot be read is `none`.
unfoldable pub retention_from : Option Text → Option Text → Retention
unfolding window_setting
retention_from deployment_history audit_history_days = record {
  deployments_per_app = window_setting deployment_history (pos 50);
  operation_days = pos 90;
  audit_days = window_setting audit_history_days (pos 365);
}
