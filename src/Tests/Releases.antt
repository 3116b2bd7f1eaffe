-- ===== src/Tests/Releases.antt =====
-- The deployments of a shop, their build logs, and the maintenance.
use skifity.Prelude.{
  filter, All, ℕ, ◌+◌, ◌-◌, ◌<◌, ◌*◌, ◌%◌, ◌^◌, ◌≡◌, refl, true, false, Option, none, some, List,
  [], ◌∷◌, ◌++◌, map, arith,
}
use skifity.Prelude.Int.{pos, negsuc}
use skifity.Prelude.Text.{Text, codes, trim_left, trim_right, trim_space}
use skifity.Prelude.Tables.{update_where, max_of, insert_desc, order_desc}
use skifity.Deployments.Rows.{
  DeploymentStatus, Deployment, BuildLog, AuditEvent, Database, history, list_deployments,
  mark_from, mark_rollback_targets, within_rollback_window, queued, building, succeeded, superseded,
  op_failed,
}
use skifity.Deployments.Writes.{
  Draft, create_deployment, update_deployment_status, supersede_running_deployments,
}
use skifity.Deployments.Logs.{
  LogLine, append_build_log, number_lines, append_build_logs, lines_after, list_build_logs,
}
use skifity.Deployments.Retention.{
  Retention, nanos, stamp_tail, is_before, day, window, prune_audit, prune, window_setting,
  retention_from,
}
use skifity.Deployments.Changes.{
  Change, change, run, creates, updates, appends, appends_all, prunes,
}
use skifity.Deployments.Consistent.{Consistent}
use skifity.Deployments.Begin.{begin_deployment}
use skifity.Deployments.Invariant.{run-Consistent}
use skifity.Deployments.Settled.{Settled, run-Settled}
use skifity.Deployments.Within.{list_deployments-offers}
use skifity.Deployments.Replaced.{is_open, id_of, begin_deployment-alone}
use skifity.Deployments.Pages.{last_of}
use skifity.Deployments.Resume.{list_build_logs-resume}
use skifity.Deployments.Batch.{append_each, append_build_logs-each}
use skifity.Deployments.Spare.{nothing_removed, prune-again}
use skifity.Deployments.Windows.{is_young, prune_audit-seconds, prune-wraps}
use skifity.Prelude.Decimal.{read_digits}
use skifity.Cron.Number.{atoi}

abbrev empty_database : Database
empty_database = record {
  apps = codes "shop" ∷ [];
  deployments = [];
  build_logs = [];
  operations = [];
  audit_events = [];
}

abbrev draft : Draft
draft = record {
  id = [];
  app_id = codes "shop";
  number = 0;
  status = none;
  trigger = [];
  rollback_of = 0;
  commit_sha = codes "c0ffee";
  commit_message = [];
  commit_author = [];
  image = codes "shop:1";
  build_fingerprint = codes "f1";
  runtime_spec = [];
  created_by = codes "usr_1";
  created_at = 0;
}

abbrev finish : Text → Change
finish id = updates id succeeded [] [] [] 9

abbrev log_line : Text → LogLine
log_line text = record { seq = 0; stream = []; line = text; at = none }

abbrev changes : List Change
changes =
    creates (codes "a") 1 draft
    ∷ finish (codes "a")
    ∷ creates (codes "b") 2 draft
    ∷ finish (codes "b")
    ∷ creates (codes "c") 3 draft
    ∷ appends (codes "c") (codes "stdout") (codes "one") 4
    ∷ appends_all (codes "c") (log_line (codes "two") ∷ log_line (codes "three") ∷ []) 5
    ∷ []

empty_Consistent : Consistent empty_database
empty_Consistent = record { ids_apart = tt; numbers_apart = tt; lines_apart = tt; logs_owned = tt }

run-Consistent_example : Consistent (run changes empty_database)
run-Consistent_example = run-Consistent changes empty_database empty_Consistent

-- The three deployments that the changes leave, as a value.
abbrev row : Text → ℕ → DeploymentStatus → ℕ → Option ℕ → Deployment
row id number status at finished = record {
  id = id;
  app_id = codes "shop";
  number = number;
  status = status;
  trigger = codes "manual";
  rollback_of = 0;
  commit_sha = codes "c0ffee";
  commit_message = [];
  commit_author = [];
  image = codes "shop:1";
  build_fingerprint = codes "f1";
  runtime_spec = codes "{}";
  error_code = [];
  error_message = [];
  error_hint = [];
  created_by = codes "usr_1";
  created_at = at;
  started_at = none;
  finished_at = finished;
  can_rollback = false;
}

abbrev line : ℕ → Text → ℕ → BuildLog
line seq text at = record {
  deployment_id = codes "c";
  seq = seq;
  stream = codes "stdout";
  line = text;
  at = at;
}

abbrev shop : Database
shop = record {
  apps = codes "shop" ∷ [];
  deployments =
      row (codes "a") 1 succeeded 1 (some 9)
      ∷ row (codes "b") 2 succeeded 2 (some 9)
      ∷ row (codes "c") 3 queued 3 none
      ∷ [];
  build_logs = line 1 (codes "one") 4 ∷ line 2 (codes "two") 5 ∷ line 3 (codes "three") 5 ∷ [];
  operations = record { id = codes "op"; status = op_failed; created_at = 7 } ∷ [];
  audit_events = record { id = codes "e"; at = 8 } ∷ [];
}

shop_rows : (run changes empty_database).deployments ≡ shop.deployments
unfolding run change create_deployment max_of update_deployment_status update_where append_build_log
    append_build_logs number_lines
shop_rows = refl

shop_logs : (run changes empty_database).build_logs ≡ shop.build_logs
unfolding run change create_deployment max_of update_deployment_status update_where append_build_log
    append_build_logs number_lines
shop_logs = refl

shop-Consistent : Consistent shop
shop-Consistent = record {
  ids_apart = ((refl, (refl, tt)), ((refl, tt), (tt, tt)));
  numbers_apart = ((refl, (refl, tt)), ((refl, tt), (tt, tt)));
  lines_apart = ((refl, (refl, tt)), ((refl, tt), (tt, tt)));
  logs_owned = (refl, (refl, (refl, tt)));
}

-- The first deployment stays as it is, though a late write names it and it is pruned for.
abbrev late : List Change
late =
    updates (codes "a") building [] [] [] 10
    ∷ creates (codes "d") 11 draft
    ∷ prunes 12 (record { deployments_per_app = pos 1; operation_days = pos 0; audit_days = pos 0 })
    ∷ []

run-Settled_example :
    Settled (codes "a") (succeeded, [], [], [], none, some 9) (run late shop).deployments
run-Settled_example =
    run-Settled (codes "a") (succeeded, [], [], [], none, some 9) refl late shop
      (tt, (refl, (tt, tt))) ((λ e. refl), ((λ e. cc), ((λ e. cc), tt)))

list_deployments-offers_example :
    All
      (λ d. d.can_rollback ≡ within_rollback_window shop (codes "shop") d.id (pos 1))
      (mark_rollback_targets (list_deployments shop (codes "shop") (pos 50)) (pos 1))
list_deployments-offers_example =
    list_deployments-offers shop (codes "shop") (pos 50) (pos 1) shop-Consistent

-- The newest that succeeded is offered and the one before it is not.
shop_offers :
    map
      (λ d. d.can_rollback)
      (mark_rollback_targets (list_deployments shop (codes "shop") (pos 50)) (pos 1))
    ≡ false ∷ true ∷ false ∷ []
unfolding mark_rollback_targets mark_from list_deployments history order_desc insert_desc
shop_offers = refl

abbrev started : Draft × List Text × Database
started = (
  record draft {
    id = codes "d";
    number = 4;
    status = some queued;
    runtime_spec = codes "{}";
    created_at = 20;
  },
  codes "c" ∷ [],
  record shop {
    deployments =
        row (codes "a") 1 succeeded 1 (some 9)
        ∷ row (codes "b") 2 succeeded 2 (some 9)
        ∷ row (codes "c") 3 superseded 3 (some 21)
        ∷ row (codes "d") 4 queued 20 none
        ∷ [];
  },
)

begins : begin_deployment (codes "d") 20 21 draft shop ≡ some started
unfolding begin_deployment create_deployment max_of supersede_running_deployments update_where
begins = refl

begin_deployment-alone_example :
    (map id_of (filter (is_open (codes "shop")) started.2.deployments) ≡ codes "d" ∷ [])
    × (codes "c" ∷ [] ≡ map id_of (filter (is_open (codes "shop")) shop.deployments))
begin_deployment-alone_example =
    begin_deployment-alone (codes "d") 20 21 draft started.0 started.1 shop started.2 refl begins

list_build_logs-resume_example :
    lines_after shop (codes "c") (pos 0)
    ≡ list_build_logs shop (codes "c") (pos 0) (pos 2)
      ++ lines_after shop
          (codes "c")
          (last_of (pos 0) (list_build_logs shop (codes "c") (pos 0) (pos 2)))
list_build_logs-resume_example =
    list_build_logs-resume shop (codes "c") (pos 0) (pos 2) shop-Consistent

append_build_logs-each_example :
    append_build_logs (codes "c") (log_line (codes "x") ∷ log_line (codes "y") ∷ []) 30 shop
    ≡ append_each (codes "c") (log_line (codes "x") ∷ log_line (codes "y") ∷ []) 30 shop
append_build_logs-each_example =
    append_build_logs-each (codes "c") (log_line (codes "x") ∷ log_line (codes "y") ∷ []) 30 shop
      (refl, (refl, tt))

abbrev keep_one : Retention
keep_one = record { deployments_per_app = pos 1; operation_days = pos 90; audit_days = pos 999999 }

prune-again_example :
    prune 40 keep_one ((prune 40 keep_one shop).1) ≡ (nothing_removed, (prune 40 keep_one shop).1)
prune-again_example = prune-again 40 keep_one shop

abbrev kept_audit : List AuditEvent
kept_audit = (prune_audit (400 * day) (window 365) shop).1.audit_events

prune_audit-seconds_example :
    All (λ e. 400 * day < e.at + 365 * day + nanos) kept_audit
    × filter (is_young (400 * day) (365 * day)) kept_audit
      ≡ filter (is_young (400 * day) (365 * day)) shop.audit_events
prune_audit-seconds_example = prune_audit-seconds (400 * day) 365 shop (ground arith)

-- Within a second the texts have another order: half a second is before a whole one, and a whole
-- one is not before the half that follows it.
texts_of_a_second :
    (is_before (12 * nanos + 500000000) (12 * nanos) ≡ true)
    × (is_before (12 * nanos) (12 * nanos + 500000000) ≡ false)
    × (stamp_tail (12 * nanos + 500000000) ≡ codes ".5Z")
unfolding is_before stamp_tail
texts_of_a_second = (refl, refl, refl)

abbrev for_ever : Retention
for_ever = record { deployments_per_app = pos 50; operation_days = pos 90; audit_days = pos 200000 }

prune-wraps_example : (prune 40 for_ever shop).1.audit_events ≡ []
prune-wraps_example =
    prune-wraps 40 200000 for_ever shop refl (ground arith) (ground arith) (ground arith, tt)

-- A setting of 999999 days wraps too.
nines : window 999999 ≡ negsuc (2 ^ 64 - 999999 * day % 2 ^ 64 - 1)
unfolding window
nines = refl

nines_setting : (retention_from none (some (codes " 999999 "))).audit_days ≡ pos 999999
unfolding retention_from window_setting atoi trim_space trim_left trim_right read_digits
nines_setting = refl
