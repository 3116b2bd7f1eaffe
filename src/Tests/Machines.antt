-- ===== src/Tests/Machines.antt =====
-- Runs of the provisioner.
use skifity.Deployments.Rows.{
  OperationStatus, op_pending, op_running, op_succeeded, op_failed, op_cancelled,
}
use skifity.Prelude.{
  if◌then◌else◌, nat_eq, ◌==◌, any, ◌≡◌, refl, true, false, none, some, List, [], ◌∷◌, map, arith,
}
use skifity.Prelude.Text.{Text, codes, text_eq}
use skifity.Prelude.Tables.{
  find, update_where, insert_desc, order_desc, insert_asc, order_asc, head,
}
use skifity.Provision.Plan.{
  StepStatus, OperationRow, ServerStatus, ServerRow, Records, planned_steps, create_operation,
  list_operation_steps, get_operation, latest_operation, set_operation_status, set_step_status,
  reset_steps_from, list_running_operations, set_server_status, get_server, pending, running,
  step_succeeded, step_failed, server_pending, provisioning, ready, server_failed,
}
use skifity.Provision.Runner.{
  Provisioner, start_work, finish_work, cancel_operation, fail_step, fail_operation, fail_panicked,
  is_done, interrupt_steps, interrupt, interrupt_all, resume_interrupted, timed_out, problem,
}
use skifity.Provision.AddServer.{add_server_steps, StepResult, run_steps, attempt, run_add_server}
use skifity.Provision.Retry.{first_unfinished, retry_server, under_way}
use skifity.Provision.Ends.{Closed, run_add_server-Closed}
use skifity.Provision.Stuck.{run_add_server-stuck}

abbrev blank_row : OperationRow
blank_row = record {
  id = [];
  team_id = codes "team";
  target_type = codes "server";
  target_id = codes "srv";
  status = op_pending;
  error_code = [];
  created_at = 0;
  updated_at = 0;
  finished_at = none;
}

abbrev pub no_records : Records
no_records = record {
  operations = [];
  steps = [];
  servers =
      record {
        id = codes "srv";
        team_id = codes "team";
        status = server_pending;
        status_detail = [];
        updated_at = 0;
      }
      ∷ [];
}

abbrev created : Records
created = elim (create_operation (codes "op") 5 blank_row none add_server_steps no_records) [
  | none ↦ no_records
  | some made ↦ made.1
]

abbrev idle : Provisioner
idle = record { records = created; active = codes "op" ∷ [] }

abbrev pub all_well : Text → StepResult
all_well key = record { failure = none; said = none; still_live = true }

-- The firewall step is refused, or takes until the time of the worker is up.
abbrev refused : Text → StepResult
refused key =
    if key == codes "firewall"
    then record {
      failure = some (problem (codes "ssh.failed") (codes "No"));
      said = none;
      still_live = true;
    }
    else record { failure = none; said = none; still_live = true }

abbrev too_slow : Text → StepResult
too_slow key =
    if key == codes "firewall"
    then record { failure = some timed_out; said = none; still_live = false }
    else record { failure = none; said = none; still_live = true }

abbrev worked : (Text → StepResult) → Provisioner
worked run =
    run_add_server run (codes "text") (codes "unread") (codes "op") (codes "srv") 9 true idle

abbrev pub statuses : Records → List OperationStatus × List StepStatus × List ServerStatus
statuses db = (
  map (λ o. o.status) db.operations,
  map (λ s. s.status) db.steps,
  map (λ s. s.status) db.servers,
)

created_waits : statuses created ≡ (
  op_pending ∷ [],
  pending ∷ pending ∷ pending ∷ pending ∷ pending ∷ pending ∷ pending ∷ [],
  server_pending ∷ [],
)
unfolding create_operation planned_steps
created_waits = refl

success_recorded : statuses (worked all_well).records ≡ (
  op_succeeded ∷ [],
  step_succeeded ∷ step_succeeded ∷ step_succeeded ∷ step_succeeded ∷ step_succeeded
      ∷ step_succeeded ∷ step_succeeded ∷ [],
  ready ∷ [],
)
unfolding create_operation planned_steps run_add_server attempt run_steps is_done finish_work
    set_operation_status set_step_status set_server_status update_where fail_step fail_operation
success_recorded = refl

refusal_recorded : statuses (worked refused).records ≡ (
  op_failed ∷ [],
  step_succeeded ∷ step_succeeded ∷ step_succeeded ∷ step_failed ∷ pending ∷ pending ∷ pending ∷ [],
  server_failed ∷ [],
)
unfolding create_operation planned_steps run_add_server attempt run_steps is_done finish_work
    set_operation_status set_step_status set_server_status update_where fail_step fail_operation
refusal_recorded = refl

timeout_unrecorded : statuses (worked too_slow).records ≡ (
  op_running ∷ [],
  step_succeeded ∷ step_succeeded ∷ step_succeeded ∷ running ∷ pending ∷ pending ∷ pending ∷ [],
  provisioning ∷ [],
)
unfolding create_operation planned_steps run_add_server attempt run_steps is_done finish_work
    set_operation_status set_step_status set_server_status update_where fail_step fail_operation
timeout_unrecorded = refl

-- After the panel has started again the retry goes on from the step that failed.
abbrev restarted : Provisioner
restarted = record { records = resume_interrupted 20 (worked too_slow).records; active = [] }

retried_goes_on : statuses (retry_server (codes "srv") 21 restarted).1.records ≡ (
  op_running ∷ [],
  step_succeeded ∷ step_succeeded ∷ step_succeeded ∷ pending ∷ pending ∷ pending ∷ pending ∷ [],
  server_failed ∷ [],
)
unfolding create_operation planned_steps run_add_server attempt run_steps is_done finish_work
    set_operation_status set_step_status set_server_status update_where fail_step fail_operation
    resume_interrupted interrupt_all interrupt interrupt_steps list_running_operations
    list_operation_steps order_asc insert_asc retry_server get_server find latest_operation
    order_desc insert_desc head first_unfinished reset_steps_from start_work get_operation
retried_goes_on = refl

-- A worker that is under way is not started again, one that panicked has ended.
started_once :
    (start_work (codes "op") idle).0 ≡ false
    × statuses (fail_panicked true (codes "op") 8 idle).records ≡ (
      op_failed ∷ [],
      pending ∷ pending ∷ pending ∷ pending ∷ pending ∷ pending ∷ pending ∷ [],
      server_pending ∷ [],
    )
unfolding create_operation planned_steps start_work fail_panicked finish_work set_operation_status
    update_where
started_once = (refl, refl)

cancelled_operation :
    (cancel_operation (codes "op") 7 idle).0 ≡ true
    × statuses (cancel_operation (codes "op") 7 idle).1.records ≡ (
      op_cancelled ∷ [],
      pending ∷ pending ∷ pending ∷ pending ∷ pending ∷ pending ∷ pending ∷ [],
      server_pending ∷ [],
    )
unfolding create_operation planned_steps cancel_operation set_operation_status update_where
cancelled_operation = (refl, refl)

run_add_server-Closed_example :
    Closed (codes "op") true false (worked refused).records
    × any (λ a. a == codes "op") (worked refused).active ≡ false
unfolding create_operation planned_steps attempt run_steps is_done set_operation_status
    set_step_status set_server_status update_where fail_step fail_operation
run_add_server-Closed_example =
    run_add_server-Closed refused (codes "text") (codes "unread") (codes "op") (codes "srv") 9 idle
      (ground arith)

abbrev pub stuck_server : ServerRow
stuck_server = record {
  id = codes "srv";
  team_id = codes "team";
  status = provisioning;
  status_detail = [];
  updated_at = 9;
}

abbrev stuck_row : OperationRow
stuck_row = record blank_row {
  id = codes "op";
  status = op_running;
  created_at = 5;
  updated_at = 9;
}

run_add_server-stuck_example :
    retry_server (codes "srv") 12 (worked too_slow) ≡ (under_way stuck_row, worked too_slow)
unfolding create_operation planned_steps attempt run_steps is_done set_operation_status
    set_step_status set_server_status update_where fail_step fail_operation get_server find
    latest_operation order_desc insert_desc head run_add_server finish_work
run_add_server-stuck_example =
    run_add_server-stuck too_slow (codes "text") (codes "unread") (codes "op") (codes "srv") 9 12
      idle stuck_server stuck_row (ground arith) refl refl refl refl
