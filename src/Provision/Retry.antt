-- ===== src/Provision/Retry.antt =====
-- internal/provision/provisioner.go: retrying a server from the step that failed.
use skifity.Deployments.Rows.{OperationStatus, op_running}
use skifity.Prelude.{if◌then◌else◌, ℕ, Bool, true, false, not, Option, none, some, List, [], ◌∷◌}
use skifity.Prelude.Text.{Text, codes}
use skifity.Provision.Plan.{
  StepRow, OperationRow, Records, list_operation_steps, get_operation, latest_operation,
  set_operation_status, reset_steps_from, get_server,
}
use skifity.Provision.Runner.{Provisioner, start_work, is_success}
use skifity.Provision.AddServer.{step_connect}

-- What a retry answers. `again` says whether a worker was started.
pub data Retried : Type 0 where
  no_server no_operation : Retried
  under_way : OperationRow → Retried
  again : Bool → Option (OperationRow × List StepRow) → Retried

abbrev pub is_op_running : OperationStatus → Bool
is_op_running op_running = true
is_op_running _ = false

-- The key of the first step that has not succeeded, or of the first step.
unfoldable pub first_unfinished : List StepRow → Text
first_unfinished [] = step_connect
first_unfinished (s ∷ steps) = if not (is_success s.status) then s.key else first_unfinished steps

abbrev pub reset_records : Text → ℕ → Records → Records
reset_records id now db =
    set_operation_status id op_running [] now
      (reset_steps_from id (first_unfinished (list_operation_steps db id)) db)

abbrev pub retry_operation : OperationRow → ℕ → Provisioner → Retried × Provisioner
retry_operation op now p =
    let started = start_work op.id (record p { records = reset_records op.id now p.records }) in
    (again started.0 (get_operation started.1.records op.id), started.1)

unfoldable pub retry_server : Text → ℕ → Provisioner → Retried × Provisioner
unfolding get_server latest_operation first_unfinished list_operation_steps reset_steps_from
    set_operation_status start_work get_operation
retry_server server now p = elim (get_server p.records server) [
  | none ↦ (no_server, p)
  | some _ ↦ elim (latest_operation p.records (codes "server") server) [
    | none ↦ (no_operation, p)
    | some op ↦ if is_op_running op.status then (under_way op, p) else retry_operation op now p
  ]
]
