-- ===== src/Provision/Remove.antt =====
-- internal/provision/remove.go: removing a server, step by step. What the cluster and the machine
-- answer to a step is a parameter, as it is in AddServer.antt.
use skifity.Deployments.Rows.{op_pending, op_running, op_succeeded}
use skifity.Prelude.{
  if◌then◌else◌, nat_eq, ◌==◌, any, filter, ℕ, Bool, true, false, not, ◌&&◌, Option, none, some,
  List, [], ◌∷◌, ◌++◌,
}
use skifity.Prelude.Text.{Text, codes, text_eq}
use skifity.Provision.Plan.{
  StepStatus, StepRow, OperationRow, ServerRow, Records, create_operation, get_operation,
  set_operation_status, set_step_status, set_server_status, get_server, running, step_succeeded,
  step_failed, skipped, removing,
}
use skifity.Provision.Runner.{
  Failure, Provisioner, start_work, finish_work, on_context, fail_step, fail_operation, problem,
}
use skifity.Provision.AddServer.{StepResult, Ended}
use skifity.Provision.Drain.{
  Drained, no_list, no_answer, no_context, blocked, timed_out_with, done, out_of_fuel,
}

abbrev pub remove_server_steps : List Text
remove_server_steps = codes "cordon" ∷ codes "drain" ∷ codes "delete-node" ∷ codes "uninstall" ∷ []

-- The loop of a drain does not run out of its fuel.
abbrev pub moved_or_failed : Drained → Option Failure
moved_or_failed (done n) = none
moved_or_failed (blocked pod n) = some (
    problem (codes "cluster.drain_blocked")
      (codes "An app would go down if this server is removed"))
moved_or_failed (timed_out_with left n) =
    some (problem (codes "cluster.drain_timeout") (codes "Some instances would not move"))
moved_or_failed (no_list f) = some f
moved_or_failed (no_answer f n) = some f
moved_or_failed (no_context f n) = some f
moved_or_failed out_of_fuel = some (problem [] [])

-- What the three steps that may stop the removal answer, and the uninstallation.
pub record Removal : Type 0 where
  pub cordoned : StepResult
  pub drained : Drained
  pub live_when_drained : Bool
  pub node_deleted : StepResult
  pub uninstalled : StepResult
  pub wipe : Bool

abbrev pub drain_result : Removal → StepResult
drain_result r = record {
  failure = moved_or_failed r.drained;
  said = none;
  still_live = r.live_when_drained;
}

module _ (text : Text) (id : Text) (server : Text) (now : ℕ) where
  abbrev pub on_step : Bool → Text → StepStatus → Text → Text → Records → Records
  on_step live key status note detail db =
      on_context live (set_step_status id key status note detail now db) db

  -- A step that stops the removal if it fails.
  unfoldable pub stage : Text → Text → StepResult → Ended → Ended
  unfolding fail_step set_step_status
  stage key note r e =
      let live = e.live && r.still_live in
      let db = on_step e.live key running [] [] e.records in
      let begun = e.begun ++ key ∷ [] in
      if e.well
      then elim r.failure [
        | some f ↦ record {
          records = fail_step live id server key text f now db;
          begun = begun;
          well = false;
          live = live;
        }
        | none ↦ record {
          records = on_step live key step_succeeded note [] db;
          begun = begun;
          well = true;
          live = live;
        }
      ]
      else e

  abbrev pub wiped : Bool → StepResult → StepStatus × Text × Text
  wiped false r = (skipped, codes "uninstallSkipped", [])
  wiped true r = elim r.failure [
    | some f ↦ (step_failed, codes "uninstallFailed", text)
    | none ↦ (step_succeeded, codes "uninstalled", [])
  ]

  -- A machine that cannot be cleaned does not stop it.
  unfoldable pub uninstall_stage : Bool → StepResult → Ended → Ended
  unfolding set_step_status
  uninstall_stage wipe r e =
      let key = codes "uninstall" in
      let live = if wipe then e.live && r.still_live else e.live in
      let said = wiped wipe r in
      if e.well
      then record e {
        records =
            on_step live key said.0 said.1 said.2 (on_step e.live key running [] [] e.records);
        begun = e.begun ++ key ∷ [];
        live = live;
      }
      else e

  -- `DeleteServer` is refused where there is no such row.
  unfoldable pub delete_server : Bool → Records → Option Records
  delete_server live db =
      if live && any (λ s. s.id == server) db.servers
      then some (record db { servers = filter (λ s. not (s.id == server)) db.servers })
      else none

  unfoldable pub close_removal : Ended → Records
  unfolding delete_server fail_operation set_operation_status
  close_removal e =
      if e.well
      then elim (delete_server e.live e.records) [
        | none ↦ fail_operation e.live id server (codes "internal") text now e.records
        | some db ↦ on_context e.live (set_operation_status id op_succeeded [] now db) db
      ]
      else e.records

  abbrev pub opened_removal : Bool → Records → Ended
  opened_removal live db = record {
    records =
        on_context live
          (set_server_status server removing [] now (set_operation_status id op_running [] now db))
          db;
    begun = [];
    well = true;
    live = live;
  }

  unfoldable pub remove_stages : Removal → Ended → Ended
  unfolding stage uninstall_stage
  remove_stages r e = uninstall_stage r.wipe r.uninstalled (
      stage (codes "delete-node") (codes "nodeDeleted") r.node_deleted (
        stage (codes "drain") (codes "drained") (drain_result r)
          (stage (codes "cordon") (codes "cordoned") r.cordoned e)))

  -- The whole worker.
  unfoldable pub run_remove_server : Removal → Bool → Provisioner → Provisioner
  unfolding set_server_status set_operation_status remove_stages close_removal finish_work
  run_remove_server r live p =
      finish_work id
        (record p { records = close_removal (remove_stages r (opened_removal live p.records)) })

abbrev pub removal_of : ServerRow → OperationRow
removal_of s = record {
  id = [];
  team_id = s.team_id;
  target_type = codes "server";
  target_id = s.id;
  status = op_pending;
  error_code = [];
  created_at = 0;
  updated_at = 0;
  finished_at = none;
}

abbrev pub begin_work :
    OperationRow × Records → Provisioner → Option (OperationRow × List StepRow) × Provisioner
begin_work made p =
    let started = start_work made.0.id (record p { records = made.1 }) in
    (get_operation started.1.records made.0.id, started.1)

-- `RemoveServer`; without an answer there was an error.
unfoldable pub remove_server :
    Text → ℕ → Text → Provisioner → Option (OperationRow × List StepRow) × Provisioner
unfolding get_server create_operation start_work get_operation
remove_server new_id now server p = elim (get_server p.records server) [
  | none ↦ (none, p)
  | some s ↦ elim (create_operation new_id now (removal_of s) none remove_server_steps p.records) [
    | none ↦ (none, p)
    | some made ↦ begin_work made p
  ]
]
