-- ===== src/Tests/Removals.antt =====
-- Runs of the removal of a server.
use skifity.Deployments.Rows.{op_failed, op_succeeded}
use skifity.Prelude.{
  nat_eq, ◌==◌, any, ℕ, zero, suc, ◌+◌, ◌*◌, ◌≡◌, refl, inr, true, false, none, some, List, [], ◌∷◌,
  arith,
}
use skifity.Prelude.Text.{Text, codes, text_eq}
use skifity.Prelude.Tables.{
  find, update_where, count, insert_desc, order_desc, insert_asc, order_asc, head,
}
use skifity.Provision.Plan.{
  planned_steps, create_operation, list_operation_steps, get_operation, latest_operation,
  set_operation_status, set_step_status, reset_steps_from, set_server_status, get_server, pending,
  step_succeeded, step_failed, ready, server_failed,
}
use skifity.Provision.Runner.{
  Provisioner, start_work, finish_work, fail_step, fail_operation, is_done, timed_out,
}
use skifity.Provision.AddServer.{StepResult, run_steps, attempt, run_add_server}
use skifity.Provision.Retry.{first_unfinished, retry_server}
use skifity.Provision.Drain.{
  Pod, is_daemon_set_pod, is_mirror_pod, Eviction, Poll, Drained, second, evict_all, outstanding,
  wait_until_gone, drain, evicted, blocked, done,
}
use skifity.Provision.Remove.{
  Removal, stage, uninstall_stage, delete_server, close_removal, remove_stages, run_remove_server,
  remove_server,
}
use skifity.Provision.Drains.{DrainEnded, drain-DrainEnded}
use skifity.Provision.Removes.{RemovalClosed, run_remove_server-Closed}
use skifity.Tests.Machines.{no_records, all_well, statuses, stuck_server}

-- A removal. The pod of an app is refused, and the server stays.
abbrev pod_of : Text → List Text → Pod
pod_of name owners = record {
  name = name;
  namespace = codes "shop";
  owner_kinds = owners;
  annotations = [];
}

abbrev app_pod : Pod
app_pod = pod_of (codes "web") (codes "ReplicaSet" ∷ [])

abbrev log_pod : Pod
log_pod = pod_of (codes "logs") (codes "DaemonSet" ∷ [])

abbrev evict_each : Pod → Eviction
evict_each pod = evicted

-- The pod of the app is gone at the third time.
abbrev what_is_left : ℕ → List Pod
what_is_left zero = log_pod ∷ app_pod ∷ []
what_is_left (suc zero) = log_pod ∷ app_pod ∷ []
what_is_left (suc (suc _)) = log_pod ∷ []

abbrev polls : ℕ → Poll
polls i = record { remaining = inr (what_is_left i); at = 7 + i * (5 * second); over = none }

drain_waits : drain true (inr (log_pod ∷ app_pod ∷ [])) evict_each polls 7 ≡ done 1
unfolding drain evict_all wait_until_gone outstanding count is_daemon_set_pod is_mirror_pod
drain_waits = refl

drain-DrainEnded_example :
    DrainEnded
      (inr (log_pod ∷ app_pod ∷ []))
      evict_each
      polls
      (drain true (inr (log_pod ∷ app_pod ∷ [])) evict_each polls 7)
drain-DrainEnded_example =
    drain-DrainEnded evict_each polls 7 (inr (log_pod ∷ app_pod ∷ [])) (λ i. omega arith)

abbrev works : StepResult
works = record { failure = none; said = none; still_live = true }

abbrev removal : Drained → Removal
removal d = record {
  cordoned = works;
  drained = d;
  live_when_drained = true;
  node_deleted = works;
  uninstalled = record works { failure = some timed_out };
  wipe = true;
}

abbrev settled_in : Provisioner
settled_in = record {
  records = record no_records { servers = record stuck_server { status = ready } ∷ [] };
  active = [];
}

abbrev leaving : Provisioner
leaving = (remove_server (codes "op") 10 (codes "srv") settled_in).1

abbrev removed : Drained → Provisioner
removed d = run_remove_server (codes "text") (codes "op") (codes "srv") 11 (removal d) true leaving

server_removed :
    statuses (removed (done 1)).records
    ≡ (op_succeeded ∷ [], step_succeeded ∷ step_succeeded ∷ step_succeeded ∷ step_failed ∷ [], [])
unfolding remove_server get_server find create_operation planned_steps start_work get_operation
    list_operation_steps run_remove_server remove_stages stage uninstall_stage close_removal
    delete_server finish_work set_operation_status set_step_status set_server_status update_where
    fail_step fail_operation
server_removed = refl

-- A retry of a removal that was stopped adds the server once more.
abbrev readded : Provisioner
readded =
    run_add_server all_well (codes "text") (codes "unread") (codes "op") (codes "srv") 13 true
      (retry_server (codes "srv") 12 (removed (blocked app_pod 0))).1

removal_retried :
    statuses (removed (blocked app_pod 0)).records
      ≡ (op_failed ∷ [], step_succeeded ∷ step_failed ∷ pending ∷ pending ∷ [], server_failed ∷ [])
    × statuses readded.records
      ≡ (op_succeeded ∷ [], step_succeeded ∷ pending ∷ pending ∷ pending ∷ [], ready ∷ [])
unfolding remove_server get_server find create_operation planned_steps start_work get_operation
    list_operation_steps run_remove_server remove_stages stage uninstall_stage close_removal
    delete_server finish_work set_operation_status set_step_status set_server_status update_where
    fail_step fail_operation run_add_server attempt run_steps is_done order_asc insert_asc
    retry_server latest_operation order_desc insert_desc head first_unfinished reset_steps_from
removal_retried = (refl, refl)

run_remove_server-Closed_example :
    RemovalClosed (codes "op") (codes "srv") true true true (removed (done 1)).records
    × any (λ a. a == codes "op") (removed (done 1)).active ≡ false
unfolding remove_server get_server find create_operation planned_steps start_work get_operation
    list_operation_steps remove_stages stage uninstall_stage set_operation_status set_step_status
    set_server_status update_where fail_step fail_operation
run_remove_server-Closed_example =
    run_remove_server-Closed (codes "text") (codes "op") (codes "srv") 11 (removal (done 1)) leaving
      (ground arith)
