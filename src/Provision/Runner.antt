-- ===== src/Provision/Runner.antt =====
-- internal/provision/runner.go: what is recorded of the operations that run, and which run. The
-- context of a worker is over once it was cancelled or took too long, and the database does not
-- take a write on it. The events that tell of the rows are left out.
use skifity.Deployments.Rows.{OperationStatus, op_failed, op_cancelled}
use skifity.Prelude.{
  if◌then◌else◌, nat_eq, ◌==◌, any, filter, ℕ, Bool, true, false, not, ◌&&◌, List, [], ◌∷◌, ◌++◌,
}
use skifity.Prelude.Text.{Text, codes, text_eq, is_empty}
use skifity.Provision.Plan.{
  StepStatus, StepRow, OperationRow, Records, list_operation_steps, set_operation_status, is_keyed,
  set_step_status, list_running_operations, set_server_status, running, step_succeeded, step_failed,
  server_failed,
}

-- Why a step failed: it was cancelled, it took too long, or a problem with its code and title.
pub data Failure : Type 0 where
  was_cancelled timed_out : Failure
  problem : Text → Text → Failure

-- `active` are the operations that have a worker.
pub record Provisioner : Type 0 where
  pub records : Records
  pub active : List Text

-- `start`: whether the work is begun. The same operation is never run twice at once.
unfoldable pub start_work : Text → Provisioner → Bool × Provisioner
start_work id p =
    if any (λ a. a == id) p.active then (false, p) else (true, record p { active = id ∷ p.active })

unfoldable pub finish_work : Text → Provisioner → Provisioner
finish_work id p = record p { active = filter (λ a. not (a == id)) p.active }

-- `Cancel`, where the worker of the operation is told to stop; `false` is the error.
unfoldable pub cancel_operation : Text → ℕ → Provisioner → Bool × Provisioner
unfolding set_operation_status
cancel_operation id now p =
    if any (λ a. a == id) p.active
    then (
      true,
      record p { records = set_operation_status id op_cancelled (codes "cancelled") now p.records },
    )
    else (false, p)

abbrev pub problem_code : Failure → Text
problem_code was_cancelled = codes "cancelled"
problem_code timed_out = codes "operation.timeout"
problem_code (problem code title) = code

abbrev pub problem_title : Failure → Text
problem_title was_cancelled = codes "Cancelled"
problem_title timed_out = codes "This took too long and was stopped"
problem_title (problem code title) = title

abbrev pub failed_note : Failure → Text
failed_note was_cancelled = codes "cancelled"
failed_note f = codes "problem:" ++ problem_code f

abbrev pub failed_status : Failure → OperationStatus
failed_status was_cancelled = op_cancelled
failed_status _ = op_failed

-- `text` is the rendered text of the problem, which a cancelled step does not have.
abbrev pub failed_detail : Text → Failure → Text
failed_detail text was_cancelled = []
failed_detail text _ = text

-- A write on a context, which is taken where the context is live.
abbrev pub on_context : Bool → Records → Records → Records
on_context live written db = if live then written else db

unfoldable pub fail_step : Bool → Text → Text → Text → Text → Failure → ℕ → Records → Records
unfolding set_step_status set_operation_status set_server_status
fail_step live id server key text f now db =
    on_context live
      (set_server_status server server_failed (problem_title f) now (
        set_operation_status id (failed_status f) (problem_code f) now
          (set_step_status id key step_failed (failed_note f) (failed_detail text f) now db)))
      db

unfoldable pub fail_operation : Bool → Text → Text → Text → Text → ℕ → Records → Records
unfolding set_operation_status set_server_status
fail_operation live id server code title now db =
    let failing = set_operation_status id op_failed code now db in
    on_context live
      (if is_empty server
        then failing
        else set_server_status server server_failed title now failing)
      db

-- A worker that panics is no longer active, and its operation has failed.
unfoldable pub fail_panicked : Bool → Text → ℕ → Provisioner → Provisioner
unfolding finish_work set_operation_status
fail_panicked live id now p =
    let stopped = finish_work id p in
    record stopped {
      records =
          on_context live (set_operation_status id op_failed (codes "internal") now stopped.records)
            stopped.records;
    }

abbrev pub is_success : StepStatus → Bool
is_success step_succeeded = true
is_success _ = false

abbrev pub is_running : StepStatus → Bool
is_running running = true
is_running _ = false

abbrev pub has_succeeded : StepRow → Bool
has_succeeded s = is_success s.status

-- `completedSteps`: whether a step of the key has succeeded.
unfoldable pub is_done : Records → Text → Text → Bool
is_done db id key = any (λ s. is_keyed id key s && has_succeeded s) db.steps

abbrev pub is_running_step : StepRow → Bool
is_running_step s = is_running s.status

-- The running steps of an operation, each written by its key.
unfoldable pub interrupt_steps : Text → ℕ → List StepRow → Records → Records
unfolding set_step_status
interrupt_steps id now [] db = db
interrupt_steps id now (s ∷ steps) db =
    let rest = interrupt_steps id now steps in
    if is_running_step s
    then rest (set_step_status id s.key step_failed (codes "interrupted") [] now db)
    else rest db

unfoldable pub interrupt : ℕ → OperationRow → Records → Records
unfolding set_operation_status list_operation_steps interrupt_steps set_server_status
interrupt now op db =
    let code = codes "operation.interrupted" in
    let title = codes "This was interrupted when the panel restarted" in
    let failing = set_operation_status op.id op_failed code now db in
    let stopped = interrupt_steps op.id now (list_operation_steps db op.id) failing in
    if op.target_type == codes "server"
    then set_server_status op.target_id server_failed title now stopped
    else stopped

unfoldable pub interrupt_all : ℕ → List OperationRow → Records → Records
unfolding interrupt
interrupt_all now [] db = db
interrupt_all now (op ∷ ops) db = interrupt_all now ops (interrupt now op db)

unfoldable pub resume_interrupted : ℕ → Records → Records
unfolding list_running_operations interrupt_all
resume_interrupted now db = interrupt_all now (list_running_operations db) db
