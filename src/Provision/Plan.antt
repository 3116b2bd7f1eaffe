-- ===== src/Provision/Plan.antt =====
-- internal/store/servers.go: operations and their steps, as the rows of the database. A column that
-- holds only a text to show, and one that no code here reads, is left out. The team of an operation
-- is one that exists.
use mathlib.Core.Option
use skifity.Deployments.Rows.{OperationStatus, op_pending, op_succeeded, op_failed, op_cancelled}
use skifity.Prelude.{
  leb, if◌then◌else◌, nat_eq, ◌==◌, any, filter, ℕ, suc, Bool, true, false, not, ◌&&◌, Option, none,
  some, List, [], ◌∷◌, ◌++◌,
}
use skifity.Prelude.Text.{Text, text_eq, is_empty}
use skifity.Prelude.Tables.{find, update_where, order_desc, order_asc, head}

pub data StepStatus : Type 0 where
  pending running step_succeeded step_failed skipped : StepStatus

pub record StepRow : Type 0 where
  pub operation_id : Text
  pub seq : ℕ
  pub key : Text
  pub status : StepStatus
  pub message_key : Text
  pub detail : Text
  pub started_at : Option ℕ
  pub finished_at : Option ℕ

pub record OperationRow : Type 0 where
  pub id : Text
  pub team_id : Text
  pub target_type : Text
  pub target_id : Text
  pub status : OperationStatus
  pub error_code : Text
  pub created_at : ℕ
  pub updated_at : ℕ
  pub finished_at : Option ℕ

pub data ServerStatus : Type 0 where
  server_pending provisioning ready not_ready server_failed removing : ServerStatus

pub record ServerRow : Type 0 where
  pub id : Text
  pub team_id : Text
  pub status : ServerStatus
  pub status_detail : Text
  pub updated_at : ℕ

-- The tables.
pub record Records : Type 0 where
  pub operations : List OperationRow
  pub steps : List StepRow
  pub servers : List ServerRow

abbrev pub is_finished : OperationStatus → Bool
is_finished op_succeeded = true
is_finished op_failed = true
is_finished op_cancelled = true
is_finished _ = false

abbrev pub status_or_pending : Option OperationStatus → OperationStatus
status_or_pending none = op_pending
status_or_pending (some s) = s

unfoldable pub planned_steps : Text → ℕ → List Text → List StepRow
planned_steps id seq [] = []
planned_steps id seq (key ∷ keys) =
    record {
      operation_id = id;
      seq = seq;
      key = key;
      status = pending;
      message_key = [];
      detail = [];
      started_at = none;
      finished_at = none;
    }
    ∷ planned_steps id (suc seq) keys

-- An operation and its steps; `none` is an id that is taken.
unfoldable pub create_operation :
    Text
    → ℕ
    → OperationRow
    → Option OperationStatus
    → List Text
    → Records
    → Option (OperationRow × Records)
unfolding planned_steps
create_operation new_id now op status keys db =
    let named = record op {
      id = if is_empty op.id then new_id else op.id;
      status = status_or_pending status;
      error_code = [];
      created_at = now;
      updated_at = now;
      finished_at = none;
    } in
    if any (λ o. o.id == named.id) db.operations
    then none
    else some (
      named,
      record db {
        operations = db.operations ++ named ∷ [];
        steps = db.steps ++ planned_steps named.id 0 keys;
      },
    )

abbrev pub is_step_of : Text → StepRow → Bool
is_step_of id s = s.operation_id == id

unfoldable pub list_operation_steps : Records → Text → List StepRow
unfolding order_asc
list_operation_steps db id = order_asc (λ s. s.seq) (filter (is_step_of id) db.steps)

-- The operation with its steps in order.
unfoldable pub get_operation : Records → Text → Option (OperationRow × List StepRow)
unfolding find list_operation_steps
get_operation db id =
    Option.map (λ o. (o, list_operation_steps db id)) (find (λ o. o.id == id) db.operations)

-- The row of the newest of the operations on a target.
unfoldable pub latest_operation : Records → Text → Text → Option OperationRow
unfolding order_desc head
latest_operation db target_type target_id = head (
    order_desc (λ o. o.created_at)
      (filter (λ o. o.target_type == target_type && o.target_id == target_id) db.operations))

abbrev pub coalesced : Option ℕ → Option ℕ → Option ℕ
coalesced (some t) old = some t
coalesced none old = old

abbrev pub with_status : OperationStatus → Text → ℕ → OperationRow → OperationRow
with_status status code now o = record o {
  status = status;
  error_code = code;
  updated_at = now;
  finished_at = coalesced (if is_finished status then some now else none) o.finished_at;
}

unfoldable pub set_operation_status : Text → OperationStatus → Text → ℕ → Records → Records
unfolding update_where
set_operation_status id status code now db = record db {
  operations = update_where (λ o. o.id == id) (with_status status code now) db.operations;
}

abbrev pub started_now : StepStatus → ℕ → Option ℕ
started_now running now = some now
started_now _ now = none

abbrev pub finished_now : StepStatus → ℕ → Option ℕ
finished_now step_succeeded now = some now
finished_now step_failed now = some now
finished_now skipped now = some now
finished_now _ now = none

abbrev pub is_keyed : Text → Text → StepRow → Bool
is_keyed id key s = is_step_of id s && s.key == key

abbrev pub with_step_status : StepStatus → Text → Text → ℕ → StepRow → StepRow
with_step_status status note detail now s = record s {
  status = status;
  message_key = note;
  detail = detail;
  started_at = coalesced (started_now status now) s.started_at;
  finished_at = coalesced (finished_now status now) s.finished_at;
}

unfoldable pub set_step_status : Text → Text → StepStatus → Text → Text → ℕ → Records → Records
unfolding update_where
set_step_status id key status note detail now db = record db {
  steps = update_where (is_keyed id key) (with_step_status status note detail now) db.steps;
  operations = update_where (λ o. o.id == id) (λ o. record o { updated_at = now }) db.operations;
}

abbrev pub reset_step : StepRow → StepRow
reset_step s = record s {
  status = pending;
  message_key = [];
  detail = [];
  started_at = none;
  finished_at = none;
}

-- Without a step of that key the comparison is with NULL, and no row is changed.
unfoldable pub reset_steps_from : Text → Text → Records → Records
unfolding find update_where
reset_steps_from id key db = elim (find (is_keyed id key) db.steps) [
  | none ↦ db
  | some from ↦ record db {
    steps = update_where (λ s. is_step_of id s && leb from.seq s.seq) reset_step db.steps;
  }
]

unfoldable pub list_running_operations : Records → List OperationRow
list_running_operations db = filter (λ o. not (is_finished o.status)) db.operations

unfoldable pub set_server_status : Text → ServerStatus → Text → ℕ → Records → Records
unfolding update_where
set_server_status id status detail now db = record db {
  servers =
      update_where (λ s. s.id == id)
        (λ s. record s { status = status; status_detail = detail; updated_at = now }) db.servers;
}

unfoldable pub get_server : Records → Text → Option ServerRow
unfolding find
get_server db id = find (λ s. s.id == id) db.servers
