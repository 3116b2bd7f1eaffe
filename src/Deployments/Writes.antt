-- ===== src/Deployments/Writes.antt =====
-- internal/store/deployments.go: what writes deployments and build logs. A statement that breaks a
-- constraint of the tables is `none`, and its transaction is rolled back.
use skifity.Prelude.{
  if◌then◌else◌, nat_eq, ◌==◌, any, filter, ℕ, suc, Bool, false, not, ◌&&◌, Option, none, some,
  List, [], ◌∷◌, ◌++◌, map,
}
use skifity.Prelude.Text.{Text, codes, text_eq}
use skifity.Prelude.Tables.{update_where, max_of}
use skifity.Deployments.Rows.{
  DeploymentStatus, is_terminal, is_unfinished, Deployment, Database, list_is_empty, or_text,
  of_app, queued, building, deploying, superseded,
}

-- What a caller fills in of a deployment, with what is assigned to it.
pub record Draft : Type 0 where
  pub id : Text
  pub app_id : Text
  pub number : ℕ
  pub status : Option DeploymentStatus
  pub trigger : Text
  pub rollback_of : ℕ
  pub commit_sha : Text
  pub commit_message : Text
  pub commit_author : Text
  pub image : Text
  pub build_fingerprint : Text
  pub runtime_spec : Text
  pub created_by : Text
  pub created_at : ℕ

abbrev pub next_number : Text → List Deployment → ℕ
next_number app rows = suc (max_of (λ d. d.number) (filter (of_app app) rows))

abbrev pub status_or_queued : Option DeploymentStatus → DeploymentStatus
status_or_queued none = queued
status_or_queued (some s) = s

-- The defaults, and the number that the transaction assigns.
abbrev pub complete_draft : Text → Database → Draft → Draft
complete_draft new_id db d = record d {
  id = or_text d.id new_id;
  number = next_number d.app_id db.deployments;
  status = some (status_or_queued d.status);
  runtime_spec = or_text d.runtime_spec (codes "{}");
}

abbrev pub row_of : DeploymentStatus → ℕ → Draft → Deployment
row_of status now d = record {
  id = d.id;
  app_id = d.app_id;
  number = d.number;
  status = status;
  trigger = or_text d.trigger (codes "manual");
  rollback_of = d.rollback_of;
  commit_sha = d.commit_sha;
  commit_message = d.commit_message;
  commit_author = d.commit_author;
  image = d.image;
  build_fingerprint = d.build_fingerprint;
  runtime_spec = d.runtime_spec;
  error_code = [];
  error_message = [];
  error_hint = [];
  created_by = d.created_by;
  created_at = now;
  started_at = none;
  finished_at = none;
  can_rollback = false;
}

abbrev pub has_id : Text → Deployment → Bool
has_id id d = d.id == id

-- The constraints of the table: the app is there, the id is new, and the number is new to the app.
abbrev pub accepts_row : Database → Deployment → Bool
accepts_row db row =
    any (λ app. app == row.app_id) db.apps
    && (not (any (has_id row.id) db.deployments)
        && not (any (λ d. of_app row.app_id d && d.number == row.number) db.deployments))

unfoldable pub create_deployment : Text → ℕ → Draft → Database → Option (Draft × Database)
unfolding max_of
create_deployment new_id now draft db =
    let d = complete_draft new_id db draft in
    let row = row_of (status_or_queued draft.status) now d in
    if accepts_row db row
    then some
        (record d { created_at = now }, record db { deployments = db.deployments ++ row ∷ [] })
    else none

abbrev pub coalesce : Option ℕ → Option ℕ → Option ℕ
coalesce (some t) later = some t
coalesce none later = later

abbrev pub starts : DeploymentStatus → ℕ → Option ℕ
starts building now = some now
starts deploying now = some now
starts _ now = none

abbrev pub moved : DeploymentStatus → Text → Text → Text → ℕ → Deployment → Deployment
moved status code message hint now d = record d {
  status = status;
  error_code = code;
  error_message = message;
  error_hint = hint;
  started_at = coalesce d.started_at (starts status now);
  finished_at = coalesce (if is_terminal status then some now else none) d.finished_at;
}

unfoldable pub update_deployment_status :
    Text → DeploymentStatus → Text → Text → Text → ℕ → Database → Database
unfolding update_where
update_deployment_status id status code message hint now db = record db {
  deployments =
      update_where (λ d. has_id id d && is_unfinished d.status) (moved status code message hint now)
        db.deployments;
}

unfoldable pub set_deployment_image : Text → Text → Database → Database
unfolding update_where
set_deployment_image id image db = record db {
  deployments = update_where (has_id id) (λ d. record d { image = image }) db.deployments;
}

abbrev pub replaceable : Text → Text → Deployment → Bool
replaceable app except d = of_app app d && (not (has_id except d) && is_unfinished d.status)

abbrev pub replaced : ℕ → Deployment → Deployment
replaced now d = record d { status = superseded; finished_at = some now }

unfoldable pub supersede_running_deployments : Text → Text → ℕ → Database → List Text × Database
unfolding update_where
supersede_running_deployments app except now db =
    let ids = map (λ d. d.id) (filter (replaceable app except) db.deployments) in
    if list_is_empty ids then (ids, db) else (
      ids,
      record db {
        deployments = update_where (replaceable app except) (replaced now) db.deployments;
      },
    )
