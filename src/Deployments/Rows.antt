-- ===== src/Deployments/Rows.antt =====
-- internal/store/deployments.go: the deployments of the apps and their build logs, as the rows of
-- the database, and the questions that are asked about them. A failing statement of the database,
-- which leaves the rows as they are, is not in the model; the constraints of the tables are.
use mathlib.Core.Option
use skifity.Prelude.{
  ltb, leb, if◌then◌else◌, nat_eq, ◌==◌, take, filter, ℕ, suc, Bool, true, false, not, ◌&&◌, ◌||◌,
  Option, none, some, List, [], ◌∷◌, map,
}
use skifity.Prelude.Int.{ℤ, pos, negsuc}
use skifity.Prelude.Text.{Text, text_eq, is_empty}
use skifity.Prelude.Tables.{find, count, order_desc, order_asc, head}

pub data DeploymentStatus : Type 0 where
  queued building deploying succeeded failed cancelled superseded : DeploymentStatus

abbrev pub is_terminal : DeploymentStatus → Bool
is_terminal succeeded = true
is_terminal failed = true
is_terminal cancelled = true
is_terminal superseded = true
is_terminal _ = false

-- `status IN ('queued','building','deploying')`.
abbrev pub is_unfinished : DeploymentStatus → Bool
is_unfinished queued = true
is_unfinished building = true
is_unfinished deploying = true
is_unfinished _ = false

abbrev pub is_succeeded : DeploymentStatus → Bool
is_succeeded succeeded = true
is_succeeded _ = false

-- Times are nanoseconds since 1970.
pub record Deployment : Type 0 where
  pub id : Text
  pub app_id : Text
  pub number : ℕ
  pub status : DeploymentStatus
  pub trigger : Text
  pub rollback_of : ℕ
  pub commit_sha : Text
  pub commit_message : Text
  pub commit_author : Text
  pub image : Text
  pub build_fingerprint : Text
  pub runtime_spec : Text
  pub error_code : Text
  pub error_message : Text
  pub error_hint : Text
  pub created_by : Text
  pub created_at : ℕ
  pub started_at : Option ℕ
  pub finished_at : Option ℕ
  pub can_rollback : Bool

-- A line of build output and the deployment that it is of.
pub record BuildLog : Type 0 where
  pub deployment_id : Text
  pub seq : ℕ
  pub stream : Text
  pub line : Text
  pub at : ℕ

pub data OperationStatus : Type 0 where
  op_pending op_running op_succeeded op_failed op_cancelled : OperationStatus

-- The columns that the maintenance reads.
pub record Operation : Type 0 where
  pub id : Text
  pub status : OperationStatus
  pub created_at : ℕ

pub record AuditEvent : Type 0 where
  pub id : Text
  pub at : ℕ

-- `apps` are the ids that a deployment may refer to.
pub record Database : Type 0 where
  pub apps : List Text
  pub deployments : List Deployment
  pub build_logs : List BuildLog
  pub operations : List Operation
  pub audit_events : List AuditEvent

abbrev pub list_is_empty : List Text → Bool
list_is_empty [] = true
list_is_empty _ = false

abbrev pub or_text : Text → Text → Text
or_text value fallback = if is_empty value then fallback else value

abbrev pub of_app : Text → Deployment → Bool
of_app app d = d.app_id == app

-- A row as it is read: whether it can be rolled back to is not stored.
abbrev pub scan_deployment : Deployment → Deployment
scan_deployment d = record d { can_rollback = false }

unfoldable pub get_deployment : Database → Text → Option Deployment
unfolding find
get_deployment db id = Option.map scan_deployment (find (λ d. d.id == id) db.deployments)

-- The size of a page: a limit that is not positive, or above the most, is replaced.
abbrev pub page_size : ℤ → ℕ → ℕ → ℕ
page_size (negsuc _) most standard = standard
page_size (pos n) most standard = if n == 0 || ltb most n then standard else n

-- An app's rows, newest first.
unfoldable pub history : Database → Text → List Deployment
unfolding order_desc
history db app = order_desc (λ d. d.number) (filter (of_app app) db.deployments)

unfoldable pub list_deployments : Database → Text → ℤ → List Deployment
unfolding history
list_deployments db app limit = take (page_size limit 200 50) (map scan_deployment (history db app))

unfoldable pub latest_deployment : Database → Text → Option Deployment
unfolding history head
latest_deployment db app = Option.map scan_deployment (head (history db app))

unfoldable pub latest_successful_deployment : Database → Text → Option Deployment
unfolding history head
latest_successful_deployment db app =
    Option.map scan_deployment (head (filter (λ d. is_succeeded d.status) (history db app)))

abbrev pub is_reusable : Text → Deployment → Bool
is_reusable fingerprint d =
    d.build_fingerprint == fingerprint && (is_succeeded d.status && not (is_empty d.image))

unfoldable pub find_deployment_by_fingerprint : Database → Text → Text → Option Deployment
unfolding history head
find_deployment_by_fingerprint db app fingerprint =
    if is_empty fingerprint
    then none
    else Option.map scan_deployment (head (filter (is_reusable fingerprint) (history db app)))

unfoldable pub list_unfinished_deployments : Database → List Deployment
unfolding order_asc
list_unfinished_deployments db =
    map scan_deployment
      (order_asc (λ d. d.created_at) (filter (λ d. is_unfinished d.status) db.deployments))

-- Succeeded, with an image: what counts towards the images that the registry keeps.
abbrev pub has_image : Deployment → Bool
has_image d = is_succeeded d.status && not (is_empty d.image)

-- The loop of `MarkRollbackTargets`.
unfoldable pub mark_from : ℕ → ℕ → List Deployment → List Deployment
mark_from keep seen [] = []
mark_from keep seen (d ∷ ds) =
    if has_image d
    then record d { can_rollback = leb (suc seen) keep } ∷ mark_from keep (suc seen) ds
    else d ∷ mark_from keep seen ds

-- A number to keep that is below one is one.
abbrev pub at_least_one : ℤ → ℕ
at_least_one (pos (suc n)) = suc n
at_least_one _ = 1

unfoldable pub mark_rollback_targets : List Deployment → ℤ → List Deployment
unfolding mark_from
mark_rollback_targets ds keep = mark_from (at_least_one keep) 0 ds

-- `ROW_NUMBER()` over the rows that a test holds of, the highest number first.
abbrev pub rank : (Deployment → Bool) → List Deployment → Deployment → ℕ
rank p rows d = suc (count (λ e. p e && ltb d.number e.number) rows)

abbrev pub in_window : Text → Deployment → Bool
in_window app d = of_app app d && has_image d

unfoldable pub within_rollback_window : Database → Text → Text → ℤ → Bool
unfolding find count
within_rollback_window db app id keep =
    elim (find (λ d. in_window app d && d.id == id) db.deployments) [
      | none ↦ false
      | some d ↦ leb (rank (in_window app) db.deployments d) (at_least_one keep)
    ]
