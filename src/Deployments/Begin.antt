-- ===== src/Deployments/Begin.antt =====
-- internal/deploy/deployer.go: the rows that `Deploy` writes before the build starts.
use skifity.Prelude.{ℕ, Option, none, some, List}
use skifity.Prelude.Text.{Text}
use skifity.Deployments.Rows.{Database}
use skifity.Deployments.Writes.{Draft, create_deployment, supersede_running_deployments}

-- The deployments that are given back are those whose work is stopped.
unfoldable pub begin_deployment :
    Text → ℕ → ℕ → Draft → Database → Option (Draft × List Text × Database)
begin_deployment new_id now later draft db = elim (create_deployment new_id now draft db) [
  | none ↦ none
  | some (d, created) ↦
      let (replaced_ids, after) = supersede_running_deployments draft.app_id d.id later created in
      some (d, replaced_ids, after)
]
