-- ===== src/Deployments/Changes.antt =====
-- internal/store/deployments.go and retention.go: any sequence of the writes to these tables.
use skifity.Prelude.{ℕ, Option, none, some, List, [], ◌∷◌}
use skifity.Prelude.Int.{ℤ}
use skifity.Prelude.Text.{Text}
use skifity.Deployments.Rows.{DeploymentStatus, Database}
use skifity.Deployments.Writes.{
  Draft, create_deployment, update_deployment_status, set_deployment_image,
  supersede_running_deployments,
}
use skifity.Deployments.Logs.{LogLine, append_build_log, append_build_logs, prune_build_logs}
use skifity.Deployments.Retention.{Retention, prune}

pub data Change : Type 0 where
  creates : Text → ℕ → Draft → Change
  updates : Text → DeploymentStatus → Text → Text → Text → ℕ → Change
  sets_image : Text → Text → Change
  supersedes : Text → Text → ℕ → Change
  appends : Text → Text → Text → ℕ → Change
  appends_all : Text → List LogLine → ℕ → Change
  prunes_logs : Text → ℤ → Change
  prunes : ℕ → Retention → Change

-- The rows after a write that may be refused.
abbrev pub after_write {ℓ} : {A : Type ℓ} → Database → Option (A × Database) → Database
after_write db none = db
after_write db (some (a, written)) = written

abbrev pub or_unchanged : Database → Option Database → Database
or_unchanged db none = db
or_unchanged db (some written) = written

unfoldable pub change : Change → Database → Database
change (creates new_id now draft) db = after_write db (create_deployment new_id now draft db)
change (updates id status code message hint now) db =
    update_deployment_status id status code message hint now db
change (sets_image id image) db = set_deployment_image id image db
change (supersedes app except now) db = (supersede_running_deployments app except now db).1
change (appends id stream line now) db = after_write db (append_build_log id stream line now db)
change (appends_all id lines now) db = or_unchanged db (append_build_logs id lines now db)
change (prunes_logs app keep) db = prune_build_logs app keep db
change (prunes now keep) db = (prune now keep db).1

unfoldable pub run : List Change → Database → Database
unfolding change
run [] db = db
run (c ∷ cs) db = run cs (change c db)
