-- ===== src/Deployments/Settled.antt =====
-- A deployment that has finished stays as it finished.
use skifity.Prelude.{
  if◌then◌else◌, nat_eq, ◌==◌, filter, All, All-append, ℕ, ◌≡◌, refl, ap, ◌∙◌, Bool, true, false,
  not, ◌&&◌, Option, none, some, List, [], ◌∷◌, ◌++◌, map,
}
use skifity.Prelude.BoolLaws.{clash, right_true}
use skifity.Prelude.Text.{Text, text_eq}
use skifity.Prelude.Tables.{update_where}
use skifity.Prelude.TableLaws.{All-filter, All-update_where, All-update_where_if}
use skifity.Deployments.Rows.{
  DeploymentStatus, is_terminal, is_unfinished, Deployment, BuildLog, Database, list_is_empty,
  or_text, of_app, queued, building, deploying, succeeded, failed, cancelled, superseded,
}
use skifity.Deployments.Writes.{
  Draft, status_or_queued, complete_draft, row_of, has_id, accepts_row, create_deployment, moved,
  update_deployment_status, set_deployment_image, replaceable, replaced,
  supersede_running_deployments,
}
use skifity.Deployments.Logs.{
  LogLine, accepts_log, append_build_log, append_build_logs, prune_build_logs,
}
use skifity.Deployments.Retention.{
  or_default, is_spare, prune_deployments, prune_operations, prune_audit, prune,
}
use skifity.Deployments.Changes.{
  Change, after_write, or_unchanged, change, run, creates, updates, sets_image, supersedes, appends,
  appends_all, prunes_logs, prunes,
}

-- What a finished deployment is remembered by: its status, what went wrong, and when.
abbrev pub outcome : Deployment → DeploymentStatus × Text × Text × Text × Option ℕ × Option ℕ
outcome d = (d.status, d.error_code, d.error_message, d.error_hint, d.started_at, d.finished_at)

-- Every row with the id has the outcome.
abbrev pub Settled :
    Text → DeploymentStatus × Text × Text × Text × Option ℕ × Option ℕ → List Deployment → Type 0
Settled id o rows = All (λ d. has_id id d ≡ true → outcome d ≡ o) rows

-- A write makes no new row with the id.
abbrev pub Spares : Text → Change → Type 0
Spares id (creates new_id now draft) = (or_text draft.id new_id == id) ≡ false
Spares id _ = Unit {0}

terminal_is_not_unfinished : (s : DeploymentStatus) → is_terminal s ≡ true → is_unfinished s ≡ false
terminal_is_not_unfinished queued h = cc
terminal_is_not_unfinished building h = cc
terminal_is_not_unfinished deploying h = cc
terminal_is_not_unfinished succeeded h = refl
terminal_is_not_unfinished failed h = refl
terminal_is_not_unfinished cancelled h = refl
terminal_is_not_unfinished superseded h = refl

module _ (id : Text) (o : DeploymentStatus × Text × Text × Text × Option ℕ × Option ℕ)
    (terminal : is_terminal (o.0) ≡ true) where
  -- An unfinished row does not have the id.
  unfinished_is_other :
      (d : Deployment)
      → is_unfinished d.status ≡ true
      → (has_id id d ≡ true → outcome d ≡ o)
      → has_id id d ≡ true
      → ⊥
  unfinished_is_other d u h same =
      clash (is_unfinished d.status) u
        (terminal_is_not_unfinished d.status (ap (λ t. is_terminal (t.0)) (h same) ∙ terminal))

  settled_row : (d : Deployment) → (d.id == id) ≡ false → has_id id d ≡ true → outcome d ≡ o
  settled_row d other same = clash (has_id id d) same other

  create_step-Settled :
      (b : Bool) (db : Database) (d : Draft) (row : Deployment)
      → (row.id == id) ≡ false
      → Settled id o db.deployments
      → Settled id o
          (after_write db (
            if b
            then some (d, record db { deployments = db.deployments ++ row ∷ [] })
            else none)).deployments
  create_step-Settled true db d row other h =
      All-append (λ e. has_id id e ≡ true → outcome e ≡ o) db.deployments (row ∷ []) h
        (settled_row row other, tt)
  create_step-Settled false db d row other h = h

  append_step-Settled {ℓ} :
      {A : Type ℓ} (b : Bool) (db : Database) (a : A) (logs : List BuildLog)
      → Settled id o db.deployments
      → Settled id o
          (after_write db
            (if b then some (a, record db { build_logs = logs }) else none)).deployments
  append_step-Settled true db a logs h = h
  append_step-Settled false db a logs h = h

  append_all-Settled :
      (b : Bool) (db : Database) (logs : List BuildLog)
      → Settled id o db.deployments
      → Settled id o
          (or_unchanged db (if b then some (record db { build_logs = logs }) else none)).deployments
  append_all-Settled true db logs h = h
  append_all-Settled false db logs h = h

  append_build_logs-Settled :
      (lines : List LogLine) (name : Text) (now : ℕ) (db : Database)
      → Settled id o db.deployments
      → Settled id o (or_unchanged db (append_build_logs name lines now db)).deployments
  unfolding append_build_logs
  append_build_logs-Settled [] name now db h = h
  append_build_logs-Settled (l ∷ lines) name now db h =
      append_all-Settled (accepts_log db name) db _ h

  supersede_step-Settled :
      (b : Bool) (db : Database) (ids : List Text) (rows : List Deployment)
      → Settled id o db.deployments
      → Settled id o rows
      → Settled id o
          ((if◌then◌else◌ {A = List Text × Database} b
              (ids, db)
              (ids, record db { deployments = rows })).1
            ).deployments
  supersede_step-Settled true db ids rows h k = h
  supersede_step-Settled false db ids rows h k = k

  change-Settled :
      (c : Change) (db : Database)
      → Spares id c
      → Settled id o db.deployments
      → Settled id o (change c db).deployments
  unfolding change create_deployment update_deployment_status set_deployment_image
      supersede_running_deployments append_build_log prune_build_logs prune prune_deployments
      prune_operations prune_audit
  change-Settled (creates new_id now draft) db spare h =
      let d = complete_draft new_id db draft in
      let row = row_of (status_or_queued draft.status) now d in
      create_step-Settled (accepts_row db row) db (record d { created_at = now }) row spare h
  change-Settled (updates name status code message hint now) db spare h =
      All-update_where_if (λ e. has_id id e ≡ true → outcome e ≡ o)
        (λ d. has_id name d && is_unfinished d.status) (moved status code message hint now)
        db.deployments
        (λ d e kept same.
          absurd (
            unfinished_is_other d (right_true (has_id name d) (is_unfinished d.status) e) kept
              same))
        h
  change-Settled (sets_image name image) db spare h =
      All-update_where (λ e. has_id id e ≡ true → outcome e ≡ o) (has_id name)
        (λ d. record d { image = image }) db.deployments (λ d kept. kept) h
  change-Settled (supersedes app except now) db spare h =
      let ids = map (λ d. d.id) (filter (replaceable app except) db.deployments) in
      supersede_step-Settled (list_is_empty ids) db ids
        (update_where (replaceable app except) (replaced now) db.deployments) h
        (All-update_where_if (λ e. has_id id e ≡ true → outcome e ≡ o) (replaceable app except)
          (replaced now) db.deployments
          (λ d e kept same. absurd (
            unfinished_is_other d
              (right_true (not (has_id except d)) (is_unfinished d.status)
                (right_true (of_app app d) (not (has_id except d) && is_unfinished d.status) e))
              kept same))
          h)
  change-Settled (appends name stream line now) db spare h =
      append_step-Settled (accepts_log db name) db _ _ h
  change-Settled (appends_all name lines now) db spare h =
      append_build_logs-Settled lines name now db h
  change-Settled (prunes_logs app keep) db spare h = h
  change-Settled (prunes now keep) db spare h =
      let n = or_default keep.deployments_per_app 50 in
      All-filter (λ e. has_id id e ≡ true → outcome e ≡ o) (λ d. not (is_spare db.deployments n d))
        db.deployments h

  -- A deployment that has finished keeps its status, its error and its times through every
  -- sequence of writes that makes no new deployment with its id: late updates, replacements and
  -- the maintenance change nothing of it while it is there.
  pub run-Settled :
      (cs : List Change) (db : Database)
      → All (Spares id) cs
      → Settled id o db.deployments
      → Settled id o (run cs db).deployments
  unfolding run
  run-Settled [] db spare h = h
  run-Settled (c ∷ cs) db spare h =
      run-Settled cs (change c db) spare.1 (change-Settled c db spare.0 h)
