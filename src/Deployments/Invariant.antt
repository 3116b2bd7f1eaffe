-- ===== src/Deployments/Invariant.antt =====
-- Every sequence of writes keeps the keys of the rows apart and leaves no build log behind.
use skifity.Prelude.{
  if◌then◌else◌, nat_eq, ◌==◌, any, filter, All-append, ℕ, suc, ◌≡◌, refl, Bool, true, false, not,
  ◌&&◌, none, some, List, [], ◌∷◌, ◌++◌, map,
}
use skifity.Prelude.Text.{Text, text_eq}
use skifity.Prelude.Tables.{update_where}
use skifity.Prelude.TableLaws.{All-filter, All-zip, All-filter-holds, any_left, Apart-filter}
use skifity.Deployments.Rows.{
  is_unfinished, BuildLog, Operation, AuditEvent, Database, list_is_empty,
}
use skifity.Deployments.Writes.{
  status_or_queued, complete_draft, row_of, has_id, accepts_row, create_deployment, moved,
  update_deployment_status, set_deployment_image, replaceable, replaced,
  supersede_running_deployments,
}
use skifity.Deployments.Logs.{
  LogLine, last_seq, log_row, accepts_log, append_build_log, number_lines, append_build_logs,
  beyond_newest, prune_build_logs,
}
use skifity.Deployments.Retention.{
  or_default, is_spare, prune_deployments, prune_operations, prune_audit, prune,
}
use skifity.Deployments.Changes.{
  Change, after_write, or_unchanged, change, run, creates, updates, sets_image, supersedes, appends,
  appends_all, prunes_logs, prunes,
}
use skifity.Deployments.Consistent.{
  OtherId, OtherNumber, OtherLine, Owned, Consistent, create_step, rewrite-Consistent,
}
use skifity.Deployments.LogKeys.{
  last_seq-Bounded, snoc-OtherLine, number_lines-OtherLine, number_lines-Owned,
}

append_step :
    (b : Bool) (db : Database) (id : Text) (l : LogLine) (now : ℕ)
    → accepts_log db id ≡ b
    → Consistent db
    → Consistent (
        after_write db (
          if b
          then some (
            suc (last_seq id db.build_logs),
            record db {
              build_logs = db.build_logs ++ log_row id (suc (last_seq id db.build_logs)) l now ∷ [];
            },
          )
          else none))
append_step false db id l now e c = c
append_step true db id l now e c =
    let row = log_row id (suc (last_seq id db.build_logs)) l now in
    record {
      ids_apart = c.ids_apart;
      numbers_apart = c.numbers_apart;
      lines_apart =
          snoc-OtherLine id (last_seq id db.build_logs) db.build_logs l now
            (last_seq-Bounded id db.build_logs) c.lines_apart;
      logs_owned = All-append (Owned db.deployments) db.build_logs (row ∷ []) c.logs_owned (e, tt);
    }

append_all_step :
    (b : Bool) (db : Database) (id : Text) (lines : List LogLine) (now : ℕ)
    → accepts_log db id ≡ b
    → Consistent db
    → Consistent (
        or_unchanged db (
          if b
          then some (record db {
            build_logs = db.build_logs ++ number_lines id (last_seq id db.build_logs) now lines;
          })
          else none))
append_all_step false db id lines now e c = c
append_all_step true db id lines now e c = record {
  ids_apart = c.ids_apart;
  numbers_apart = c.numbers_apart;
  lines_apart =
      number_lines-OtherLine id (last_seq id db.build_logs) now lines db.build_logs
        (last_seq-Bounded id db.build_logs) c.lines_apart;
  logs_owned =
      All-append (Owned db.deployments) db.build_logs
        (number_lines id (last_seq id db.build_logs) now lines) c.logs_owned
        (number_lines-Owned db.deployments id (last_seq id db.build_logs) now lines e);
}

append_build_logs-Consistent :
    (db : Database) (id : Text) (lines : List LogLine) (now : ℕ)
    → Consistent db
    → Consistent (or_unchanged db (append_build_logs id lines now db))
unfolding append_build_logs
append_build_logs-Consistent db id [] now c = c
append_build_logs-Consistent db id (l ∷ lines) now c =
    append_all_step (accepts_log db id) db id (l ∷ lines) now refl c

-- The lines that are left belong to the deployments that are left.
prune_deployments-Consistent :
    (db : Database) (keep : ℕ) → Consistent db → Consistent (prune_deployments keep db).1
unfolding prune_deployments
prune_deployments-Consistent db keep c =
    let spare = is_spare db.deployments keep in
    let gone = λ (l : BuildLog). any (λ d. spare d && has_id l.deployment_id d) db.deployments in
    record {
      ids_apart = Apart-filter OtherId (λ d. not (spare d)) db.deployments c.ids_apart;
      numbers_apart = Apart-filter OtherNumber (λ d. not (spare d)) db.deployments c.numbers_apart;
      lines_apart = Apart-filter OtherLine (λ l. not (gone l)) db.build_logs c.lines_apart;
      logs_owned =
          All-zip (Owned db.deployments) (λ l. not (gone l) ≡ true)
            (Owned (filter (λ d. not (spare d)) db.deployments))
            (filter (λ l. not (gone l)) db.build_logs)
            (λ l owned left.
              any_left (has_id l.deployment_id) spare db.deployments owned (denied (gone l) left))
            (All-filter (Owned db.deployments) (λ l. not (gone l)) db.build_logs c.logs_owned)
            (All-filter-holds (λ l. not (gone l)) db.build_logs);
    }
  where
    denied : (b : Bool) → not b ≡ true → b ≡ false
    denied true h = cc
    denied false h = refl

same_rows :
    (db : Database) (operations : List Operation) (events : List AuditEvent)
    → Consistent db
    → Consistent (record db { operations = operations; audit_events = events })
same_rows db operations events c = record {
  ids_apart = c.ids_apart;
  numbers_apart = c.numbers_apart;
  lines_apart = c.lines_apart;
  logs_owned = c.logs_owned;
}

supersede_step :
    (b : Bool) (db : Database) (ids : List Text) (changed : Database)
    → Consistent db
    → Consistent changed
    → Consistent ((if◌then◌else◌ {A = List Text × Database} b (ids, db) (ids, changed)).1)
supersede_step true db ids changed c k = c
supersede_step false db ids changed c k = k

change-Consistent : (c : Change) (db : Database) → Consistent db → Consistent (change c db)
unfolding change create_deployment update_deployment_status set_deployment_image
    supersede_running_deployments append_build_log prune_build_logs prune prune_operations
    prune_audit
change-Consistent (creates new_id now draft) db v =
    let d = complete_draft new_id db draft in
    let row = row_of (status_or_queued draft.status) now d in
    create_step (accepts_row db row) db (record d { created_at = now }) row refl v
change-Consistent (updates id status code message hint now) db v =
    rewrite-Consistent db (λ d. has_id id d && is_unfinished d.status)
      (moved status code message hint now) (λ d. refl) (λ d. refl) (λ d. refl) v
change-Consistent (sets_image id image) db v =
    rewrite-Consistent db (has_id id) (λ d. record d { image = image }) (λ d. refl) (λ d. refl)
      (λ d. refl) v
change-Consistent (supersedes app except now) db v =
    let ids = map (λ d. d.id) (filter (replaceable app except) db.deployments) in
    supersede_step (list_is_empty ids) db ids
      (record db {
        deployments = update_where (replaceable app except) (replaced now) db.deployments;
      })
      v
      (rewrite-Consistent db (replaceable app except) (replaced now) (λ d. refl) (λ d. refl)
        (λ d. refl) v)
change-Consistent (appends id stream line now) db v =
    append_step (accepts_log db id) db id
      (record { seq = 0; stream = stream; line = line; at = none }) now refl v
change-Consistent (appends_all id lines now) db v = append_build_logs-Consistent db id lines now v
change-Consistent (prunes_logs app keep) db v =
    let old = beyond_newest db app keep in
    let kept = λ (l : BuildLog). not (any (λ id. id == l.deployment_id) old) in
    record {
      ids_apart = v.ids_apart;
      numbers_apart = v.numbers_apart;
      lines_apart = Apart-filter OtherLine kept db.build_logs v.lines_apart;
      logs_owned = All-filter (Owned db.deployments) kept db.build_logs v.logs_owned;
    }
change-Consistent (prunes now keep) db v =
    let left = (prune_deployments (or_default keep.deployments_per_app 50) db).1 in
    same_rows left _ _ (prune_deployments-Consistent db (or_default keep.deployments_per_app 50) v)

-- Every sequence of creating, updating, replacing, logging and pruning keeps the ids of the
-- deployments apart, the numbers of each app apart and the numbers of each build's lines apart,
-- and leaves no line of a deployment that is gone.
pub run-Consistent : (cs : List Change) (db : Database) → Consistent db → Consistent (run cs db)
unfolding run
run-Consistent [] db v = v
run-Consistent (c ∷ cs) db v = run-Consistent cs (change c db) (change-Consistent c db v)
