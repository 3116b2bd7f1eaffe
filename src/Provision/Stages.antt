-- ===== src/Provision/Stages.antt =====
-- What the steps of a removal keep: what is known on the way, and whether the server is there.
use skifity.Deployments.Rows.{op_running}
use skifity.Prelude.{
  if◌then◌else◌, nat_eq, ◌==◌, any, ℕ, ◌≡◌, refl, ◌∙◌, Bool, true, false, ◌&&◌, Option, none, some,
  [], ◌∷◌, ◌++◌,
}
use skifity.Prelude.Text.{Text, codes, text_eq}
use skifity.Prelude.TableLaws.{any-update_where}
use skifity.Provision.Plan.{
  StepStatus, ServerStatus, Records, set_operation_status, set_step_status, set_server_status,
  running, step_succeeded, step_failed, server_failed,
}
use skifity.Provision.Runner.{
  Failure, problem_code, problem_title, failed_note, failed_status, failed_detail, fail_step,
  is_running,
}
use skifity.Provision.AddServer.{StepResult, Ended}
use skifity.Provision.Remove.{on_step, stage, wiped, uninstall_stage}
use skifity.Prelude.BoolLaws.{clash, left_true}
use skifity.Provision.Statuses.{
  HasStatus, Quiet, set_step_status-HasStatus, set_step_status-Lingers, set_step_status-Quiet,
}
use skifity.Provision.Steps.{
  Left, case_failure, failed_at-Left, set_step-HasStatus, stepped-Quiet, begun-Lingers,
}

case_if {κ} :
    (M : Ended → Type κ) (b : Bool) (x y : Ended)
    → (b ≡ true → M x)
    → (b ≡ false → M y)
    → M (if b then x else y)
case_if M true x y f g = f refl
case_if M false x y f g = g refl

module _ (text id server : Text) (now : ℕ) where
  -- Whether the table has the server.
  abbrev pub has_server : Records → Bool
  has_server db = any (λ s. s.id == server) db.servers

  pub set_server_status-has_server :
      (status : ServerStatus) (detail : Text) (db : Records)
      → has_server (set_server_status server status detail now db) ≡ has_server db
  unfolding set_server_status
  set_server_status-has_server status detail db =
      any-update_where (λ s. s.id == server) (λ s. s.id == server)
        (λ s. record s { status = status; status_detail = detail; updated_at = now }) db.servers
        (λ s. refl)

  fail_step-has_server :
      (live : Bool) (key : Text) (f : Failure) (db : Records)
      → has_server (fail_step live id server key text f now db) ≡ has_server db
  unfolding fail_step set_step_status set_operation_status
  fail_step-has_server true key f db =
      set_server_status-has_server server_failed (problem_title f) (
        set_operation_status id (failed_status f) (problem_code f) now
          (set_step_status id key step_failed (failed_note f) (failed_detail text f) now db))
  fail_step-has_server false key f db = refl

  on_step-has_server :
      (live : Bool) (key : Text) (status : StepStatus) (note detail : Text) (db : Records)
      → has_server (on_step text id server now live key status note detail db) ≡ has_server db
  unfolding set_step_status
  on_step-has_server true key status note detail db = refl
  on_step-has_server false key status note detail db = refl

  -- What each stage keeps.
  abbrev pub Going : Bool → Ended → Type 0
  Going had e = Left id e × (has_server e.records ≡ had)

  pub stage-Going :
      (had : Bool) (key note : Text) (r : StepResult) (e : Ended)
      → Going had e
      → Going had (stage text id server now key note r e)
  unfolding stage
  stage-Going had key note r e going =
      case_if (Going had) e.well (elim r.failure [ some f ↦ failed f | none ↦ went ]) e
        (λ w.
          case_failure (Going had) r.failure failed went
            (λ f. (
              failed_at-Left (λ k. r) text [] id server now key f live db (runs w)
                  (begun-Lingers (λ k. r) text [] id server now e.live r.still_live key e.records
                    going.0.0),
              fail_step-has_server live key f db ∙ begun_has,
            ))
            (
              (
                stepped-Quiet (λ k. r) text [] id server now e.live r.still_live key note e.records
                    going.0.0,
                λ h. stepped_runs w,
                λ h. stepped_runs w,
                λ h. absurd cc,
              ),
              on_step-has_server live key step_succeeded note [] db ∙ begun_has,
            ))
        (λ w. going)
    where
      live : Bool
      live = e.live && r.still_live

      db : Records
      db = on_step text id server now e.live key running [] [] e.records

      begun_has : has_server db ≡ had
      begun_has = on_step-has_server e.live key running [] [] e.records ∙ going.1

      failed : Failure → Ended
      failed f = record {
        records = fail_step live id server key text f now db;
        begun = e.begun ++ key ∷ [];
        well = false;
        live = live;
      }

      went : Ended
      went = record {
        records = on_step text id server now live key step_succeeded note [] db;
        begun = e.begun ++ key ∷ [];
        well = true;
        live = live;
      }

      runs : e.well ≡ true → HasStatus id op_running db.operations
      runs w =
          set_step-HasStatus (λ k. r) text [] id server now e.live key running [] e.records
            (going.0.1 w)

      stepped_runs :
          e.well ≡ true
          → HasStatus id op_running
              (on_step text id server now live key step_succeeded note [] db).operations
      stepped_runs w =
          set_step-HasStatus (λ k. r) text [] id server now live key step_succeeded note db (runs w)

  on_step-Quiet :
      (before live : Bool) (key : Text) (status : StepStatus) (note detail : Text) (db : Records)
      → is_running status ≡ false
      → (live ≡ true → before ≡ true)
      → (before ≡ true → Quiet id db.steps)
      → live ≡ true
      → Quiet id
          (on_step text id server now live key status note detail
            (on_step text id server now before key running [] [] db)).steps
  on_step-Quiet before false key status note detail db still lives quiet h = absurd cc
  on_step-Quiet true true key status note detail db still lives quiet h =
      set_step_status-Quiet id key status note detail now
        (set_step_status id key running [] [] now db) still
        (set_step_status-Lingers id key running [] [] now db (quiet refl))
  on_step-Quiet false true key status note detail db still lives quiet h =
      clash false (lives refl) refl

  on_step-HasStatus :
      (live : Bool) (key : Text) (status : StepStatus) (note detail : Text) (db : Records)
      → HasStatus id op_running db.operations
      → HasStatus id op_running
          (on_step text id server now live key status note detail db).operations
  on_step-HasStatus true key status note detail db runs =
      set_step_status-HasStatus id key status note detail now db op_running runs
  on_step-HasStatus false key status note detail db runs = runs

  wiped_still :
      (wipe : Bool) (r : StepResult) → is_running (wiped text id server now wipe r).0 ≡ false
  wiped_still false r = refl
  wiped_still true r = still r.failure
    where
      still :
          (o : Option Failure)
          → is_running
              (elim o as (λ _. StepStatus × Text × Text) [
                | some f ↦ (step_failed, codes "uninstallFailed", text)
                | none ↦ (step_succeeded, codes "uninstalled", [])
              ]).0
            ≡ false
      still (some f) = refl
      still none = refl

  live_before_wipe :
      (wipe live after : Bool) → (if wipe then live && after else live) ≡ true → live ≡ true
  live_before_wipe true live after h = left_true live after h
  live_before_wipe false live after h = h

  pub uninstall_stage-Going :
      (had wipe : Bool) (r : StepResult) (e : Ended)
      → Going had e
      → Going had (uninstall_stage text id server now wipe r e)
  unfolding uninstall_stage
  uninstall_stage-Going had wipe r e going =
      case_if (Going had) e.well
        (record e {
          records = on_step text id server now live key said.0 said.1 said.2 db;
          begun = e.begun ++ key ∷ [];
          live = live;
        })
        e
        (λ w. (
          (
            on_step-Quiet e.live live key said.0 said.1 said.2 e.records (wiped_still wipe r)
                (live_before_wipe wipe e.live r.still_live) going.0.0,
            λ h. runs w,
            λ h. runs w,
            λ h. clash e.well w h,
          ),
          on_step-has_server live key said.0 said.1 said.2 db
              ∙ on_step-has_server e.live key running [] [] e.records
              ∙ going.1,
        ))
        (λ w. going)
    where
      key : Text
      key = codes "uninstall"

      live : Bool
      live = if wipe then e.live && r.still_live else e.live

      said : StepStatus × Text × Text
      said = wiped text id server now wipe r

      db : Records
      db = on_step text id server now e.live key running [] [] e.records

      runs :
          e.well ≡ true
          → HasStatus id op_running
              (on_step text id server now live key said.0 said.1 said.2 db).operations
      runs w =
          on_step-HasStatus live key said.0 said.1 said.2 db
            (on_step-HasStatus e.live key running [] [] e.records (going.0.1 w))
