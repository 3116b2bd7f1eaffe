-- ===== src/Provision/Steps.antt =====
-- What the steps of adding a server leave.
use skifity.Deployments.Rows.{op_running}
use skifity.Prelude.{
  nat_eq, ◌==◌, ℕ, ◌≡◌, refl, Bool, true, false, not, ◌&&◌, ◌||◌, Option, none, some, List, [], ◌∷◌,
}
use skifity.Prelude.Text.{Text, text_eq}
use skifity.Prelude.TableLaws.{All-imp}
use skifity.Provision.Plan.{
  StepStatus, StepRow, Records, is_finished, is_step_of, set_operation_status, set_step_status,
  set_server_status, running, step_succeeded, step_failed,
}
use skifity.Provision.Runner.{
  Failure, problem_code, failed_note, failed_status, failed_detail, fail_step, is_running,
  was_cancelled, timed_out, problem,
}
use skifity.Provision.AddServer.{
  step_connect, StepResult, Ended, after_step, failed_at, set_step, note_after, run_steps,
}
use skifity.Prelude.BoolLaws.{clash, left_true}
use skifity.Provision.Statuses.{
  HasStatus, IsOver, Quiet, Lingers, set_operation_status-IsOver, set_step_status-HasStatus,
  set_step_status-Lingers, set_step_status-Quiet,
}

-- When the loop is left. Where the context is over the operation still says that it runs.
abbrev pub Left : Text → Ended → Type 0
Left id e =
    (e.live ≡ true → Quiet id e.records.steps)
    × (e.well ≡ true → HasStatus id op_running e.records.operations)
    × (e.live ≡ false → HasStatus id op_running e.records.operations)
    × (e.well ≡ false → e.live ≡ true → IsOver id e.records.operations)

case_bool {κ} :
    (M : Ended → Type κ) (b : Bool) (x y : Ended)
    → (b ≡ true → M x)
    → (b ≡ false → M y)
    → M (elim b [ true ↦ x | false ↦ y ])
case_bool M true x y f g = f refl
case_bool M false x y f g = g refl

pub case_failure {κ} :
    (M : Ended → Type κ) (o : Option Failure) (x : Failure → Ended) (y : Ended)
    → ((f : Failure) → M (x f))
    → M y
    → M (elim o [ some f ↦ x f | none ↦ y ])
case_failure M none x y f g = g
case_failure M (some e) x y f g = f e

failed_status_finished : (f : Failure) → is_finished (failed_status f) ≡ true
failed_status_finished was_cancelled = refl
failed_status_finished timed_out = refl
failed_status_finished (problem code title) = refl

module _ (run : Text → StepResult) (text unread id server : Text) (now : ℕ) where
  -- A step that is running, or none.
  pub failed_at-Left :
      (key : Text) (f : Failure) (live : Bool) (db : Records)
      → HasStatus id op_running db.operations
      → (live ≡ true → Lingers id key db.steps)
      → Left id (failed_at run text unread id server now key f live db)
  unfolding fail_step set_operation_status set_server_status
  failed_at-Left key f true db runs lingers = (
    λ e.
        set_step_status-Quiet id key step_failed (failed_note f) (failed_detail text f) now db refl
          (lingers refl),
    λ e. absurd cc,
    λ e. absurd cc,
    λ e h.
        set_operation_status-IsOver id (problem_code f) now (failed_status f)
          (set_step_status id key step_failed (failed_note f) (failed_detail text f) now db)
          (failed_status_finished f),
  )
  failed_at-Left key f false db runs lingers =
      (λ e. absurd cc, λ e. absurd cc, λ e. runs, λ e h. absurd cc)

  pub set_step-HasStatus :
      (live : Bool) (key : Text) (status : StepStatus) (note : Text) (db : Records)
      → HasStatus id op_running db.operations
      → HasStatus id op_running
          (set_step run text unread id server now live key status note db).operations
  set_step-HasStatus true key status note db runs =
      set_step_status-HasStatus id key status note [] now db op_running runs
  set_step-HasStatus false key status note db runs = runs

  live_before : (a b : Bool) → (a && b) ≡ true → a ≡ true
  live_before a b = left_true a b

  -- A step that succeeded, where the context is live after it.
  pub stepped-Quiet :
      (live after : Bool) (key note : Text) (db : Records)
      → (live ≡ true → Quiet id db.steps)
      → (live && after) ≡ true
      → Quiet id
          (set_step run text unread id server now
            (live && after)
            key
            step_succeeded
            note
            (set_step run text unread id server now live key running [] db)).steps
  stepped-Quiet true true key note db quiet h =
      set_step_status-Quiet id key step_succeeded note [] now
        (set_step_status id key running [] [] now db) refl
        (set_step_status-Lingers id key running [] [] now db (quiet refl))
  stepped-Quiet true false key note db quiet h = absurd cc
  stepped-Quiet false after key note db quiet h = absurd cc

  pub begun-Lingers :
      (live after : Bool) (key : Text) (db : Records)
      → (live ≡ true → Quiet id db.steps)
      → (live && after) ≡ true
      → Lingers id key (set_step run text unread id server now live key running [] db).steps
  begun-Lingers true after key db quiet h =
      set_step_status-Lingers id key running [] [] now db (quiet refl)
  begun-Lingers false after key db quiet h = absurd cc

  Quiet-Lingers : (key : Text) (steps : List StepRow) → Quiet id steps → Lingers id key steps
  Quiet-Lingers key steps =
      All-imp (λ s. is_step_of id s ≡ true → is_running s.status ≡ false)
        (λ s. is_step_of id s ≡ true → is_running s.status ≡ true → (s.key == key) ≡ true) steps
        (λ s h of r. clash (is_running s.status) r (h of))

  pub run_steps-Left :
      (done : Text → Bool) (connected : Bool) (note : Text) (live : Bool) (keys : List Text)
      (db : Records)
      → HasStatus id op_running db.operations
      → (live ≡ true → Quiet id db.steps)
      → Left id (run_steps run text unread id server now done connected note live keys db)
  unfolding run_steps
  run_steps-Left done connected note live [] db runs quiet =
      (quiet, λ e. runs, λ e. runs, λ e. absurd cc)
  run_steps-Left done connected note live (key ∷ keys) db runs quiet =
      case_bool (Left id) (done key)
        (elim (key == step_connect && not connected) [
          | true ↦ elim (run key).failure [
            | some f ↦ failed f db
            | none ↦ after_step key (rest true said after db)
          ]
          | false ↦ rest connected note live db
        ])
        (elim (run key).failure [
          | some f ↦ failed f begun
          | none ↦ after_step key (rest (key == step_connect || connected) [] after stepped)
        ])
        (λ e.
          case_bool (Left id) (key == step_connect && not connected)
            (elim (run key).failure [
              | some f ↦ failed f db
              | none ↦ after_step key (rest true said after db)
            ])
            (rest connected note live db)
            (λ e.
              case_failure (Left id) (run key).failure (λ f. failed f db)
                (after_step key (rest true said after db))
                (λ f.
                  failed_at-Left key f after db runs
                    (λ h. Quiet-Lingers key db.steps (quiet (still_live h))))
                (run_steps-Left done true said after keys db runs (λ h. quiet (still_live h))))
            (λ e. run_steps-Left done connected note live keys db runs quiet))
        (λ e.
          case_failure (Left id) (run key).failure (λ f. failed f begun)
            (after_step key (rest (key == step_connect || connected) [] after stepped))
            (λ f.
              failed_at-Left key f after begun begun_runs
                (begun-Lingers live (run key).still_live key db quiet))
            (run_steps-Left done (key == step_connect || connected) [] after keys stepped
              (set_step-HasStatus after key step_succeeded said begun begun_runs)
              (stepped-Quiet live (run key).still_live key said db quiet)))
    where
      said : Text
      said = note_after run text unread id server now note key

      after : Bool
      after = live && (run key).still_live

      still_live : after ≡ true → live ≡ true
      still_live h = live_before live (run key).still_live h

      begun : Records
      begun = set_step run text unread id server now live key running [] db

      stepped : Records
      stepped = set_step run text unread id server now after key step_succeeded said begun

      begun_runs : HasStatus id op_running begun.operations
      begun_runs = set_step-HasStatus live key running [] db runs

      rest : Bool → Text → Bool → Records → Ended
      rest connected note live db =
          run_steps run text unread id server now done connected note live keys db

      failed : Failure → Records → Ended
      failed f db = failed_at run text unread id server now key f after db
