-- ===== src/Provision/AddServer.antt =====
-- internal/provision/provisioner.go: adding a server, step by step. What a step does is outside
-- the model: `run` says how it ends and whether the context of the worker is live after it, `text`
-- is the text of its problem, and `unread` the title of the problem that the rows cannot be read.
use skifity.Deployments.Rows.{op_running, op_succeeded}
use skifity.Prelude.{
  if◌then◌else◌, nat_eq, ◌==◌, ℕ, Bool, true, false, not, ◌&&◌, ◌||◌, Option, none, some, List, [],
  ◌∷◌,
}
use skifity.Prelude.Text.{Text, codes, text_eq}
use skifity.Provision.Plan.{
  StepStatus, Records, set_operation_status, set_step_status, set_server_status, running,
  step_succeeded, provisioning, ready,
}
use skifity.Provision.Runner.{
  Failure, Provisioner, finish_work, on_context, fail_step, fail_operation, is_done,
}

abbrev pub step_connect : Text
step_connect = codes "connect"

abbrev pub add_server_steps : List Text
add_server_steps =
    step_connect
    ∷ codes "preflight"
    ∷ codes "install-key"
    ∷ codes "firewall"
    ∷ codes "connectivity"
    ∷ codes "install-k3s"
    ∷ codes "wait-ready"
    ∷ []

-- How a step ended, and the key of what it said, if anything.
pub record StepResult : Type 0 where
  pub failure : Option Failure
  pub said : Option Text
  pub still_live : Bool

-- The rows when the loop is left, the steps that were begun, whether all went well, and whether the
-- context is live.
pub record Ended : Type 0 where
  pub records : Records
  pub begun : List Text
  pub well : Bool
  pub live : Bool

abbrev pub after_step : Text → Ended → Ended
after_step key e = record e { begun = key ∷ e.begun }

module _ (run : Text → StepResult) (text : Text) (unread : Text) (id : Text) (server : Text)
    (now : ℕ) where
  abbrev pub failed_at : Text → Failure → Bool → Records → Ended
  failed_at key f live db = record {
    records = fail_step live id server key text f now db;
    begun = key ∷ [];
    well = false;
    live = live;
  }

  -- `setStep`, where there is no detail.
  abbrev pub set_step : Bool → Text → StepStatus → Text → Records → Records
  set_step live key status note db =
      on_context live (set_step_status id key status note [] now db) db

  -- `lastNote` after a step.
  abbrev pub note_after : Text → Text → Text
  note_after note key = elim (run key).said [ none ↦ note | some n ↦ n ]

  abbrev pub live_after : Bool → Text → Bool
  live_after live key = live && (run key).still_live

  -- The loop. `done` are the steps of an earlier attempt; the connection is made again for them.
  unfoldable pub run_steps : (Text → Bool) → Bool → Text → Bool → List Text → Records → Ended
  unfolding fail_step set_step_status
  run_steps done connected note live [] db = record {
    records = db;
    begun = [];
    well = true;
    live = live;
  }
  run_steps done connected note live (key ∷ keys) db = elim (done key) [
    | true ↦ elim (key == step_connect && not connected) [
      | true ↦ elim (run key).failure [
        | some f ↦ failed_at key f (live_after live key) db
        | none ↦
            after_step key (run_steps done true (note_after note key) (live_after live key) keys db)
      ]
      | false ↦ run_steps done connected note live keys db
    ]
    | false ↦ elim (run key).failure [
      | some f ↦ failed_at key f (live_after live key) (set_step live key running [] db)
      | none ↦ after_step key (
          run_steps done (key == step_connect || connected) [] (live_after live key) keys (
            set_step (live_after live key) key step_succeeded (note_after note key)
              (set_step live key running [] db)))
    ]
  ]

  abbrev pub close_operation : Ended → Records
  close_operation e =
      if e.well
      then on_context e.live
          (set_server_status server ready [] now
            (set_operation_status id op_succeeded [] now e.records))
          e.records
      else e.records

  abbrev pub opened_operation : Bool → Records → Records
  opened_operation live db =
      on_context live
        (set_server_status server provisioning [] now
          (set_operation_status id op_running [] now db))
        db

  -- On a context that is over the finished steps cannot be read.
  unfoldable pub attempt : Bool → Records → Ended
  unfolding run_steps is_done set_operation_status set_server_status fail_operation
  attempt live db =
      let opened = opened_operation live db in
      if live then run_steps (is_done opened id) false [] live add_server_steps opened else record {
        records = fail_operation live id server (codes "internal") unread now opened;
        begun = [];
        well = false;
        live = false;
      }

  -- The whole worker.
  unfoldable pub run_add_server : Bool → Provisioner → Provisioner
  unfolding finish_work set_operation_status set_server_status attempt
  run_add_server live p =
      finish_work id (record p { records = close_operation (attempt live p.records) })
