-- ===== src/Provision/Ends.antt =====
-- What is left of a worker that adds a server.
use skifity.Deployments.Rows.{op_running, op_succeeded}
use skifity.Prelude.{nat_eq, ◌==◌, any, filter, ℕ, ◌≡◌, refl, Bool, true, false, not, []}
use skifity.Prelude.Text.{Text, text_eq}
use skifity.Prelude.TableLaws.{All-imp, All-filter-holds, none-any}
use skifity.Provision.Plan.{Records, set_operation_status, set_server_status}
use skifity.Provision.Runner.{Provisioner, finish_work, is_done}
use skifity.Provision.AddServer.{
  add_server_steps, StepResult, Ended, close_operation, opened_operation, attempt, run_add_server,
}
use skifity.Prelude.BoolLaws.{negation_true}
use skifity.Provision.Statuses.{
  HasStatus, IsOver, Quiet, set_operation_status-HasStatus, set_operation_status-IsOver,
}
use skifity.Provision.Steps.{Left, run_steps-Left}

-- When the worker has ended.
abbrev pub Closed : Text → Bool → Bool → Records → Type 0
Closed id live well db =
    (live ≡ true → Quiet id db.steps)
    × (live ≡ true → IsOver id db.operations)
    × (live ≡ true → well ≡ true → HasStatus id op_succeeded db.operations)
    × (live ≡ false → HasStatus id op_running db.operations)

module _ (run : Text → StepResult) (text unread id server : Text) (now : ℕ) where
  close_operation-Closed :
      (e : Ended)
      → Left id e
      → Closed id e.live e.well (close_operation run text unread id server now e)
  unfolding set_operation_status set_server_status
  close_operation-Closed e left = closed e.live e.well e.records left.0 left.1 left.2 left.3
    where
      closed :
          (live well : Bool) (db : Records)
          → (live ≡ true → Quiet id db.steps)
          → (well ≡ true → HasStatus id op_running db.operations)
          → (live ≡ false → HasStatus id op_running db.operations)
          → (well ≡ false → live ≡ true → IsOver id db.operations)
          → Closed id live well (
              close_operation run text unread id server now
                (record { records = db; begun = []; well = well; live = live }))
      closed true true db quiet runs stays over = (
        quiet,
        λ h. set_operation_status-IsOver id [] now op_succeeded db refl,
        λ h k. set_operation_status-HasStatus id [] now op_succeeded db,
        λ h. absurd cc,
      )
      closed false true db quiet runs stays over =
          (λ h. absurd cc, λ h. absurd cc, λ h. absurd cc, stays)
      closed true false db quiet runs stays over =
          (quiet, over refl, λ h k. absurd cc, λ h. absurd cc)
      closed false false db quiet runs stays over =
          (λ h. absurd cc, λ h. absurd cc, λ h. absurd cc, stays)

  attempt-Left :
      (db : Records) → Quiet id db.steps → Left id (attempt run text unread id server now true db)
  unfolding attempt set_operation_status set_server_status
  attempt-Left db quiet =
      run_steps-Left run text unread id server now
        (is_done (opened_operation run text unread id server now true db) id) false [] true
        add_server_steps (opened_operation run text unread id server now true db)
        (set_operation_status-HasStatus id [] now op_running db) (λ h. quiet)

pub finish_work-inactive :
    (id : Text) (p : Provisioner) → any (λ a. a == id) (finish_work id p).active ≡ false
unfolding finish_work
finish_work-inactive id p =
    none-any (λ a. a == id) (filter (λ a. not (a == id)) p.active)
      (All-imp (λ a. not (a == id) ≡ true) (λ a. (a == id) ≡ false)
        (filter (λ a. not (a == id)) p.active) (λ a. negation_true (a == id))
        (All-filter-holds (λ a. not (a == id)) p.active))

-- Where no step of the operation is said to run and the context of the worker is live when it
-- starts: after the worker the operation has none. Where the context is live to the end, no step
-- is said to run, the operation has ended, and it has succeeded if all steps went well; where the
-- context is over on the way, the operation is still said to run.
pub run_add_server-Closed :
    (run : Text → StepResult) (text unread id server : Text) (now : ℕ) (p : Provisioner)
    → Quiet id p.records.steps
    → Closed id
        (attempt run text unread id server now true p.records).live
        (attempt run text unread id server now true p.records).well
        (run_add_server run text unread id server now true p).records
      × any (λ a. a == id) (run_add_server run text unread id server now true p).active ≡ false
unfolding run_add_server finish_work
run_add_server-Closed run text unread id server now p quiet = (
  close_operation-Closed run text unread id server now
      (attempt run text unread id server now true p.records)
      (attempt-Left run text unread id server now p.records quiet),
  finish_work-inactive id p,
)
