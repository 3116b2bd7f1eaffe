-- ===== src/Provision/Statuses.antt =====
-- What the writes of a worker make of the statuses of its operation and of its steps.
use skifity.Deployments.Rows.{OperationStatus}
use skifity.Prelude.{Bool-cases, nat_eq, ◌==◌, All, ℕ, ◌≡◌, refl, inl, inr, true, false, List}
use skifity.Prelude.BoolLaws.{clash, both_true, right_true}
use skifity.Prelude.Text.{Text, text_eq}
use skifity.Prelude.TableLaws.{
  All-update_where, All-update_where_if, All-imp, All-written_where, All-written,
}
use skifity.Provision.Plan.{
  StepStatus, StepRow, OperationRow, Records, is_finished, is_step_of, with_status,
  set_operation_status, is_keyed, with_step_status, set_step_status,
}
use skifity.Provision.Runner.{is_running}

-- The operations of the id have the status, or have ended.
abbrev pub HasStatus : Text → OperationStatus → List OperationRow → Type 0
HasStatus id status rows = All (λ o. (o.id == id) ≡ true → o.status ≡ status) rows

abbrev pub IsOver : Text → List OperationRow → Type 0
IsOver id rows = All (λ o. (o.id == id) ≡ true → is_finished o.status ≡ true) rows

-- No step of the operation is running, or only those of a key.
abbrev pub Quiet : Text → List StepRow → Type 0
Quiet id rows = All (λ s. is_step_of id s ≡ true → is_running s.status ≡ false) rows

abbrev pub Lingers : Text → Text → List StepRow → Type 0
Lingers id key rows =
    All (λ s. is_step_of id s ≡ true → is_running s.status ≡ true → (s.key == key) ≡ true) rows

module _ (id code : Text) (now : ℕ) where
  pub set_operation_status-HasStatus :
      (status : OperationStatus) (db : Records)
      → HasStatus id status (set_operation_status id status code now db).operations
  unfolding set_operation_status
  set_operation_status-HasStatus status db =
      All-written (λ o. (o.id == id) ≡ true → o.status ≡ status) (λ o. o.id == id)
        (with_status status code now) db.operations (λ o e h. refl)
        (λ o e h. clash (o.id == id) h e)

  pub set_operation_status-IsOver :
      (status : OperationStatus) (db : Records)
      → is_finished status ≡ true
      → IsOver id (set_operation_status id status code now db).operations
  unfolding set_operation_status
  set_operation_status-IsOver status db over =
      All-written (λ o. (o.id == id) ≡ true → is_finished o.status ≡ true) (λ o. o.id == id)
        (with_status status code now) db.operations (λ o e h. over)
        (λ o e h. clash (o.id == id) h e)

module _ (id key : Text) (status : StepStatus) (note detail : Text) (now : ℕ) (db : Records) where
  pub set_step_status-HasStatus :
      (s : OperationStatus)
      → HasStatus id s db.operations
      → HasStatus id s (set_step_status id key status note detail now db).operations
  unfolding set_step_status
  set_step_status-HasStatus s =
      All-update_where (λ o. (o.id == id) ≡ true → o.status ≡ s) (λ o. o.id == id)
        (λ o. record o { updated_at = now }) db.operations (λ o h. h)

  pub set_step_status-Lingers :
      Quiet id db.steps → Lingers id key (set_step_status id key status note detail now db).steps
  unfolding set_step_status
  set_step_status-Lingers quiet =
      All-update_where_if
        (λ s. is_step_of id s ≡ true → is_running s.status ≡ true → (s.key == key) ≡ true)
        (is_keyed id key) (with_step_status status note detail now) db.steps
        (λ s e h of running_now. right_true (is_step_of id s) (s.key == key) e)
        (All-imp (λ s. is_step_of id s ≡ true → is_running s.status ≡ false)
          (λ s. is_step_of id s ≡ true → is_running s.status ≡ true → (s.key == key) ≡ true)
          db.steps (λ s h of running_now. clash (is_running s.status) running_now (h of)) quiet)

  pub set_step_status-Quiet :
      is_running status ≡ false
      → Lingers id key db.steps
      → Quiet id (set_step_status id key status note detail now db).steps
  unfolding set_step_status
  set_step_status-Quiet still lingers =
      All-written_where
        (λ s. is_step_of id s ≡ true → is_running s.status ≡ true → (s.key == key) ≡ true)
        (λ s. is_step_of id s ≡ true → is_running s.status ≡ false) (is_keyed id key)
        (with_step_status status note detail now) db.steps (λ s e h of. still) not_keyed lingers
    where
      not_keyed :
          (s : StepRow)
          → is_keyed id key s ≡ false
          → (is_step_of id s ≡ true → is_running s.status ≡ true → (s.key == key) ≡ true)
          → is_step_of id s ≡ true
          → is_running s.status ≡ false
      not_keyed s e h of = elim (Bool-cases (is_running s.status)) [
        | inl r ↦
            clash (is_keyed id key s) (both_true (is_step_of id s) (s.key == key) of (h of r)) e
        | inr r ↦ r
      ]
