-- ===== src/Provision/Stuck.antt =====
-- A worker whose time is up leaves an operation that cannot be retried.
use mathlib.Core.Option.{some-injective}
use skifity.Deployments.Rows.{OperationStatus, op_running}
use skifity.Prelude.{
  if◌then◌else◌, nat_eq, ◌==◌, list_beq_iff, filter, All, ℕ, ◌≡◌, ap, subst, ◌∙◌, true, false, ◌&&◌,
  Option, none, some, List, [], ◌∷◌,
}
use skifity.Prelude.Text.{Text, codes, text_eq}
use skifity.Prelude.Tables.{order_desc, head}
use skifity.Prelude.TableLaws.{All-filter, All-order_desc}
use skifity.Provision.Plan.{OperationRow, ServerRow, Records, latest_operation, get_server}
use skifity.Provision.Runner.{Provisioner}
use skifity.Provision.AddServer.{StepResult, attempt, run_add_server}
use skifity.Provision.Retry.{
  Retried, is_op_running, retry_operation, retry_server, no_server, no_operation, under_way,
}
use skifity.Provision.Statuses.{HasStatus, Quiet}
use skifity.Provision.Ends.{run_add_server-Closed}

head-holds :
    (P : OperationRow → Type 0) (rows : List OperationRow) (op : OperationRow)
    → All P rows
    → head rows ≡ some op
    → P op
unfolding head
head-holds P [] op h e = absurd (none_ne_some e)
  where
    none_ne_some : none ≡ some op → ⊥
    none_ne_some e = cc
head-holds P (x ∷ rows) op h e = subst P (some-injective x op e) h.0

latest_operation-HasStatus :
    (id kind target : Text) (s : OperationStatus) (db : Records) (op : OperationRow)
    → HasStatus id s db.operations
    → latest_operation db kind target ≡ some op
    → op.id ≡ id
    → op.status ≡ s
unfolding latest_operation
latest_operation-HasStatus id kind target s db op h e same =
    head-holds (λ o. (o.id == id) ≡ true → o.status ≡ s)
      (order_desc (λ o. o.created_at)
        (filter (λ o. o.target_type == kind && o.target_id == target) db.operations))
      op
      (All-order_desc (λ o. (o.id == id) ≡ true → o.status ≡ s) (λ o. o.created_at)
        (filter (λ o. o.target_type == kind && o.target_id == target) db.operations)
        (All-filter (λ o. (o.id == id) ≡ true → o.status ≡ s)
          (λ o. o.target_type == kind && o.target_id == target) db.operations h))
      e ((list_beq_iff op.id id).1 same)

retry_server-under_way :
    (server : Text) (now : ℕ) (p : Provisioner) (s : ServerRow) (op : OperationRow)
    → get_server p.records server ≡ some s
    → latest_operation p.records (codes "server") server ≡ some op
    → op.status ≡ op_running
    → retry_server server now p ≡ (under_way op, p)
unfolding retry_server
retry_server-under_way server now p s op h k r =
    ap
      (λ o. elim o [
        | none ↦ (no_server, p)
        | some _ ↦ latest (latest_operation p.records (codes "server") server)
      ])
      h
    ∙ ap latest k
    ∙ ap
        (λ (status : OperationStatus).
          if is_op_running status then (under_way op, p) else retry_operation op now p)
        r
  where
    latest : Option OperationRow → Retried × Provisioner
    latest o = elim o [
      | none ↦ (no_operation, p)
      | some op ↦ if is_op_running op.status then (under_way op, p) else retry_operation op now p
    ]

-- Where no step is said to run before, the context of the worker is live when it starts and over
-- on the way, the server is found after it and the newest operation on it is the one of the
-- worker: a retry of the server answers that the operation is under way and changes nothing.
pub run_add_server-stuck :
    (run : Text → StepResult) (text unread id server : Text) (now later : ℕ) (p : Provisioner)
    (s : ServerRow) (op : OperationRow)
    → Quiet id p.records.steps
    → (attempt run text unread id server now true p.records).live ≡ false
    → get_server (run_add_server run text unread id server now true p).records server ≡ some s
    → latest_operation
        (run_add_server run text unread id server now true p).records
        (codes "server")
        server
      ≡ some op
    → op.id ≡ id
    → retry_server server later (run_add_server run text unread id server now true p)
      ≡ (under_way op, run_add_server run text unread id server now true p)
run_add_server-stuck run text unread id server now later p s op quiet over h k same =
    let ended = run_add_server run text unread id server now true p in
    retry_server-under_way server later ended s op h k (
      latest_operation-HasStatus id (codes "server") server op_running ended.records op
        ((run_add_server-Closed run text unread id server now p quiet).0.3 over) k same)
