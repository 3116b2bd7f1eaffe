-- ===== src/Provision/Removes.antt =====
-- What is left of a worker that removes a server.
use skifity.Deployments.Rows.{op_running, op_succeeded, op_failed}
use skifity.Prelude.{
  if◌then◌else◌, nat_eq, ◌==◌, any, filter, ℕ, ◌≡◌, refl, ◌∙◌, Bool, true, false, not, none, some,
  List, [],
}
use skifity.Prelude.Text.{Text, codes, text_eq, is_empty}
use skifity.Prelude.TableLaws.{All-imp, All-filter-holds, none-any}
use skifity.Provision.Plan.{
  ServerRow, Records, set_operation_status, set_server_status, server_failed, removing,
}
use skifity.Provision.Runner.{Provisioner, finish_work, fail_operation}
use skifity.Provision.AddServer.{Ended}
use skifity.Provision.Remove.{
  Removal, drain_result, stage, delete_server, close_removal, opened_removal, remove_stages,
  run_remove_server,
}
use skifity.Prelude.BoolLaws.{negation_true}
use skifity.Provision.Statuses.{
  HasStatus, IsOver, Quiet, set_operation_status-HasStatus, set_operation_status-IsOver,
}
use skifity.Provision.Ends.{finish_work-inactive}
use skifity.Provision.Stages.{
  has_server, set_server_status-has_server, Going, stage-Going, uninstall_stage-Going,
}

-- When the removal has ended. `had` is whether the table had the server before it.
abbrev pub RemovalClosed : Text → Text → Bool → Bool → Bool → Records → Type 0
RemovalClosed id server had live well db =
    (live ≡ true → Quiet id db.steps)
    × (live ≡ true → IsOver id db.operations)
    × (live ≡ false → HasStatus id op_running db.operations)
    × (live ≡ true → well ≡ true → any (λ s. s.id == server) db.servers ≡ false)
    × (well ≡ false → any (λ s. s.id == server) db.servers ≡ had)
    × (live ≡ false → any (λ s. s.id == server) db.servers ≡ had)

module _ (text id server : Text) (now : ℕ) where
  -- Deleting the row, or not finding it.
  case_deleted {κ} :
      (M : Records → Type κ) (b : Bool) (x y : Records) (f : Records → Records)
      → (b ≡ true → M (f x))
      → (b ≡ false → M y)
      → M (elim (if b then some x else none) [ none ↦ y | some db ↦ f db ])
  case_deleted M true x y f g h = g refl
  case_deleted M false x y f g h = h refl

  case_records {κ} :
      (M : Records → Type κ) (b : Bool) (x y : Records) → M x → M y → M (if b then x else y)
  case_records M true x y h k = h
  case_records M false x y h k = k

  filter-gone :
      (rows : List ServerRow)
      → any (λ s. s.id == server) (filter (λ s. not (s.id == server)) rows) ≡ false
  filter-gone rows =
      none-any (λ s. s.id == server) (filter (λ s. not (s.id == server)) rows)
        (All-imp (λ s. not (s.id == server) ≡ true) (λ s. (s.id == server) ≡ false)
          (filter (λ s. not (s.id == server)) rows) (λ s. negation_true (s.id == server))
          (All-filter-holds (λ s. not (s.id == server)) rows))

  fail_operation-Closed :
      (had : Bool) (code title : Text) (db : Records)
      → Quiet id db.steps
      → has_server text id server now db ≡ false
      → RemovalClosed id server had true true (fail_operation true id server code title now db)
  unfolding fail_operation
  fail_operation-Closed had code title db quiet gone_before =
      case_records (RemovalClosed id server had true true) (is_empty server) failing
        (set_server_status server server_failed title now failing)
        (λ h. quiet, λ h. over, λ h. absurd cc, λ h k. gone_before, λ h. absurd cc, λ h. absurd cc)
        (
          quiet_after,
          over_after,
          λ h. absurd cc,
          λ h k.
              set_server_status-has_server text id server now server_failed title failing
              ∙ gone_before,
          λ h. absurd cc,
          λ h. absurd cc,
        )
    where
      failing : Records
      failing = set_operation_status id op_failed code now db

      over : IsOver id failing.operations
      over = set_operation_status-IsOver id code now op_failed db refl

      quiet_after :
          true ≡ true → Quiet id (set_server_status server server_failed title now failing).steps
      quiet_after h = quiet

      over_after :
          true ≡ true
          → IsOver id (set_server_status server server_failed title now failing).operations
      over_after h = over

  close_removal-Closed :
      (had live well : Bool) (begun : List Text) (db : Records)
      → Going text id server now had
          (record { records = db; begun = begun; well = well; live = live })
      → RemovalClosed id server had live well (
          close_removal text id server now
            (record { records = db; begun = begun; well = well; live = live }))
  unfolding close_removal delete_server fail_operation set_operation_status
  close_removal-Closed had true true begun db going =
      case_deleted (RemovalClosed id server had true true) (has_server text id server now db)
        (record db { servers = filter (λ s. not (s.id == server)) db.servers })
        (fail_operation true id server (codes "internal") text now db)
        (λ d. set_operation_status id op_succeeded [] now d)
        (λ e. (
          going.0.0,
          λ h. set_operation_status-IsOver id [] now op_succeeded db refl,
          λ h. absurd cc,
          λ h k. filter-gone db.servers,
          λ h. absurd cc,
          λ h. absurd cc,
        ))
        (λ e. fail_operation-Closed had (codes "internal") text db (going.0.0 refl) e)
  close_removal-Closed had false true begun db going =
      (λ h. absurd cc, λ h. absurd cc, going.0.2, λ h. absurd cc, λ h. absurd cc, λ h. going.1)
  close_removal-Closed had true false begun db going =
      (going.0.0, going.0.3 refl, λ h. absurd cc, λ h k. absurd cc, λ h. going.1, λ h. absurd cc)
  close_removal-Closed had false false begun db going =
      (λ h. absurd cc, λ h. absurd cc, going.0.2, λ h. absurd cc, λ h. going.1, λ h. going.1)

  opened_removal-Going :
      (db : Records)
      → Quiet id db.steps
      → Going text id server now
          (has_server text id server now db)
          (opened_removal text id server now true db)
  unfolding set_operation_status set_server_status
  opened_removal-Going db quiet = (
    (
      λ h. quiet,
      λ h. set_operation_status-HasStatus id [] now op_running db,
      λ h. set_operation_status-HasStatus id [] now op_running db,
      λ h. absurd cc,
    ),
    set_server_status-has_server text id server now removing []
        (set_operation_status id op_running [] now db),
  )

  remove_stages-Going :
      (had : Bool) (r : Removal) (e : Ended)
      → Going text id server now had e
      → Going text id server now had (remove_stages text id server now r e)
  unfolding remove_stages
  remove_stages-Going had r e going =
      let cordoned = stage text id server now (codes "cordon") (codes "cordoned") r.cordoned e in
      let drained =
        stage text id server now (codes "drain") (codes "drained") (drain_result r) cordoned in
      uninstall_stage-Going text id server now had r.wipe r.uninstalled
        (stage text id server now (codes "delete-node") (codes "nodeDeleted") r.node_deleted
          drained)
        (stage-Going text id server now had (codes "delete-node") (codes "nodeDeleted")
          r.node_deleted drained
          (stage-Going text id server now had (codes "drain") (codes "drained") (drain_result r)
            cordoned
            (stage-Going text id server now had (codes "cordon") (codes "cordoned") r.cordoned e
              going)))

  -- Where no step of the operation is said to run and the context of the worker is live when it
  -- starts: after the removal of a server the operation has no worker. Where the context is live
  -- to the end, no step is said to run and the operation has ended; where it is over on the way,
  -- the operation is still said to run. The row of the server is gone where the context is live
  -- to the end and no step stopped the removal, and is there as before where a step stopped it or
  -- the context is over.
  pub run_remove_server-Closed :
      (r : Removal) (p : Provisioner)
      → Quiet id p.records.steps
      → RemovalClosed id server
          (any (λ s. s.id == server) p.records.servers)
          (remove_stages text id server now r
            (opened_removal text id server now true p.records)).live
          (remove_stages text id server now r
            (opened_removal text id server now true p.records)).well
          (run_remove_server text id server now r true p).records
        × any (λ a. a == id) (run_remove_server text id server now r true p).active ≡ false
  unfolding run_remove_server finish_work
  run_remove_server-Closed r p quiet =
      let e =
        remove_stages text id server now r (opened_removal text id server now true p.records) in
      (
        close_removal-Closed (has_server text id server now p.records) e.live e.well e.begun
            e.records
            (remove_stages-Going (has_server text id server now p.records) r
              (opened_removal text id server now true p.records)
              (opened_removal-Going p.records quiet)),
        finish_work-inactive id (record p { records = close_removal text id server now e }),
      )
