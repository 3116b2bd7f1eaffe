-- ===== src/Deployments/Within.antt =====
-- What a list of deployments offers is what a rollback accepts.
use skifity.Prelude.{nat_eq}
use skifity.Prelude.{
  ltb, leb, nat_beq, if◌then◌else◌, list_beq_iff, filter, All, ℕ, suc, ◌+◌, ◌≤◌, ◌≡◌, refl, sym, ap,
  subst, ◌∙◌, Bool, true, false, ◌&&◌, none, some, List, map, arith,
}
use skifity.Prelude.Int.{ℤ}
use skifity.Prelude.Text.{Text}
use skifity.Prelude.Tables.{find, order_desc, Apart}
use skifity.Prelude.TableLaws.{
  All-filter, All-take, All-order_desc, All-of, All-zip, All-filter-holds, Apart-filter,
}
use skifity.Prelude.CountLaws.{count-order_desc, count-filter, count_same}
use skifity.Prelude.OrderLaws.{
  order_desc-Falling, order_desc-Apart, Apart-zip, All-map, Apart-map, count-map,
}
use skifity.Deployments.Rows.{
  Deployment, Database, of_app, scan_deployment, page_size, history, list_deployments, has_image,
  mark_from, at_least_one, mark_rollback_targets, rank, in_window, within_rollback_window,
}
use skifity.Deployments.Writes.{has_id}
use skifity.Deployments.Consistent.{OtherNumber, Consistent}
use skifity.Deployments.Window.{
  find_own, Newer, ahead, All-mark_from, Judged, mark_from-Judged, mark_from-take,
}

same_app :
    (app : Text) (a b : Deployment)
    → of_app app a ≡ true
    → of_app app b ≡ true
    → of_app b.app_id a ≡ true
same_app app a b ha hb =
    (list_beq_iff a.app_id b.app_id).1
      ((list_beq_iff a.app_id app).0 ha ∙ sym ((list_beq_iff b.app_id app).0 hb))

apart_in_app : (b c : Bool) → b ≡ true → (b && c) ≡ false → c ≡ false
apart_in_app true c e h = h
apart_in_app false c e h = cc

abbrev OtherValue : Deployment → Deployment → Type 0
OtherValue a b = nat_beq a.number b.number ≡ false

strictly : (m n : ℕ) → nat_beq m n ≡ false → n ≤ m → ltb n m ≡ true
strictly m n h le = ground (arith, h, le)

rows_of-OtherValue :
    (app : Text) (rows : List Deployment)
    → Apart OtherNumber rows
    → Apart OtherValue (filter (of_app app) rows)
rows_of-OtherValue app rows h =
    let mine = filter (of_app app) rows in
    let apart = Apart-filter OtherNumber (of_app app) rows h in
    Apart-zip (λ d. of_app app d ≡ true) OtherNumber OtherNumber OtherValue mine
      (λ a b ha hb r s.
        apart_in_app (of_app b.app_id a) (nat_beq a.number b.number) (same_app app a b ha hb) r)
      (All-filter-holds (of_app app) rows) apart apart

-- An app's history has the newest first and no number twice.
pub history-Newer : (db : Database) (app : Text) → Consistent db → Apart Newer (history db app)
unfolding history
history-Newer db app c =
    let mine = filter (of_app app) db.deployments in
    Apart-zip (λ d. Unit {0}) (λ a b. b.number ≤ a.number) OtherValue Newer
      (order_desc (λ d. d.number) mine) (λ a b ha hb le other. strictly a.number b.number other le)
      (All-of (λ d. Unit) (order_desc (λ d. d.number) mine) (λ d. tt))
      (order_desc-Falling (λ d. d.number) mine)
      (order_desc-Apart OtherValue (λ a b h. ground (arith, h)) (λ d. d.number) mine
        (rows_of-OtherValue app db.deployments c.numbers_apart))

-- The history as it is read.
abbrev scanned : Database → Text → List Deployment
scanned db app = map scan_deployment (history db app)

and_assoc : (a b c : Bool) → ((a && b) && c) ≡ (a && (b && c))
and_assoc true b c = refl
and_assoc false b c = refl

rank-ahead :
    (db : Database) (app : Text) (d : Deployment)
    → rank (in_window app) db.deployments d ≡ suc (ahead d (scanned db app))
unfolding history
rank-ahead db app d =
    let newer = λ (e : Deployment). has_image e && ltb d.number e.number in
    let mine = filter (of_app app) db.deployments in
    ap suc (
      count_same (λ e. in_window app e && ltb d.number e.number) (λ e. of_app app e && newer e)
        db.deployments
        (All-of
          (λ e.
            ((of_app app e && has_image e) && ltb d.number e.number) ≡ (of_app app e && newer e))
          db.deployments (λ e. and_assoc (of_app app e) (has_image e) (ltb d.number e.number)))
      ∙ sym (count-filter newer (of_app app) db.deployments)
      ∙ sym (count-order_desc newer (λ e. e.number) mine)
      ∙ sym (count-map scan_deployment newer (order_desc (λ e. e.number) mine)))

-- What the database answers for a row, in terms of the history.
abbrev Answered : Database → Text → ℕ → ℤ → Deployment → Type 0
Answered db app least keep d =
    within_rollback_window db app d.id keep
    ≡ (has_image d && leb (suc (ahead d (scanned db app))) least)

answer :
    (db : Database) (app : Text) (keep : ℤ) (d : Deployment) (b : Bool)
    → in_window app d ≡ b
    → find (λ e. in_window app e && has_id d.id e) db.deployments
      ≡ (if in_window app d then some d else none)
    → within_rollback_window db app d.id keep
      ≡ (b && leb (suc (ahead d (scanned db app))) (at_least_one keep))
unfolding within_rollback_window
answer db app keep d b e found =
    ap
      (λ o. elim o as (λ _. Bool) [
        | none ↦ false
        | some r ↦ leb (rank (in_window app) db.deployments r) (at_least_one keep)
      ])
      (found ∙ ap (λ c. if c then some d else none) e)
    ∙ ranked b
  where
    ranked :
        (c : Bool)
        → (elim (if c then some d else none) as (λ _. Bool) [
          | none ↦ false
          | some r ↦ leb (rank (in_window app) db.deployments r) (at_least_one keep)
        ])
          ≡ (c && leb (suc (ahead d (scanned db app))) (at_least_one keep))
    ranked true = ap (λ n. leb n (at_least_one keep)) (rank-ahead db app d)
    ranked false = refl

zero_add : (n : ℕ) → 0 + n ≡ n
zero_add n = omega arith

row-Answered :
    (db : Database) (app : Text) (keep : ℤ) (d : Deployment)
    → of_app app d ≡ true
    → find (λ e. in_window app e && has_id d.id e) db.deployments
      ≡ (if in_window app d then some d else none)
    → Answered db app (at_least_one keep) keep d
row-Answered db app keep d mine found =
    answer db app keep d (has_image d) (ap (λ b. b && has_image d) mine) found

history-Answered :
    (db : Database) (app : Text) (keep : ℤ)
    → Consistent db
    → All (Answered db app (at_least_one keep) keep) (history db app)
unfolding history
history-Answered db app keep c =
    let Found = λ (d : Deployment).
      find (λ e. in_window app e && has_id d.id e) db.deployments
      ≡ (if in_window app d then some d else none) in
    let mine = filter (of_app app) db.deployments in
    All-order_desc (Answered db app (at_least_one keep) keep) (λ d. d.number) mine
      (All-zip (λ d. of_app app d ≡ true) Found (Answered db app (at_least_one keep) keep) mine
        (row-Answered db app keep) (All-filter-holds (of_app app) db.deployments)
        (All-filter Found (of_app app) db.deployments
          (find_own (in_window app) db.deployments c.ids_apart)))

-- Where the keys of the rows are apart, a page of an app's deployments offers to roll back to
-- exactly those that a rollback accepts: the marks that MarkRollbackTargets makes on it are the
-- answers of WithinRollbackWindow.
pub list_deployments-offers :
    (db : Database) (app : Text) (limit keep : ℤ)
    → Consistent db
    → All
        (λ d. d.can_rollback ≡ within_rollback_window db app d.id keep)
        (mark_rollback_targets (list_deployments db app limit) keep)
unfolding mark_rollback_targets list_deployments
list_deployments-offers db app limit keep c =
    let least = at_least_one keep in
    let rows = scanned db app in
    let size = page_size limit 200 50 in
    let Offer = λ (d : Deployment). d.can_rollback ≡ within_rollback_window db app d.id keep in
    subst (All Offer) (sym (mark_from-take size least 0 rows)) (
      All-take Offer size (mark_from least 0 rows) (
        All-zip (Judged least 0 rows) (Answered db app least keep) Offer (mark_from least 0 rows)
          (λ d judged answered.
            judged
            ∙ ap (λ n. has_image d && leb n least) (zero_add (suc (ahead d rows)))
            ∙ sym answered)
          (mark_from-Judged least 0 rows
            (Apart-map scan_deployment Newer (history db app) (history-Newer db app c))
            (All-map scan_deployment (λ d. d.can_rollback ≡ false) (history db app)
              (All-of (λ d. (scan_deployment d).can_rollback ≡ false) (history db app)
                (λ d. refl))))
          (All-mark_from (Answered db app least keep) least 0 rows (λ d b h. h)
            (All-map scan_deployment (Answered db app least keep) (history db app)
              (history-Answered db app keep c)))))
