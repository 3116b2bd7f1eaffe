-- ===== src/Deployments/Spare.antt =====
-- What the maintenance leaves: a second pass finds nothing to do.
use skifity.Prelude.{
  ltb, ◌==◌, list_beq_iff, any, filter, All, ℕ, suc, ◌≤◌, ◌≡◌, refl, sym, ap, ◌∙◌, Bool, true,
  false, not, ◌&&◌, List, arith,
}
use skifity.Prelude.Int.{ℤ}
use skifity.Prelude.Text.{text_eq}
use skifity.Prelude.Tables.{count}
use skifity.Prelude.TableLaws.{All-imp, All-of, All-filter-holds, filter-keeps, none-any}
use skifity.Prelude.CountLaws.{count-filter, count_le, count_same, count_none}
use skifity.Deployments.Rows.{is_terminal, Deployment, BuildLog, Database, of_app, rank}
use skifity.Deployments.Retention.{
  Retention, PruneReport, window, is_older, or_default, is_spare, prune_deployments, old_operation,
  prune_operations, prune_audit, prune,
}
use skifity.Prelude.{nat_eq}

abbrev newer_finished : Deployment → Deployment → Bool
newer_finished d e = (is_terminal e.status && of_app d.app_id e) && ltb d.number e.number

newer_trans :
    (a b c : Deployment)
    → newer_finished a b ≡ true
    → newer_finished b c ≡ true
    → newer_finished a c ≡ true
newer_trans a b c h k =
    three (is_terminal b.status) (of_app a.app_id b) a.number b.number (is_terminal c.status)
      (of_app b.app_id c) (of_app a.app_id c) c.number
      (λ x y.
        (list_beq_iff c.app_id a.app_id).1
          ((list_beq_iff c.app_id b.app_id).0 y ∙ (list_beq_iff b.app_id a.app_id).0 x))
      h k
  where
    three :
        (tb ab : Bool) (m n : ℕ) (tc bc ac : Bool) (k : ℕ)
        → (ab ≡ true → bc ≡ true → ac ≡ true)
        → ((tb && ab) && ltb m n) ≡ true
        → ((tc && bc) && ltb n k) ≡ true
        → ((tc && ac) && ltb m k) ≡ true
    three true true m n true true ac k f h g = ground (arith, f refl refl, h, g)
    three true true m n true false ac k f h g = cc
    three true true m n false bc ac k f h g = cc
    three true false m n tc bc ac k f h g = cc
    three false ab m n tc bc ac k f h g = cc

finished_of : (t a c : Bool) → ((t && a) && c) ≡ true → t ≡ true
finished_of true a c h = refl
finished_of false a c h = cc

not_spare_bound : (t : Bool) (keep n : ℕ) → t ≡ true → (t && ltb keep n) ≡ false → n ≤ keep
not_spare_bound true keep n e h = ground (arith, h)
not_spare_bound false keep n e h = cc

bound_not_spare : (t : Bool) (keep n : ℕ) → n ≤ keep → (t && ltb keep n) ≡ false
bound_not_spare true keep n h = ground (arith, h)
bound_not_spare false keep n h = refl

-- What is newer than a row that is left is left itself.
newer_is_kept :
    (rows : List Deployment) (keep : ℕ) (d e : Deployment)
    → is_terminal d.status ≡ true
    → is_spare rows keep d ≡ false
    → newer_finished d e ≡ true
    → is_spare rows keep e ≡ false
newer_is_kept rows keep d e t h newer =
    let fewer = count_le (newer_finished e) (newer_finished d) rows (
      All-of (λ x. newer_finished e x ≡ true → newer_finished d x ≡ true) rows
        (λ x. newer_trans d e x newer)) in
    bound_not_spare (is_terminal e.status) keep (suc (count (newer_finished e) rows)) (
      omega (
        arith,
        fewer,
        not_spare_bound (is_terminal d.status) keep (suc (count (newer_finished d) rows)) t h,
      ))

kept_newer : (s n : Bool) → (n ≡ true → s ≡ false) → (not s && n) ≡ n
kept_newer true true h = sym (h refl)
kept_newer true false h = refl
kept_newer false n h = refl

abbrev left_rows : List Deployment → ℕ → List Deployment
left_rows rows keep = filter (λ d. not (is_spare rows keep d)) rows

not_spare_again :
    (rows : List Deployment) (keep : ℕ) (d : Deployment) (t : Bool)
    → is_terminal d.status ≡ t
    → is_spare rows keep d ≡ false
    → (t
        && ltb keep (rank (λ e. is_terminal e.status && of_app d.app_id e) (left_rows rows keep) d))
      ≡ false
not_spare_again rows keep d false e h = refl
not_spare_again rows keep d true e h =
    ap (λ n. ltb keep (suc n))
      (count-filter (newer_finished d) (λ x. not (is_spare rows keep x)) rows
        ∙ count_same (λ x. not (is_spare rows keep x) && newer_finished d x) (newer_finished d) rows
            (All-of (λ x. (not (is_spare rows keep x) && newer_finished d x) ≡ newer_finished d x)
              rows
              (λ x.
                kept_newer (is_spare rows keep x) (newer_finished d x)
                  (newer_is_kept rows keep d x e h))))
    ∙ below (is_terminal d.status) (suc (count (newer_finished d) rows)) e h
  where
    below : (b : Bool) (n : ℕ) → b ≡ true → (b && ltb keep n) ≡ false → ltb keep n ≡ false
    below true n q k = k
    below false n q k = cc

denied : (b : Bool) → not b ≡ true → b ≡ false
denied true h = cc
denied false h = refl

-- No row that is left is spare among those that are left.
left_rows-kept :
    (rows : List Deployment) (keep : ℕ)
    → All (λ d. is_spare (left_rows rows keep) keep d ≡ false) (left_rows rows keep)
left_rows-kept rows keep =
    All-imp (λ d. not (is_spare rows keep d) ≡ true)
      (λ d. is_spare (left_rows rows keep) keep d ≡ false) (left_rows rows keep)
      (λ d h.
        not_spare_again rows keep d (is_terminal d.status) refl (denied (is_spare rows keep d) h))
      (All-filter-holds (λ d. not (is_spare rows keep d)) rows)

module _ {A : Type 0} (p : A → Bool) where
  filter-drops_none : (xs : List A) → All (λ x. p x ≡ false) xs → filter (λ x. not (p x)) xs ≡ xs
  filter-drops_none xs h =
      filter-keeps (λ x. not (p x)) xs
        (All-imp (λ x. p x ≡ false) (λ x. not (p x) ≡ true) xs (λ x e. ap not e) h)

  left_by_filter : (xs : List A) → All (λ x. p x ≡ false) (filter (λ x. not (p x)) xs)
  left_by_filter xs =
      All-imp (λ x. not (p x) ≡ true) (λ x. p x ≡ false) (filter (λ x. not (p x)) xs)
        (λ x. denied (p x)) (All-filter-holds (λ x. not (p x)) xs)

deployments_done :
    (keep : ℕ) (db : Database)
    → All (λ d. is_spare db.deployments keep d ≡ false) db.deployments
    → prune_deployments keep db ≡ (0, db)
unfolding prune_deployments
deployments_done keep db h =
    let spare = is_spare db.deployments keep in
    let gone = λ (l : BuildLog). any (λ d. spare d && d.id == l.deployment_id) db.deployments in
    ap (λ n. (n, (prune_deployments keep db).1)) (count_none spare db.deployments h)
    ∙ ap
        (λ rows. (
          0,
          record db { deployments = rows; build_logs = filter (λ l. not (gone l)) db.build_logs },
        ))
        (filter-drops_none spare db.deployments h)
    ∙ ap (λ logs. (0, record db { build_logs = logs }))
        (filter-drops_none gone db.build_logs (
          All-of (λ l. gone l ≡ false) db.build_logs
            (λ l.
              none-any (λ d. spare d && d.id == l.deployment_id) db.deployments
                (All-imp (λ d. spare d ≡ false) (λ d. (spare d && d.id == l.deployment_id) ≡ false)
                  db.deployments (λ d e. ap (λ b. b && d.id == l.deployment_id) e) h))))

operations_done :
    (now : ℕ) (age : ℤ) (db : Database)
    → All (λ o. old_operation now age o ≡ false) db.operations
    → prune_operations now age db ≡ (0, db)
unfolding prune_operations
operations_done now age db h =
    ap (λ n. (n, (prune_operations now age db).1))
      (count_none (old_operation now age) db.operations h)
    ∙ ap (λ rows. (0, record db { operations = rows }))
        (filter-drops_none (old_operation now age) db.operations h)

audit_done :
    (now : ℕ) (age : ℤ) (db : Database)
    → All (λ e. is_older now e.at age ≡ false) db.audit_events
    → prune_audit now age db ≡ (0, db)
unfolding prune_audit
audit_done now age db h =
    ap (λ n. (n, (prune_audit now age db).1))
      (count_none (λ e. is_older now e.at age) db.audit_events h)
    ∙ ap (λ rows. (0, record db { audit_events = rows }))
        (filter-drops_none (λ e. is_older now e.at age) db.audit_events h)

abbrev pub nothing_removed : PruneReport
nothing_removed = record { deployments = 0; operations = 0; audit_events = 0 }

all_done :
    (now : ℕ) (keep : Retention) (db : Database)
    → prune_deployments (or_default keep.deployments_per_app 50) db ≡ (0, db)
    → prune_operations now (window (or_default keep.operation_days 90)) db ≡ (0, db)
    → prune_audit now (window (or_default keep.audit_days 365)) db ≡ (0, db)
    → prune now keep db ≡ (nothing_removed, db)
unfolding prune
all_done now keep db d o a = rw (d, o, a) refl

-- A second pass of the maintenance at the same time, with the same windows, removes nothing and
-- reports that it removed nothing.
pub prune-again :
    (now : ℕ) (keep : Retention) (db : Database)
    → prune now keep ((prune now keep db).1) ≡ (nothing_removed, (prune now keep db).1)
unfolding prune prune_deployments prune_operations prune_audit
prune-again now keep db =
    let after = (prune now keep db).1 in
    let n = or_default keep.deployments_per_app 50 in
    let operation_age = window (or_default keep.operation_days 90) in
    let audit_age = window (or_default keep.audit_days 365) in
    all_done now keep after (deployments_done n after (left_rows-kept db.deployments n))
      (operations_done now operation_age after
        (left_by_filter (old_operation now operation_age) db.operations))
      (audit_done now audit_age after
        (left_by_filter (λ e. is_older now e.at audit_age) db.audit_events))
