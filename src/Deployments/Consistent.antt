-- ===== src/Deployments/Consistent.antt =====
-- What every sequence of writes keeps of the rows: the keys, and who a build log belongs to.
use skifity.Prelude.{
  if◌then◌else◌, nat_eq, ◌==◌, any, All, ◌≡◌, refl, sym, ap, subst, ◌∙◌, Bool, true, false, not,
  ◌&&◌, none, some, List, [], ◌∷◌, ◌++◌, arith,
}
use skifity.Prelude.Text.{text_eq}
use skifity.Prelude.Tables.{update_where, Apart}
use skifity.Prelude.TableLaws.{All-imp, any-none, Apart-snoc, Apart-update_where, any-update_where}
use skifity.Deployments.Rows.{Deployment, BuildLog, Database, of_app}
use skifity.Deployments.Writes.{Draft, has_id, accepts_row}
use skifity.Deployments.Logs.{of_deployment}
use skifity.Deployments.Changes.{after_write}

-- Two rows have different ids; the second is not numbered like the first in the same app.
abbrev pub OtherId : Deployment → Deployment → Type 0
OtherId a b = has_id b.id a ≡ false

abbrev pub OtherNumber : Deployment → Deployment → Type 0
OtherNumber a b = (of_app b.app_id a && a.number == b.number) ≡ false

abbrev pub OtherLine : BuildLog → BuildLog → Type 0
OtherLine a b = (of_deployment b.deployment_id a && a.seq == b.seq) ≡ false

abbrev pub Owned : List Deployment → BuildLog → Type 0
Owned rows l = any (has_id l.deployment_id) rows ≡ true

pub record Consistent (db : Database) : Type 0 where
  pub ids_apart : Apart OtherId db.deployments
  pub numbers_apart : Apart OtherNumber db.deployments
  pub lines_apart : Apart OtherLine db.build_logs
  pub logs_owned : All (Owned db.deployments) db.build_logs

three_false : (a b c : Bool) → (a && (not b && not c)) ≡ true → (b ≡ false) × (c ≡ false)
three_false true false false h = (refl, refl)
three_false true true c h = cc
three_false true false true h = cc
three_false false b c h = cc

any-append_left :
    (p : Deployment → Bool) (xs ys : List Deployment) → any p xs ≡ true → any p (xs ++ ys) ≡ true
any-append_left p [] ys h = cc
any-append_left p (x ∷ xs) ys h = ground (arith, any-append_left p xs ys)

pub accepted_is_new :
    (db : Database) (row : Deployment)
    → accepts_row db row ≡ true
    → any (has_id row.id) db.deployments ≡ false
accepted_is_new db row ok =
    (three_false (any (λ app. app == row.app_id) db.apps) (any (has_id row.id) db.deployments)
      (any (λ d. of_app row.app_id d && d.number == row.number) db.deployments) ok).0

insert-Consistent :
    (db : Database) (row : Deployment)
    → accepts_row db row ≡ true
    → Consistent db
    → Consistent (record db { deployments = db.deployments ++ row ∷ [] })
insert-Consistent db row ok c =
    let new =
      three_false (any (λ app. app == row.app_id) db.apps) (any (has_id row.id) db.deployments)
        (any (λ d. of_app row.app_id d && d.number == row.number) db.deployments) ok in
    record {
      ids_apart =
          Apart-snoc OtherId db.deployments row c.ids_apart
            (any-none (has_id row.id) db.deployments new.0);
      numbers_apart =
          Apart-snoc OtherNumber db.deployments row c.numbers_apart
            (any-none (λ d. of_app row.app_id d && d.number == row.number) db.deployments new.1);
      lines_apart = c.lines_apart;
      logs_owned =
          All-imp (Owned db.deployments) (Owned (db.deployments ++ row ∷ [])) db.build_logs
            (λ l. any-append_left (has_id l.deployment_id) db.deployments (row ∷ [])) c.logs_owned;
    }

pub create_step :
    (b : Bool) (db : Database) (d : Draft) (row : Deployment)
    → accepts_row db row ≡ b
    → Consistent db
    → Consistent (
        after_write db
          (if b then some (d, record db { deployments = db.deployments ++ row ∷ [] }) else none))
create_step true db d row e c = insert-Consistent db row e c
create_step false db d row e c = c

-- An update that keeps the id, the app and the number of each row.
pub rewrite-Consistent :
    (db : Database) (p : Deployment → Bool) (f : Deployment → Deployment)
    → ((d : Deployment) → (f d).id ≡ d.id)
    → ((d : Deployment) → (f d).app_id ≡ d.app_id)
    → ((d : Deployment) → (f d).number ≡ d.number)
    → Consistent db
    → Consistent (record db { deployments = update_where p f db.deployments })
rewrite-Consistent db p f same_id same_app same_number c = record {
  ids_apart =
      Apart-update_where OtherId p f db.deployments
        (λ x y h. subst (λ i. has_id i x ≡ false) (sym (same_id y)) h)
        (λ x y h. subst (λ i. (i == y.id) ≡ false) (sym (same_id x)) h) c.ids_apart;
  numbers_apart =
      Apart-update_where OtherNumber p f db.deployments
        (λ x y h.
          subst (λ i. (of_app i x && x.number == (f y).number) ≡ false) (sym (same_app y))
            (subst (λ n. (of_app y.app_id x && x.number == n) ≡ false) (sym (same_number y)) h))
        (λ x y h.
          subst (λ i. (i == y.app_id && (f x).number == y.number) ≡ false) (sym (same_app x))
            (subst (λ n. (of_app y.app_id x && n == y.number) ≡ false) (sym (same_number x)) h))
        c.numbers_apart;
  lines_apart = c.lines_apart;
  logs_owned =
      All-imp (Owned db.deployments) (Owned (update_where p f db.deployments)) db.build_logs
        (λ l h.
          any-update_where (has_id l.deployment_id) p f db.deployments
            (λ d. ap (λ i. i == l.deployment_id) (same_id d))
          ∙ h)
        c.logs_owned;
}
