-- ===== src/Deployments/Replaced.antt =====
-- A deployment that starts replaces those of its app that had not finished.
use mathlib.Core.Option.{some-injective}
use skifity.Prelude.{nat_eq}
use skifity.Prelude.{
  if◌then◌else◌, Bool-cases, list_beq_iff, filter, All, ℕ, ◌≡◌, refl, sym, ap, subst, ◌∙◌, inl, inr,
  Bool, true, false, not, ◌&&◌, Option, none, some, List, [], ◌∷◌, ◌++◌, map,
}
use skifity.Prelude.Text.{Text}
use skifity.Prelude.Tables.{update_where}
use skifity.Prelude.TableLaws.{filter_hit, filter_miss, any-none}
use skifity.Deployments.Rows.{is_unfinished, Deployment, Database, list_is_empty, of_app}
use skifity.Deployments.Writes.{
  Draft, status_or_queued, complete_draft, row_of, has_id, accepts_row, create_deployment,
  replaceable, replaced, supersede_running_deployments,
}
use skifity.Deployments.Consistent.{accepted_is_new}
use skifity.Deployments.Begin.{begin_deployment}

abbrev pub is_open : Text → Deployment → Bool
is_open app d = of_app app d && is_unfinished d.status

abbrev pub id_of : Deployment → Text
id_of d = d.id

-- Where no row is replaced, writing the rows changes none.
nothing_replaced :
    (p : Deployment → Bool) (f : Deployment → Deployment) (xs : List Deployment)
    → list_is_empty (map id_of (filter p xs)) ≡ true
    → update_where p f xs ≡ xs
unfolding update_where
nothing_replaced p f [] h = refl
nothing_replaced p f (x ∷ xs) h = go (p x) h (nothing_replaced p f xs)
  where
    go :
        (b : Bool)
        → list_is_empty (map id_of (elim b [ true ↦ x ∷ filter p xs | false ↦ filter p xs ])) ≡ true
        → (list_is_empty (map id_of (filter p xs)) ≡ true → update_where p f xs ≡ xs)
        → ((if b then f x else x) ∷ update_where p f xs) ≡ x ∷ xs
    go true k rest = cc
    go false k rest = ap (λ ys. x ∷ ys) (rest k)

picked :
    (b : Bool) (db : Database) (ids : List Text) (rows : List Deployment)
    → (b ≡ true → rows ≡ db.deployments)
    → (if◌then◌else◌ {A = List Text × Database} b (ids, db) (ids, record db { deployments = rows }))
      ≡ (ids, record db { deployments = rows })
picked true db ids rows h = ap (λ r. (ids, record db { deployments = r })) (sym (h refl))
picked false db ids rows h = refl

superseded_rows :
    (app except : Text) (now : ℕ) (db : Database)
    → supersede_running_deployments app except now db ≡ (
      map id_of (filter (replaceable app except) db.deployments),
      record db {
        deployments = update_where (replaceable app except) (replaced now) db.deployments;
      },
    )
unfolding supersede_running_deployments
superseded_rows app except now db =
    let ids = map id_of (filter (replaceable app except) db.deployments) in
    picked (list_is_empty ids) db ids
      (update_where (replaceable app except) (replaced now) db.deployments)
      (nothing_replaced (replaceable app except) (replaced now) db.deployments)

own_id : (d : Deployment) → has_id d.id d ≡ true
own_id d = (list_beq_iff d.id d.id).1 refl

not_both : (a b c : Bool) → b ≡ true → (a && (not b && c)) ≡ false
not_both true b c h = rw h refl
not_both false b c h = refl

not_itself : (a b c : Bool) → b ≡ false → (a && (not b && c)) ≡ (a && c)
not_itself a b c h = rw h refl

filter_alike :
    (p q : Deployment → Bool) (x : Deployment) (xs ys : List Deployment)
    → p x ≡ q x
    → filter p xs ≡ filter q ys
    → filter p (x ∷ xs) ≡ filter q (x ∷ ys)
filter_alike p q x xs ys h e = elim (Bool-cases (q x)) [
  | inl hit ↦ filter_hit p x xs (h ∙ hit) ∙ ap (λ rest. x ∷ rest) e ∙ sym (filter_hit q x ys hit)
  | inr miss ↦ filter_miss p x xs (h ∙ miss) ∙ e ∙ sym (filter_miss q x ys miss)
]

-- The rows to replace are the open ones that were there.
replaceable_old :
    (app : Text) (old : List Deployment) (row : Deployment)
    → All (λ e. has_id row.id e ≡ false) old
    → filter (replaceable app row.id) (old ++ row ∷ []) ≡ filter (is_open app) old
replaceable_old app [] row h =
    filter_miss (replaceable app row.id) row []
      (not_both (of_app app row) (has_id row.id row) (is_unfinished row.status) (own_id row))
replaceable_old app (x ∷ old) row h =
    filter_alike (replaceable app row.id) (is_open app) x (old ++ row ∷ []) old
      (not_itself (of_app app x) (has_id row.id x) (is_unfinished x.status) h.0)
      (replaceable_old app old row h.1)

replaced_is_closed : (app : Text) (now : ℕ) (d : Deployment) → is_open app (replaced now d) ≡ false
replaced_is_closed app now d = go (of_app app d)
  where
    go : (b : Bool) → (b && false) ≡ false
    go true = refl
    go false = refl

-- After the update no row but the new one is open.
only_new :
    (app : Text) (now : ℕ) (old : List Deployment) (row : Deployment)
    → All (λ e. has_id row.id e ≡ false) old
    → is_open app row ≡ true
    → filter (is_open app) (update_where (replaceable app row.id) (replaced now) (old ++ row ∷ []))
      ≡ row ∷ []
unfolding update_where
only_new app now [] row h open_row =
    rw (not_both (of_app app row) (has_id row.id row) (is_unfinished row.status) (own_id row))
      (filter_hit (is_open app) row [] open_row)
only_new app now (x ∷ old) row h open_row = elim (Bool-cases (replaceable app row.id x)) [
  | inl e ↦ rw e (
      filter_miss (is_open app) (replaced now x) _ (replaced_is_closed app now x)
      ∙ only_new app now old row h.1 open_row)
  | inr e ↦ rw e (
      filter_miss (is_open app) x _ (closed (of_app app x) (has_id row.id x) h.0 e)
      ∙ only_new app now old row h.1 open_row)
]
  where
    closed :
        (a b : Bool)
        → b ≡ false
        → (a && (not b && is_unfinished x.status)) ≡ false
        → (a && is_unfinished x.status) ≡ false
    closed a true k e = cc
    closed a false k e = e

-- What is said of the rows after the start of a deployment of an app.
abbrev Alone : Text → Database → Draft × List Text × Database → Type 0
Alone app db (d, replaced_ids, after) =
    (map id_of (filter (is_open app) after.deployments) ≡ d.id ∷ [])
    × (replaced_ids ≡ map id_of (filter (is_open app) db.deployments))

fresh_row-Alone :
    (app : Text) (later : ℕ) (db : Database) (d : Draft) (row : Deployment)
    → row.id ≡ d.id
    → is_open app row ≡ true
    → All (λ e. has_id row.id e ≡ false) db.deployments
    → Alone app db (
      d,
      (supersede_running_deployments app row.id later
          (record db { deployments = db.deployments ++ row ∷ [] })).0,
      (supersede_running_deployments app row.id later
          (record db { deployments = db.deployments ++ row ∷ [] })).1,
    )
fresh_row-Alone app later db d row same open_row new =
    let created = record db { deployments = db.deployments ++ row ∷ [] } in
    subst (λ (r : List Text × Database). Alone app db (d, r.0, r.1))
      (sym (superseded_rows app row.id later created))
      (
        ap (map id_of) (only_new app later db.deployments row new open_row) ∙ ap (λ i. i ∷ []) same,
        ap (map id_of) (replaceable_old app db.deployments row new),
      )

-- Where a deployment starts in a state that is not finished, it is then the only one of its app
-- that has not finished, and those whose work is stopped are exactly those of the app that had
-- not finished before.
pub begin_deployment-alone :
    (new_id : Text) (now later : ℕ) (draft d : Draft) (replaced_ids : List Text)
    (db after : Database)
    → is_unfinished (status_or_queued draft.status) ≡ true
    → begin_deployment new_id now later draft db ≡ some (d, replaced_ids, after)
    → (map id_of (filter (is_open draft.app_id) after.deployments) ≡ d.id ∷ [])
      × (replaced_ids ≡ map id_of (filter (is_open draft.app_id) db.deployments))
unfolding begin_deployment create_deployment
begin_deployment-alone new_id now later draft d replaced_ids db after starting h =
    go (accepts_row db row) refl h
  where
    completed : Draft
    completed = record (complete_draft new_id db draft) { created_at = now }

    row : Deployment
    row = row_of (status_or_queued draft.status) now (complete_draft new_id db draft)

    go :
        (b : Bool)
        → accepts_row db row ≡ b
        → (elim (if◌then◌else◌ {A = Option (Draft × Database)} b
              (some (completed, record db { deployments = db.deployments ++ row ∷ [] }))
              none)
            as (λ _. Option (Draft × List Text × Database)) [
              | none ↦ none
              | some (c, created) ↦ some (
                c,
                (supersede_running_deployments draft.app_id c.id later created).0,
                (supersede_running_deployments draft.app_id c.id later created).1,
              )
            ])
          ≡ some (d, replaced_ids, after)
        → Alone draft.app_id db (d, replaced_ids, after)
    go true e k = subst (Alone draft.app_id db) (some-injective _ _ k) (
        fresh_row-Alone draft.app_id later db completed row refl
          (rw ((list_beq_iff draft.app_id draft.app_id).1 refl) starting)
          (any-none (has_id row.id) db.deployments (accepted_is_new db row e)))
    go false e k = cc
