-- ===== src/Watch/Quiet.antt =====
-- The same answers again, at the same time, are no news.
use skifity.Prelude.{
  if◌then◌else◌, ◌≡◌, refl, sym, ap, subst, ◌∙◌, Bool, true, false, not, Option, none, some, List,
  [], ◌∷◌, ◌++◌, arith,
}
use skifity.Prelude.Text.{Text}
use skifity.Watch.Types.{Server, Domain, App, NodeInfo, Answers, Message, Watcher}
use skifity.Watch.Servers.{
  set_server_status, touch, server_back, server_gone, compare_server, check_server, each,
  check_servers,
}
use skifity.Watch.Apps.{
  set_app_status, check_app, record_certificate, check_certificate, is_deploying, watch_app,
  check_apps,
}
use skifity.Watch.Once.{reclaim_previews, Rows, once}
use skifity.Watch.Certificates.{check_certificate-quiet}

module _ (w : Watcher) (a : Answers) (written : (id : Text) → a.write id ≡ true) where
  check_server-quiet :
      (nodes : List NodeInfo) (s : Server)
      → (check_server w a nodes (check_server w a nodes s).0).1 ≡ []
  unfolding check_server compare_server server_back server_gone set_server_status touch
  check_server-quiet nodes s = ground (arith, written s.id)

  each-quiet {ℓ} :
      {A : Type ℓ} (f : A → A × List Message) (xs : List A)
      → ((x : A) → (f (f x).0).1 ≡ [])
      → (each f (each f xs).0).1 ≡ []
  unfolding each
  each-quiet f [] h = refl
  each-quiet f (x ∷ xs) h = rw (h x, each-quiet f xs h)

  asked-quiet :
      (summary : Option (List NodeInfo)) (listed : Bool) (servers : List Server)
      → let go : List Server → List Server × List Message = λ rows. elim summary [
        | none ↦ (rows, [])
        | some nodes ↦ if listed then each (check_server w a nodes) rows else (rows, [])
      ] in
        (go (go servers).0).1 ≡ []
  asked-quiet none listed servers = refl
  asked-quiet (some nodes) false servers = refl
  asked-quiet (some nodes) true servers =
      each-quiet (check_server w a nodes) servers (check_server-quiet nodes)

  check_servers-quiet :
      (servers : List Server) → (check_servers w a (check_servers w a servers).0).1 ≡ []
  unfolding check_servers
  check_servers-quiet servers = asked-quiet a.summary a.servers_listed servers

  -- An app whose status is right is left as it is, whatever its domains.
  check_app-settled :
      (app : App) (ds : List Domain)
      → let after = record (check_app w a app).0 { domains = ds } in
        check_app w a after ≡ (after, [])
  unfolding check_app set_app_status
  check_app-settled app ds = ground (arith, written app.id)

  check_app-kept :
      (app : App)
      → ((check_app w a app).0.id ≡ app.id) × ((check_app w a app).0.domains ≡ app.domains)
  unfolding check_app set_app_status
  check_app-kept app = ground (arith, written app.id)

  -- What a look at the certificate leaves of an app: only its domains may differ.
  pub check_certificate-kept :
      (app : App)
      → (check_certificate w a app).0
        ≡ record app { domains = (check_certificate w a app).0.domains }
  unfolding check_certificate record_certificate
  check_certificate-kept app = ground arith

  -- Both looks at an app that no deployment owns.
  looked : App → App × List Message
  looked app =
      let (checked, sent) = check_app w a app in
      let (after, later) = check_certificate w a checked in (after, sent ++ later)

  looked-settled : (app : App) → check_app w a (looked app).0 ≡ ((looked app).0, [])
  unfolding looked
  looked-settled app =
      let checked = (check_app w a app).0 in
      let after = (check_certificate w a checked).0 in
      subst (λ x. check_app w a x ≡ (x, [])) (sym (check_certificate-kept checked))
        (check_app-settled app after.domains)

  looked-quiet : (app : App) → (looked (looked app).0).1 ≡ []
  unfolding looked
  looked-quiet app =
      ap (λ r. r.1 ++ (check_certificate w a r.0).1) (unfold looked in looked-settled app)
      ∙ check_certificate-quiet w a written (check_app w a app).0

  looked-id : (app : App) → (looked app).0.id ≡ app.id
  unfolding looked
  looked-id app =
      ap (λ x. x.id) (check_certificate-kept (check_app w a app).0) ∙ (check_app-kept app).0

  owned-quiet :
      (owned again : Bool) (app : App)
      → again ≡ owned
      → let after = (if owned then (app, []) else looked app).0 in
        (if again then (after, []) else looked after).1 ≡ []
  owned-quiet true true app e = refl
  owned-quiet true false app e = cc
  owned-quiet false true app e = cc
  owned-quiet false false app e = looked-quiet app

  either_id :
      (b : Bool) (id : Text) (x y : App × List Message)
      → x.0.id ≡ id
      → y.0.id ≡ id
      → (if b then x else y).0.id ≡ id
  either_id true id x y e f = e
  either_id false id x y e f = f

  watch_app-id : (app : App) → (watch_app w a app).0.id ≡ app.id
  unfolding watch_app looked
  watch_app-id app =
      either_id (is_deploying a.unfinished app.id) app.id (app, []) (looked app) refl
        (looked-id app)

  watch_app-quiet : (app : App) → (watch_app w a (watch_app w a app).0).1 ≡ []
  unfolding watch_app looked
  watch_app-quiet app =
      owned-quiet (is_deploying a.unfinished app.id)
        (is_deploying a.unfinished (watch_app w a app).0.id) app
        (ap (is_deploying a.unfinished) (watch_app-id app))

  listed-quiet :
      (listed : Bool) (apps : List App)
      → let go : List App → List App × List Message =
          λ rows. if listed then each (watch_app w a) rows else (rows, []) in
        (go (go apps).0).1 ≡ []
  listed-quiet false apps = refl
  listed-quiet true apps = each-quiet (watch_app w a) apps watch_app-quiet

  check_apps-quiet : (apps : List App) → (check_apps w a (check_apps w a apps).0).1 ≡ []
  unfolding check_apps
  check_apps-quiet apps = listed-quiet a.apps_listed apps

  pass_quiet :
      (on : Bool) (rows : Rows)
      → let go : Rows → Rows × List Message = λ r.
        if not on
        then (r, [])
        else let (servers, sent) = check_servers w a r.servers in
          let (apps, later) = check_apps w a r.apps in
          (
            record { servers = servers; apps = apps; previews = reclaim_previews a r.previews },
            sent ++ later,
          ) in
        (go (go rows).0).1 ≡ []
  pass_quiet false rows = refl
  pass_quiet true rows = rw (check_servers-quiet rows.servers, check_apps-quiet rows.apps)

  -- Where the database takes every write, a second pass at the same time that is told the same
  -- sends nothing.
  pub once-quiet : (rows : Rows) → (once w a (once w a rows).0).1 ≡ []
  unfolding once
  once-quiet rows = pass_quiet w.has_cluster rows
