-- ===== src/Watch/Told.antt =====
-- What a pass says is what it changed, and a pass after it has nothing to say.
use skifity.Prelude.{
  if◌then◌else◌, nat_eq, list_beq_iff, ◌==◌, length, ◌≡◌, refl, sym, ap, ◌∙◌, Bool, true, false,
  not, ◌||◌, Option, none, some, List, [], ◌∷◌, ◌++◌, arith,
}
use skifity.Prelude.Text.{Text, text_eq}
use skifity.Watch.Types.{
  Server, Domain, App, NodeInfo, CertificateState, Answers, Message, Watcher, publish, notify_team,
}
use skifity.Watch.Apps.{
  secured, health_message, set_app_status, check_app, set_domain, set_domains, domain_messages,
  record_certificate, check_certificate, certificate_status, is_deploying, watch_app, check_apps,
}
use skifity.Watch.Once.{reclaim_previews, Rows, once}
use skifity.Watch.Quiet.{check_certificate-kept, once-quiet}
use skifity.Watch.Servers.{
  set_server_status, touch, server_back, server_gone, compare_server, check_server, each,
  check_servers,
}
use skifity.Watch.News.{
  server_news, all_news, app_news, first_change, domain_news, both_news, news, each-told, no_news,
}

module _ (w : Watcher) (a : Answers) (written : (id : Text) → a.write id ≡ true) where
  check_server-told :
      (nodes : List NodeInfo) (s : Server)
      → (check_server w a nodes s).1 ≡ server_news w s (check_server w a nodes s).0
  unfolding check_server compare_server server_back server_gone set_server_status touch publish
      notify_team
  check_server-told nodes s = ground (arith, written s.id)

  check_app-told : (app : App) → (check_app w a app).1 ≡ app_news w a app (check_app w a app).0
  unfolding check_app set_app_status health_message publish notify_team
  check_app-told app = ground (arith, written app.id, (list_beq_iff app.status app.status).1 refl)

  -- What a change of the domains sets, if there is one.
  abbrev changed_to : Bool → Text → Text → Option (Text × Text) → Option (Text × Text)
  changed_to true status reason rest = some (status, reason)
  changed_to false status reason rest = rest

  set_domain-change :
      (status reason : Text) (d : Domain) (rest : Option (Text × Text)) (ds es : List Domain)
      → first_change ds es ≡ rest
      → first_change (d ∷ ds) ((set_domain a status reason d).0 ∷ es)
        ≡ changed_to (set_domain a status reason d).1 status reason rest
  unfolding set_domain
  set_domain-change status reason d rest ds es h =
      ground (arith, written d.id, (list_beq_iff d.status d.status).1 refl)

  set_domains-change :
      (status reason : Text) (ds : List Domain)
      → first_change ds (set_domains a status reason ds).0
        ≡ changed_to (set_domains a status reason ds).1 status reason none
  unfolding set_domains
  set_domains-change status reason [] = refl
  set_domains-change status reason (d ∷ ds) =
      set_domain-change status reason d
        (changed_to (set_domains a status reason ds).1 status reason none) ds
        (set_domains a status reason ds).0 (set_domains-change status reason ds)
      ∙ either (set_domain a status reason d).1 (set_domains a status reason ds).1
    where
      either :
          (b c : Bool)
          → changed_to b status reason (changed_to c status reason none)
            ≡ changed_to (b || c) status reason none
      either true c = refl
      either false c = refl

  record_certificate-told :
      (app : App) (status reason : Text)
      → (record_certificate w a app status reason).1
        ≡ domain_news w app
            (first_change app.domains (record_certificate w a app status reason).0.domains)
  unfolding record_certificate
  record_certificate-told app status reason =
      told (set_domains a status reason app.domains).1
      ∙ ap (domain_news w app) (sym (set_domains-change status reason app.domains))
    where
      told :
          (b : Bool)
          → (if b then domain_messages w app status reason else [])
            ≡ domain_news w app (changed_to b status reason none)
      told true = unfold domain_messages publish notify_team in ground arith
      told false = refl

  unchanged : (ds : List Domain) → first_change ds ds ≡ none
  unchanged [] = refl
  unchanged (d ∷ ds) = rw ((list_beq_iff d.status d.status).1 refl) (unchanged ds)

  app_news-same : (app : App) → app_news w a app app ≡ []
  app_news-same app = rw ((list_beq_iff app.status app.status).1 refl) refl

  both_news-same : (app : App) → both_news w a app app ≡ []
  both_news-same app = rw (app_news-same app) (ap (domain_news w app) (unchanged app.domains))

  server_news-same : (s : Server) → server_news w s s ≡ []
  server_news-same s = ground arith

  -- What is sent for an app is what its domains tell.
  abbrev Certified : App → App × List Message → Type 0
  Certified app r = r.1 ≡ domain_news w app (first_change app.domains r.0.domains)

  same-Certified : (app : App) → Certified app (app, [])
  same-Certified app = sym (ap (domain_news w app) (unchanged app.domains))

  either-Certified :
      (app : App) (b : Bool) (x y : App × List Message)
      → Certified app x
      → Certified app y
      → Certified app (if b then x else y)
  either-Certified app true x y h k = h
  either-Certified app false x y h k = k

  check_certificate-Certified : (app : App) → Certified app (check_certificate w a app)
  unfolding check_certificate
  check_certificate-Certified app =
      either-Certified app (not (a.domains_listed app.id) || length (secured app.domains) == 0)
        (app, []) (asked (a.certificate app.namespace app.slug)) (same-Certified app)
        (answered (a.certificate app.namespace app.slug))
    where
      recorded : CertificateState → App × List Message
      recorded state =
          if state.found
          then record_certificate w a app (certificate_status a state (secured app.domains))
              state.reason
          else (app, [])

      asked : Option CertificateState → App × List Message
      asked o = elim o [ none ↦ (app, []) | some state ↦ recorded state ]

      answered : (o : Option CertificateState) → Certified app (asked o)
      answered none = same-Certified app
      answered (some state) =
          either-Certified app state.found
            (record_certificate w a app (certificate_status a state (secured app.domains))
              state.reason)
            (app, [])
            (record_certificate-told app (certificate_status a state (secured app.domains))
              state.reason)
            (same-Certified app)

  check_app-status :
      (app : App) → (check_app w a app).0 ≡ record app { status = (check_app w a app).0.status }
  unfolding check_app set_app_status
  check_app-status app = ground (arith, written app.id)

  looked-told :
      (app : App)
      → (check_app w a app).1 ++ (check_certificate w a (check_app w a app).0).1
        ≡ both_news w a app (check_certificate w a (check_app w a app).0).0
  looked-told app =
      let checked = (check_app w a app).0 in
      let after = (check_certificate w a checked).0 in
      ap (λ (m : List Message). m ++ (check_certificate w a checked).1)
        (check_app-told app
          ∙ sym (ap (app_news w a app) (check_certificate-kept w a written checked)))
      ∙ ap (λ (m : List Message). app_news w a app after ++ m)
          (check_certificate-Certified checked
            ∙ ap (λ (x : App). domain_news w x (first_change x.domains after.domains))
                (check_app-status app))

  watch_app-told : (app : App) → (watch_app w a app).1 ≡ both_news w a app (watch_app w a app).0
  unfolding watch_app
  watch_app-told app = owned (is_deploying a.unfinished app.id)
    where
      looked : App × List Message
      looked = (
        (check_certificate w a (check_app w a app).0).0,
        (check_app w a app).1 ++ (check_certificate w a (check_app w a app).0).1,
      )

      owned :
          (b : Bool)
          → (if b then (app, []) else looked).1
            ≡ both_news w a app (if b then (app, []) else looked).0
      owned true = sym (both_news-same app)
      owned false = looked-told app

  check_servers-told :
      (servers : List Server)
      → (check_servers w a servers).1
        ≡ all_news (server_news w) servers (check_servers w a servers).0
  unfolding check_servers
  check_servers-told servers = asked a.summary a.servers_listed
    where
      same : [] ≡ all_news (server_news w) servers servers
      same = sym (no_news (server_news w) servers server_news-same)

      asked :
          (summary : Option (List NodeInfo)) (listed : Bool)
          → let result : List Server × List Message = elim summary [
            | none ↦ (servers, [])
            | some nodes ↦ if listed then each (check_server w a nodes) servers else (servers, [])
          ] in
            result.1 ≡ all_news (server_news w) servers result.0
      asked none listed = same
      asked (some nodes) false = same
      asked (some nodes) true =
          each-told (check_server w a nodes) (server_news w) servers (check_server-told nodes)

  check_apps-told :
      (apps : List App)
      → (check_apps w a apps).1 ≡ all_news (both_news w a) apps (check_apps w a apps).0
  unfolding check_apps
  check_apps-told apps = listed a.apps_listed
    where
      listed :
          (b : Bool)
          → let result : List App × List Message =
              if b then each (watch_app w a) apps else (apps, []) in
            result.1 ≡ all_news (both_news w a) apps result.0
      listed true = each-told (watch_app w a) (both_news w a) apps watch_app-told
      listed false = sym (no_news (both_news w a) apps both_news-same)

  once-told : (rows : Rows) → (once w a rows).1 ≡ news w a rows (once w a rows).0
  unfolding once
  once-told rows = passed w.has_cluster
    where
      result : Bool → Rows × List Message
      result on = if not on then (rows, []) else (
        record {
          servers = (check_servers w a rows.servers).0;
          apps = (check_apps w a rows.apps).0;
          previews = reclaim_previews a rows.previews;
        },
        (check_servers w a rows.servers).1 ++ (check_apps w a rows.apps).1,
      )

      passed : (on : Bool) → (result on).1 ≡ news w a rows (result on).0
      passed false = sym (
          ap (λ (m : List Message). m ++ all_news (both_news w a) rows.apps rows.apps)
            (no_news (server_news w) rows.servers server_news-same)
          ∙ no_news (both_news w a) rows.apps both_news-same)
      passed true =
          ap (λ (m : List Message). m ++ (check_apps w a rows.apps).1)
            (check_servers-told rows.servers)
          ∙ ap
              (λ (m : List Message).
                all_news (server_news w) rows.servers (check_servers w a rows.servers).0 ++ m)
              (check_apps-told rows.apps)

  -- Where the database takes every write, the messages of a pass are those that the rows before
  -- and after it call for, in the order of the rows: of each server that became ready or ceased
  -- to be, of each app whose status changed, and of each app whose certificate changed the status
  -- of its domains. A second pass at the same time that is told the same sends nothing.
  pub once-told_once :
      (rows : Rows)
      → ((once w a rows).1 ≡ news w a rows (once w a rows).0)
        × ((once w a (once w a rows).0).1 ≡ [])
  once-told_once rows = (once-told rows, once-quiet w a written rows)
