-- ===== src/Watch/Apps.antt =====
-- internal/watch/watch.go: `checkApps`, with the health of an app and its certificate.
use skifity.Prelude.{
  ltb, if◌then◌else◌, nat_eq, ◌==◌, length, any, filter, ℕ, ◌-◌, Bool, true, false, not, ◌||◌,
  Option, none, some, List, [], ◌∷◌, ◌++◌,
}
use skifity.Prelude.Text.{Text, codes, text_eq}
use skifity.Watch.Types.{
  Domain, App, RuntimeStatus, CertificateState, Answers, Message, Watcher, publish, notify_team,
  or_text, success, error, app_unhealthy, certificate_failed,
}
use skifity.Watch.Servers.{each}

abbrev pub running : Text
running = codes "running"

abbrev pub unhealthy : Text
unhealthy = codes "unhealthy"

-- The program's replica counts are not negative.
abbrev pub is_healthy : RuntimeStatus → Bool
is_healthy status = status.desired_replicas == 0 || ltb 0 status.ready_replicas

abbrev pub wanted_status : RuntimeStatus → Text
wanted_status status = if is_healthy status then running else unhealthy

unfoldable pub health_message : Watcher → App → RuntimeStatus → List Message
unfolding notify_team
health_message w app status =
    if is_healthy status
    then notify_team w app.team_id app_unhealthy (app.name ++ codes " is serving again")
        (codes "Instances are ready and the app is answering.") success
    else notify_team w app.team_id app_unhealthy (app.name ++ codes " has no running instances")
        (or_text status.detail (codes "No instance is ready.")) error

unfoldable pub set_app_status : Watcher → Answers → App → RuntimeStatus → App × List Message
unfolding publish health_message
set_app_status w a app status =
    if a.write app.id
    then (
      record app { status = wanted_status status },
      publish w app.team_id (codes "app") app.id (wanted_status status) []
          ++ health_message w app status,
    )
    else (app, [])

abbrev pub is_up : Text → Bool
is_up status = status == running || status == unhealthy

unfoldable pub check_app : Watcher → Answers → App → App × List Message
check_app w a app =
    if not (is_up app.status) then (app, []) else elim (a.app_status app.namespace app.slug) [
      | none ↦ (app, [])
      | some status ↦
          if app.status == wanted_status status then (app, []) else set_app_status w a app status
    ]

-- A quarter of an hour, in seconds.
abbrev pub patience : ℕ
patience = 900

abbrev pub secured : List Domain → List Domain
secured domains = filter (λ d. d.tls) domains

unfoldable pub stale : ℕ → List Domain → Bool
stale now domains = any (λ d. ltb patience (now - d.created_at)) domains

unfoldable pub certificate_status : Answers → CertificateState → List Domain → Text
unfolding stale
certificate_status a state domains =
    if state.ready
    then codes "active"
    else if stale a.now domains
    then codes "failed"
    else codes "pending"

-- The loop over the secured domains, which gives each domain and whether it changed.
unfoldable pub set_domain : Answers → Text → Text → Domain → Domain × Bool
set_domain a status reason d =
    if not d.tls || (d.status == status || not (a.write d.id))
    then (d, false)
    else (record d { status = status; status_detail = reason }, true)

unfoldable pub set_domains : Answers → Text → Text → List Domain → List Domain × Bool
unfolding set_domain
set_domains a status reason [] = ([], false)
set_domains a status reason (d ∷ ds) =
    let (e, now) = set_domain a status reason d in
    let (es, later) = set_domains a status reason ds in (e ∷ es, now || later)

abbrev pub first_hostname : List Domain → Text
first_hostname [] = []
first_hostname (d ∷ _) = d.hostname

unfoldable pub domain_messages : Watcher → App → Text → Text → List Message
unfolding publish notify_team
domain_messages w app status reason =
    publish w app.team_id (codes "domain") app.id status []
    ++ (if status == codes "failed"
        then notify_team w app.team_id certificate_failed
            (codes "No certificate for " ++ first_hostname (secured app.domains))
            (or_text reason (codes "The certificate has not been issued.")) error
        else [])

unfoldable pub record_certificate : Watcher → Answers → App → Text → Text → App × List Message
unfolding set_domains domain_messages
record_certificate w a app status reason =
    let (domains, changed) = set_domains a status reason app.domains in
    (record app { domains = domains }, if changed then domain_messages w app status reason else [])

unfoldable pub check_certificate : Watcher → Answers → App → App × List Message
check_certificate w a app =
    if not (a.domains_listed app.id) || length (secured app.domains) == 0
    then (app, [])
    else elim (a.certificate app.namespace app.slug) [
      | none ↦ (app, [])
      | some state ↦
          if state.found
          then record_certificate w a app (certificate_status a state (secured app.domains))
              state.reason
          else (app, [])
    ]

abbrev pub is_deploying : Option (List Text) → Text → Bool
is_deploying none id = false
is_deploying (some ids) id = any (λ i. i == id) ids

unfoldable pub watch_app : Watcher → Answers → App → App × List Message
watch_app w a app =
    if is_deploying a.unfinished app.id
    then (app, [])
    else let (checked, sent) = check_app w a app in
      let (after, later) = check_certificate w a checked in (after, sent ++ later)

unfoldable pub check_apps : Watcher → Answers → List App → List App × List Message
unfolding each
check_apps w a apps = if a.apps_listed then each (watch_app w a) apps else (apps, [])
