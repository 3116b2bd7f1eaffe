-- ===== src/Watch/News.antt =====
-- What there is to say of the rows before and after a pass, read off the rows alone.
use skifity.Prelude.{
  if◌then◌else◌, nat_eq, ◌==◌, ◌≡◌, refl, Bool, not, ◌&&◌, Option, none, some, List, [], ◌∷◌, ◌++◌,
}
use skifity.Prelude.Text.{Text, codes, text_eq, is_empty}
use skifity.Watch.Types.{
  is_ready, Server, Domain, App, RuntimeStatus, Answers, Message, Watcher, or_text, success, error,
  server_added, server_lost, app_unhealthy, certificate_failed, published, notified,
}
use skifity.Watch.Apps.{running, secured, first_hostname}
use skifity.Watch.Once.{Rows}
use skifity.Watch.Servers.{each}

-- A message for a team is sent where there is somebody to send it, and a team.
abbrev pub sent_to : Bool → Text → Message → List Message
sent_to on team message = if on && not (is_empty team) then message ∷ [] else []

-- A server that is ready and was not, and one that was and is not.
abbrev pub server_news : Watcher → Server → Server → List Message
server_news w before after =
    if is_ready before.status
    then (if is_ready after.status
        then []
        else sent_to w.has_hub before.team_id (
            published before.team_id (codes "server") before.id (codes "not_ready")
              after.status_detail)
          ++ sent_to w.has_notifier before.team_id (
              notified before.team_id server_lost (before.name ++ codes " stopped answering")
                after.status_detail error))
    else if is_ready after.status
    then sent_to w.has_hub before.team_id
        (published before.team_id (codes "server") before.id (codes "ready") [])
      ++ sent_to w.has_notifier before.team_id (
          notified before.team_id server_added (before.name ++ codes " is back")
            (codes "The node is ready again and can run apps.") success)
    else []

-- An app whose status is another one.
abbrev pub app_news : Watcher → Answers → App → App → List Message
app_news w a before after =
    if before.status == after.status
    then []
    else sent_to w.has_hub before.team_id
        (published before.team_id (codes "app") before.id after.status [])
      ++ sent_to w.has_notifier before.team_id (
          if after.status == running
          then notified before.team_id app_unhealthy (before.name ++ codes " is serving again")
              (codes "Instances are ready and the app is answering.") success
          else notified before.team_id app_unhealthy
              (before.name ++ codes " has no running instances")
              (or_text (detail_of (a.app_status before.namespace before.slug))
                (codes "No instance is ready."))
              error)
  where
    detail_of : Option RuntimeStatus → Text
    detail_of none = []
    detail_of (some status) = status.detail

-- The status and the detail that the first of the changed domains has got.
abbrev pub first_change : List Domain → List Domain → Option (Text × Text)
first_change (d ∷ ds) (e ∷ es) =
    if d.status == e.status then first_change ds es else some (e.status, e.status_detail)
first_change _ _ = none

-- A certificate that has changed the domains of an app.
abbrev pub domain_news : Watcher → App → Option (Text × Text) → List Message
domain_news w app none = []
domain_news w app (some (status, reason)) =
    sent_to w.has_hub app.team_id (published app.team_id (codes "domain") app.id status [])
    ++ (if status == codes "failed"
        then sent_to w.has_notifier app.team_id (
            notified app.team_id certificate_failed
              (codes "No certificate for " ++ first_hostname (secured app.domains))
              (or_text reason (codes "The certificate has not been issued.")) error)
        else [])

abbrev pub both_news : Watcher → Answers → App → App → List Message
both_news w a before after =
    app_news w a before after ++ domain_news w before (first_change before.domains after.domains)

abbrev pub all_news {ℓ} : {A : Type ℓ} → (A → A → List Message) → List A → List A → List Message
all_news news (x ∷ xs) (y ∷ ys) = news x y ++ all_news news xs ys
all_news news _ _ = []

-- What there is to say of the rows before and after a pass, the servers first.
abbrev pub news : Watcher → Answers → Rows → Rows → List Message
news w a before after =
    all_news (server_news w) before.servers after.servers
    ++ all_news (both_news w a) before.apps after.apps

pub each-told {ℓ} :
    {A : Type ℓ} (f : A → A × List Message) (news : A → A → List Message) (xs : List A)
    → ((x : A) → (f x).1 ≡ news x (f x).0)
    → (each f xs).1 ≡ all_news news xs (each f xs).0
unfolding each
each-told f news [] h = refl
each-told f news (x ∷ xs) h = rw (h x, each-told f news xs h) refl

pub no_news {ℓ} :
    {A : Type ℓ} (news : A → A → List Message) (xs : List A)
    → ((x : A) → news x x ≡ [])
    → all_news news xs xs ≡ []
no_news news [] h = refl
no_news news (x ∷ xs) h = rw (h x, no_news news xs h) refl
