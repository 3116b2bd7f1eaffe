-- ===== src/Watch/Once.antt =====
-- internal/watch/watch.go: `reclaimPreviews` and a whole pass, `Once`.
use skifity.Prelude.{
  if◌then◌else◌, nat_eq, ◌==◌, true, false, not, Option, none, some, List, [], ◌∷◌, ◌++◌,
}
use skifity.Prelude.Int.{ℤ, pos, negsuc}
use skifity.Prelude.Text.{Text, text_eq, is_empty, trim_space}
use skifity.Cron.Number.{atoi}
use skifity.Watch.Types.{Server, App, Preview, Answers, Message, Watcher}
use skifity.Watch.Servers.{check_servers}
use skifity.Watch.Apps.{check_apps}

abbrev pub default_preview_days : ℤ
default_preview_days = pos 7

unfoldable pub preview_days : Option Text → ℤ
unfolding trim_space atoi
preview_days none = default_preview_days
preview_days (some value) =
    if is_empty (trim_space value)
    then default_preview_days
    else elim (atoi (trim_space value)) [ none ↦ default_preview_days | some days ↦ days ]

-- What is left of the rows after one turn of the loop, for the preview of an id.
unfoldable pub reclaim : Answers → Text → List Preview → List Preview
reclaim a id [] = []
reclaim a id (p ∷ previews) =
    let rest = reclaim a id previews in
    elim (p.id == id) [
      | false ↦ p ∷ rest
      | true ↦
          if not (a.delete_namespace p.namespace)
          then p ∷ rest
          else if a.write p.id
          then rest
          else record p { live = false } ∷ rest
    ]

unfoldable pub reclaim_all : Answers → List Text → List Preview → List Preview
unfolding reclaim
reclaim_all a [] previews = previews
reclaim_all a (id ∷ ids) previews = reclaim_all a ids (reclaim a id previews)

abbrev stale_ids : Option (List Text) → List Text
stale_ids none = []
stale_ids (some ids) = ids

-- The previews that the database calls stale are those that had no deployment for the days.
unfoldable pub reclaim_previews : Answers → List Preview → List Preview
unfolding preview_days reclaim_all
reclaim_previews a previews = elim (preview_days a.setting) [
  | negsuc _ ↦ previews
  | pos days ↦
      if days == 0 then previews else reclaim_all a (stale_ids (a.stale_previews days)) previews
]

pub record Rows : Type 0 where
  pub servers : List Server
  pub apps : List App
  pub previews : List Preview

unfoldable pub once : Watcher → Answers → Rows → Rows × List Message
once w a rows =
    if not w.has_cluster
    then (rows, [])
    else let (servers, sent) = check_servers w a rows.servers in
      let (apps, later) = check_apps w a rows.apps in
      (
        record { servers = servers; apps = apps; previews = reclaim_previews a rows.previews },
        sent ++ later,
      )
