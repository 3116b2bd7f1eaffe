-- ===== src/Watch/Types.antt =====
-- internal/watch/watch.go: the rows a pass reads and writes, what the cluster and the database
-- answer it, and what it sends. The domains of an app stand in the app's row.
use skifity.Prelude.{if◌then◌else◌, ℕ, Bool, true, false, not, ◌||◌, Option, List, [], ◌∷◌}
use skifity.Prelude.Text.{Text, is_empty}

pub data ServerStatus : Type 0 where
  ready not_ready : ServerStatus
  other : Text → ServerStatus

abbrev pub is_watched : ServerStatus → Bool
is_watched ready = true
is_watched not_ready = true
is_watched (ServerStatus.other _) = false

abbrev pub is_ready : ServerStatus → Bool
is_ready ready = true
is_ready _ = false

pub record Server : Type 0 where
  pub id : Text
  pub team_id : Text
  pub name : Text
  pub node_name : Text
  pub status : ServerStatus
  pub status_detail : Text
  pub last_seen : ℕ

pub record Domain : Type 0 where
  pub id : Text
  pub hostname : Text
  pub tls : Bool
  pub status : Text
  pub status_detail : Text
  pub created_at : ℕ

pub record App : Type 0 where
  pub id : Text
  pub team_id : Text
  pub name : Text
  pub namespace : Text
  pub slug : Text
  pub status : Text
  pub domains : List Domain

-- A preview environment; `live` says whether its namespace is in the cluster.
pub record Preview : Type 0 where
  pub id : Text
  pub namespace : Text
  pub live : Bool

pub record NodeInfo : Type 0 where
  pub name : Text
  pub ready : Bool
  pub reason : Text

pub record RuntimeStatus : Type 0 where
  pub detail : Text
  pub desired_replicas : ℕ
  pub ready_replicas : ℕ

pub record CertificateState : Type 0 where
  pub found : Bool
  pub ready : Bool
  pub reason : Text

-- What a pass is told: `none` and `false` are the errors. `write` answers for the updates of the
-- row with an id, and `certificate` is asked by an app's namespace and slug.
pub record Answers : Type 0 where
  pub now : ℕ
  pub summary : Option (List NodeInfo)
  pub servers_listed : Bool
  pub apps_listed : Bool
  pub unfinished : Option (List Text)
  pub app_status : Text → Text → Option RuntimeStatus
  pub domains_listed : Text → Bool
  pub certificate : Text → Text → Option CertificateState
  pub setting : Option Text
  pub stale_previews : ℕ → Option (List Text)
  pub delete_namespace : Text → Bool
  pub write : Text → Bool

pub data Level : Type 0 where
  success error : Level

pub data Notice : Type 0 where
  server_added server_lost app_unhealthy certificate_failed : Notice

pub data Message : Type 0 where
  published : Text → Text → Text → Text → Text → Message
  notified : Text → Notice → Text → Text → Level → Message

-- Which of its optional parts a watcher was built with.
pub record Watcher : Type 0 where
  pub has_cluster : Bool
  pub has_hub : Bool
  pub has_notifier : Bool

-- The team, the kind, and what is said of which row.
unfoldable pub publish : Watcher → Text → Text → Text → Text → Text → List Message
publish w team kind row status detail =
    if not w.has_hub || is_empty team then [] else published team kind row status detail ∷ []

unfoldable pub notify_team : Watcher → Text → Notice → Text → Text → Level → List Message
notify_team w team notice title body level =
    if not w.has_notifier || is_empty team then [] else notified team notice title body level ∷ []

abbrev pub or_text : Text → Text → Text
or_text s fallback = if is_empty s then fallback else s
