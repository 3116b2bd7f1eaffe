-- ===== src/Watch/Servers.antt =====
-- internal/watch/watch.go: `checkServers`.
use skifity.Watch.Types.{ready}
use skifity.Prelude.{
  if◌then◌else◌, nat_eq, ◌==◌, Bool, true, false, not, ◌||◌, Option, none, some, List, [], ◌∷◌,
  ◌++◌,
}
use skifity.Prelude.Text.{Text, codes, text_eq, is_empty}
use skifity.Watch.Types.{
  ServerStatus, is_watched, is_ready, Server, NodeInfo, Answers, Message, Watcher, publish,
  notify_team, or_text, not_ready, success, error, server_added, server_lost,
}

-- The map of nodes by name: the last node of a name is the one that is kept.
unfoldable pub find_node : List NodeInfo → Text → Option NodeInfo
find_node [] name = none
find_node (node ∷ nodes) name = elim (find_node nodes name) [
  | some later ↦ some later
  | none ↦ if node.name == name then some node else none
]

abbrev pub status_text : ServerStatus → Text
status_text ready = codes "ready"
status_text not_ready = codes "not_ready"
status_text (ServerStatus.other s) = s

unfoldable pub set_server_status :
    Watcher → Answers → Server → ServerStatus → Text → Server × List Message
unfolding publish
set_server_status w a s status detail =
    if a.write s.id
    then (
      record s { status = status; status_detail = detail },
      publish w s.team_id (codes "server") s.id (status_text status) detail,
    )
    else (s, [])

-- `TouchServerSeen`, whose failure is only logged.
unfoldable pub touch : Answers → Server → Server
touch a s = if a.write s.id then record s { last_seen = a.now } else s

unfoldable pub lost_detail : Option NodeInfo → Text
lost_detail none = codes "The node is no longer part of the cluster."
lost_detail (some node) = or_text node.reason (codes "The node reports that it is not ready.")

abbrev pub node_is_ready : Option NodeInfo → Bool
node_is_ready none = false
node_is_ready (some node) = node.ready

unfoldable pub server_back : Watcher → Answers → Server → Server × List Message
unfolding set_server_status notify_team
server_back w a s =
    let (after, messages) = set_server_status w a s ready [] in
    (
      after,
      messages
          ++ notify_team w s.team_id server_added (s.name ++ codes " is back")
              (codes "The node is ready again and can run apps.") success,
    )

unfoldable pub server_gone : Watcher → Answers → Server → Text → Server × List Message
unfolding set_server_status notify_team
server_gone w a s detail =
    let (after, messages) = set_server_status w a s not_ready detail in
    (
      after,
      messages
          ++ notify_team w s.team_id server_lost (s.name ++ codes " stopped answering") detail
              error,
    )

-- The body of the loop, for a server that has a node to compare against.
unfoldable pub compare_server : Watcher → Answers → Option NodeInfo → Server → Server × List Message
unfolding lost_detail
compare_server w a node s = elim (node_is_ready node) [
  | true ↦ if is_ready s.status then (touch a s, []) else server_back w a (touch a s)
  | false ↦ if is_ready s.status then server_gone w a s (lost_detail node) else (s, [])
]

unfoldable pub check_server : Watcher → Answers → List NodeInfo → Server → Server × List Message
check_server w a nodes s =
    if not (is_watched s.status) || is_empty s.node_name
    then (s, [])
    else compare_server w a (find_node nodes s.node_name) s

-- A loop over rows that changes each of them and sends messages.
unfoldable pub each {ℓ} : {A : Type ℓ} → (A → A × List Message) → List A → List A × List Message
each f [] = ([], [])
each f (x ∷ xs) = let (y, sent) = f x in let (ys, later) = each f xs in (y ∷ ys, sent ++ later)

unfoldable pub check_servers : Watcher → Answers → List Server → List Server × List Message
check_servers w a servers = elim a.summary [
  | none ↦ (servers, [])
  | some nodes ↦ if a.servers_listed then each (check_server w a nodes) servers else (servers, [])
]
