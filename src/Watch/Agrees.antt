-- ===== src/Watch/Agrees.antt =====
-- After a pass the panel's picture of the servers is that of the cluster.
use skifity.Prelude.{◌≡◌, true, false, Option, List}
use skifity.Prelude.Text.{Text, is_empty}
use skifity.Watch.Types.{is_watched, is_ready, Server, NodeInfo}
use skifity.Watch.Servers.{find_node, node_is_ready}

-- The status of a server that has finished provisioning says whether its node is ready.
abbrev pub Agrees : List NodeInfo → Server → Type 0
Agrees nodes s =
    is_watched s.status ≡ true
    → is_empty s.node_name ≡ false
    → is_ready s.status ≡ node_is_ready (find_node nodes s.node_name)
