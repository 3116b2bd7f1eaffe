-- ===== src/Tests/Night.antt =====
-- A pass of the watcher on a night when a node and an app are lost.
use skifity.Watch.Types.{ready}
use skifity.Prelude.{
  if◌then◌else◌, nat_eq, ◌==◌, length, ◌≡◌, refl, true, false, none, some, [], ◌∷◌,
}
use skifity.Prelude.Text.{codes, text_eq}
use skifity.Watch.Types.{Server, Domain, App, Preview, NodeInfo, Answers, Watcher}
use skifity.Watch.Servers.{
  find_node, set_server_status, server_gone, compare_server, check_server, check_servers,
}
use skifity.Watch.Apps.{
  set_app_status, check_app, certificate_status, record_certificate, check_certificate, watch_app,
  check_apps,
}
use skifity.Watch.Once.{reclaim_previews, Rows, once}
use skifity.Watch.News.{news}
use skifity.Watch.Told.{once-told_once}
use skifity.Watch.Agrees.{Agrees}

abbrev web : Server
web = record {
  id = codes "s1";
  team_id = codes "t1";
  name = codes "web";
  node_name = codes "n1";
  status = ready;
  status_detail = [];
  last_seen = 0;
}

abbrev domain : Domain
domain = record {
  id = codes "d1";
  hostname = codes "app.example";
  tls = true;
  status = codes "pending";
  status_detail = [];
  created_at = 0;
}

abbrev shop : App
shop = record {
  id = codes "a1";
  team_id = codes "t1";
  name = codes "shop";
  namespace = codes "team";
  slug = codes "shop";
  status = codes "running";
  domains = domain ∷ [];
}

abbrev preview : Preview
preview = record { id = codes "p1"; namespace = codes "pr-1"; live = true }

abbrev lost_node : NodeInfo
lost_node = record { name = codes "n1"; ready = false; reason = codes "out of disk" }

abbrev night : Answers
night = record {
  now = 1000;
  summary = some (lost_node ∷ []);
  servers_listed = true;
  apps_listed = true;
  unfinished = none;
  app_status =
      λ namespace slug. some (record { detail = []; desired_replicas = 2; ready_replicas = 0 });
  domains_listed = λ id. true;
  certificate =
      λ namespace slug. some (record { found = true; ready = false; reason = codes "no record" });
  setting = some (codes " 3 ");
  stale_previews = λ days. if days == 3 then some (codes "p1" ∷ []) else none;
  delete_namespace = λ namespace. true;
  write = λ id. true;
}

abbrev watcher : Watcher
watcher = record { has_cluster = true; has_hub = true; has_notifier = true }

abbrev rows : Rows
rows = record { servers = web ∷ []; apps = shop ∷ []; previews = preview ∷ [] }

once-told_once_example :
    ((once watcher night rows).1 ≡ news watcher night rows (once watcher night rows).0)
    × ((once watcher night (once watcher night rows).0).1 ≡ [])
once-told_once_example = once-told_once watcher night (λ id. refl) rows

night_messages : length (once watcher night rows).1 ≡ 6
unfolding once check_servers check_server compare_server server_gone set_server_status find_node
    check_apps watch_app check_app set_app_status check_certificate record_certificate
    certificate_status
night_messages = refl

night_previews : (once watcher night rows).0.previews ≡ []
unfolding once reclaim_previews
night_previews = refl
