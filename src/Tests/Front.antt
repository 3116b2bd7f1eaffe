-- ===== src/Tests/Front.antt =====
-- The guard on requests, and on reloads of its rules.
use skifity.EdgeRules.Types.{Request}
use skifity.Prelude.{if◌then◌else◌, ◌==◌, nat_eq, ◌≡◌, refl, true, Option, none, some, [], ◌∷◌}
use skifity.Prelude.Text.{Text, codes, text_eq}
use skifity.Net.{Addr}
use skifity.EdgeRules.Evaluate.{
  evaluate_field, evaluate_test, evaluate, evaluate_set, needs, needs_set,
}
use skifity.EdgeRules.ClientIp.{trusts, client_ip, client_country}
use skifity.Guard.{
  Config, Guard, RulesFile, new, HttpRequest, GeoResult, find_set, hostname, forwarded_by_a_proxy,
  path_of, reload, peer_addr, judged_host, described, located, decide_request, authorize_status,
  not_readable,
}
use skifity.Guard.Lookup.{fully_located, evaluate_set-located}
use skifity.Guard.Laws.{Reloaded, asked_path, reload_outcome, described-untrusted}
use skifity.Tests.Rules.{visitor, sample, office_rules}

abbrev front_config : Config
front_config = record {
  sets = (codes "app.example", record { app_id = codes "7"; rule_set = office_rules }) ∷ [];
  trusted_proxies = [];
  cloudflare = true;
}

abbrev unmarshal_sample : Text → Option Config
unmarshal_sample raw = if raw == codes "{rules}" then some front_config else none

abbrev fresh : Guard
fresh = new (record { pod_cidr = []; service_cidr = [] })

-- The rules are installed.
abbrev rules_file : RulesFile
rules_file = record { stat = some 5; read = some (codes "{rules}") }

reload_outcome_example :
    Reloaded sample unmarshal_sample fresh rules_file
      (reload sample unmarshal_sample fresh rules_file)
reload_outcome_example = reload_outcome sample unmarshal_sample fresh rules_file

reload_refuses :
    (reload sample unmarshal_sample fresh (record { stat = some 5; read = some (codes "{") })).1
    ≡ some not_readable
unfolding reload new
reload_refuses = refl

abbrev serving : Guard
serving = record {
  opts = record { pod_cidr = []; service_cidr = [] };
  config = front_config;
  trust = record { proxies = []; cloudflare = true };
  loaded = true;
  mod_time = 5;
}

-- A client that names itself as coming from elsewhere.
abbrev pretender : HttpRequest
pretender = record {
  remote_addr = codes "203.0.113.9:4711";
  host = codes "APP.example:443";
  method = codes "GET";
  url_path = codes "/";
  header = λ name. codes "10.0.0.1" ∷ [];
}

described-untrusted_example :
    let req = described sample serving pretender in
    (req.address ≡ peer_addr sample pretender)
    × (req.country_code ≡ [])
    × (req.host_name ≡ hostname pretender.host)
    × (req.url_path ≡ asked_path pretender.url_path)
    × (req.http_method ≡ pretender.method)
described-untrusted_example =
    described-untrusted sample serving pretender (unfold trusts peer_addr in refl)

pretender_host : hostname pretender.host ≡ codes "app.example"
unfolding hostname
pretender_host = refl

abbrev no_database : Option Addr → GeoResult
no_database a = record { country = []; asn = 0 }

pretender_admitted : authorize_status (decide_request sample no_database serving pretender) ≡ 200
unfolding authorize_status decide_request judged_host described located evaluate_set evaluate
    evaluate_test evaluate_field peer_addr find_set hostname forwarded_by_a_proxy client_ip
    client_country path_of needs_set needs trusts
pretender_admitted = refl

-- A visitor whose country no header told.
abbrev unplaced : Request
unplaced = record visitor { country_code = [] }

abbrev germany : Option Addr → GeoResult
germany a = record { country = codes "DE"; asn = 64500 }

evaluate_set-located_example :
    evaluate_set sample office_rules (located sample germany office_rules unplaced)
    ≡ evaluate_set sample office_rules (fully_located germany unplaced)
evaluate_set-located_example = evaluate_set-located sample germany office_rules unplaced
