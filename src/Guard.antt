-- ===== src/Guard.antt =====
-- internal/guard/guard.go: the process that answers for a request before it reaches an app.
-- The file system, the JSON reader and the geographic databases enter as arguments.
pub mod Laws
pub mod Lookup
use skifity.Prelude.{
  if◌then◌else◌, ◌==◌, nat_eq, ℕ, Bool, true, false, not, ◌&&◌, ◌||◌, Option, none, some, List, [],
  ◌∷◌, ◌++◌,
}
use skifity.Prelude.Text.{
  Text, codes, text_eq, is_empty, trim_suffix, trim_space, to_lower, cut, first_non_empty, join,
}
use skifity.Net.{Addr, unmap, split_host, Parsers}
use skifity.EdgeRules.Types.{Action, RuleSet, Request, Decision, allow, block}
use skifity.EdgeRules.Evaluate.{evaluate_set, needs_set}
use skifity.EdgeRules.ClientIp.{
  Headers, Trust, trusts_peer, last_header_value, unmap_peer, client_ip, default_proxies,
  parse_proxies, client_country, multi,
}

pub record Protected : Type 0 where
  pub app_id : Text
  pub rule_set : RuleSet

pub record Config : Type 0 where
  pub sets : List (Text × Protected)
  pub trusted_proxies : List Text
  pub cloudflare : Bool

pub record Options : Type 0 where
  pub pod_cidr : Text
  pub service_cidr : Text

pub record Guard : Type 0 where
  pub opts : Options
  pub config : Config
  pub trust : Trust
  pub loaded : Bool
  pub mod_time : ℕ

pub data ReloadError : Type 0 where
  cannot_stat cannot_read not_readable : ReloadError

-- What a reload finds at the path of the rules: each step of it may fail.
pub record RulesFile : Type 0 where
  pub stat : Option ℕ
  pub read : Option Text

abbrev empty_config : Config
empty_config = record { sets = []; trusted_proxies = []; cloudflare = false }

unfoldable pub new : Options → Guard
new opts = record {
  opts = opts;
  config = empty_config;
  trust = record { proxies = []; cloudflare = false };
  loaded = false;
  mod_time = 0;
}

-- What `r *http.Request` carries.
pub record HttpRequest : Type 0 where
  pub remote_addr : Text
  pub host : Text
  pub method : Text
  pub url_path : Text
  pub header : Text → List Text

abbrev pub header_set : HttpRequest → Headers
header_set r = multi r.header

-- `http.Header.Get`: the first value.
abbrev pub get_header : HttpRequest → Text → Text
get_header r name = elim (r.header name) [ [] ↦ [] | v ∷ _ ↦ v ]

pub record GeoResult : Type 0 where
  pub country : Text
  pub asn : ℕ

unfoldable pub find_set : List (Text × Protected) → Text → Option Protected
find_set [] host = none
find_set ((h, p) ∷ sets) host = if h == host then some p else find_set sets host

unfoldable pub hostname : Text → Text
unfolding trim_space split_host trim_suffix
hostname value =
    let lowered = to_lower (trim_space value) in
    trim_suffix (elim (split_host lowered) [ none ↦ lowered | some h ↦ h ]) (codes ".")

unfoldable pub forwarded_by_a_proxy : HttpRequest → Text → Option Addr → Trust → Text
forwarded_by_a_proxy r name peer trust =
    if trusts_peer trust peer then last_header_value (header_set r) name else []

unfoldable pub path_of : HttpRequest → Option Addr → Trust → Text
unfolding cut
path_of r peer trust =
    let uri =
      first_non_empty
        (forwarded_by_a_proxy r (codes "X-Forwarded-Uri") peer trust ∷ r.url_path ∷ []) in
    let (before, _, _) = cut uri b'?' in if is_empty before then b'/' ∷ [] else before

abbrev pub nobody : Request
nobody = record {
  address = none;
  country_code = [];
  as_number = 0;
  host_name = [];
  url_path = [];
  http_method = [];
  agent = [];
  headers = none;
}

abbrev pub plain_decision : Action → Decision
plain_decision a = record { action = a; rule_id = []; rule_name = []; skipped = [] }

module _ (lib : Parsers) (unmarshal : Text → Option Config) where
  trust_of : Options → Config → Trust
  trust_of opts config = record {
    proxies =
        default_proxies lib opts.pod_cidr opts.service_cidr
        ++ parse_proxies lib (join config.trusted_proxies (codes ","));
    cloudflare = config.cloudflare;
  }

  install : Guard → ℕ → Text → Guard × Option ReloadError
  install g time raw = elim (unmarshal raw) [
    | none ↦ (g, some not_readable)
    | some config ↦ (
      record g { config = config; trust = trust_of g.opts config; loaded = true; mod_time = time },
      none,
    )
  ]

  unfoldable pub reload : Guard → RulesFile → Guard × Option ReloadError
  unfolding install trust_of
  reload g file = elim file.stat [
    | none ↦ (g, some cannot_stat)
    | some time ↦
        if g.loaded && time == g.mod_time
        then (g, none)
        else elim file.read [ none ↦ (g, some cannot_read) | some raw ↦ install g time raw ]
  ]

module _ (lib : Parsers) where
  unfoldable pub peer_addr : HttpRequest → Option Addr
  unfolding split_host unmap
  peer_addr r =
      let host : Text = elim (split_host r.remote_addr) [ none ↦ r.remote_addr | some h ↦ h ] in
      unmap_peer (lib.parse_addr host)

  unfoldable pub judged_host : Guard → HttpRequest → Text
  judged_host g r = hostname (
      first_non_empty
        (forwarded_by_a_proxy r (codes "X-Forwarded-Host") (peer_addr r) g.trust ∷ r.host ∷ []))

  -- The request as the headers describe it, before a database is asked.
  unfoldable pub described : Guard → HttpRequest → Request
  described g r = record {
    address = client_ip lib (peer_addr r) (some (header_set r)) g.trust;
    country_code = client_country (peer_addr r) (some (header_set r)) g.trust;
    as_number = 0;
    host_name = judged_host g r;
    url_path = path_of r (peer_addr r) g.trust;
    http_method =
        first_non_empty (
          forwarded_by_a_proxy r (codes "X-Forwarded-Method") (peer_addr r) g.trust
          ∷ r.method
          ∷ []);
    agent = get_header r (codes "User-Agent");
    headers = some (get_header r);
  }

  -- The databases are asked only for what the rules need and the headers did not answer.
  unfoldable pub located : (Option Addr → GeoResult) → RuleSet → Request → Request
  located lookup s req =
      let (need_country, need_asn) = needs_set s in
      let result = lookup req.address in
      if (need_country && is_empty req.country_code) || need_asn
      then record req {
        country_code = if is_empty req.country_code then result.country else req.country_code;
        as_number = result.asn;
      }
      else req

  unfoldable pub decide_request :
      (Option Addr → GeoResult) → Guard → HttpRequest → Decision × Request × Bool
  decide_request lookup g r =
      if not g.loaded
      then (plain_decision block, nobody, false)
      else elim (find_set g.config.sets (judged_host g r)) [
        | none ↦ (plain_decision allow, record nobody { host_name = judged_host g r }, true)
        | some p ↦
            let request = located lookup p.rule_set (described g r) in
            (evaluate_set lib p.rule_set request, request, true)
      ]

-- The status that the handler of /authorize answers with.
unfoldable pub authorize_status : Decision × Request × Bool → ℕ
authorize_status (decision, judged, decided) =
    if not decided then 503 else elim decision.action [ block ↦ 403 | _ ↦ 200 ]

-- The status that the handler of /healthz answers with.
unfoldable pub health_status : Guard → ℕ
health_status g = if g.loaded then 200 else 503
