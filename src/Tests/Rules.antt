-- ===== src/Tests/Rules.antt =====
-- Rule sets, and requests to judge by them.
use skifity.Prelude.{
  if◌then◌else◌, ◌==◌, nat_eq, ◌≡◌, refl, inr, Bool, true, false, Option, none, some, List, [], ◌∷◌,
}
use skifity.Prelude.Text.{Text, codes, text_eq, has_prefix, trim_space, split, join}
use skifity.Prelude.Decimal.{format_uint}
use skifity.Net.{Addr, Prefix, unmap, Parsers, v4, v6}
use skifity.EdgeRules.Types.{
  asn, Field, Operator, Expr, Rule, RuleSet, Request, allow, block, ip, country, path, op_in,
  op_matches, expr, absent, present, nil, cons, no_negation, negated,
}
use skifity.EdgeRules.Evaluate.{
  evaluate_field, evaluate_test, evaluate, evaluate_set, needs, needs_set,
}
use skifity.EdgeRules.Validate.{
  first_bad, shape_error, validate_test, validate, rule_error, validate_set,
}
use skifity.EdgeRules.ClientIp.{Trust, trusts, header_values, x_forwarded_for, client_ip, multi}
use skifity.EdgeRules.Complete.{evaluate_set-skipped}
use skifity.EdgeRules.Unread.{relocated, evaluate_set-unread}
use skifity.EdgeRules.Decides.{skipped_names, evaluate_set-first}
use skifity.EdgeRules.Forwarded.{client_ip-nearest}

abbrev pub parse_sample : Text → Option Addr
parse_sample s =
    if s == codes "10.0.0.1"
    then some (v4 167772161)
    else if s == codes "203.0.113.9"
    then some (v4 3405803785)
    else if s == codes "::ffff:10.0.0.1"
    then some (v6 281470849515521 [])
    else none

abbrev parse_sample_prefix : Text → Option Prefix
parse_sample_prefix s =
    if s == codes "203.0.113.0/24" then some (record { addr = v4 3405803776; bits = 24 }) else none

abbrev compile_sample : Text → Option (Text → Bool)
compile_sample s =
    if s == codes "^/admin" then some (λ value. has_prefix value (codes "/admin")) else none

abbrev pub sample : Parsers
sample = record {
  parse_addr = parse_sample;
  parse_prefix = parse_sample_prefix;
  compile = compile_sample;
}

abbrev leaf : Field → Operator → Text → Expr
leaf field op value =
    expr absent absent no_negation
      (some (record { field = field; key = []; op = op; values = value ∷ [] }))

abbrev pub from_office : Rule
from_office = record {
  id = codes "1";
  name = codes "office";
  action = allow;
  condition = leaf ip op_in (codes "203.0.113.0/24");
  enabled = true;
}

abbrev pub not_here : Rule
not_here = record {
  id = codes "2";
  name = codes "not here";
  action = block;
  condition =
      expr
        (present (
          cons (expr absent absent (negated (leaf country op_in (codes "id"))) none)
            (cons (leaf path op_matches (codes "^/admin")) nil)))
        absent no_negation none;
  enabled = true;
}

abbrev pub office_rules : RuleSet
office_rules = record { rules = from_office ∷ not_here ∷ []; default = allow }

abbrev pub visitor : Request
visitor = record {
  address = some (v4 167772161);
  country_code = codes "DE";
  as_number = 0;
  host_name = codes "app.example";
  url_path = codes "/admin/x";
  http_method = codes "GET";
  agent = [];
  headers = none;
}

abbrev stranger : Request
stranger = record visitor { address = none; country_code = [] }

office_rules_valid : validate_set sample office_rules ≡ none
unfolding validate_set rule_error validate validate_test shape_error first_bad
office_rules_valid = refl

visitor_blocked :
    evaluate_set sample office_rules visitor
    ≡ record { action = block; rule_id = codes "2"; rule_name = codes "not here"; skipped = [] }
unfolding evaluate_set evaluate evaluate_test evaluate_field
visitor_blocked = refl

evaluate_set-skipped_example : (evaluate_set sample office_rules visitor).skipped ≡ []
evaluate_set-skipped_example =
    evaluate_set-skipped sample office_rules visitor (v4 167772161) office_rules_valid refl
      (unfold needs_set needs in ((λ _. refl), (λ e. cc)))

evaluate_set-first_example : evaluate_set sample office_rules visitor ≡ record {
  action = block;
  rule_id = codes "2";
  rule_name = codes "not here";
  skipped = skipped_names sample visitor (from_office ∷ []);
}
evaluate_set-first_example =
    evaluate_set-first sample office_rules visitor (from_office ∷ []) [] not_here refl
      (unfold evaluate evaluate_test evaluate_field in (inr refl, tt)) refl
      (unfold evaluate evaluate_test evaluate_field in refl)

stranger_skipped :
    (evaluate_set sample office_rules stranger).skipped ≡ codes "office" ∷ codes "not here" ∷ []
unfolding evaluate_set evaluate evaluate_test evaluate_field
stranger_skipped = refl

abbrev office_proxy : Trust
office_proxy = record {
  proxies = record { addr = v4 167772160; bits = 8 } ∷ [];
  cloudflare = false;
}

abbrev forwarded : Text → List Text
forwarded name =
    if name == x_forwarded_for
    then codes "1.2.3.4, 203.0.113.9" ∷ codes "::ffff:10.0.0.1" ∷ []
    else []

client_ip-nearest_example :
    client_ip sample (some (v4 167772161)) (some (multi forwarded)) office_proxy
    ≡ some (v4 3405803785)
unfolding unmap
client_ip-nearest_example =
    client_ip-nearest sample (some (v4 167772161)) (multi forwarded) office_proxy
      (codes "1.2.3.4" ∷ []) (codes "::ffff:10.0.0.1" ∷ []) (codes " 203.0.113.9") (v4 3405803785)
      (unfold trusts unmap in refl) refl (unfold header_values trim_space join in refl)
      (unfold header_values split join in refl)
      (unfold trusts unmap trim_space in ((v6 281470849515521 [], refl, refl), tt))
      (unfold trim_space in refl) (unfold trusts unmap in refl)

-- The rules ask for a country and for no network.
evaluate_set-unread_example :
    evaluate_set sample office_rules (relocated visitor (codes "DE") 64500)
    ≡ evaluate_set sample office_rules visitor
evaluate_set-unread_example =
    evaluate_set-unread sample office_rules visitor (codes "DE") 64500
      (unfold needs_set needs in ((λ _. refl), (λ e. cc)))

-- A network number that is written with leading zeros is accepted, and is that of no request.
abbrev padded : RuleSet
padded = record {
  rules = record from_office { condition = leaf asn op_in (codes "AS0013335") } ∷ [];
  default = block;
}

padded_accepted : validate_set sample padded ≡ none
unfolding validate_set rule_error validate validate_test shape_error first_bad
padded_accepted = refl

padded_unmatched :
    (evaluate_set sample padded (record visitor { as_number = 13335 })).action ≡ block
unfolding evaluate_set evaluate evaluate_test evaluate_field format_uint
padded_unmatched = refl
