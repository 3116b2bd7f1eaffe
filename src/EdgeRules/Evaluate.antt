-- ===== src/EdgeRules/Evaluate.antt =====
-- internal/edgerules/edgerules.go: evaluating a rule set against a request.
use skifity.Prelude.{
  Bool, true, false, not, ◌&&◌, ◌||◌, none, some, List, [], ◌∷◌, ◌++◌, ltb, ◌==◌, nat_eq,
  if◌then◌else◌,
}
use skifity.Prelude.Text.{
  Text, codes, text_eq, is_empty, to_lower, trim_space, trim_prefix, has_prefix, has_suffix,
  contains, contains_byte,
}
use skifity.Prelude.Decimal.{format_uint}
use skifity.Net.{Addr, Parsers, bit_len, unmap, addr_eq, prefix_contains}
use skifity.EdgeRules.Types.{
  allow, action_valid, Field, ip, country, asn, host, path, method, user_agent, header,
  needs_geo_country, needs_geo_asn, Operator, op_in, op_not_in, op_contains, op_starts_with,
  op_ends_with, op_matches, is_not_in, Test, Expr, expr, Group, absent, present, Exprs, nil, cons,
  no_negation, negated, group_len, is_present, Rule, RuleSet, Request, header_of, Decision,
}

pub data Truth : Type 0 where
  is_false is_true is_unknown : Truth

unfoldable pub negate_if : Bool → Truth → Truth
negate_if false t = t
negate_if true is_unknown = is_unknown
negate_if true is_true = is_false
negate_if true is_false = is_true

abbrev pub bool_truth : Bool → Truth
bool_truth true = is_true
bool_truth false = is_false

abbrev pub invert : Truth → Truth
invert is_true = is_false
invert is_false = is_true
invert is_unknown = is_unknown

abbrev pub is_asn : Field → Bool
is_asn asn = true
is_asn _ = false

abbrev pub is_found : Truth → Bool
is_found is_true = true
is_found _ = false

abbrev pub initial_decision : RuleSet → Decision
initial_decision s = record {
  action = if action_valid s.default then s.default else allow;
  rule_id = [];
  rule_name = [];
  skipped = [];
}

module _ (lib : Parsers) where
  -- One turn of the loop of `ipMatches`, for a value that is trimmed.
  unfoldable pub ip_value_matches : Addr → Text → Bool
  unfolding unmap prefix_contains contains_byte
  ip_value_matches a value =
      if is_empty value
      then false
      else if contains_byte value b'/'
      then elim (lib.parse_prefix value) [
        | none ↦ false
        | some p ↦ bit_len (unmap p.addr) == bit_len a && prefix_contains p a
      ]
      else elim (lib.parse_addr value) [ none ↦ false | some b ↦ addr_eq (unmap b) a ]

  unfoldable pub ip_loop : Addr → List Text → Truth
  unfolding ip_value_matches trim_space
  ip_loop a [] = is_false
  ip_loop a (value ∷ values) =
      let rest = ip_loop a values in if ip_value_matches a (trim_space value) then is_true else rest

  unfoldable pub ip_matches : Addr → List Text → Truth
  unfolding ip_loop
  ip_matches a values = ip_loop (unmap a) values

  abbrev as_trimmed : Field → Text → Text
  as_trimmed field s = if is_asn field then trim_prefix s (codes "as") else s

  -- The switch of `compare`, on the value in lower case and as it is.
  unfoldable pub compare_by : Operator → Text → Text → Text → Text → Truth
  unfolding has_prefix has_suffix contains
  compare_by op_in actual wanted value want = bool_truth (actual == wanted)
  compare_by op_not_in actual wanted value want = bool_truth (actual == wanted)
  compare_by op_contains actual wanted value want =
      bool_truth (not (is_empty wanted) && contains actual wanted)
  compare_by op_starts_with actual wanted value want =
      bool_truth (not (is_empty wanted) && has_prefix actual wanted)
  compare_by op_ends_with actual wanted value want =
      bool_truth (not (is_empty wanted) && has_suffix actual wanted)
  compare_by op_matches actual wanted value want = elim (lib.compile want) [
    | none ↦ is_unknown
    | some re ↦ bool_truth (re value)
  ]
  compare_by (Operator.other _) actual wanted value want = is_unknown

  unfoldable pub compare_one : Test → Text → Text → Truth
  unfolding trim_space trim_prefix compare_by
  compare_one t value want =
      compare_by t.op (as_trimmed t.field (to_lower value))
        (as_trimmed t.field (to_lower (trim_space want))) value want

  unfoldable pub compare_loop : Test → Text → List Text → Truth
  unfolding compare_one
  compare_loop t value [] = is_false
  compare_loop t value (want ∷ wants) =
      let rest = compare_loop t value wants in
      elim (compare_one t value want) [
        | is_true ↦ is_true
        | is_unknown ↦ is_unknown
        | is_false ↦ rest
      ]

  unfoldable pub compare : Test → Text → Truth
  unfolding compare_loop negate_if
  compare t value = negate_if (is_not_in t.op) (compare_loop t value t.values)

  unfoldable pub evaluate_field : Field → Test → Request → Truth
  unfolding compare ip_matches negate_if
  evaluate_field ip t req = elim req.address [
    | none ↦ is_unknown
    | some a ↦ negate_if (is_not_in t.op) (ip_matches a t.values)
  ]
  evaluate_field country t req =
      if is_empty req.country_code then is_unknown else compare t req.country_code
  evaluate_field asn t req =
      if req.as_number == 0 then is_unknown else compare t (format_uint req.as_number)
  evaluate_field host t req = compare t req.host_name
  evaluate_field path t req = compare t req.url_path
  evaluate_field method t req = compare t req.http_method
  evaluate_field user_agent t req = compare t req.agent
  evaluate_field header t req = compare t (header_of req.headers t.key)
  evaluate_field (Field.other _) t req = is_unknown

  unfoldable pub evaluate_test : Test → Request → Truth
  evaluate_test t req = evaluate_field t.field t req

  unfoldable mutual
    pub evaluate : Request → Expr → Truth
    evaluate req (expr all any neg (some t)) = evaluate_test t req
    evaluate req (expr all any (negated e) none) = invert (evaluate req e)
    evaluate req (expr all any no_negation none) =
        if ltb 0 (group_len any)
        then any_of req any
        else if ltb 0 (group_len all)
        then all_of req all
        else if is_present all || is_present any
        then is_unknown
        else is_true

    pub any_of : Request → Group → Truth
    any_of req absent = is_false
    any_of req (present es) = any_loop req false es

    pub all_of : Request → Group → Truth
    all_of req absent = is_true
    all_of req (present es) = all_loop req false es

    pub any_loop : Request → Bool → Exprs → Truth
    any_loop req unknown nil = if unknown then is_unknown else is_false
    any_loop req unknown (cons e es) = elim (evaluate req e) [
      | is_true ↦ is_true
      | is_unknown ↦ any_loop req true es
      | is_false ↦ any_loop req unknown es
    ]

    pub all_loop : Request → Bool → Exprs → Truth
    all_loop req unknown nil = if unknown then is_unknown else is_true
    all_loop req unknown (cons e es) = elim (evaluate req e) [
      | is_false ↦ is_false
      | is_unknown ↦ all_loop req true es
      | is_true ↦ all_loop req unknown es
    ]

  -- The loop of `RuleSet.Evaluate`, with the decision so far.
  unfoldable pub decide : Request → List Rule → Decision → Decision
  decide req [] decision = decision
  decide req (rule ∷ rules) decision = elim rule.enabled [
    | false ↦ decide req rules decision
    | true ↦ elim (evaluate req rule.condition) [
      | is_true ↦ record decision { action = rule.action; rule_id = rule.id; rule_name = rule.name }
      | is_unknown ↦
          decide req rules (record decision { skipped = decision.skipped ++ rule.name ∷ [] })
      | is_false ↦ decide req rules decision
    ]
  ]

  unfoldable pub evaluate_set : RuleSet → Request → Decision
  unfolding decide
  evaluate_set s req = decide req s.rules (initial_decision s)

abbrev pub or_both : Bool × Bool → Bool × Bool → Bool × Bool
or_both a b = (a.0 || b.0, a.1 || b.1)

unfoldable mutual
  pub needs : Expr → Bool × Bool
  needs (expr all any neg (some t)) = (needs_geo_country t.field, needs_geo_asn t.field)
  needs (expr all any (negated e) none) = needs e
  needs (expr all any no_negation none) = or_both (needs_group all) (needs_group any)

  pub needs_group : Group → Bool × Bool
  needs_group absent = (false, false)
  needs_group (present es) = needs_all es

  pub needs_all : Exprs → Bool × Bool
  needs_all nil = (false, false)
  needs_all (cons e es) = or_both (needs e) (needs_all es)

unfoldable pub needs_rules : List Rule → Bool × Bool
needs_rules [] = (false, false)
needs_rules (rule ∷ rules) = or_both (needs rule.condition) (needs_rules rules)

unfoldable pub needs_set : RuleSet → Bool × Bool
unfolding needs_rules
needs_set s = needs_rules s.rules
