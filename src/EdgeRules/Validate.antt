-- ===== src/EdgeRules/Validate.antt =====
-- internal/edgerules/edgerules.go: what is refused when a rule set is saved.
use skifity.Prelude.{
  nat_eq, ltb, leb, if◌then◌else◌, ◌==◌, length, all, ℕ, suc, ◌-◌, ◌^◌, Bool, true, false, not,
  ◌&&◌, ◌||◌, Option, none, some, List, [], ◌∷◌,
}
use skifity.Prelude.Text.{Text, codes, is_empty, trim_prefix, contains_byte, trim_space, to_upper}
use skifity.Prelude.Decimal.{read_digits}
use skifity.Net.{Parsers}
use skifity.EdgeRules.Types.{
  action_valid, action_is_empty, Field, field_is_known, Operator, operator_is_known, Test, Expr,
  Group, Exprs, Negation, group_len, is_present, Rule, RuleSet, ip, country, asn, header, op_in,
  op_not_in, op_matches, expr, absent, present, nil, cons, no_negation, negated,
}

pub data ConditionError : Type 0 where
  nested_too_deep several_at_once empty_group : ConditionError
  not_a_field header_without_name name_without_header not_a_comparison : ConditionError
  no_values too_many_values wrong_comparison : ConditionError
  not_a_range not_an_address not_a_country not_a_network not_a_pattern : ConditionError
  value_too_long : ConditionError

pub data SetError : Type 0 where
  default_not_an_action too_many_rules : SetError
  no_name no_action : Text → SetError
  bad_condition : Text → ConditionError → SetError

abbrev pub max_rules : ℕ
max_rules = 200

abbrev pub max_depth : ℕ
max_depth = 8

abbrev pub max_values : ℕ
max_values = 1000

abbrev pub max_value_length : ℕ
max_value_length = 512

-- `if err != nil { return err }` before what follows; `none` is no error.
abbrev pub or_else {ℓ} : {E : Type ℓ} → Option E → Option E → Option E
or_else none next = next
or_else (some e) next = some e

abbrev pub fail_if {ℓ} : {E : Type ℓ} → Bool → E → Option E
fail_if true e = some e
fail_if false e = none

-- A loop that returns at the first entry that is refused.
unfoldable pub first_bad {ℓ κ} : {A : Type ℓ} {E : Type κ} → (A → Option E) → List A → Option E
first_bad check [] = none
first_bad check (x ∷ xs) = or_else (check x) (first_bad check xs)

abbrev is_upper_letter : ℕ → Bool
is_upper_letter c = leb b'A' c && leb c b'Z'

unfoldable pub is_country_code : Text → Bool
unfolding trim_space
is_country_code value =
    let code = trim_space value in length code == 2 && all is_upper_letter (to_upper code)

abbrev max_uint32 : ℕ
max_uint32 = 2 ^ 32 - 1

unfoldable pub is_network : Text → Bool
unfolding trim_space trim_prefix read_digits
is_network value = elim (read_digits (trim_prefix (to_upper (trim_space value)) (codes "AS"))) [
  | none ↦ false
  | some n ↦ leb n max_uint32 && not (n == 0)
]

abbrev pub is_header : Field → Bool
is_header header = true
is_header _ = false

abbrev pub is_membership : Operator → Bool
is_membership op_in = true
is_membership op_not_in = true
is_membership _ = false

abbrev pub is_matches : Operator → Bool
is_matches op_matches = true
is_matches _ = false

abbrev is_none {ℓ} : {A : Type ℓ} → Option A → Bool
is_none none = true
is_none (some _) = false

abbrev pub count_true : Bool → ℕ → ℕ
count_true true n = suc n
count_true false n = n

abbrev pub has_negation : Negation → Bool
has_negation no_negation = false
has_negation (negated _) = true

-- What is wrong with the parts that a condition has, before any of them is looked into.
unfoldable pub shape_error : ℕ → Group → Group → Bool → Bool → Option ConditionError
shape_error depth all_of any_of has_not has_test =
    let set =
      count_true (ltb 0 (group_len all_of))
        (count_true (ltb 0 (group_len any_of)) (count_true has_not (count_true has_test 0))) in
    or_else (fail_if (ltb max_depth depth) nested_too_deep) (
      or_else (fail_if (ltb 1 set) several_at_once)
        (fail_if (set == 0 && (is_present all_of || is_present any_of)) empty_group))

module _ (lib : Parsers) where
  unfoldable pub ip_value_error : Text → Option ConditionError
  unfolding trim_space contains_byte
  ip_value_error value =
      let v = trim_space value in
      if contains_byte v b'/'
      then fail_if (is_none (lib.parse_prefix v)) not_a_range
      else fail_if (is_none (lib.parse_addr v)) not_an_address

  unfoldable pub field_error : Test → Option ConditionError
  unfolding ip_value_error is_country_code is_network first_bad
  field_error t = elim t.field [
    | ip ↦ if is_membership t.op then first_bad ip_value_error t.values else some wrong_comparison
    | country ↦
        if is_membership t.op
        then first_bad (λ v. fail_if (not (is_country_code v)) not_a_country) t.values
        else some wrong_comparison
    | asn ↦
        if is_membership t.op
        then first_bad (λ v. fail_if (not (is_network v)) not_a_network) t.values
        else some wrong_comparison
    | _ ↦ none
  ]

  unfoldable pub pattern_error : Text → Option ConditionError
  pattern_error value = fail_if (is_none (lib.compile value)) not_a_pattern

  unfoldable pub validate_test : Test → Option ConditionError
  unfolding field_error pattern_error first_bad trim_space
  validate_test t = or_else (fail_if (not (field_is_known t.field)) not_a_field) (
      or_else (fail_if (is_header t.field && is_empty (trim_space t.key)) header_without_name) (
        or_else (fail_if (not (is_header t.field) && not (is_empty t.key)) name_without_header) (
          or_else (fail_if (not (operator_is_known t.op)) not_a_comparison) (
            or_else (fail_if (length t.values == 0) no_values) (
              or_else (fail_if (ltb max_values (length t.values)) too_many_values) (
                or_else (field_error t) (
                  or_else (if is_matches t.op then first_bad pattern_error t.values else none) (
                    first_bad (λ v. fail_if (ltb max_value_length (length v)) value_too_long)
                      t.values))))))))

  unfoldable mutual
    pub validate : ℕ → Expr → Option ConditionError
    validate depth (expr a b neg (some t)) =
        or_else (shape_error depth a b (has_negation neg) true) (validate_test t)
    validate depth (expr a b (negated e) none) =
        or_else (shape_error depth a b true false) (validate (suc depth) e)
    validate depth (expr a b no_negation none) =
        or_else (shape_error depth a b false false)
          (or_else (validate_group (suc depth) a) (validate_group (suc depth) b))

    pub validate_group : ℕ → Group → Option ConditionError
    validate_group depth absent = none
    validate_group depth (present es) = validate_all depth es

    pub validate_all : ℕ → Exprs → Option ConditionError
    validate_all depth nil = none
    validate_all depth (cons e es) = or_else (validate depth e) (validate_all depth es)

  abbrev condition_error : Text → Option ConditionError → Option SetError
  condition_error name none = none
  condition_error name (some e) = some (bad_condition name e)

  unfoldable pub rule_error : Rule → Option SetError
  unfolding trim_space
  rule_error rule = or_else (fail_if (is_empty (trim_space rule.name)) (no_name rule.name)) (
      or_else (fail_if (not (action_valid rule.action)) (no_action rule.name))
        (condition_error rule.name (validate 0 rule.condition)))

  unfoldable pub validate_set : RuleSet → Option SetError
  validate_set s =
      or_else
        (fail_if (not (action_is_empty s.default) && not (action_valid s.default))
          default_not_an_action)
        (or_else (fail_if (ltb max_rules (length s.rules)) too_many_rules)
          (first_bad rule_error s.rules))
