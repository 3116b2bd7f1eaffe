-- ===== src/EdgeRules/Types.antt =====
-- internal/edgerules/edgerules.go: rules, conditions, requests and decisions.
use skifity.Prelude.{ℕ, suc, Bool, true, false, Option, none, some, List, []}
use skifity.Prelude.Text.{Text, is_empty}
use skifity.Net.{Addr}

-- The string types of the source, with `other` for a string that is none of the constants.
pub data Action : Type 0 where
  allow block : Action
  other : Text → Action

abbrev pub action_valid : Action → Bool
action_valid allow = true
action_valid block = true
action_valid (other _) = false

abbrev pub action_is_empty : Action → Bool
action_is_empty (other name) = is_empty name
action_is_empty _ = false

pub data Field : Type 0 where
  ip country asn host path method user_agent header : Field
  other : Text → Field

abbrev pub field_is_known : Field → Bool
field_is_known (Field.other _) = false
field_is_known _ = true

abbrev pub needs_geo_country : Field → Bool
needs_geo_country country = true
needs_geo_country _ = false

abbrev pub needs_geo_asn : Field → Bool
needs_geo_asn asn = true
needs_geo_asn _ = false

pub data Operator : Type 0 where
  op_in op_not_in op_contains op_starts_with op_ends_with op_matches : Operator
  other : Text → Operator

abbrev pub operator_is_known : Operator → Bool
operator_is_known (Operator.other _) = false
operator_is_known _ = true

abbrev pub is_not_in : Operator → Bool
is_not_in op_not_in = true
is_not_in _ = false

pub record Test : Type 0 where
  pub field : Field
  pub key : Text
  pub op : Operator
  pub values : List Text

-- `Expr` has four optional parts; a slice that is absent differs from one that is empty.
mutual
  pub data Expr : Type 0 where
    expr : Group → Group → Negation → Option Test → Expr

  pub data Group : Type 0 where
    absent : Group
    present : Exprs → Group

  pub data Exprs : Type 0 where
    nil : Exprs
    cons : Expr → Exprs → Exprs

  pub data Negation : Type 0 where
    no_negation : Negation
    negated : Expr → Negation

abbrev pub exprs_len : Exprs → ℕ
exprs_len nil = 0
exprs_len (cons _ es) = suc (exprs_len es)

abbrev pub group_len : Group → ℕ
group_len absent = 0
group_len (present es) = exprs_len es

abbrev pub is_present : Group → Bool
is_present absent = false
is_present (present _) = true

pub record Rule : Type 0 where
  pub id : Text
  pub name : Text
  pub action : Action
  pub condition : Expr
  pub enabled : Bool

pub record RuleSet : Type 0 where
  pub rules : List Rule
  pub default : Action

-- An address that is not valid is `none`; so is a header function that is nil.
pub record Request : Type 0 where
  pub address : Option Addr
  pub country_code : Text
  pub as_number : ℕ
  pub host_name : Text
  pub url_path : Text
  pub http_method : Text
  pub agent : Text
  pub headers : Option (Text → Text)

abbrev pub header_of : Option (Text → Text) → Text → Text
header_of none name = []
header_of (some get) name = get name

pub record Decision : Type 0 where
  pub action : Action
  pub rule_id : Text
  pub rule_name : Text
  pub skipped : List Text
