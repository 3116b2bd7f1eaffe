-- ===== src/EdgeRules/KnownTest.antt =====
-- An accepted test answers once the facts that it needs are known.
use skifity.Prelude.{
  if◌then◌else◌, Bool-cases, Option-cases, ◌==◌, nat_eq, All, ◌≡◌, refl, inl, inr, Bool, true,
  false, Option, none, some, List, [], ◌∷◌, arith,
}
use skifity.Prelude.Text.{Text, text_eq, is_empty, trim_space}
use skifity.Prelude.Decimal.{format_uint}
use skifity.Net.{Addr, unmap, Parsers}
use skifity.EdgeRules.Types.{
  Field, field_is_known, needs_geo_country, needs_geo_asn, Operator, operator_is_known, Test,
  Request, header_of, ip, country, asn, host, path, method, user_agent, header, op_in, op_matches,
}
use skifity.EdgeRules.Evaluate.{
  Truth, negate_if, invert, ip_value_matches, ip_loop, ip_matches, compare_by, compare_one,
  compare_loop, compare, evaluate_field, evaluate_test, or_both, is_false, is_true, is_unknown,
}
use skifity.EdgeRules.Validate.{or_else, first_bad, is_matches, pattern_error, validate_test}

abbrev pub is_known : Truth → Bool
is_known is_unknown = false
is_known _ = true

-- The request has the geographic facts that are asked for.
abbrev pub Answers : Request → Bool × Bool → Type 0
Answers req asked =
    (asked.0 ≡ true → is_empty req.country_code ≡ false)
    × (asked.1 ≡ true → (req.as_number == 0) ≡ false)

pub Answers-or_both :
    (req : Request) (a b : Bool × Bool) → Answers req (or_both a b) → Answers req a × Answers req b
Answers-or_both req (true, true) (c, d) h = ((h.0, h.1), (λ _. h.0 refl, λ _. h.1 refl))
Answers-or_both req (true, false) (c, d) h = ((h.0, λ e. cc), (λ _. h.0 refl, h.1))
Answers-or_both req (false, true) (c, d) h = ((λ e. cc, h.1), (h.0, λ _. h.1 refl))
Answers-or_both req (false, false) (c, d) h = ((λ e. cc, λ e. cc), (h.0, h.1))

pub or_else-none {ℓ} : {E : Type ℓ} (a b : Option E) → or_else a b ≡ none → (a ≡ none) × (b ≡ none)
or_else-none none b h = (refl, h)
or_else-none (some e) b h = cc

negate_if-is_known : (b : Bool) (t : Truth) → is_known t ≡ true → is_known (negate_if b t) ≡ true
unfolding negate_if
negate_if-is_known b t h = ground arith

pub invert-is_known : (t : Truth) → is_known t ≡ true → is_known (invert t) ≡ true
invert-is_known t h = ground arith

pub known_if :
    (b : Bool) (x y : Truth) → b ≡ true → is_known x ≡ true → is_known (if b then x else y) ≡ true
known_if true x y e k = k
known_if false x y e k = cc

pub any_step :
    (t x y : Truth)
    → is_known t ≡ true
    → is_known y ≡ true
    → is_known (elim t [ is_true ↦ is_true | is_unknown ↦ x | is_false ↦ y ]) ≡ true
any_step is_true x y h k = refl
any_step is_false x y h k = k
any_step is_unknown x y h k = cc

pub all_step :
    (t x y : Truth)
    → is_known t ≡ true
    → is_known y ≡ true
    → is_known (elim t [ is_false ↦ is_false | is_unknown ↦ x | is_true ↦ y ]) ≡ true
all_step is_true x y h k = k
all_step is_false x y h k = refl
all_step is_unknown x y h k = cc

module _ (lib : Parsers) where
  ip_loop-is_known : (a : Addr) (vs : List Text) → is_known (ip_loop lib a vs) ≡ true
  unfolding ip_loop
  ip_loop-is_known a [] = refl
  ip_loop-is_known a (v ∷ vs) = elim (Bool-cases (ip_value_matches lib a (trim_space v))) [
    | inl e ↦ rw e
    | inr e ↦ rw e (ip_loop-is_known a vs)
  ]

  -- Every value that must be a pattern is one.
  abbrev Compiles : Test → List Text → Type 0
  Compiles t vs =
      (is_matches t.op ≡ true) → All (λ v. (re : Text → Bool) × (lib.compile v ≡ some re)) vs

  compare_by-is_known :
      (op : Operator) (actual wanted value want : Text)
      → operator_is_known op ≡ true
      → ((is_matches op ≡ true) → (re : Text → Bool) × (lib.compile want ≡ some re))
      → is_known (compare_by lib op actual wanted value want) ≡ true
  unfolding compare_by
  compare_by-is_known op_matches actual wanted value want known compiles =
      let (re, e) = compiles refl in rw (e, compare_by) (ground arith)
  compare_by-is_known (Operator.other s) actual wanted value want known compiles = cc
  compare_by-is_known op_in actual wanted value want known compiles = ground arith
  compare_by-is_known _ actual wanted value want known compiles = ground arith

  compare_one-is_known :
      (t : Test) (value want : Text)
      → operator_is_known t.op ≡ true
      → ((is_matches t.op ≡ true) → (re : Text → Bool) × (lib.compile want ≡ some re))
      → is_known (compare_one lib t value want) ≡ true
  unfolding compare_one
  compare_one-is_known t value want known c = compare_by-is_known t.op _ _ value want known c

  compare_loop-is_known :
      (t : Test) (value : Text) (vs : List Text)
      → operator_is_known t.op ≡ true
      → Compiles t vs
      → is_known (compare_loop lib t value vs) ≡ true
  unfolding compare_loop
  compare_loop-is_known t value [] known c = refl
  compare_loop-is_known t value (v ∷ vs) known c = ground (
    arith,
    compare_one-is_known t value v known (λ (m : is_matches t.op ≡ true). (c m).0),
    compare_loop-is_known t value vs known (λ (m : is_matches t.op ≡ true). (c m).1),
  )

  compare-is_known :
      (t : Test) (value : Text)
      → operator_is_known t.op ≡ true
      → Compiles t t.values
      → is_known (compare lib t value) ≡ true
  unfolding compare
  compare-is_known t value known c =
      negate_if-is_known _ _ (compare_loop-is_known t value t.values known c)

  Compiles_of_valid :
      (vs : List Text)
      → first_bad (pattern_error lib) vs ≡ none
      → All (λ v. (re : Text → Bool) × (lib.compile v ≡ some re)) vs
  unfolding first_bad pattern_error
  Compiles_of_valid [] h = tt
  Compiles_of_valid (v ∷ vs) h = elim (Option-cases (lib.compile v)) [
    | inl e ↦ absurd (ground (arith, e))
    | inr (re, e) ↦ ((re, e), Compiles_of_valid vs (ground (arith, e)))
  ]

  -- What a test that was accepted is known to be.
  validate_test-parts :
      (t : Test)
      → validate_test lib t ≡ none
      → (field_is_known t.field ≡ true) × (operator_is_known t.op ≡ true) × Compiles t t.values
  unfolding validate_test
  validate_test-parts t h =
      (ground arith, ground arith, λ m. Compiles_of_valid t.values (ground arith))

  evaluate_field-is_known :
      (f : Field) (t : Test) (req : Request) (a : Addr)
      → field_is_known f ≡ true
      → operator_is_known t.op ≡ true
      → Compiles t t.values
      → req.address ≡ some a
      → Answers req (needs_geo_country f, needs_geo_asn f)
      → is_known (evaluate_field lib f t req) ≡ true
  unfolding evaluate_field
  evaluate_field-is_known ip t req a known op c e answers =
      rw (e, evaluate_field)
        (negate_if-is_known _ _ (unfold ip_matches in ip_loop-is_known (unmap a) t.values))
  evaluate_field-is_known country t req a known op c e answers =
      rw (answers.0 refl) (compare-is_known t req.country_code op c)
  evaluate_field-is_known asn t req a known op c e answers =
      rw (answers.1 refl) (compare-is_known t (format_uint req.as_number) op c)
  evaluate_field-is_known (Field.other s) t req a known op c e answers = cc
  evaluate_field-is_known host t req a known op c e answers = compare-is_known t req.host_name op c
  evaluate_field-is_known path t req a known op c e answers = compare-is_known t req.url_path op c
  evaluate_field-is_known method t req a known op c e answers =
      compare-is_known t req.http_method op c
  evaluate_field-is_known user_agent t req a known op c e answers =
      compare-is_known t req.agent op c
  evaluate_field-is_known header t req a known op c e answers =
      compare-is_known t (header_of req.headers t.key) op c

  pub evaluate_test-is_known :
      (t : Test) (req : Request) (a : Addr)
      → validate_test lib t ≡ none
      → req.address ≡ some a
      → Answers req (needs_geo_country t.field, needs_geo_asn t.field)
      → is_known (evaluate_test lib t req) ≡ true
  unfolding evaluate_test
  evaluate_test-is_known t req a h e answers =
      let (known, op, c) = validate_test-parts t h in
      evaluate_field-is_known t.field t req a known op c e answers
