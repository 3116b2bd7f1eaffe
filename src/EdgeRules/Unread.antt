-- ===== src/EdgeRules/Unread.antt =====
-- The geographic facts that `Needs` does not name are not read.
use skifity.Prelude.{
  ltb, if◌then◌else◌, nat_eq, ◌==◌, ℕ, ◌≡◌, refl, ap, ◌∙◌, Bool, true, false, ◌||◌, none, some,
  List, [], ◌∷◌, ◌++◌,
}
use skifity.Prelude.Text.{Text, text_eq, is_empty}
use skifity.Prelude.Decimal.{format_uint}
use skifity.Net.{Parsers}
use skifity.EdgeRules.Types.{
  Field, needs_geo_country, needs_geo_asn, Test, Expr, Group, Exprs, group_len, is_present, Rule,
  RuleSet, Request, Decision, ip, country, asn, host, path, method, user_agent, header, expr,
  absent, present, nil, cons, no_negation, negated,
}
use skifity.EdgeRules.Evaluate.{
  Truth, invert, initial_decision, compare, evaluate_field, evaluate_test, evaluate, any_of, all_of,
  any_loop, all_loop, decide, evaluate_set, or_both, needs, needs_group, needs_all, needs_rules,
  needs_set, is_false, is_true, is_unknown,
}

-- Another country and network for a request.
abbrev pub relocated : Request → Text → ℕ → Request
relocated req c n = record req { country_code = c; as_number = n }

-- They are those of the request wherever they are asked for.
abbrev pub Agree : Request → Text → ℕ → Bool × Bool → Type 0
Agree req c n asked = (asked.0 ≡ true → c ≡ req.country_code) × (asked.1 ≡ true → n ≡ req.as_number)

Agree-or_both :
    (req : Request) (c : Text) (n : ℕ) (a b : Bool × Bool)
    → Agree req c n (or_both a b)
    → Agree req c n a × Agree req c n b
Agree-or_both req c n (true, true) b h = ((h.0, h.1), (λ _. h.0 refl, λ _. h.1 refl))
Agree-or_both req c n (true, false) b h = ((h.0, λ e. cc), (λ _. h.0 refl, h.1))
Agree-or_both req c n (false, true) b h = ((λ e. cc, h.1), (h.0, λ _. h.1 refl))
Agree-or_both req c n (false, false) b h = ((λ e. cc, λ e. cc), (h.0, h.1))

each_way {ℓ} :
    {A : Type ℓ} {x y z x' y' z' : A} (t : Truth)
    → x ≡ x'
    → y ≡ y'
    → z ≡ z'
    → elim t as (λ _. A) [ is_true ↦ x | is_unknown ↦ y | is_false ↦ z ]
      ≡ elim t as (λ _. A) [ is_true ↦ x' | is_unknown ↦ y' | is_false ↦ z' ]
each_way is_true p q r = p
each_way is_unknown p q r = q
each_way is_false p q r = r

-- The same answer of a condition leads to the same of the three ways on.
three_ways {ℓ} :
    {A : Type ℓ} {x y z x' y' z' : A} {t u : Truth}
    → t ≡ u
    → x ≡ x'
    → y ≡ y'
    → z ≡ z'
    → elim t as (λ _. A) [ is_true ↦ x | is_unknown ↦ y | is_false ↦ z ]
      ≡ elim u as (λ _. A) [ is_true ↦ x' | is_unknown ↦ y' | is_false ↦ z' ]
three_ways {A = A} {x = x} {y = y} {z = z} {u = u} e p q r =
    ap (λ v. elim v as (λ _. A) [ is_true ↦ x | is_unknown ↦ y | is_false ↦ z ]) e
    ∙ each_way u p q r

if_enabled {ℓ} :
    {A : Type ℓ} {x y x' y' : A} (b : Bool)
    → x ≡ x'
    → y ≡ y'
    → elim b as (λ _. A) [ false ↦ x | true ↦ y ] ≡ elim b as (λ _. A) [ false ↦ x' | true ↦ y' ]
if_enabled true p q = q
if_enabled false p q = p

group_choice :
    (has_any has_all there : Bool) {x y x' y' : Truth}
    → x ≡ x'
    → y ≡ y'
    → (if has_any then x else if has_all then y else if there then is_unknown else is_true)
      ≡ (if has_any then x' else if has_all then y' else if there then is_unknown else is_true)
group_choice true has_all there p q = p
group_choice false true there p q = q
group_choice false false there p q = refl

module _ (lib : Parsers) where
  evaluate_field-unread :
      (f : Field) (t : Test) (req : Request) (c : Text) (n : ℕ)
      → Agree req c n (needs_geo_country f, needs_geo_asn f)
      → evaluate_field lib f t (relocated req c n) ≡ evaluate_field lib f t req
  unfolding evaluate_field
  evaluate_field-unread ip t req c n h = refl
  evaluate_field-unread country t req c n h =
      ap (λ x. if is_empty x then is_unknown else compare lib t x) (h.0 refl)
  evaluate_field-unread asn t req c n h =
      ap (λ x. if x == 0 then is_unknown else compare lib t (format_uint x)) (h.1 refl)
  evaluate_field-unread host t req c n h = refl
  evaluate_field-unread path t req c n h = refl
  evaluate_field-unread method t req c n h = refl
  evaluate_field-unread user_agent t req c n h = refl
  evaluate_field-unread header t req c n h = refl
  evaluate_field-unread (Field.other _) t req c n h = refl

  evaluate_test-unread :
      (t : Test) (req : Request) (c : Text) (n : ℕ)
      → Agree req c n (needs_geo_country t.field, needs_geo_asn t.field)
      → evaluate_test lib t (relocated req c n) ≡ evaluate_test lib t req
  unfolding evaluate_test
  evaluate_test-unread t req c n h = evaluate_field-unread t.field t req c n h

  mutual
    unfolding evaluate needs

    evaluate-unread :
        (e : Expr) (req : Request) (c : Text) (n : ℕ)
        → Agree req c n (needs e)
        → evaluate lib (relocated req c n) e ≡ evaluate lib req e
    evaluate-unread (expr a b neg (some t)) req c n h = evaluate_test-unread t req c n h
    evaluate-unread (expr a b (negated e) none) req c n h = ap invert (evaluate-unread e req c n h)
    evaluate-unread (expr a b no_negation none) req c n h =
        let parts = Agree-or_both req c n (needs_group a) (needs_group b) h in
        group_choice (ltb 0 (group_len b)) (ltb 0 (group_len a)) (is_present a || is_present b)
          (any_of-unread b req c n parts.1) (all_of-unread a req c n parts.0)

    any_of-unread :
        (g : Group) (req : Request) (c : Text) (n : ℕ)
        → Agree req c n (needs_group g)
        → any_of lib (relocated req c n) g ≡ any_of lib req g
    any_of-unread absent req c n h = refl
    any_of-unread (present es) req c n h = any_loop-unread es false req c n h

    all_of-unread :
        (g : Group) (req : Request) (c : Text) (n : ℕ)
        → Agree req c n (needs_group g)
        → all_of lib (relocated req c n) g ≡ all_of lib req g
    all_of-unread absent req c n h = refl
    all_of-unread (present es) req c n h = all_loop-unread es false req c n h

    any_loop-unread :
        (es : Exprs) (unknown : Bool) (req : Request) (c : Text) (n : ℕ)
        → Agree req c n (needs_all es)
        → any_loop lib (relocated req c n) unknown es ≡ any_loop lib req unknown es
    any_loop-unread nil unknown req c n h = refl
    any_loop-unread (cons e es) unknown req c n h =
        let parts = Agree-or_both req c n (needs e) (needs_all es) h in
        three_ways (evaluate-unread e req c n parts.0) refl
          (any_loop-unread es true req c n parts.1) (any_loop-unread es unknown req c n parts.1)

    all_loop-unread :
        (es : Exprs) (unknown : Bool) (req : Request) (c : Text) (n : ℕ)
        → Agree req c n (needs_all es)
        → all_loop lib (relocated req c n) unknown es ≡ all_loop lib req unknown es
    all_loop-unread nil unknown req c n h = refl
    all_loop-unread (cons e es) unknown req c n h =
        let parts = Agree-or_both req c n (needs e) (needs_all es) h in
        three_ways (evaluate-unread e req c n parts.0) (all_loop-unread es unknown req c n parts.1)
          (all_loop-unread es true req c n parts.1) refl

  decide-unread :
      (rules : List Rule) (req : Request) (c : Text) (n : ℕ) (d : Decision)
      → Agree req c n (needs_rules rules)
      → decide lib (relocated req c n) rules d ≡ decide lib req rules d
  unfolding decide needs_rules
  decide-unread [] req c n d h = refl
  decide-unread (rule ∷ rules) req c n d h =
      let parts = Agree-or_both req c n (needs rule.condition) (needs_rules rules) h in
      let later : (e : Decision) → decide lib (relocated req c n) rules e ≡ decide lib req rules e =
        λ e. decide-unread rules req c n e parts.1 in
      if_enabled rule.enabled (later d) (
        three_ways (evaluate-unread rule.condition req c n parts.0) refl
          (later (record d { skipped = d.skipped ++ rule.name ∷ [] })) (later d))

  -- A country or a network that `Needs` does not name makes no difference to the decision: it
  -- stays as it is when they are replaced by others.
  pub evaluate_set-unread :
      (s : RuleSet) (req : Request) (c : Text) (n : ℕ)
      → Agree req c n (needs_set s)
      → evaluate_set lib s (relocated req c n) ≡ evaluate_set lib s req
  unfolding evaluate_set needs_set
  evaluate_set-unread s req c n h = decide-unread s.rules req c n (initial_decision s) h
