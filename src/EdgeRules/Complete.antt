-- ===== src/EdgeRules/Complete.antt =====
-- A rule set that was accepted leaves no rule undecided once what it needs is known.
use skifity.Prelude.{
  ltb, if◌then◌else◌, lt→ltb, nat_eq, ℕ, suc, ◌≡◌, refl, true, false, none, some, List, [], ◌∷◌,
  arith,
}
use skifity.Prelude.Text.{text_eq}
use skifity.Net.{Addr, Parsers}
use skifity.EdgeRules.Types.{
  Expr, Group, Exprs, exprs_len, Rule, RuleSet, Request, Decision, expr, absent, present, nil, cons,
  no_negation, negated,
}
use skifity.EdgeRules.Evaluate.{
  initial_decision, evaluate, any_of, all_of, any_loop, all_loop, decide, evaluate_set, needs,
  needs_group, needs_all, needs_rules, needs_set, is_unknown,
}
use skifity.EdgeRules.Validate.{
  or_else, first_bad, has_negation, shape_error, validate_test, validate, validate_group,
  validate_all, rule_error, validate_set,
}
use skifity.EdgeRules.KnownTest.{
  is_known, Answers, Answers-or_both, or_else-none, invert-is_known, known_if, any_step, all_step,
  evaluate_test-is_known,
}

module _ (lib : Parsers) where
  known_group :
      (gs hs : Group) (req : Request) (depth : ℕ)
      → shape_error depth gs hs false false ≡ none
      → is_known (any_of lib req hs) ≡ true
      → is_known (all_of lib req gs) ≡ true
      → is_known (evaluate lib req (expr gs hs no_negation none)) ≡ true
  unfolding evaluate shape_error
  known_group absent absent req depth shape p q = refl
  known_group absent (present nil) req depth shape p q = ground (arith, shape)
  known_group absent (present (cons e es)) req depth shape p q =
      known_if (ltb 0 (suc (exprs_len es))) (any_of lib req (present (cons e es))) is_unknown
        (lt→ltb 0 (suc (exprs_len es)) (omega arith)) p
  known_group (present nil) absent req depth shape p q = ground (arith, shape)
  known_group (present nil) (present nil) req depth shape p q = ground (arith, shape)
  known_group (present nil) (present (cons e es)) req depth shape p q =
      known_if (ltb 0 (suc (exprs_len es))) (any_of lib req (present (cons e es))) (is_unknown)
        (lt→ltb 0 (suc (exprs_len es)) (omega arith)) p
  known_group (present (cons e es)) absent req depth shape p q =
      known_if (ltb 0 (suc (exprs_len es))) (all_of lib req (present (cons e es))) (is_unknown)
        (lt→ltb 0 (suc (exprs_len es)) (omega arith)) q
  known_group (present (cons e es)) (present nil) req depth shape p q =
      known_if (ltb 0 (suc (exprs_len es))) (all_of lib req (present (cons e es))) (is_unknown)
        (lt→ltb 0 (suc (exprs_len es)) (omega arith)) q
  known_group (present (cons e es)) (present (cons f fs)) req depth shape p q =
      known_if (ltb 0 (suc (exprs_len fs))) (any_of lib req (present (cons f fs)))
        (if ltb 0 (suc (exprs_len es)) then all_of lib req (present (cons e es)) else is_unknown)
        (lt→ltb 0 (suc (exprs_len fs)) (omega arith)) p

  -- The same for a condition: `evaluate` is known once the shape was accepted.
  mutual
    unfolding evaluate validate needs

    evaluate-is_known :
        (e : Expr) (depth : ℕ) (req : Request) (a : Addr)
        → validate lib depth e ≡ none
        → req.address ≡ some a
        → Answers req (needs e)
        → is_known (evaluate lib req e) ≡ true
    evaluate-is_known (expr gs hs neg (some t)) depth req a h v answers =
        evaluate_test-is_known lib t req a
          (or_else-none (shape_error depth gs hs (has_negation neg) true) (validate_test lib t) h).1
          v answers
    evaluate-is_known (expr gs hs (negated e) none) depth req a h v answers =
        invert-is_known (evaluate lib req e) (
          evaluate-is_known e (suc depth) req a
            (or_else-none (shape_error depth gs hs true false) (validate lib (suc depth) e) h).1 v
            answers)
    evaluate-is_known (expr gs hs no_negation none) depth req a h v answers =
        let parts =
          or_else-none (shape_error depth gs hs false false)
            (or_else (validate_group lib (suc depth) gs) (validate_group lib (suc depth) hs)) h in
        let valid =
          or_else-none (validate_group lib (suc depth) gs) (validate_group lib (suc depth) hs)
            parts.1 in
        let asked = Answers-or_both req (needs_group gs) (needs_group hs) answers in
        known_group gs hs req depth parts.0 (any_of-is_known hs (suc depth) req a valid.1 v asked.1)
          (all_of-is_known gs (suc depth) req a valid.0 v asked.0)

    any_of-is_known :
        (g : Group) (depth : ℕ) (req : Request) (a : Addr)
        → validate_group lib depth g ≡ none
        → req.address ≡ some a
        → Answers req (needs_group g)
        → is_known (any_of lib req g) ≡ true
    any_of-is_known absent depth req a h v answers = refl
    any_of-is_known (present es) depth req a h v answers =
        any_loop-is_known es depth req a h v answers

    all_of-is_known :
        (g : Group) (depth : ℕ) (req : Request) (a : Addr)
        → validate_group lib depth g ≡ none
        → req.address ≡ some a
        → Answers req (needs_group g)
        → is_known (all_of lib req g) ≡ true
    all_of-is_known absent depth req a h v answers = refl
    all_of-is_known (present es) depth req a h v answers =
        all_loop-is_known es depth req a h v answers

    any_loop-is_known :
        (es : Exprs) (depth : ℕ) (req : Request) (a : Addr)
        → validate_all lib depth es ≡ none
        → req.address ≡ some a
        → Answers req (needs_all es)
        → is_known (any_loop lib req false es) ≡ true
    any_loop-is_known nil depth req a h v answers = refl
    any_loop-is_known (cons e es) depth req a h v answers =
        let valid = or_else-none (validate lib depth e) (validate_all lib depth es) h in
        let asked = Answers-or_both req (needs e) (needs_all es) answers in
        any_step (evaluate lib req e) (any_loop lib req true es) (any_loop lib req false es)
          (evaluate-is_known e depth req a valid.0 v asked.0)
          (any_loop-is_known es depth req a valid.1 v asked.1)

    all_loop-is_known :
        (es : Exprs) (depth : ℕ) (req : Request) (a : Addr)
        → validate_all lib depth es ≡ none
        → req.address ≡ some a
        → Answers req (needs_all es)
        → is_known (all_loop lib req false es) ≡ true
    all_loop-is_known nil depth req a h v answers = refl
    all_loop-is_known (cons e es) depth req a h v answers =
        let valid = or_else-none (validate lib depth e) (validate_all lib depth es) h in
        let asked = Answers-or_both req (needs e) (needs_all es) answers in
        all_step (evaluate lib req e) (all_loop lib req true es) (all_loop lib req false es)
          (evaluate-is_known e depth req a valid.0 v asked.0)
          (all_loop-is_known es depth req a valid.1 v asked.1)

  rule_error-condition :
      (rule : Rule) → rule_error lib rule ≡ none → validate lib 0 rule.condition ≡ none
  unfolding rule_error
  rule_error-condition rule h = ground (arith, h)

  -- The rules of an accepted set are asked one by one, and none is skipped.
  decide-skipped :
      (rules : List Rule) (req : Request) (a : Addr) (decision : Decision)
      → first_bad (rule_error lib) rules ≡ none
      → req.address ≡ some a
      → Answers req (needs_rules rules)
      → (decide lib req rules decision).skipped ≡ decision.skipped
  unfolding decide first_bad needs_rules
  decide-skipped [] req a decision h v answers = refl
  decide-skipped (rule ∷ rules) req a decision h v answers =
      let valid = or_else-none (rule_error lib rule) (first_bad (rule_error lib) rules) h in
      let asked = Answers-or_both req (needs rule.condition) (needs_rules rules) answers in
      ground (
        arith,
        evaluate-is_known rule.condition 0 req a (rule_error-condition rule valid.0) v asked.0,
        decide-skipped rules req a decision valid.1 v asked.1,
      )

  -- A rule set that Validate accepts skips no rule on a request that has an address and the
  -- geographic facts that Needs names.
  pub evaluate_set-skipped :
      (s : RuleSet) (req : Request) (a : Addr)
      → validate_set lib s ≡ none
      → req.address ≡ some a
      → Answers req (needs_set s)
      → (evaluate_set lib s req).skipped ≡ []
  unfolding evaluate_set validate_set needs_set
  evaluate_set-skipped s req a h v answers =
      decide-skipped s.rules req a (initial_decision s) (ground (arith, h)) v answers
