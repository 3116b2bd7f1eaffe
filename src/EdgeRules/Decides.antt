-- ===== src/EdgeRules/Decides.antt =====
-- Which rule decides, and which rules are named as skipped.
use mathlib.Core.List.{append-nil, append_assoc}
use skifity.Prelude.{
  if◌then◌else◌, All, ◌≡◌, ◌⊎◌, Bool, true, false, ◌&&◌, List, [], ◌∷◌, ◌++◌, arith,
}
use skifity.Prelude.Text.{Text}
use skifity.Net.{Parsers}
use skifity.EdgeRules.Types.{Rule, RuleSet, Request, Decision}
use skifity.EdgeRules.Evaluate.{
  Truth, is_found, initial_decision, evaluate, decide, evaluate_set, is_true, is_unknown,
}

module _ (lib : Parsers) where
  -- A rule that does not decide: switched off, false, or unknown.
  abbrev pub Passes : Request → Rule → Type 0
  Passes req r = (r.enabled ≡ false) ⊎ (is_found (evaluate lib req r.condition) ≡ false)

  abbrev is_skipped : Truth → Bool
  is_skipped is_unknown = true
  is_skipped _ = false

  -- The names of the rules that were asked and could not answer.
  abbrev pub skipped_names : Request → List Rule → List Text
  skipped_names req [] = []
  skipped_names req (r ∷ rs) =
      if r.enabled && is_skipped (evaluate lib req r.condition)
      then r.name ∷ skipped_names req rs
      else skipped_names req rs

  abbrev pub skip : Decision → List Text → Decision
  skip d names = record d { skipped = d.skipped ++ names }

  decide-append :
      (req : Request) (pre post : List Rule) (d : Decision)
      → All (Passes req) pre
      → decide lib req (pre ++ post) d ≡ decide lib req post (skip d (skipped_names req pre))
  unfolding decide
  decide-append req [] post d h = rw (append-nil d.skipped)
  decide-append req (r ∷ pre) post d h = ground (
    arith,
    decide-append req pre post d h.1,
    decide-append req pre post (skip d (r.name ∷ [])) h.1,
    append_assoc d.skipped (r.name ∷ []) (skipped_names req pre),
  )

  -- The first rule that is switched on and true decides, whatever comes after it, and the
  -- decision names exactly the rules before it that were switched on and unknown.
  pub evaluate_set-first :
      (s : RuleSet) (req : Request) (pre post : List Rule) (r : Rule)
      → s.rules ≡ pre ++ r ∷ post
      → All (Passes req) pre
      → r.enabled ≡ true
      → evaluate lib req r.condition ≡ is_true
      → evaluate_set lib s req ≡ record {
        action = r.action;
        rule_id = r.id;
        rule_name = r.name;
        skipped = skipped_names req pre;
      }
  unfolding evaluate_set
  evaluate_set-first s req pre post r e h on found =
      rw (e, decide-append req pre (r ∷ post) (initial_decision s) h)
        (unfold decide in rw (on, found))
