-- ===== src/Guard/Lookup.antt =====
-- Asking the databases only for what the rules need does not change a decision.
use skifity.Prelude.{
  if◌then◌else◌, Bool-cases, ◌≡◌, refl, sym, ap, ◌∙◌, inl, inr, Bool, true, false, ◌&&◌, ◌||◌,
  Option,
}
use skifity.Prelude.Text.{is_empty}
use skifity.Net.{Addr, Parsers}
use skifity.EdgeRules.Types.{RuleSet, Request}
use skifity.EdgeRules.Evaluate.{evaluate_set, needs_set}
use skifity.EdgeRules.Unread.{relocated, evaluate_set-unread}
use skifity.Guard.{GeoResult, located}

-- The request with everything that the databases know of it.
abbrev pub fully_located : (Option Addr → GeoResult) → Request → Request
fully_located lookup req =
    let result = lookup req.address in
    relocated req (if is_empty req.country_code then result.country else req.country_code)
      result.asn

both_off :
    (nc empty na : Bool) → (nc && empty || na) ≡ false → (nc ≡ true → empty ≡ false) × (na ≡ false)
both_off true true na h = cc
both_off true false na h = (λ _. refl, h)
both_off false empty na h = (λ e. cc, h)

module _ (lib : Parsers) (lookup : Option Addr → GeoResult) where
  unlocated :
      (s : RuleSet) (req : Request)
      → ((needs_set s).0 && is_empty req.country_code || (needs_set s).1) ≡ false
      → evaluate_set lib s (fully_located lookup req) ≡ evaluate_set lib s req
  unlocated s req h =
      let off = both_off (needs_set s).0 (is_empty req.country_code) (needs_set s).1 h in
      evaluate_set-unread lib s req _ _ (
        (λ need.
            ap (λ b. if b then (lookup req.address).country else req.country_code) (off.0 need)),
        (λ need. cc),
      )

  -- The rules decide on a request that is looked up only where they need it as they would if
  -- every request were looked up.
  pub evaluate_set-located :
      (s : RuleSet) (req : Request)
      → evaluate_set lib s (located lib lookup s req)
        ≡ evaluate_set lib s (fully_located lookup req)
  unfolding located
  evaluate_set-located s req =
      elim (Bool-cases ((needs_set s).0 && is_empty req.country_code || (needs_set s).1)) [
        | inl on ↦ ap (λ b. evaluate_set lib s (if b then fully_located lookup req else req)) on
        | inr off ↦
            ap (λ b. evaluate_set lib s (if b then fully_located lookup req else req)) off
            ∙ sym (unlocated s req off)
      ]
