-- ===== src/Scaling/Laws.antt =====
-- What the readiness checker may look at, and when a target is too low.
use skifity.Prelude.{
  if◌then◌else◌, ◌≡◌, refl, ap, ◌∙◌, Bool, Option, none, some, List, [], ◌∷◌, map, arith,
}
use skifity.Prelude.Text.{Text, to_lower, to_upper}
use skifity.Scaling.{
  Finding, Variable, App, read_value, inspect, inspect_variable, inspect_all, scaling_readiness,
}

-- Another value sealed in every secret.
abbrev pub resealed : (Text → Option Text) → Variable → Variable
resealed f v = if v.is_secret then record v { opened = f v.key } else v

resealed_looks :
    (f : Text → Option Text) (v : Variable)
    → (read_value (resealed f v) ≡ read_value v) × ((resealed f v).key ≡ v.key)
resealed_looks f v = (ground arith, ground arith)

inspect_variable-resealed :
    (f : Text → Option Text) (v : Variable) → inspect_variable (resealed f v) ≡ inspect_variable v
unfolding inspect_variable
inspect_variable-resealed f v =
    let looks = resealed_looks f v in
    let value = read_value (resealed f v) in
    ap (λ k. inspect (to_upper k) (to_lower value) k value) looks.1
    ∙ ap (λ x. inspect (to_upper v.key) (to_lower x) v.key x) looks.0

inspect_all-resealed :
    (f : Text → Option Text) (vs : List Variable)
    → inspect_all (map (resealed f) vs) ≡ inspect_all vs
unfolding inspect_all
inspect_all-resealed f [] = refl
inspect_all-resealed f (v ∷ vs) =
    ap
      (λ o. elim o as (λ _. List Finding) [
        | none ↦ inspect_all (map (resealed f) vs)
        | some finding ↦ finding ∷ inspect_all (map (resealed f) vs)
      ])
      (inspect_variable-resealed f v)
    ∙ ap
        (λ rest. elim (inspect_variable v) as (λ _. List Finding) [
          | none ↦ rest
          | some finding ↦ finding ∷ rest
        ])
        (inspect_all-resealed f vs)

-- The findings of the report, with their severities and the values that their details are written
-- with, do not depend on what any secret holds.
pub scaling_readiness-secret :
    (app : App) (volumes : List Text) (variables : List Variable) (metrics : Option Bool)
    (f : Text → Option Text)
    → scaling_readiness app volumes (map (resealed f) variables) metrics
      ≡ scaling_readiness app volumes variables metrics
unfolding scaling_readiness
scaling_readiness-secret app volumes variables metrics f = rw (inspect_all-resealed f variables)
