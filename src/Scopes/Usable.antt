-- ===== src/Scopes/Usable.antt =====
-- No scope is accepted that nothing would ever honour.
use skifity.Prelude.{
  if◌then◌else◌, Bool-cases, nat_eq, ◌==◌, list_beq_iff, All, ◌≡◌, refl, sym, subst, ◌⊎◌, inl, inr,
  Bool, true, false, not, ◌&&◌, ◌||◌, Option, none, some, List, [], ◌∷◌, ◌++◌,
}
use skifity.Prelude.Text.{Text, codes, text_eq, is_empty, trim_space, split, cut}
use skifity.Scopes.{
  scope_read, scope_write, resources, look_up, is_boundary, route_matches, find_route, nested_of,
  route_of, resource_for, scope_allows, known_resource, parts_error, scope_error, scopes_error,
  validate_scopes,
}
use skifity.Scopes.Laws.{or_rest, among}
use skifity.Scopes.Grants.{
  colon, cut_joined, resource-no_colon, Acts, scope_allowed_parts, allows_by, scope_allowed,
}

Reached : Text → Type 0
Reached resource = (path : Text) × (resource_for path ≡ resource)

known-Reached : (name : Text) → known_resource name ≡ true → Reached name
unfolding known_resource Reached
known-Reached name h = among Reached resources name h (
    unfold resource_for nested_of route_of look_up find_route route_matches is_boundary in
    (
      (codes "/api/apps", refl),
      (
        (codes "/api/apps/x/deployments", refl),
        (
          (codes "/api/databases", refl),
          (
            (codes "/api/databases/x/backups", refl),
            (
              (codes "/api/projects", refl),
              (
                (codes "/api/servers", refl),
                (
                  (codes "/api/templates", refl),
                  (
                    (codes "/api/operations", refl),
                    (
                      (codes "/api/events", refl),
                      (
                        (codes "/api/teams", refl),
                        ((codes "/api/settings", refl), ((codes "/api/me", refl), tt)),
                      ),
                    ),
                  ),
                ),
              ),
            ),
          ),
        ),
      ),
    ))

-- A request that only reads, and that the scope alone permits.
abbrev pub Honoured : Text → Type 0
Honoured scope = (path : Text) × (scope_allows true (resource_for path) scope ≡ true)

abbrev pub IsBlank : Text → Type 0
IsBlank scope = is_empty scope ≡ true

error_parts {ℓ} :
    {E : Type ℓ} (r w k : Bool) (e f : E)
    → (if not r && not w then some e else if not k then some f else none) ≡ none
    → ((r || w) ≡ true) × (k ≡ true)
error_parts true w true e f h = (refl, refl)
error_parts false true true e f h = (refl, refl)
error_parts false false k e f h = cc
error_parts true w false e f h = cc
error_parts false true false e f h = cc

accepted_action :
    (action : Text) → (action == scope_read || action == scope_write) ≡ true → Acts true action
unfolding Acts
accepted_action action h = elim (Bool-cases (action == scope_read)) [
  | inl hit ↦ inr ((list_beq_iff action scope_read).0 hit, refl)
  | inr miss ↦ inl ((list_beq_iff action scope_write).0 (or_rest _ _ miss h))
]

known_full : (name : Text) → known_resource name ≡ true → is_empty name ≡ false
unfolding known_resource
known_full name h =
    among (λ r. is_empty r ≡ false) resources name h
      (
        refl,
        (refl, (refl, (refl, (refl, (refl, (refl, (refl, (refl, (refl, (refl, (refl, tt))))))))))),
      )

parts-Honoured :
    (scope : Text) (parts : Text × Text × Bool)
    → (parts.2 ≡ true → scope ≡ parts.0 ++ colon ∷ parts.1)
    → parts_error scope parts ≡ none
    → Honoured scope
unfolding Reached parts_error
parts-Honoured scope (named, action, false) joined h = cc
parts-Honoured scope (named, action, true) joined h =
    let right =
      error_parts (action == scope_read) (action == scope_write) (known_resource named) _ _ h in
    let (path, there) = known-Reached named right.1 in
    let joined_there : scope ≡ resource_for path ++ colon ∷ action =
      subst (λ r. scope ≡ r ++ colon ∷ action) (sym there) (joined refl) in
    let full : is_empty (resource_for path) ≡ false =
      subst (λ r. is_empty r ≡ false) (sym there) (known_full named right.1) in
    (
      path,
      allows_by true (resource_for path) scope (resource_for path ++ colon ∷ action) joined_there (
          scope_allowed_parts true (resource_for path) action full (resource-no_colon path)
            (accepted_action action right.0)),
    )

plain-Honoured :
    (scope : Text) → (scope == scope_read || scope == scope_write) ≡ true → Honoured scope
unfolding Acts
plain-Honoured scope h = (
  codes "/",
  scope_allowed true (resource_for (codes "/")) scope (resource-no_colon (codes "/"))
      (inl (accepted_action scope h)),
)

not_plain {ℓ} :
    {E : Type ℓ} (b : Bool) (o p : Option E) → b ≡ false → (if b then p else o) ≡ none → o ≡ none
not_plain true o p e h = cc
not_plain false o p e h = h

both_none {ℓ} :
    {E : Type ℓ} (a b : Option E)
    → elim a as (λ _. Option E) [ none ↦ b | some e ↦ some e ] ≡ none
    → (a ≡ none) × (b ≡ none)
both_none none b h = (refl, h)
both_none (some e) b h = cc

scope-Honoured : (scope : Text) → scope_error scope ≡ none → IsBlank scope ⊎ Honoured scope
unfolding scope_error
scope-Honoured [] h = inl refl
scope-Honoured (c ∷ scope) h =
    elim (Bool-cases (c ∷ scope == scope_read || c ∷ scope == scope_write)) [
      | inl plain ↦ inr (plain-Honoured (c ∷ scope) plain)
      | inr other ↦ inr (
          parts-Honoured (c ∷ scope) (cut (c ∷ scope) colon)
            (λ found. cut_joined (c ∷ scope) colon found) (not_plain _ _ _ other h))
    ]

scopes-Honoured :
    (entries : List Text)
    → scopes_error entries ≡ none
    → All (λ s. IsBlank (trim_space s) ⊎ Honoured (trim_space s)) entries
unfolding scopes_error
scopes-Honoured [] h = tt
scopes-Honoured (s ∷ entries) h =
    let parts = both_none (scope_error (trim_space s)) (scopes_error entries) h in
    (scope-Honoured (trim_space s) parts.0, scopes-Honoured entries parts.1)

-- Scopes that are not blank are accepted only if each of them is blank or permits, by itself, a
-- request that only reads: no token is made with a scope that the panel would never honour.
pub validate_scopes-Honoured :
    (scopes : Text)
    → is_empty (trim_space scopes) ≡ false
    → validate_scopes scopes ≡ none
    → All (λ s. IsBlank (trim_space s) ⊎ Honoured (trim_space s)) (split scopes b',')
unfolding validate_scopes
validate_scopes-Honoured scopes full h =
    scopes-Honoured (split scopes b',') (not_plain _ _ _ full h)
