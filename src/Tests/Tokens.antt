-- ===== src/Tests/Tokens.antt =====
-- Tokens with scopes, and command lines.
use skifity.Prelude.{All, ◌≡◌, refl, ◌↔◌, ◌⊎◌, true, false, none, some, [], ◌∷◌}
use skifity.Prelude.Text.{Text, codes, trim_space, split}
use skifity.Scopes.{
  look_up, route_matches, find_route, nested_of, route_of, resource_for, scope_allows, token_allows,
  known_resource, parts_error, scope_error, scopes_error, validate_scopes,
}
use skifity.Scopes.Grants.{Granted, token_allows_iff}
use skifity.Scopes.Usable.{Honoured, IsBlank, validate_scopes-Honoured}
use skifity.Shell.{shell_join}
use skifity.Shell.Posix.{words, words-shell_join}

abbrev narrow : Text
narrow = codes "apps:read, backups:write"

token_allows_iff_example :
    (token_allows narrow (codes "POST") (codes "/api/databases/7/backups") ≡ true)
    ↔ Granted narrow (codes "POST") (codes "/api/databases/7/backups")
token_allows_iff_example =
    token_allows_iff narrow (codes "POST") (codes "/api/databases/7/backups")
      (unfold trim_space in refl)

narrow_allows : token_allows narrow (codes "POST") (codes "/api/databases/7/backups") ≡ true
unfolding token_allows scope_allows resource_for nested_of look_up
narrow_allows = refl

narrow_refuses : token_allows narrow (codes "POST") (codes "/api/apps/7") ≡ false
unfolding token_allows scope_allows resource_for nested_of look_up route_of find_route route_matches
narrow_refuses = refl

validate_scopes-Honoured_example :
    All (λ s. IsBlank (trim_space s) ⊎ Honoured (trim_space s)) (split narrow b',')
validate_scopes-Honoured_example =
    validate_scopes-Honoured narrow (unfold trim_space in refl)
      (unfold validate_scopes scopes_error scope_error parts_error known_resource in refl)

words-shell_join_example :
    words (shell_join (codes "echo" ∷ [] ∷ codes "don't $(id)" ∷ []))
    ≡ some (codes "echo" ∷ [] ∷ codes "don't $(id)" ∷ [])
words-shell_join_example = words-shell_join (codes "echo" ∷ [] ∷ codes "don't $(id)" ∷ [])

unquoted_refused : words (codes "echo $(id)") ≡ none
unfolding words
unquoted_refused = refl
