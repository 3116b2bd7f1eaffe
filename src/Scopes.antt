-- ===== src/Scopes.antt =====
-- internal/auth/scopes.go: what a token is allowed to touch.
pub mod Laws
pub mod Grants
pub mod Usable
use skifity.Prelude.{
  if◌then◌else◌, nat_eq, ◌==◌, length, get_elem?, any, ℕ, Bool, true, false, not, ◌&&◌, ◌||◌,
  Option, none, some, List, [], ◌∷◌, ◌++◌,
}
use skifity.Prelude.Text.{
  Text, codes, text_eq, is_empty, has_prefix, trim_prefix, trim_suffix, trim_left, trim_right,
  trim_space, split, cut,
}

abbrev pub scope_read : Text
scope_read = codes "read"

abbrev pub scope_write : Text
scope_write = codes "write"

abbrev pub resources : List Text
resources =
    codes "apps"
    ∷ codes "deployments"
    ∷ codes "databases"
    ∷ codes "backups"
    ∷ codes "projects"
    ∷ codes "servers"
    ∷ codes "templates"
    ∷ codes "operations"
    ∷ codes "events"
    ∷ codes "teams"
    ∷ codes "settings"
    ∷ codes "account"
    ∷ []

-- `routeResources`: the prefix of a path, and the resource.
abbrev pub route_resources : List (Text × Text)
route_resources =
    (codes "/api/environments/", [])
    ∷ (codes "/api/me", codes "account")
    ∷ (codes "/api/teams", codes "teams")
    ∷ (codes "/api/servers", codes "servers")
    ∷ (codes "/api/projects", codes "projects")
    ∷ (codes "/api/apps", codes "apps")
    ∷ (codes "/api/databases", codes "databases")
    ∷ (codes "/api/operations", codes "operations")
    ∷ (codes "/api/templates", codes "templates")
    ∷ (codes "/api/events", codes "events")
    ∷ (codes "/api/settings", codes "settings")
    ∷ (codes "/api/components", codes "settings")
    ∷ (codes "/api/audit", codes "teams")
    ∷ []

abbrev pub nested_resources : List (Text × Text)
nested_resources =
    (codes "apps", codes "apps")
    ∷ (codes "databases", codes "databases")
    ∷ (codes "deployments", codes "deployments")
    ∷ (codes "backups", codes "backups")
    ∷ []

unfoldable pub look_up : List (Text × Text) → Text → Option Text
look_up [] key = none
look_up ((k, v) ∷ rest) key = if k == key then some v else look_up rest key

-- The index is in range where the caller has found the prefix.
unfoldable pub is_boundary : Text → Text → Bool
is_boundary path prefix =
    length path == length prefix
    || elim (get_elem? path (length prefix)) [ none ↦ false | some c ↦ c == b'/' ]

unfoldable pub route_matches : Text → Text → Bool
unfolding trim_suffix has_prefix is_boundary
route_matches path prefix =
    path == trim_suffix prefix (codes "/")
    || (has_prefix path (prefix ++ codes "/")
        || (has_prefix path prefix && is_boundary path prefix))

unfoldable pub find_route : List (Text × Text) → Text → Option Text
unfolding route_matches
find_route [] path = none
find_route ((prefix, resource) ∷ routes) path =
    let rest = find_route routes path in
    if is_empty resource then rest else if route_matches path prefix then some resource else rest

abbrev pub is_slash : ℕ → Bool
is_slash c = c == b'/'

unfoldable pub nested_of : List Text → Option Text
nested_of segments = elim (get_elem? segments 3) [
  | none ↦ none
  | some segment ↦ look_up nested_resources segment
]

unfoldable pub route_of : Text → Text
unfolding has_prefix
route_of path = elim (find_route route_resources path) [
  | some resource ↦ resource
  | none ↦ if has_prefix path (codes "/api/environments") then codes "projects" else []
]

unfoldable pub resource_for : Text → Text
unfolding trim_left trim_right trim_prefix split nested_of route_of
resource_for raw =
    let path = b'/' ∷ trim_right is_slash (trim_left is_slash raw) in
    elim (nested_of (split (trim_prefix path (codes "/")) b'/')) [
      | some resource ↦ resource
      | none ↦ route_of path
    ]

abbrev pub is_read_only : Text → Bool
is_read_only method = method == codes "GET" || (method == codes "HEAD" || method == codes "OPTIONS")

abbrev pub action_allows : Bool → Text → Bool
action_allows read_only action = action == scope_write || (action == scope_read && read_only)

-- One turn of the loop, on a scope that is cut at its colon.
abbrev pub parts_allow : Bool → Text → Text → Text × Text × Bool → Bool
parts_allow read_only resource scope (named, action, scoped) =
    if not scoped
    then action_allows read_only scope
    else if is_empty resource || not (named == resource)
    then false
    else action_allows read_only action

unfoldable pub scope_allows : Bool → Text → Text → Bool
unfolding cut
scope_allows read_only resource scope =
    if is_empty scope then false else parts_allow read_only resource scope (cut scope b':')

unfoldable pub token_allows : Text → Text → Text → Bool
unfolding trim_space split
token_allows scopes method path =
    let trimmed = trim_space scopes in
    if is_empty trimmed
    then true
    else any (λ s. scope_allows (is_read_only method) (resource_for path) (trim_space s))
        (split trimmed b',')

pub data ScopeError : Type 0 where
  not_a_scope not_an_action not_a_resource : ScopeError

unfoldable pub known_resource : Text → Bool
known_resource name = any (λ resource. resource == name) resources

unfoldable pub parts_error : Text → Text × Text × Bool → Option ScopeError
unfolding known_resource
parts_error scope (named, action, scoped) =
    if not scoped
    then some not_a_scope
    else if not (action == scope_read) && not (action == scope_write)
    then some not_an_action
    else if not (known_resource named)
    then some not_a_resource
    else none

unfoldable pub scope_error : Text → Option ScopeError
unfolding cut parts_error
scope_error scope =
    if is_empty scope || (scope == scope_read || scope == scope_write)
    then none
    else parts_error scope (cut scope b':')

unfoldable pub scopes_error : List Text → Option ScopeError
unfolding scope_error trim_space
scopes_error [] = none
scopes_error (s ∷ scopes) = elim (scope_error (trim_space s)) [
  | none ↦ scopes_error scopes
  | some e ↦ some e
]

unfoldable pub validate_scopes : Text → Option ScopeError
unfolding trim_space split
validate_scopes scopes =
    if is_empty (trim_space scopes) then none else scopes_error (split scopes b',')
