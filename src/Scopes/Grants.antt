-- ===== src/Scopes/Grants.antt =====
-- What a scope grants, written as the shapes that a scope may have.
use skifity.Prelude.{
  nat_beq, if◌then◌else◌, nat_beq_iff, Bool-cases, nat_eq, ◌==◌, list_beq_iff, any, Exists, ℕ, ◌≡◌,
  refl, sym, ap, subst, ◌∙◌, ◌↔◌, ◌⊎◌, inl, inr, Bool, true, false, ◌&&◌, ◌||◌, [], ◌∷◌, ◌++◌,
  arith,
}
use skifity.Prelude.Text.{Text, text_eq, is_empty, contains_byte, trim_space, split, cut}
use skifity.Scopes.{
  scope_read, scope_write, resources, resource_for, is_read_only, action_allows, parts_allow,
  scope_allows, token_allows, known_resource,
}
use skifity.Scopes.Laws.{or_rest, any-Exists, Exists-any, Exists-map, among, resource_for-known}

abbrev pub colon : ℕ
colon = b':'

-- Scopes are `read`, `write`, `resource:read` and `resource:write`; a reading scope grants the
-- methods that only read, and a resource has to be that of the path.
abbrev pub Grants : Bool → Text → Text → Type 0
Grants read_only resource scope =
    ((scope ≡ scope_write) ⊎ ((scope ≡ scope_read) × (read_only ≡ true)))
    ⊎ ((is_empty resource ≡ false)
        × ((scope ≡ resource ++ colon ∷ scope_write)
            ⊎ ((scope ≡ resource ++ colon ∷ scope_read) × (read_only ≡ true))))

cut_turn :
    (b : Bool) (c sep : ℕ) (s : Text) (t : Text × Text × Bool)
    → nat_beq c sep ≡ b
    → (t.2 ≡ true → s ≡ t.0 ++ sep ∷ t.1)
    → let r : Text × Text × Bool = if b then ([], s, true) else (c ∷ t.0, t.1, t.2) in
      r.2 ≡ true → c ∷ s ≡ r.0 ++ sep ∷ r.1
cut_turn true c sep s t e h found = ap (λ x. x ∷ s) ((nat_beq_iff c sep).0 e)
cut_turn false c sep s t e h found = ap (λ x. c ∷ x) (h found)

pub cut_joined :
    (s : Text) (sep : ℕ) → (cut s sep).2 ≡ true → s ≡ (cut s sep).0 ++ sep ∷ (cut s sep).1
unfolding cut
cut_joined [] sep found = cc
cut_joined (c ∷ s) sep found =
    cut_turn (nat_beq c sep) c sep s (cut s sep) refl (cut_joined s sep) found

pub or_both_false : (a b : Bool) → (a || b) ≡ false → (a ≡ false) × (b ≡ false)
or_both_false true b h = cc
or_both_false false b h = (refl, h)

cut-append :
    (before after : Text) (sep : ℕ)
    → contains_byte before sep ≡ false
    → cut (before ++ sep ∷ after) sep ≡ (before, after, true)
unfolding cut contains_byte
cut-append [] after sep h = rw ((nat_beq_iff sep sep).1 refl)
cut-append (c ∷ before) after sep h =
    let parts = or_both_false (nat_beq c sep) (contains_byte before sep) h in
    rw (parts.0, cut-append before after sep parts.1)

-- No resource has a colon in it.
pub resource-no_colon : (raw : Text) → contains_byte (resource_for raw) colon ≡ false
resource-no_colon raw = elim (resource_for-known raw) [
  | inl none_there ↦
      subst (λ r. contains_byte r colon ≡ false) (sym none_there) (unfold contains_byte in refl)
  | inr known ↦
      among (λ r. contains_byte r colon ≡ false) resources (resource_for raw)
        (unfold known_resource in known)
        (unfold contains_byte in
          (
            refl,
            (
              refl,
              (refl, (refl, (refl, (refl, (refl, (refl, (refl, (refl, (refl, (refl, tt)))))))))),
            ),
          ))
]

and_both : (a b : Bool) → (a && b) ≡ true → (a ≡ true) × (b ≡ true)
and_both true b h = (refl, h)
and_both false b h = cc

unfoldable pub Acts : Bool → Text → Type 0
Acts read_only action = (action ≡ scope_write) ⊎ ((action ≡ scope_read) × (read_only ≡ true))

action_granted :
    (read_only : Bool) (action : Text)
    → action_allows read_only action ≡ true
    → Acts read_only action
unfolding Acts
action_granted read_only action h = elim (Bool-cases (action == scope_write)) [
  | inl hit ↦ inl ((list_beq_iff action scope_write).0 hit)
  | inr miss ↦
      let rest = or_rest (action == scope_write) (action == scope_read && read_only) miss h in
      let parts = and_both (action == scope_read) read_only rest in
      inr ((list_beq_iff action scope_read).0 parts.0, parts.1)
]

pub action_allowed :
    (read_only : Bool) (action : Text)
    → Acts read_only action
    → action_allows read_only action ≡ true
unfolding Acts
action_allowed read_only action (inl e) = subst (λ a. action_allows read_only a ≡ true) (sym e) refl
action_allowed read_only action (inr (e, r)) =
    subst (λ a. action_allows read_only a ≡ true) (sym e) (rw r)

resource_granted :
    (read_only : Bool) (named resource action scope : Text)
    → named ≡ resource
    → scope ≡ named ++ colon ∷ action
    → Acts read_only action
    → (scope ≡ resource ++ colon ∷ scope_write)
      ⊎ ((scope ≡ resource ++ colon ∷ scope_read) × (read_only ≡ true))
unfolding Acts
resource_granted read_only named resource action scope same joined (inl e) = inl cc
resource_granted read_only named resource action scope same joined (inr (e, r)) = inr (cc, r)

-- The parts of a scope that allows, and what they are.
parts_granted :
    (read_only : Bool) (resource scope : Text) (parts : Text × Text × Bool)
    → (parts.2 ≡ true → scope ≡ parts.0 ++ colon ∷ parts.1)
    → parts_allow read_only resource scope parts ≡ true
    → Grants read_only resource scope
unfolding Acts
parts_granted read_only resource scope (named, action, false) joined h =
    inl (action_granted read_only scope h)
parts_granted read_only [] scope (named, action, true) joined h = cc
parts_granted read_only (c ∷ resource) scope (named, action, true) joined h =
    elim (Bool-cases (named == c ∷ resource)) [
      | inr miss ↦ ground (arith, h, miss)
      | inl hit ↦
          let same = (list_beq_iff named (c ∷ resource)).0 hit in
          let acts = action_granted read_only action (ground (arith, h, hit)) in
          inr (
            refl,
            resource_granted read_only named (c ∷ resource) action scope same (joined refl) acts,
          )
    ]

pub scope_allowed_parts :
    (read_only : Bool) (resource action : Text)
    → is_empty resource ≡ false
    → contains_byte resource colon ≡ false
    → Acts read_only action
    → scope_allows read_only resource (resource ++ colon ∷ action) ≡ true
unfolding scope_allows
scope_allowed_parts read_only [] action full plain acts = cc
scope_allowed_parts read_only (c ∷ resource) action full plain acts =
    rw
      (
        cut-append (c ∷ resource) action colon plain,
        (list_beq_iff (c ∷ resource) (c ∷ resource)).1 refl,
      )
      (action_allowed read_only action acts)

scope_granted :
    (read_only : Bool) (resource scope : Text)
    → scope_allows read_only resource scope ≡ true
    → Grants read_only resource scope
unfolding scope_allows
scope_granted read_only resource [] h = cc
scope_granted read_only resource (c ∷ scope) h =
    parts_granted read_only resource (c ∷ scope) (cut (c ∷ scope) colon)
      (λ found. cut_joined (c ∷ scope) colon found) h

pub allows_by :
    (read_only : Bool) (resource scope as_written : Text)
    → scope ≡ as_written
    → scope_allows read_only resource as_written ≡ true
    → scope_allows read_only resource scope ≡ true
allows_by read_only resource scope as_written e h =
    subst (λ s. scope_allows read_only resource s ≡ true) (sym e) h

pub scope_allowed :
    (read_only : Bool) (resource scope : Text)
    → contains_byte resource colon ≡ false
    → Grants read_only resource scope
    → scope_allows read_only resource scope ≡ true
unfolding Acts
scope_allowed read_only resource scope plain (inl (inl e)) =
    allows_by read_only resource scope scope_write e (unfold scope_allows cut in refl)
scope_allowed read_only resource scope plain (inl (inr (e, r))) =
    allows_by read_only resource scope scope_read e (unfold scope_allows cut in rw r)
scope_allowed read_only resource scope plain (inr (full, inl e)) =
    allows_by read_only resource scope (resource ++ colon ∷ scope_write) e
      (scope_allowed_parts read_only resource scope_write full plain (inl refl))
scope_allowed read_only resource scope plain (inr (full, inr (e, r))) =
    allows_by read_only resource scope (resource ++ colon ∷ scope_read) e
      (scope_allowed_parts read_only resource scope_read full plain (inr (refl, r)))

-- A token's entries that grant a request.
abbrev pub Granted : Text → Text → Text → Type 0
Granted scopes method path =
    Exists (λ s. Grants (is_read_only method) (resource_for path) (trim_space s))
      (split (trim_space scopes) b',')

not_blank : (b : Bool) (x : Bool) → b ≡ false → (if b then true else x) ≡ x
not_blank true x e = cc
not_blank false x e = refl

-- A token that has scopes permits exactly the requests that one of its entries grants: `write`
-- any, `read` any whose method only reads, `resource:write` those whose path belongs to the
-- resource, `resource:read` those of them whose method only reads.
pub token_allows_iff :
    (scopes method path : Text)
    → is_empty (trim_space scopes) ≡ false
    → (token_allows scopes method path ≡ true) ↔ Granted scopes method path
unfolding token_allows
token_allows_iff scopes method path full =
    let read_only = is_read_only method in
    let resource = resource_for path in
    let allows : Text → Bool = λ s. scope_allows read_only resource (trim_space s) in
    let entries = split (trim_space scopes) b',' in
    let same = not_blank (is_empty (trim_space scopes)) (any allows entries) full in
    (
      (λ h.
          Exists-map (λ s. allows s ≡ true) (λ s. Grants read_only resource (trim_space s)) entries
            (λ s a. scope_granted read_only resource (trim_space s) a)
            (any-Exists allows entries (sym same ∙ h))),
      (λ g.
          same
          ∙ Exists-any allows entries (
              Exists-map (λ s. Grants read_only resource (trim_space s)) (λ s. allows s ≡ true)
                entries
                (λ s a. scope_allowed read_only resource (trim_space s) (resource-no_colon path) a)
                g)),
    )
