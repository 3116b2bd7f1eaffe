-- ===== src/Scopes/Laws.antt =====
-- Which resource a path has, and which requests a token's scopes permit.
use mathlib.Core.Option.{some-injective}
use skifity.Prelude.{
  if◌then◌else◌, Bool-cases, nat_eq, ◌==◌, list_beq_iff, get_elem?, any, Exists, All, ◌≡◌, refl,
  subst, ◌⊎◌, inl, inr, Bool, true, false, ◌||◌, Option, none, some, List, [], ◌∷◌, arith,
}
use skifity.Prelude.Text.{
  Text, codes, text_eq, has_prefix, trim_prefix, trim_left, trim_right, split,
}
use skifity.Scopes.{
  route_resources, nested_resources, look_up, route_matches, find_route, is_slash, nested_of,
  route_of, resource_for, known_resource,
}

pub or_rest : (a b : Bool) → a ≡ false → (a || b) ≡ true → b ≡ true
or_rest true b e h = cc
or_rest false b e h = h

if_hit {ℓ} : {A : Type ℓ} (b : Bool) (x y z : A) → b ≡ true → (if b then x else y) ≡ z → x ≡ z
if_hit true x y z e h = h
if_hit false x y z e h = cc

if_miss {ℓ} : {A : Type ℓ} (b : Bool) (x y z : A) → b ≡ false → (if b then x else y) ≡ z → y ≡ z
if_miss true x y z e h = cc
if_miss false x y z e h = h

pub any-Exists {ℓ} :
    {A : Type ℓ} (p : A → Bool) (xs : List A) → any p xs ≡ true → Exists (λ x. p x ≡ true) xs
any-Exists p [] h = cc
any-Exists p (x ∷ xs) h = elim (Bool-cases (p x)) [
  | inl hit ↦ inl hit
  | inr miss ↦ inr (any-Exists p xs (or_rest (p x) (any p xs) miss h))
]

pub Exists-any {ℓ} :
    {A : Type ℓ} (p : A → Bool) (xs : List A) → Exists (λ x. p x ≡ true) xs → any p xs ≡ true
Exists-any p [] h = absurd h
Exists-any p (x ∷ xs) (inl hit) = rw hit
Exists-any p (x ∷ xs) (inr later) = ground (arith, Exists-any p xs later)

pub Exists-map {ℓ} :
    {A : Type ℓ} (P Q : A → Type 0) (xs : List A)
    → ((x : A) → P x → Q x)
    → Exists P xs
    → Exists Q xs
Exists-map P Q [] f h = absurd h
Exists-map P Q (x ∷ xs) f (inl p) = inl (f x p)
Exists-map P Q (x ∷ xs) f (inr later) = inr (Exists-map P Q xs f later)

-- A name that is one of a list has what every entry of the list has.
pub among {κ} :
    (P : Text → Type κ) (xs : List Text) (name : Text)
    → any (λ x. x == name) xs ≡ true
    → All P xs
    → P name
among P [] name h all_ok = cc
among P (x ∷ xs) name h (ok, oks) = elim (Bool-cases (x == name)) [
  | inl hit ↦ subst P ((list_beq_iff x name).0 hit) ok
  | inr miss ↦ among P xs name (or_rest (x == name) (any (λ y. y == name) xs) miss h) oks
]

look_up-ok {κ} :
    (P : Text → Type κ) (table : List (Text × Text)) (key v : Text)
    → All (λ entry. P entry.1) table
    → look_up table key ≡ some v
    → P v
unfolding look_up
look_up-ok P [] key v h e = cc
look_up-ok P ((k, w) ∷ rest) key v (ok, oks) e = elim (Bool-cases (k == key)) [
  | inl hit ↦
      subst P (some-injective w v (if_hit (k == key) (some w) (look_up rest key) (some v) hit e)) ok
  | inr miss ↦
      look_up-ok P rest key v oks (if_miss (k == key) (some w) (look_up rest key) (some v) miss e)
]

-- A resource that a scope may name.
abbrev Known : Text → Type 0
Known name = known_resource name ≡ true

-- Every entry of a table has a known resource, or none.
abbrev Covered : Text → Type 0
Covered name = (name ≡ []) ⊎ Known name

find_route-Known :
    (routes : List (Text × Text)) (path v : Text)
    → All (λ entry. Covered entry.1) routes
    → find_route routes path ≡ some v
    → Known v
unfolding find_route
find_route-Known [] path v h e = cc
find_route-Known ((prefix, []) ∷ routes) path v (ok, oks) e = find_route-Known routes path v oks e
find_route-Known ((prefix, c ∷ name) ∷ routes) path v (inl empty, oks) e = cc
find_route-Known ((prefix, c ∷ name) ∷ routes) path v (inr known, oks) e =
    elim (Bool-cases (route_matches path prefix)) [
      | inl hit ↦
          subst Known
            (some-injective (c ∷ name) v (
              if_hit (route_matches path prefix) (some (c ∷ name)) (find_route routes path) (some v)
                hit e))
            known
      | inr miss ↦ find_route-Known routes path v oks (
          if_miss (route_matches path prefix) (some (c ∷ name)) (find_route routes path) (some v)
            miss e)
    ]

route_resources-Covered : All (λ entry. Covered entry.1) route_resources
unfolding known_resource
route_resources-Covered = (
  inl refl,
  (
    inr refl,
    (
      inr refl,
      (
        inr refl,
        (
          inr refl,
          (
            inr refl,
            (inr refl, (inr refl, (inr refl, (inr refl, (inr refl, (inr refl, (inr refl, tt))))))),
          ),
        ),
      ),
    ),
  ),
)

nested_resources-Known : All (λ entry. Known entry.1) nested_resources
unfolding known_resource
nested_resources-Known = (refl, (refl, (refl, (refl, tt))))

projects_Known : Known (codes "projects")
unfolding known_resource
projects_Known = refl

projects_or_none : (b : Bool) (name : Text) → Known name → Covered (if b then name else [])
projects_or_none true name k = inr k
projects_or_none false name k = inl refl

route_choice-Covered :
    (found : Option Text) (b : Bool)
    → ((v : Text) → found ≡ some v → Known v)
    → Covered (elim found [ some resource ↦ resource | none ↦ if b then codes "projects" else [] ])
route_choice-Covered none b h = projects_or_none b (codes "projects") projects_Known
route_choice-Covered (some v) b h = inr (h v refl)

route_of-Covered : (path : Text) → Covered (route_of path)
unfolding route_of
route_of-Covered path =
    route_choice-Covered (find_route route_resources path)
      (has_prefix path (codes "/api/environments"))
      (λ v e. find_route-Known route_resources path v route_resources-Covered e)

nested_segment-Known :
    (segment : Option Text) (v : Text)
    → elim segment as (λ _. Option Text) [ none ↦ none | some s ↦ look_up nested_resources s ]
      ≡ some v
    → Known v
nested_segment-Known none v e = cc
nested_segment-Known (some s) v e = look_up-ok Known nested_resources s v nested_resources-Known e

nested_of-Known : (segments : List Text) (v : Text) → nested_of segments ≡ some v → Known v
unfolding nested_of
nested_of-Known segments v e = nested_segment-Known (get_elem? segments 3) v e

resource_choice-Covered :
    (found : Option Text) (path : Text)
    → ((v : Text) → found ≡ some v → Known v)
    → Covered (elim found [ some resource ↦ resource | none ↦ route_of path ])
resource_choice-Covered none path h = route_of-Covered path
resource_choice-Covered (some v) path h = inr (h v refl)

-- Every path belongs to one of the resources that a scope may name, or to none.
pub resource_for-known :
    (raw : Text) → (resource_for raw ≡ []) ⊎ (known_resource (resource_for raw) ≡ true)
unfolding resource_for
resource_for-known raw =
    let path : Text = b'/' ∷ trim_right is_slash (trim_left is_slash raw) in
    let segments = split (trim_prefix path (codes "/")) b'/' in
    resource_choice-Covered (nested_of segments) path (λ v e. nested_of-Known segments v e)
