-- ===== src/Uploads/Inside.antt =====
-- A name that is accepted leads to a place inside the folder that the archive is unpacked into.
use mathlib.Core.List.{reverse-reverse}
use skifity.Prelude.{nat_eq}
use skifity.Prelude.{
  nat_beq, if◌then◌else◌, Bool-cases, ◌==◌, list_beq_iff, any, All, ℕ, zero, suc, ◌≡◌, refl, sym,
  ap, subst, ◌∙◌, ◌⊎◌, inl, inr, Bool, true, false, ◌||◌, none, some, List, [], ◌∷◌, reverse,
}
use skifity.Prelude.BoolLaws.{clash}
use skifity.Prelude.Text.{
  Text, codes, text_eq, is_empty, has_prefix, trim_suffix, contains_byte, split_from, split,
  fields_from, fields_func,
}
use skifity.Uploads.Names.{
  is_separator, has_drive_letter, parent, path_base, is_secrets_file, climbs, check_name,
  unsafe_entry, secrets_file,
}

-- Walking the parts of a path from a folder `depth` below the root: whether it stays there.
unfoldable pub stays_inside : ℕ → List Text → Bool
stays_inside depth [] = true
stays_inside depth (part ∷ parts) =
    let same = stays_inside depth parts in
    let below = stays_inside (suc depth) parts in
    let above = elim depth as (λ _. Bool) [ zero ↦ false | suc d ↦ stays_inside d parts ] in
    if part == parent then above else if is_empty part || part == codes "." then same else below

-- A path that does not start at the root of the system and never leaves the folder.
abbrev pub Inside : Text → Type 0
Inside name = (has_prefix name (codes "/") ≡ false) × (stays_inside 0 (split name b'/') ≡ true)

abbrev Clean : Text → Type 0
Clean part = (part == parent) ≡ false

stays_inside-Clean :
    (depth : ℕ) (parts : List Text) → All Clean parts → stays_inside depth parts ≡ true
unfolding stays_inside
stays_inside-Clean depth [] h = refl
stays_inside-Clean depth (part ∷ parts) h = rw h.0 (
    go (is_empty part || part == codes ".") (stays_inside-Clean depth parts h.1)
      (stays_inside-Clean (suc depth) parts h.1))
  where
    go :
        (b : Bool)
        → stays_inside depth parts ≡ true
        → stays_inside (suc depth) parts ≡ true
        → (if b then stays_inside depth parts else stays_inside (suc depth) parts) ≡ true
    go true x y = x
    go false x y = y

backslash-Clean : (part : Text) → contains_byte part 92 ≡ true → Clean (reverse part)
unfolding contains_byte
backslash-Clean part h = elim (Bool-cases (reverse part == parent)) [
  | inr clean ↦ clean
  | inl same ↦ absurd (
      clash (contains_byte part 92) h (
        ap (λ p. contains_byte p 92)
          (sym (reverse-reverse part) ∙ ap reverse ((list_beq_iff (reverse part) parent).0 same))))
]

first_false : (a b : Bool) → (a || b) ≡ false → (a ≡ false) × (b ≡ false)
first_false true b h = cc
first_false false b h = (refl, h)

-- What is read of a part so far is the same in both, or it has a backslash and is no parent.
abbrev Alike : Text → Text → Type 0
Alike part field = (part ≡ field) ⊎ (contains_byte part 92 ≡ true)

abbrev is_parent : Text → Bool
is_parent part = part == parent

ended : Text → List Text → List Text
ended part rest = if is_empty part then rest else reverse part ∷ rest

ended-Clean :
    (part : Text) (rest : List Text)
    → any is_parent (ended part rest) ≡ false
    → Clean (reverse part) × (any is_parent rest ≡ false)
unfolding ended
ended-Clean [] rest h = (refl, h)
ended-Clean (c ∷ part) rest h = first_false (is_parent (reverse (c ∷ part))) (any is_parent rest) h

Alike-Clean :
    (part field : Text) (rest : List Text)
    → Alike part field
    → any is_parent (ended field rest) ≡ false
    → Clean (reverse part) × (any is_parent rest ≡ false)
Alike-Clean part field rest (inl same) h =
    let (clean, others) = ended-Clean field rest h in
    (subst (λ p. Clean (reverse p)) (sym same) clean, others)
Alike-Clean part field rest (inr back) h = (backslash-Clean part back, (ended-Clean field rest h).1)

case_true {ℓ} :
    {A : Type ℓ} (b : Bool) (x y : A) → b ≡ true → (elim b as (λ _. A) [ true ↦ x | false ↦ y ]) ≡ x
case_true true x y e = refl
case_true false x y e = cc

case_false {ℓ} :
    {A : Type ℓ} (b : Bool) (x y : A)
    → b ≡ false
    → (elim b as (λ _. A) [ true ↦ x | false ↦ y ]) ≡ y
case_false true x y e = cc
case_false false x y e = refl

fields_end : (part : Text) → fields_from is_separator part [] ≡ ended part []
unfolding fields_from ended
fields_end part = refl

fields_at :
    (part : Text) (c : ℕ) (s : Text)
    → is_separator c ≡ true
    → fields_from is_separator part (c ∷ s) ≡ ended part (fields_from is_separator [] s)
unfolding fields_from ended
fields_at part c s h = case_true (is_separator c) _ _ h

fields_on :
    (part : Text) (c : ℕ) (s : Text)
    → is_separator c ≡ false
    → fields_from is_separator part (c ∷ s) ≡ fields_from is_separator (c ∷ part) s
unfolding fields_from
fields_on part c s h = case_false (is_separator c) _ _ h

split_at :
    (part : Text) (c : ℕ) (s : Text)
    → nat_beq c b'/' ≡ true
    → split_from b'/' part (c ∷ s) ≡ reverse part ∷ split_from b'/' [] s
unfolding split_from
split_at part c s h = case_true (nat_beq c b'/') _ _ h

split_on :
    (part : Text) (c : ℕ) (s : Text)
    → nat_beq c b'/' ≡ false
    → split_from b'/' part (c ∷ s) ≡ split_from b'/' (c ∷ part) s
unfolding split_from
split_on part c s h = case_false (nat_beq c b'/') _ _ h

longer : (c : ℕ) (part field : Text) → Alike part field → Alike (c ∷ part) (c ∷ field)
unfolding contains_byte
longer c part field (inl same) = inl (ap (λ p. c ∷ p) same)
longer c part field (inr back) = inr (or_right (nat_beq c 92) (contains_byte part 92) back)
  where
    or_right : (a b : Bool) → b ≡ true → (a || b) ≡ true
    or_right true b h = refl
    or_right false b h = h

backslashed : (c : ℕ) (part : Text) → nat_beq c 92 ≡ true → contains_byte (c ∷ part) 92 ≡ true
unfolding contains_byte
backslashed c part h = rw h refl

-- No part between slashes is a parent where no part between separators is.
split_from-Clean :
    (s part field : Text)
    → Alike part field
    → any is_parent (fields_from is_separator field s) ≡ false
    → All Clean (split_from b'/' part s)
unfolding split_from
split_from-Clean [] part field alike h =
    ((Alike-Clean part field [] alike (ap (any is_parent) (sym (fields_end field)) ∙ h)).0, tt)
split_from-Clean (c ∷ s) part field alike h = elim (Bool-cases (nat_beq c b'/')) [
  | inl slash ↦
      let (clean, rest) =
        Alike-Clean part field (fields_from is_separator [] s) alike (
          ap (any is_parent) (sym (fields_at field c s (ap (λ b. b || nat_beq c 92) slash))) ∙ h) in
      subst (All Clean) (sym (split_at part c s slash))
        (clean, split_from-Clean s [] [] (inl refl) rest)
  | inr other ↦
      subst (All Clean) (sym (split_on part c s other)) (elim (Bool-cases (nat_beq c 92)) [
        | inl back ↦
            split_from-Clean s (c ∷ part) [] (inr (backslashed c part back))
              (Alike-Clean part field (fields_from is_separator [] s) alike (
                ap (any is_parent) (
                  sym (
                    fields_at field c s
                      (ap (λ b. nat_beq c b'/' || b) back ∙ ap (λ b. b || true) other)))
                ∙ h)).1
        | inr plain ↦ split_from-Clean s (c ∷ part) (c ∷ field) (longer c part field alike) (
            ap (any is_parent)
              (sym (fields_on field c s (ap (λ b. b || nat_beq c 92) other ∙ plain)))
            ∙ h)
      ])
]

passed :
    (a b c d e : Bool)
    → (if a
        then some unsafe_entry
        else if b
        then some unsafe_entry
        else if c
        then some unsafe_entry
        else if d
        then some unsafe_entry
        else if e
        then some secrets_file
        else none)
      ≡ none
    → (c ≡ false) × (d ≡ false)
passed true b c d e h = cc
passed false true c d e h = cc
passed false false true d e h = cc
passed false false false true e h = cc
passed false false false false e h = (refl, refl)

pub check_name-Inside : (name : Text) → check_name name ≡ none → Inside name
unfolding check_name climbs fields_func split
check_name-Inside name h =
    let (relative, flat) =
      passed (is_empty name) (contains_byte name 0)
        (has_prefix name (codes "/") || (has_prefix name (92 ∷ []) || has_drive_letter name))
        (climbs name) (is_secrets_file (path_base (trim_suffix name (codes "/")))) h in
    (
      (first_false (has_prefix name (codes "/"))
          (has_prefix name (92 ∷ []) || has_drive_letter name) relative).0,
      stays_inside-Clean 0 (split name b'/') (split_from-Clean name [] [] (inl refl) flat),
    )
