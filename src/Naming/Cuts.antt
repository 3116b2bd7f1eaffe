-- ===== src/Naming/Cuts.antt =====
-- What is left of a text when its dashes are cut at an end.
use mathlib.Core.List.{reverse-append, reverse-cons}
use skifity.Prelude.{
  if◌then◌else◌, Bool-cases, length, length-append, All, All-append, ℕ, ◌+◌, ◌≤◌, ◌≡◌, refl, sym,
  ap, subst, ◌∙◌, ◌⊎◌, inl, inr, Bool, true, false, ◌||◌, [], ◌∷◌, ◌++◌, reverse, arith,
}
use skifity.Prelude.Text.{Text, trim_left, trim_right}
use skifity.Naming.{is_alphanumeric, is_dash, is_label_byte}
use skifity.Naming.Labels.{AllLabelBytes, is_first_ok, is_last_ok, is_last_ok-append}

pub trim_left-All :
    (P : ℕ → Type 0) (drops : ℕ → Bool) (s : Text) → All P s → All P (trim_left drops s)
unfolding trim_left
trim_left-All P drops [] h = tt
trim_left-All P drops (c ∷ s) h = go (drops c) (trim_left-All P drops s h.1)
  where
    go : (b : Bool) → All P (trim_left drops s) → All P (if b then trim_left drops s else c ∷ s)
    go true k = k
    go false k = h

reverse-All : (P : ℕ → Type 0) (s : Text) → All P s → All P (reverse s)
reverse-All P [] h = tt
reverse-All P (c ∷ s) h =
    subst (All P) (sym (reverse-cons c s))
      (All-append P (reverse s) (c ∷ []) (reverse-All P s h.1) (h.0, tt))

pub trim_right-All :
    (P : ℕ → Type 0) (drops : ℕ → Bool) (s : Text) → All P s → All P (trim_right drops s)
unfolding trim_right
trim_right-All P drops s h =
    reverse-All P (trim_left drops (reverse s))
      (trim_left-All P drops (reverse s) (reverse-All P s h))

trim_left-length-le : (drops : ℕ → Bool) (s : Text) → length (trim_left drops s) ≤ length s
unfolding trim_left
trim_left-length-le drops [] = omega arith
trim_left-length-le drops (c ∷ s) = ground (arith, trim_left-length-le drops s)

reverse-length : (s : Text) → length (reverse s) ≡ length s
reverse-length [] = refl
reverse-length (c ∷ s) =
    ap length (reverse-cons c s)
    ∙ length-append (reverse s) (c ∷ [])
    ∙ ap (λ n. n + 1) (reverse-length s)
    ∙ omega arith

pub trim_right-length-le : (drops : ℕ → Bool) (s : Text) → length (trim_right drops s) ≤ length s
unfolding trim_right
trim_right-length-le drops s = omega (
  arith,
  reverse-length (trim_left drops (reverse s)),
  trim_left-length-le drops (reverse s),
  reverse-length s,
)

is_last_ok-reverse : (s : Text) → is_last_ok (reverse s) ≡ is_first_ok s
unfolding is_last_ok
is_last_ok-reverse [] = refl
is_last_ok-reverse (c ∷ s) = ap is_last_ok (reverse-cons c s) ∙ is_last_ok-append (reverse s) [] c

label_not_dash : (c : ℕ) → is_label_byte c ≡ true → is_dash c ≡ false → is_alphanumeric c ≡ true
label_not_dash c h e = go (is_dash c) e h
  where
    go : (b : Bool) → b ≡ false → (b || is_alphanumeric c) ≡ true → is_alphanumeric c ≡ true
    go true k l = cc
    go false k l = l

-- What is left starts well, or nothing is left.
pub trim_left-first :
    (s : Text)
    → AllLabelBytes s
    → (trim_left is_dash s ≡ []) ⊎ (is_first_ok (trim_left is_dash s) ≡ true)
unfolding trim_left
trim_left-first [] h = inl refl
trim_left-first (c ∷ s) h = elim (Bool-cases (is_dash c)) [
  | inl dash ↦ rw dash (trim_left-first s h.1)
  | inr other ↦ rw other (inr (label_not_dash c h.0 other))
]

-- Nothing is cut before a byte that is no dash.
trim_left-snoc :
    (xs : Text) (c : ℕ)
    → is_dash c ≡ false
    → (ys : Text) × (trim_left is_dash (xs ++ c ∷ []) ≡ ys ++ c ∷ [])
unfolding trim_left
trim_left-snoc [] c h = ([], rw h refl)
trim_left-snoc (x ∷ xs) c h = elim (Bool-cases (is_dash x)) [
  | inl dash ↦ rw dash (trim_left-snoc xs c h)
  | inr other ↦ (x ∷ xs, rw other refl)
]

alphanumeric_no_dash : (c : ℕ) → is_alphanumeric c ≡ true → is_dash c ≡ false
alphanumeric_no_dash c h = ground (arith, h)

trim_right-keeps_first :
    (c : ℕ) (s : Text)
    → is_alphanumeric c ≡ true
    → (ys : Text) × (trim_right is_dash (c ∷ s) ≡ c ∷ ys)
unfolding trim_right
trim_right-keeps_first c s h =
    let (ys, left) = trim_left-snoc (reverse s) c (alphanumeric_no_dash c h) in
    (
      reverse ys,
      ap (λ t. reverse (trim_left is_dash t)) (reverse-cons c s)
          ∙ ap reverse left
          ∙ reverse-append ys (c ∷ []),
    )

not_empty : (s : Text) → s ≡ [] → is_first_ok s ≡ true → ⊥
not_empty [] e h = cc
not_empty (c ∷ s) e h = cc

-- A text of label bytes that starts well is left with a good start and a good end.
pub trim_right-ends :
    (s : Text)
    → AllLabelBytes s
    → is_first_ok s ≡ true
    → (is_first_ok (trim_right is_dash s) ≡ true) × (is_last_ok (trim_right is_dash s) ≡ true)
unfolding trim_right
trim_right-ends [] h first = cc
trim_right-ends (c ∷ s) h first =
    let (ys, kept) = trim_right-keeps_first c s first in
    let starts = ap is_first_ok kept ∙ first in
    (
      starts,
      elim (trim_left-first (reverse (c ∷ s))
          (reverse-All (λ d. is_label_byte d ≡ true) (c ∷ s) h)) [
            | inl gone ↦ absurd (not_empty (trim_right is_dash (c ∷ s)) (ap reverse gone) starts)
            | inr ok ↦ is_last_ok-reverse (trim_left is_dash (reverse (c ∷ s))) ∙ ok
          ],
    )
