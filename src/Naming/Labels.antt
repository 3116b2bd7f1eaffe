-- ===== src/Naming/Labels.antt =====
-- Texts that are labels, put together and cut.
use skifity.Prelude.{
  leb, leb→le, le→leb, length, All, ℕ, ◌≤◌, ◌≡◌, refl, ◌∙◌, Bool, true, false, not, ◌&&◌, ◌||◌, [],
  ◌∷◌, ◌++◌,
}
use skifity.Prelude.Text.{Text, is_empty}
use skifity.Naming.{
  max_label_length, is_alphanumeric, is_dash, is_label_byte, matches_tail, matches_label,
  valid_label,
}

abbrev pub AllLabelBytes : Text → Type 0
AllLabelBytes s = All (λ c. is_label_byte c ≡ true) s

-- The first byte, and the last, is a letter or a digit.
abbrev pub is_first_ok : Text → Bool
is_first_ok [] = false
is_first_ok (c ∷ s) = is_alphanumeric c

unfoldable pub is_last_ok : Text → Bool
is_last_ok [] = false
is_last_ok (c ∷ []) = is_alphanumeric c
is_last_ok (c ∷ d ∷ s) = is_last_ok (d ∷ s)

pub is_last_ok-append : (xs ys : Text) (d : ℕ) → is_last_ok (xs ++ d ∷ ys) ≡ is_last_ok (d ∷ ys)
unfolding is_last_ok
is_last_ok-append [] ys d = refl
is_last_ok-append (c ∷ []) ys d = refl
is_last_ok-append (c ∷ e ∷ xs) ys d = is_last_ok-append (e ∷ xs) ys d

alphanumeric_is_label : (c : ℕ) → is_alphanumeric c ≡ true → is_label_byte c ≡ true
alphanumeric_is_label c h = go (is_dash c) h
  where
    go : (b : Bool) → is_alphanumeric c ≡ true → (b || is_alphanumeric c) ≡ true
    go true k = refl
    go false k = k

matches_tail-built :
    (c : ℕ) (s : Text)
    → AllLabelBytes (c ∷ s)
    → is_last_ok (c ∷ s) ≡ true
    → matches_tail (c ∷ s) ≡ true
unfolding matches_tail is_last_ok
matches_tail-built c [] h last = last
matches_tail-built c (d ∷ s) h last = rw h.0 (matches_tail-built d s h.1 last)

pub matches_label-built :
    (s : Text)
    → AllLabelBytes s
    → is_first_ok s ≡ true
    → is_last_ok s ≡ true
    → matches_label s ≡ true
unfolding matches_label matches_tail is_last_ok
matches_label-built [] h first last = cc
matches_label-built (c ∷ []) h first last = rw first refl
matches_label-built (c ∷ d ∷ s) h first last =
    rw first (matches_tail-built d s h.1 (last_of_rest last))
  where
    last_of_rest : is_last_ok (c ∷ d ∷ s) ≡ true → is_last_ok (d ∷ s) ≡ true
    last_of_rest k = is_last_ok-append (c ∷ []) s d ∙ k

-- A valid label, taken apart.
pub record LabelParts (s : Text) : Type 0 where
  pub bytes : AllLabelBytes s
  pub first_ok : is_first_ok s ≡ true
  pub last_ok : is_last_ok s ≡ true
  pub short : length s ≤ max_label_length

both : (a b : Bool) → (a && b) ≡ true → (a ≡ true) × (b ≡ true)
both true b h = (refl, h)
both false b h = cc

tail-parts :
    (c : ℕ) (s : Text)
    → matches_tail (c ∷ s) ≡ true
    → AllLabelBytes (c ∷ s) × (is_last_ok (c ∷ s) ≡ true)
unfolding matches_tail is_last_ok
tail-parts c [] h = ((alphanumeric_is_label c h, tt), h)
tail-parts c (d ∷ s) h =
    let (here, rest) = both (is_label_byte c) (matches_tail (d ∷ s)) h in
    let (bytes, last) = tail-parts d s rest in ((here, bytes), last)

pub matches_label-parts :
    (s : Text)
    → matches_label s ≡ true
    → AllLabelBytes s × (is_first_ok s ≡ true) × (is_last_ok s ≡ true)
unfolding matches_label matches_tail is_last_ok
matches_label-parts [] h = cc
matches_label-parts (c ∷ []) h =
    let (here, rest) = both (is_alphanumeric c) true h in
    ((alphanumeric_is_label c here, tt), here, here)
matches_label-parts (c ∷ d ∷ s) h =
    let (here, rest) = both (is_alphanumeric c) (matches_tail (d ∷ s)) h in
    let (bytes, last) = tail-parts d s rest in
    ((alphanumeric_is_label c here, bytes), here, is_last_ok-append (c ∷ []) s d ∙ last)

pub valid_label-LabelParts : (s : Text) → valid_label s ≡ true → LabelParts s
unfolding valid_label
valid_label-LabelParts s h =
    let (filled, rest) =
      both (not (is_empty s)) (leb (length s) max_label_length && matches_label s) h in
    let (short, match) = both (leb (length s) max_label_length) (matches_label s) rest in
    let (bytes, first, last) = matches_label-parts s match in
    record {
      bytes = bytes;
      first_ok = first;
      last_ok = last;
      short = leb→le (length s) max_label_length short;
    }

first-filled : (s : Text) → is_first_ok s ≡ true → not (is_empty s) ≡ true
first-filled [] h = cc
first-filled (c ∷ s) h = refl

pub LabelParts-valid_label : (s : Text) → LabelParts s → valid_label s ≡ true
unfolding valid_label
LabelParts-valid_label s p = rw (first-filled s p.first_ok) (
    rw (le→leb (length s) max_label_length p.short)
      (matches_label-built s p.bytes p.first_ok p.last_ok))
