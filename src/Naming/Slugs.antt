-- ===== src/Naming/Slugs.antt =====
-- The names that are built are names that a cluster accepts.
use skifity.Prelude.{
  ltb, leb, if◌then◌else◌, Bool-cases, length, take, length-append, length-take, All, All-append, ℕ,
  zero, suc, ◌+◌, ◌-◌, ◌≤◌, ◌≡◌, refl, sym, ap, subst, ◌∙◌, ◌⊎◌, inl, inr, Bool, true, false, not,
  ◌&&◌, ◌||◌, [], ◌∷◌, ◌++◌, arith,
}
use skifity.Prelude.Text.{Text, codes, is_empty, trim_left, trim_right, trim_space, to_lower}
use skifity.Prelude.TableLaws.{All-take, All-imp}
use skifity.Naming.{
  max_label_length, is_alphanumeric, is_dash, is_label_byte, replace_byte, replace_bytes, dash_runs,
  slug_of, starts_well, short_hash, shortened, slugify,
}
use skifity.Naming.Labels.{AllLabelBytes, is_first_ok, is_last_ok, is_last_ok-append, LabelParts}
use skifity.Naming.Cuts.{
  trim_left-All, trim_right-All, trim_right-length-le, trim_left-first, trim_right-ends,
}

-- What a hash is, in base32: 52 letters and digits.
pub record IsHash (hash : Text → Text) : Type 0 where
  pub alphanumeric : (t : Text) → All (λ c. is_alphanumeric c ≡ true) (hash t)
  pub length_52 : (t : Text) → length (hash t) ≡ 52

dash_runs-bytes : (reading : Bool) (s : Text) → AllLabelBytes (dash_runs reading s)
unfolding dash_runs
dash_runs-bytes reading [] = tt
dash_runs-bytes reading (c ∷ s) =
    go (is_alphanumeric c) reading refl (dash_runs-bytes false s) (dash_runs-bytes true s)
  where
    label : (b : Bool) → is_alphanumeric c ≡ true → (b || is_alphanumeric c) ≡ true
    label true h = refl
    label false h = h

    go :
        (a b : Bool)
        → is_alphanumeric c ≡ a
        → AllLabelBytes (dash_runs false s)
        → AllLabelBytes (dash_runs true s)
        → AllLabelBytes (
            if a
            then c ∷ dash_runs false s
            else if b
            then dash_runs true s
            else b'-' ∷ dash_runs true s)
    go true b e h k = (label (is_dash c) e, h)
    go false true e h k = k
    go false false e h k = (refl, k)

-- A text that is empty or starts and ends well.
abbrev Trimmed : Text → Type 0
Trimmed s = (s ≡ []) ⊎ ((is_first_ok s ≡ true) × (is_last_ok s ≡ true))

trimmed : (s : Text) → AllLabelBytes s → Trimmed (trim_right is_dash (trim_left is_dash s))
unfolding trim_right
trimmed s h = elim (trim_left-first s h) [
  | inl gone ↦ inl (ap (trim_right is_dash) gone)
  | inr first ↦ inr (
      trim_right-ends (trim_left is_dash s)
        (trim_left-All (λ c. is_label_byte c ≡ true) is_dash s h) first)
]

slug_of-bytes : (input : Text) → AllLabelBytes (slug_of input)
unfolding slug_of
slug_of-bytes input =
    trim_right-All (λ c. is_label_byte c ≡ true) is_dash _
      (trim_left-All (λ c. is_label_byte c ≡ true) is_dash _
        (dash_runs-bytes false (replace_bytes replace_byte (to_lower (trim_space input)))))

slug_of-Trimmed : (input : Text) → Trimmed (slug_of input)
unfolding slug_of
slug_of-Trimmed input =
    trimmed _ (dash_runs-bytes false (replace_bytes replace_byte (to_lower (trim_space input))))

alphanumeric_label : (c : ℕ) → is_alphanumeric c ≡ true → is_label_byte c ≡ true
alphanumeric_label c h = go (is_dash c) h
  where
    go : (b : Bool) → is_alphanumeric c ≡ true → (b || is_alphanumeric c) ≡ true
    go true k = refl
    go false k = k

alphanumeric-last :
    (s : Text) → All (λ c. is_alphanumeric c ≡ true) s → 1 ≤ length s → is_last_ok s ≡ true
unfolding is_last_ok
alphanumeric-last [] h le = absurd (none_left le)
  where
    none_left : 1 ≤ 0 → ⊥
    none_left k = omega (arith, k)
alphanumeric-last (c ∷ []) h le = h.0
alphanumeric-last (c ∷ d ∷ s) h le = alphanumeric-last (d ∷ s) h.1 (one_more (length s))
  where
    one_more : (n : ℕ) → 1 ≤ suc n
    one_more n = omega arith

pub last_after : (xs ys : Text) → is_last_ok ys ≡ true → is_last_ok (xs ++ ys) ≡ true
unfolding is_last_ok
last_after xs [] h = cc
last_after xs (d ∷ ys) h = is_last_ok-append xs ys d ∙ h

pub first_before : (xs ys : Text) → is_first_ok xs ≡ true → is_first_ok (xs ++ ys) ≡ true
first_before [] ys h = cc
first_before (c ∷ xs) ys h = h

-- Two texts of label bytes, the first with a good start and the second with a good end.
pub glued :
    (a b : Text)
    → AllLabelBytes a
    → is_first_ok a ≡ true
    → AllLabelBytes b
    → is_last_ok b ≡ true
    → length a + suc (length b) ≤ max_label_length
    → LabelParts (a ++ b'-' ∷ b)
glued a b bytes_a first bytes_b last short = record {
  bytes = All-append (λ c. is_label_byte c ≡ true) a (b'-' ∷ b) bytes_a (refl, bytes_b);
  first_ok = first_before a (b'-' ∷ b) first;
  last_ok = last_after a (b'-' ∷ b) (last_after (b'-' ∷ []) b last);
  short = subst (λ n. n ≤ max_label_length) (sym (length-append a (b'-' ∷ b))) short;
}

take-first : (n : ℕ) (s : Text) → 1 ≤ n → is_first_ok s ≡ true → is_first_ok (take n s) ≡ true
take-first zero s le h = absurd (none_left le)
  where
    none_left : 1 ≤ 0 → ⊥
    none_left k = omega (arith, k)
take-first (suc n) [] le h = cc
take-first (suc n) (c ∷ s) le h = h

-- A name that was cut and has its dashes trimmed, with something after a dash.
pub cut_glued :
    (n : ℕ) (s b : Text)
    → 1 ≤ n
    → AllLabelBytes s
    → is_first_ok s ≡ true
    → AllLabelBytes b
    → is_last_ok b ≡ true
    → n + suc (length b) ≤ max_label_length
    → LabelParts (trim_right is_dash (take n s) ++ b'-' ∷ b)
cut_glued n s b le bytes first bytes_b last short =
    let bytes_cut = All-take (λ c. is_label_byte c ≡ true) n s bytes in
    let ends = trim_right-ends (take n s) bytes_cut (take-first n s le first) in
    glued (trim_right is_dash (take n s)) b
      (trim_right-All (λ c. is_label_byte c ≡ true) is_dash (take n s) bytes_cut) ends.0 bytes_b
      last (omega (arith, short, trim_right-length-le is_dash (take n s), length-take n s))

module _ (hash : Text → Text) (h : IsHash hash) where
  pub short_hash-alphanumeric :
      (t : Text) (n : ℕ) → All (λ c. is_alphanumeric c ≡ true) (short_hash hash t n)
  short_hash-alphanumeric t n =
      All-take (λ c. is_alphanumeric c ≡ true) n (hash t) (h.alphanumeric t)

  pub short_hash-bytes : (t : Text) (n : ℕ) → AllLabelBytes (short_hash hash t n)
  short_hash-bytes t n =
      All-imp (λ c. is_alphanumeric c ≡ true) (λ c. is_label_byte c ≡ true) (short_hash hash t n)
        alphanumeric_label (short_hash-alphanumeric t n)

  pub length-short_hash : (t : Text) (n : ℕ) → n ≤ 52 → length (short_hash hash t n) ≡ n
  length-short_hash t n le = omega (arith, length-take n (hash t), h.length_52 t, le)

  pub short_hash-last :
      (t : Text) (n : ℕ) → 1 ≤ n → n ≤ 52 → is_last_ok (short_hash hash t n) ≡ true
  short_hash-last t n one le =
      alphanumeric-last (short_hash hash t n) (short_hash-alphanumeric t n)
        (omega (arith, one, length-short_hash t n le))

  hashed_end :
      (a : Text) (t : Text) (n : ℕ)
      → AllLabelBytes a
      → is_first_ok a ≡ true
      → 1 ≤ n
      → n ≤ 52
      → length a + suc n ≤ max_label_length
      → LabelParts (a ++ b'-' ∷ short_hash hash t n)
  hashed_end a t n bytes first one le short =
      glued a (short_hash hash t n) bytes first (short_hash-bytes t n) (short_hash-last t n one le)
        (omega (arith, short, length-short_hash t n le))

  starts : (s : Text) → is_first_ok s ≡ true → starts_well s ≡ true
  starts [] e = cc
  starts (c ∷ s) e = go (is_alphanumeric c) (leb b'A' c && leb c b'Z') e
    where
      go : (a b : Bool) → a ≡ true → (a || b) ≡ true
      go true b k = refl
      go false b k = cc

  shortened-parts :
      (input slug : Text)
      → AllLabelBytes slug
      → is_first_ok slug ≡ true
      → is_last_ok slug ≡ true
      → LabelParts (shortened hash input slug)
  shortened-parts input slug bytes first last =
      elim (Bool-cases (ltb max_label_length (length slug))) [
        | inl long ↦ rw long (
            cut_glued (max_label_length - 9) slug (short_hash hash input 8) (omega arith) bytes
              first (short_hash-bytes input 8) (short_hash-last input 8 (omega arith) (omega arith))
              (omega (arith, length-short_hash input 8 (omega arith))))
        | inr fits ↦ rw fits (record {
          bytes = bytes;
          first_ok = first;
          last_ok = last;
          short = ground (arith, fits);
        })
      ]

  chosen :
      (b : Bool) (e name : Text) → b ≡ false → LabelParts name → LabelParts (if b then e else name)
  chosen true e name k p = cc
  chosen false e name k p = p

  pub slugify-parts : (input : Text) → LabelParts (slugify hash input)
  unfolding slugify
  slugify-parts input = elim (slug_of-Trimmed input) [
    | inl none_left ↦ rw none_left (
        glued (codes "x") (short_hash hash input 8) (refl, tt) refl (short_hash-bytes input 8)
          (short_hash-last input 8 (omega arith) (omega arith))
          (omega (arith, length-short_hash input 8 (omega arith))))
    | inr (first, last) ↦
        let p = shortened-parts input (slug_of input) (slug_of-bytes input) first last in
        chosen (is_empty (slug_of input)) (codes "x-" ++ short_hash hash input 8) _
          (filled (slug_of input) first)
          (chosen (not (starts_well (shortened hash input (slug_of input)))) _
            (shortened hash input (slug_of input))
            (ap not (starts (shortened hash input (slug_of input)) p.first_ok)) p)
  ]
    where
      filled : (s : Text) → is_first_ok s ≡ true → is_empty s ≡ false
      filled [] e = cc
      filled (c ∷ s) e = refl
