-- ===== src/Uploads/Kept.antt =====
-- An upload that is accepted is the newest of its app, and only so many are kept.
use skifity.Prelude.{nat_eq}
use mathlib.Core.List.{reverse-append, reverse-reverse}
use skifity.Prelude.{
  if◌then◌else◌, lt→ltb, Bool-cases, ◌==◌, list_beq_iff, length, drop, any, filter, All, ℕ, zero,
  suc, ◌≤◌, ◌<◌, ◌≡◌, refl, sym, ap, subst, ◌∙◌, inl, inr, Bool, true, false, not, ◌&&◌, ◌||◌, List,
  [], ◌∷◌, ◌++◌, reverse, arith,
}
use skifity.Prelude.Text.{Text, text_eq, has_prefix, has_suffix, trim_suffix}
use skifity.Prelude.Tables.{count, insert_desc, order_desc}
use skifity.Prelude.TableLaws.{filter_hit, filter_miss, All-filter, All-of}
use skifity.Prelude.CountLaws.{count-order_desc, count-filter, count_same, count_none}
use skifity.Uploads.Shelf.{
  StoredFile, extension, folder, set_folder, is_upload, list_uploads, remove_files,
}

pub folder-set_folder :
    (app : Text) (files : List StoredFile) (folders : List (Text × List StoredFile))
    → folder app (set_folder app files folders) ≡ files
unfolding folder set_folder
folder-set_folder app files [] = rw ((list_beq_iff app app).1 refl) refl
folder-set_folder app files ((a, old) ∷ rest) = elim (Bool-cases (a == app)) [
  | inl same ↦ rw same (rw same refl)
  | inr other ↦ rw other (rw other (folder-set_folder app files rest))
]

pub trim_suffix-extension : (sum : Text) → trim_suffix (sum ++ extension) extension ≡ sum
unfolding trim_suffix has_prefix
trim_suffix-extension sum =
    ap (λ r. if has_prefix r (reverse extension) then reverse (drop 7 r) else sum ++ extension)
      (reverse-append sum extension)
    ∙ reverse-reverse sum

pub has_suffix-extension : (sum : Text) → has_suffix (sum ++ extension) extension ≡ true
unfolding has_suffix has_prefix
has_suffix-extension sum = ap (λ r. has_prefix r (reverse extension)) (reverse-append sum extension)

-- A file that is written last is the first that is listed.
abbrev pub Older : ℕ → StoredFile → Type 0
Older now f = f.mod_time < now

insert_last :
    (x f : StoredFile) (ys : List StoredFile)
    → x.mod_time < f.mod_time
    → insert_desc (λ o. o.mod_time) x (f ∷ ys) ≡ f ∷ insert_desc (λ o. o.mod_time) x ys
unfolding insert_desc
insert_last x f ys h = rw (lt→ltb x.mod_time f.mod_time h) refl

order_desc-newest :
    (f : StoredFile) (xs : List StoredFile)
    → All (Older f.mod_time) xs
    → order_desc (λ o. o.mod_time) (xs ++ f ∷ []) ≡ f ∷ order_desc (λ o. o.mod_time) xs
unfolding order_desc insert_desc
order_desc-newest f [] h = refl
order_desc-newest f (x ∷ xs) h =
    ap (insert_desc (λ o. o.mod_time) x) (order_desc-newest f xs h.1)
    ∙ insert_last x f (order_desc (λ o. o.mod_time) xs) h.0

pub filter-snoc :
    (p : StoredFile → Bool) (xs : List StoredFile) (f : StoredFile)
    → p f ≡ true
    → filter p (xs ++ f ∷ []) ≡ filter p xs ++ f ∷ []
filter-snoc p [] f h = filter_hit p f [] h
filter-snoc p (x ∷ xs) f h = elim (Bool-cases (p x)) [
  | inl hit ↦
      filter_hit p x (xs ++ f ∷ []) hit
      ∙ ap (λ rest. x ∷ rest) (filter-snoc p xs f h)
      ∙ ap (λ rest. rest ++ f ∷ []) (sym (filter_hit p x xs hit))
  | inr miss ↦
      filter_miss p x (xs ++ f ∷ []) miss
      ∙ filter-snoc p xs f h
      ∙ ap (λ rest. rest ++ f ∷ []) (sym (filter_miss p x xs miss))
]

pub list_uploads-newest :
    (f : StoredFile) (xs : List StoredFile)
    → is_upload f ≡ true
    → All (Older f.mod_time) xs
    → list_uploads (xs ++ f ∷ []) ≡ f ∷ list_uploads xs
unfolding list_uploads
list_uploads-newest f xs h older =
    ap (order_desc (λ o. o.mod_time)) (filter-snoc is_upload xs f h)
    ∙ order_desc-newest f (filter is_upload xs) (All-filter (Older f.mod_time) is_upload xs older)

abbrev pub named_in : List StoredFile → StoredFile → Bool
named_in old f = any (λ o. o.name == f.name) old

-- Of a list and what is beyond its first `keep`, no more than `keep` are not named beyond.
own_name : (x : StoredFile) (xs : List StoredFile) → named_in (x ∷ xs) x ≡ true
own_name x xs = rw ((list_beq_iff x.name x.name).1 refl) refl

count_all : (p : StoredFile → Bool) (xs : List StoredFile) → count p xs ≤ length xs
unfolding count
count_all p [] = omega arith
count_all p (x ∷ xs) = ground (arith, count_all p xs)

not_named_le :
    (n : ℕ) (all_files beyond : List StoredFile)
    → All (λ x. not (named_in beyond x) ≡ false) (drop n all_files)
    → count (λ x. not (named_in beyond x)) all_files ≤ n
unfolding count
not_named_le zero xs beyond h = ground (arith, count_none (λ x. not (named_in beyond x)) xs h)
not_named_le (suc n) [] beyond h = omega arith
not_named_le (suc n) (x ∷ xs) beyond h = ground (arith, not_named_le n xs beyond h)

beyond-named : (xs : List StoredFile) → All (λ x. not (named_in xs x) ≡ false) xs
beyond-named xs = go xs (λ x h. h)
  where
    or_left : (a b : Bool) → b ≡ true → (a || b) ≡ true
    or_left true b h = refl
    or_left false b h = h

    go :
        (ys : List StoredFile)
        → ((x : StoredFile) → named_in ys x ≡ true → named_in xs x ≡ true)
        → All (λ x. not (named_in xs x) ≡ false) ys
    go [] f = tt
    go (y ∷ ys) f = (
      ap not (f y (own_name y ys)),
      go ys (λ x h. f x (or_left (y.name == x.name) (named_in ys x) h)),
    )

length-count : (xs : List StoredFile) → length xs ≡ count (λ x. true) xs
unfolding count
length-count [] = refl
length-count (x ∷ xs) = ap suc (length-count xs)

-- Of what is left after the rest is removed, no more than `keep` are uploads.
pub length-left-le :
    (keep : ℕ) (files : List StoredFile)
    → length (list_uploads (remove_files (drop keep (list_uploads files)) files)) ≤ keep
unfolding list_uploads remove_files
length-left-le keep files =
    let key = λ (o : StoredFile). o.mod_time in
    let uploads = order_desc key (filter is_upload files) in
    let stays = λ (f : StoredFile). not (named_in (drop keep uploads) f) in
    subst (λ n. n ≤ keep)
      (sym (
        length-count (order_desc key (filter is_upload (filter stays files)))
        ∙ count-order_desc (λ x. true) key (filter is_upload (filter stays files))
        ∙ count-filter (λ x. true) is_upload (filter stays files)
        ∙ count-filter (λ x. is_upload x && true) stays files
        ∙ count_same (λ x. stays x && (is_upload x && true)) (λ x. is_upload x && stays x) files
            (All-of (λ x. (stays x && (is_upload x && true)) ≡ (is_upload x && stays x)) files
              (λ x. swap (stays x) (is_upload x)))
        ∙ sym (count-filter stays is_upload files)
        ∙ sym (count-order_desc stays key (filter is_upload files))))
      (not_named_le keep uploads (drop keep uploads) (beyond-named (drop keep uploads)))
  where
    swap : (a b : Bool) → (a && (b && true)) ≡ (b && a)
    swap true true = refl
    swap true false = refl
    swap false true = refl
    swap false false = refl
