-- ===== src/Uploads/Saved.antt =====
-- What an app has once an upload of it is accepted.
use skifity.Prelude.{nat_eq}
use mathlib.Core.Path.{Path}
use mathlib.Core.Sum.{inl-ne-inr, inr-injective}
use skifity.Prelude.{
  leb, nat_beq, if◌then◌else◌, leb→le, ◌==◌, length, drop, filter, All, All-drop, ℕ, zero, suc, ◌≤◌,
  ◌≡◌, refl, sym, ap, subst, ◌∙◌, ◌⊎◌, inl, inr, Bool, true, false, not, ◌&&◌, Option, none, some,
  List, [], ◌∷◌, ◌++◌, arith,
}
use skifity.Prelude.Int.{ℤ, ltb_ℤ, pos, negsuc}
use skifity.Prelude.Text.{Text, text_eq, trim_suffix}
use skifity.Prelude.Tables.{head}
use skifity.Prelude.TableLaws.{All-filter, All-order_desc, All-imp, All-filter-holds, none-any}
use skifity.Uploads.Names.{no_files}
use skifity.Uploads.Archive.{Walked, inspect_archive, refused, walked}
use skifity.Uploads.Shelf.{
  StoredFile, Store, Summary, SaveError, valid_sha, valid_app_id, limits_of, extension, folder,
  set_folder, is_upload, list_uploads, keep_of, remove_files, prune_folder, put_file, Sent, kept,
  opened, save, latest, not_an_app_id, too_large, refusal,
}
use skifity.Uploads.Kept.{
  folder-set_folder, trim_suffix-extension, has_suffix-extension, Older, filter-snoc,
  list_uploads-newest, named_in, length-left-le,
}

denied : (b : Bool) → not b ≡ true → b ≡ false
denied true h = cc
denied false h = refl

granted : (b : Bool) → not b ≡ false → b ≡ true
granted true h = refl
granted false h = cc

-- What is said of the files of an app after a file is put there.
abbrev Newest : ℕ → StoredFile → List StoredFile → Type 0
Newest keep f files =
    ((rest : List StoredFile) × (list_uploads files ≡ f ∷ rest))
    × (length (list_uploads files) ≤ keep)

beyond-All :
    (P : StoredFile → Type 0) (keep : ℕ) (f : StoredFile) (rest : List StoredFile)
    → 1 ≤ keep
    → All P rest
    → All P (drop keep (f ∷ rest))
beyond-All P zero f rest le h = absurd (none_kept le)
  where
    none_kept : 1 ≤ 0 → ⊥
    none_kept k = omega (arith, k)
beyond-All P (suc n) f rest le h = All-drop P n rest h

-- The file that was put last is not among those that are removed.
newest_stays :
    (keep : ℕ) (f : StoredFile) (base : List StoredFile)
    → 1 ≤ keep
    → list_uploads (base ++ f ∷ []) ≡ f ∷ list_uploads base
    → All (λ o. (o.name == f.name) ≡ false) base
    → named_in (drop keep (list_uploads (base ++ f ∷ []))) f ≡ false
unfolding list_uploads
newest_stays keep f base le first other =
    ap (λ us. named_in (drop keep us) f) first
    ∙ none-any (λ o. o.name == f.name) (drop keep (f ∷ list_uploads base))
        (beyond-All (λ o. (o.name == f.name) ≡ false) keep f (list_uploads base) le
          (All-order_desc (λ o. (o.name == f.name) ≡ false) (λ o. o.mod_time)
            (filter is_upload base)
            (All-filter (λ o. (o.name == f.name) ≡ false) is_upload base other)))

pruned-Newest :
    (b : Bool) (keep : ℕ) (f : StoredFile) (base : List StoredFile)
    → leb (length (list_uploads (base ++ f ∷ []))) keep ≡ b
    → 1 ≤ keep
    → is_upload f ≡ true
    → All (Older f.mod_time) base
    → All (λ o. (o.name == f.name) ≡ false) base
    → Newest keep f (
        if b
        then base ++ f ∷ []
        else remove_files (drop keep (list_uploads (base ++ f ∷ []))) (base ++ f ∷ []))
unfolding remove_files
pruned-Newest true keep f base e le ok older other = (
  (list_uploads base, list_uploads-newest f base ok older),
  leb→le (length (list_uploads (base ++ f ∷ []))) keep e,
)
pruned-Newest false keep f base e le ok older other =
    let gone = drop keep (list_uploads (base ++ f ∷ [])) in
    let stays = λ (o : StoredFile). not (named_in gone o) in
    let left = filter stays base in
    (
      (
        list_uploads left,
        ap list_uploads (
              filter-snoc stays base f
                (ap not (newest_stays keep f base le (list_uploads-newest f base ok older) other)))
            ∙ list_uploads-newest f left ok (All-filter (Older f.mod_time) stays base older),
      ),
      length-left-le keep (base ++ f ∷ []),
    )

keep_of-positive :
    (keep : ℤ)
    → 1 ≤ (elim keep as (λ _. ℕ) [ negsuc _ ↦ 10 | pos n ↦ if nat_beq n 0 then 10 else n ])
keep_of-positive (negsuc n) = omega arith
keep_of-positive (pos n) = ground arith

abbrev file_of : Text → ℕ → StoredFile
file_of sum now = record { name = sum ++ extension; mod_time = now }

file_of-upload : (sum : Text) (now : ℕ) → valid_sha sum ≡ true → is_upload (file_of sum now) ≡ true
unfolding is_upload
file_of-upload sum now h =
    ap (λ b. b && valid_sha (trim_suffix (sum ++ extension) extension)) (has_suffix-extension sum)
    ∙ ap valid_sha (trim_suffix-extension sum)
    ∙ h

put-Newest :
    (keep : ℕ) (sum : Text) (now : ℕ) (files : List StoredFile)
    → 1 ≤ keep
    → valid_sha sum ≡ true
    → All (Older now) files
    → Newest keep (file_of sum now) (prune_folder keep (put_file (file_of sum now) files))
unfolding prune_folder put_file
put-Newest keep sum now files le h older =
    let f = file_of sum now in
    let other = λ (o : StoredFile). not (o.name == f.name) in
    let base = filter other files in
    pruned-Newest (leb (length (list_uploads (base ++ f ∷ []))) keep) keep f base refl le
      (file_of-upload sum now h) (All-filter (Older now) other files older)
      (All-imp (λ o. other o ≡ true) (λ o. (o.name == f.name) ≡ false) base
        (λ o. denied (o.name == f.name)) (All-filter-holds other files))

listed_first :
    (b : Bool) (files : List StoredFile) (f : StoredFile) (rest : List StoredFile)
    → b ≡ true
    → list_uploads files ≡ f ∷ rest
    → (if not b then none else elim (head (list_uploads files)) as (λ _. Option Text) [
      | none ↦ none
      | some o ↦ some (trim_suffix o.name extension)
    ])
      ≡ some (trim_suffix f.name extension)
unfolding head
listed_first true files f rest e first =
    ap
      (λ (us : List StoredFile). elim (head us) as (λ _. Option Text) [
        | none ↦ none
        | some o ↦ some (trim_suffix o.name extension)
      ])
      first
listed_first false files f rest e first = cc

-- What is said of the store after an upload.
abbrev Stored : Text → Sent → Store → Summary × Store → Type 0
Stored app sent s (summary, after) =
    (latest app after ≡ some sent.sum)
    × (length (list_uploads (folder app after.folders)) ≤ keep_of s)
    × (summary.sha256 ≡ sent.sum)

kept-Stored :
    (app : Text) (now : ℕ) (sent : Sent) (s : Store) (files : ℕ) (unpacked : ℤ)
    → valid_app_id app ≡ true
    → valid_sha sent.sum ≡ true
    → All (Older now) (folder app s.folders)
    → Stored app sent s (kept s app now sent files unpacked)
unfolding latest
kept-Stored app now sent s files unpacked id_ok sha_ok older =
    let keep = keep_of s in
    let f = file_of sent.sum now in
    let mine = prune_folder keep (put_file f (folder app s.folders)) in
    let found = folder-set_folder app mine s.folders in
    let ((rest, first), few) =
      put-Newest keep sent.sum now (folder app s.folders) (keep_of-positive s.keep) sha_ok older in
    (
      listed_first (valid_app_id app) (folder app (set_folder app mine s.folders)) f rest id_ok
            (ap list_uploads found ∙ first)
          ∙ ap some (trim_suffix-extension sent.sum),
      subst (λ fs. length (list_uploads fs) ≤ keep) (sym found) few,
      refl,
    )

not_refused :
    (e : SaveError) (s after : Store) (summary : Summary)
    → Path ((SaveError ⊎ Summary) × Store) (inl e, s) (inr summary, after)
    → ⊥
not_refused e s after summary q = inl-ne-inr (ap (λ (r : (SaveError ⊎ Summary) × Store). r.0) q)

module _ (app : Text) (now : ℕ) (sent : Sent) (s : Store) where
  counted_files :
      (b : Bool) (files : ℕ) (unpacked : ℤ) (summary : Summary) (after : Store)
      → Stored app sent s (kept s app now sent files unpacked)
      → Path
          ((SaveError ⊎ Summary) × Store)
          (if b then (inl (refusal no_files), opened app s) else (
            inr (kept s app now sent files unpacked).0,
            (kept s app now sent files unpacked).1,
          ))
          (inr summary, after)
      → Stored app sent s (summary, after)
  counted_files true files unpacked summary after h q =
      absurd (not_refused (refusal no_files) (opened app s) after summary q)
  counted_files false files unpacked summary after h q =
      let same =
        inr-injective (kept s app now sent files unpacked).0 summary
          (ap (λ (r : (SaveError ⊎ Summary) × Store). r.0) q) in
      let store = ap (λ (r : (SaveError ⊎ Summary) × Store). r.1) q in
      subst (λ t. Stored app sent s (summary, t)) store
        (subst (λ t. Stored app sent s (t, (kept s app now sent files unpacked).1)) same h)

  inspected :
      (o : Walked (Unit {0})) (summary : Summary) (after : Store)
      → ((files : ℕ) (unpacked : ℤ) → Stored app sent s (kept s app now sent files unpacked))
      → Path
          ((SaveError ⊎ Summary) × Store)
          (elim o as (λ _. (SaveError ⊎ Summary) × Store) [
            | refused kind ↦ (inl (refusal kind), opened app s)
            | walked files unpacked u ↦
                if nat_beq files 0 then (inl (refusal no_files), opened app s) else (
                  inr (kept s app now sent files unpacked).0,
                  (kept s app now sent files unpacked).1,
                )
          ])
          (inr summary, after)
      → Stored app sent s (summary, after)
  inspected (refused kind) summary after h q =
      absurd (not_refused (refusal kind) (opened app s) after summary q)
  inspected (walked files unpacked u) summary after h q =
      counted_files (nat_beq files 0) files unpacked summary after (h files unpacked) q

  checked :
      (a b : Bool) (rest : (SaveError ⊎ Summary) × Store) (summary : Summary) (after : Store)
      → (if a then (inl not_an_app_id, s) else if b then (inl too_large, opened app s) else rest)
        ≡ (inr summary, after)
      → (a ≡ false) × (rest ≡ (inr summary, after))
  checked true b rest summary after q = absurd (not_refused not_an_app_id s after summary q)
  checked false true rest summary after q =
      absurd (not_refused too_large (opened app s) after summary q)
  checked false false rest summary after q = (refl, q)

  -- Where an upload whose hash has the shape of one is accepted, and every file of the app is
  -- older, it is then the latest of the app, at most as many uploads are listed as the store
  -- keeps, and the summary names its hash.
  pub save-Stored :
      (summary : Summary) (after : Store)
      → valid_sha sent.sum ≡ true
      → All (Older now) (folder app s.folders)
      → save app now sent s ≡ (inr summary, after)
      → (latest app after ≡ some sent.sum)
        × (length (list_uploads (folder app after.folders)) ≤ keep_of s)
        × (summary.sha256 ≡ sent.sum)
  unfolding save
  save-Stored summary after sha_ok older q =
      let (id_ok, rest) =
        checked (not (valid_app_id app)) (ltb_ℤ (limits_of s).compressed (pos sent.written)) _
          summary after q in
      inspected (inspect_archive (limits_of s) sent.archive) summary after
        (λ files unpacked.
          kept-Stored app now sent s files unpacked (granted (valid_app_id app) id_ok) sha_ok older)
        rest
