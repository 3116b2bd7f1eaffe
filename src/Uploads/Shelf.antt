-- ===== src/Uploads/Shelf.antt =====
-- internal/upload/upload.go: the uploads that an app keeps, newest first.
use skifity.Prelude.{
  leb, nat_beq, if◌then◌else◌, nat_eq, ◌==◌, length, drop, any, all, filter, ℕ, ◌⊎◌, inl, inr, Bool,
  true, false, not, ◌&&◌, ◌||◌, Option, none, some, List, [], ◌∷◌, ◌++◌, map,
}
use skifity.Prelude.Int.{ℤ, ltb_ℤ, pos, negsuc}
use skifity.Prelude.Text.{Text, codes, text_eq, has_suffix, trim_suffix}
use skifity.Prelude.Tables.{order_desc, head}
use skifity.Uploads.Names.{RefusalKind, is_letter, no_files}
use skifity.Uploads.Archive.{Limits, default_limits, Archive, inspect_archive, refused, walked}

-- A file of a folder and when it was written.
pub record StoredFile : Type 0 where
  pub name : Text
  pub mod_time : ℕ

pub record Store : Type 0 where
  pub limits : Option Limits
  pub keep : ℤ
  pub folders : List (Text × List StoredFile)

pub record Summary : Type 0 where
  pub sha256 : Text
  pub size : ℕ
  pub files : ℕ
  pub unpacked : ℤ

pub data SaveError : Type 0 where
  not_an_app_id too_large : SaveError
  refusal : RefusalKind → SaveError

abbrev pub is_hex : ℕ → Bool
is_hex c = leb b'a' c && leb c b'f' || leb b'0' c && leb c b'9'

unfoldable pub valid_sha : Text → Bool
valid_sha sha = nat_beq (length sha) 64 && all is_hex sha

abbrev pub is_id_byte : ℕ → Bool
is_id_byte c = is_letter c || (leb b'0' c && leb c b'9' || (nat_beq c b'_' || nat_beq c b'-'))

unfoldable pub valid_app_id : Text → Bool
valid_app_id id = leb 1 (length id) && (leb (length id) 64 && all is_id_byte id)

-- Limits that are not set are the defaults.
abbrev pub limits_of : Store → Limits
limits_of s = elim s.limits [ none ↦ default_limits | some l ↦ l ]

abbrev pub extension : Text
extension = codes ".tar.gz"

unfoldable pub folder : Text → List (Text × List StoredFile) → List StoredFile
folder app [] = []
folder app ((a, files) ∷ rest) = if a == app then files else folder app rest

unfoldable pub set_folder :
    Text → List StoredFile → List (Text × List StoredFile) → List (Text × List StoredFile)
set_folder app files [] = (app, files) ∷ []
set_folder app files ((a, old) ∷ rest) =
    let others = set_folder app files rest in
    if a == app then (a, files) ∷ rest else (a, old) ∷ others

unfoldable pub is_upload : StoredFile → Bool
unfolding has_suffix trim_suffix valid_sha
is_upload f = has_suffix f.name extension && valid_sha (trim_suffix f.name extension)

-- `listUploads`: newest first.
unfoldable pub list_uploads : List StoredFile → List StoredFile
unfolding is_upload order_desc
list_uploads files = order_desc (λ f. f.mod_time) (filter is_upload files)

abbrev pub keep_of : Store → ℕ
keep_of s = elim s.keep [ negsuc _ ↦ 10 | pos n ↦ if nat_beq n 0 then 10 else n ]

-- The files whose name is not among those removed.
unfoldable pub remove_files : List StoredFile → List StoredFile → List StoredFile
remove_files old files = filter (λ f. not (any (λ o. o.name == f.name) old)) files

unfoldable pub prune_folder : ℕ → List StoredFile → List StoredFile
unfolding list_uploads remove_files
prune_folder keep files =
    let uploads = list_uploads files in
    if leb (length uploads) keep then files else remove_files (drop keep uploads) files

-- A rename onto a name: the file of that name is replaced.
unfoldable pub put_file : StoredFile → List StoredFile → List StoredFile
put_file f files = filter (λ o. not (o.name == f.name)) files ++ f ∷ []

-- What is sent: its bytes are counted, hashed by a function of the library, and read as an archive.
pub record Sent : Type 0 where
  pub written : ℕ
  pub sum : Text
  pub archive : Archive

abbrev pub kept : Store → Text → ℕ → Sent → ℕ → ℤ → Summary × Store
kept s app now sent files unpacked = (
  record { sha256 = sent.sum; size = sent.written; files = files; unpacked = unpacked },
  record s {
    folders =
        set_folder app
          (prune_folder (keep_of s) (
            put_file (record { name = sent.sum ++ extension; mod_time = now })
              (folder app s.folders)))
          s.folders;
  },
)

-- The folder of an app is made before anything is read.
abbrev pub opened : Text → Store → Store
opened app s = record s { folders = set_folder app (folder app s.folders) s.folders }

-- A refused upload leaves the files as they were.
unfoldable pub save : Text → ℕ → Sent → Store → (SaveError ⊎ Summary) × Store
unfolding valid_app_id inspect_archive
save app now sent s =
    if not (valid_app_id app)
    then (inl not_an_app_id, s)
    else if ltb_ℤ (limits_of s).compressed (pos sent.written)
    then (inl too_large, opened app s)
    else elim (inspect_archive (limits_of s) sent.archive) [
      | refused kind ↦ (inl (refusal kind), opened app s)
      | walked files unpacked u ↦
          let (summary, after) = kept s app now sent files unpacked in
          if nat_beq files 0 then (inl (refusal no_files), opened app s) else (inr summary, after)
    ]

unfoldable pub has_upload : Text → Text → Store → Bool
unfolding valid_sha valid_app_id folder
has_upload app sha s =
    if not (valid_sha sha)
    then false
    else if not (valid_app_id app)
    then false
    else any (λ f. f.name == sha ++ extension) (folder app s.folders)

unfoldable pub latest : Text → Store → Option Text
unfolding valid_app_id list_uploads folder head trim_suffix
latest app s =
    if not (valid_app_id app) then none else elim (head (list_uploads (folder app s.folders))) [
      | none ↦ none
      | some f ↦ some (trim_suffix f.name extension)
    ]

unfoldable pub remove_app : Text → Store → Bool × Store
unfolding valid_app_id
remove_app app s =
    if not (valid_app_id app)
    then (false, s)
    else (true, record s { folders = filter (λ entry. not (entry.0 == app)) s.folders })

unfoldable pub app_ids : Store → List Text
unfolding valid_app_id
app_ids s = filter valid_app_id (map (λ entry. entry.0) s.folders)
