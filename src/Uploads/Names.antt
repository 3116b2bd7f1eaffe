-- ===== src/Uploads/Names.antt =====
-- internal/upload/upload.go: the names that an archive's entries may have.
use skifity.Prelude.{
  leb, nat_beq, if◌then◌else◌, nat_eq, ◌==◌, any, ℕ, ◌≡◌, refl, Bool, false, not, ◌&&◌, ◌||◌,
  Option, none, some, List, [], ◌∷◌, map, reverse,
}
use skifity.Prelude.Text.{
  Text, codes, text_eq, is_empty, has_prefix, trim_suffix, contains_byte, trim_right, fields_func,
}

pub data RefusalKind : Type 0 where
  not_an_archive unsafe_entry secrets_file too_many_files unpacks_large no_files : RefusalKind

-- The separators of a path, here and on Windows.
abbrev pub is_separator : ℕ → Bool
is_separator c = nat_beq c b'/' || nat_beq c 92

abbrev pub is_letter : ℕ → Bool
is_letter c = leb b'A' c && leb c b'Z' || leb b'a' c && leb c b'z'

unfoldable pub has_drive_letter : Text → Bool
has_drive_letter (c ∷ d ∷ s) = is_letter c && nat_beq d b':'
has_drive_letter _ = false

abbrev pub parent : Text
parent = codes ".."

-- What is after the last slash.
unfoldable pub after_slash : Text → Text → Text
after_slash part [] = reverse part
after_slash part (c ∷ s) = if nat_beq c b'/' then after_slash [] s else after_slash (c ∷ part) s

abbrev pub is_path_slash : ℕ → Bool
is_path_slash c = nat_beq c b'/'

-- `path.Base`.
unfoldable pub path_base : Text → Text
unfolding trim_right after_slash
path_base name =
    if is_empty name
    then codes "."
    else let base = after_slash [] (trim_right is_path_slash name) in
      if is_empty base then codes "/" else base

abbrev pub env_templates : List Text
env_templates =
    codes ".env.example" ∷ codes ".env.sample" ∷ codes ".env.template" ∷ codes ".env.dist" ∷ []

unfoldable pub is_secrets_file : Text → Bool
unfolding has_prefix
is_secrets_file base =
    if not (base == codes ".env") && not (has_prefix base (codes ".env."))
    then false
    else not (any (λ name. base == name) env_templates)

unfoldable pub climbs : Text → Bool
unfolding fields_func
climbs name = any (λ part. part == parent) (fields_func name is_separator)

-- `none` is a name that is accepted.
unfoldable pub check_name : Text → Option RefusalKind
unfolding contains_byte has_prefix has_drive_letter climbs trim_suffix path_base is_secrets_file
check_name name =
    if is_empty name
    then some unsafe_entry
    else if contains_byte name 0
    then some unsafe_entry
    else if has_prefix name (codes "/") || (has_prefix name (92 ∷ []) || has_drive_letter name)
    then some unsafe_entry
    else if climbs name
    then some unsafe_entry
    else if is_secrets_file (path_base (trim_suffix name (codes "/")))
    then some secrets_file
    else none

check_name_examples :
    map check_name (
      codes "src/main.go"
      ∷ codes "a/../../b"
      ∷ codes "c:x"
      ∷ codes "web/.env"
      ∷ codes ".env.dist/"
      ∷ [])
    ≡ none ∷ some unsafe_entry ∷ some unsafe_entry ∷ some secrets_file ∷ none ∷ []
unfolding check_name
check_name_examples = refl
