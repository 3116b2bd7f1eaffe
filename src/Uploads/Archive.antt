-- ===== src/Uploads/Archive.antt =====
-- internal/upload/upload.go: reading an archive from start to end.
use skifity.Prelude.{
  if◌then◌else◌, nat_eq, ◌==◌, any, ℕ, suc, ◌+◌, ◌⊎◌, inl, inr, Bool, not, ◌||◌, Option, none, some,
  List, [], ◌∷◌, ◌++◌,
}
use skifity.Prelude.Int.{ℤ, ltb_ℤ, pos, negsuc}
use skifity.Prelude.Text.{text_ltb, Text, codes, text_eq, trim_prefix}
use skifity.Cron.Number.{add_int}
use skifity.Uploads.Names.{
  RefusalKind, check_name, not_an_archive, unsafe_entry, too_many_files, unpacks_large,
}

pub record Limits : Type 0 where
  pub compressed : ℤ
  pub unpacked : ℤ
  pub entries : ℤ

abbrev pub default_limits : Limits
default_limits = record {
  compressed = pos 104857600;
  unpacked = pos 1073741824;
  entries = pos 50000;
}

pub data Typeflag : Type 0 where
  regular directory symlink link x_global_header x_header other_type : Typeflag

-- An entry as the tar reader gives it. The body is `none` where reading it fails.
pub record Header : Type 0 where
  pub name : Text
  pub typeflag : Typeflag
  pub size : ℤ
  pub body : Option Text

-- What a gzipped tar is read as: nothing, or the entries, and whether they end as they should.
pub data Archive : Type 0 where
  not_gzipped : Archive
  entries_of : List Header → Bool → Archive

-- A refusal with its kind, and what was counted.
pub data Walked {ℓ} (V : Type ℓ) : Type ℓ where
  refused : RefusalKind → Walked V
  walked : ℕ → ℤ → V → Walked V

module _ {ℓ} {V : Type ℓ} where
  -- A regular file of a size: it is counted, its size is added in 64 bits, and `visit` is called,
  -- whose error is `none`.
  unfoldable pub regular_turn :
      ℤ → Limits → (V → Header → Option V) → ℤ → V → Header → RefusalKind ⊎ (ℕ × ℤ × V)
  unfolding add_int
  regular_turn (negsuc _) limits visit unpacked v h = inl not_an_archive
  regular_turn (pos size) limits visit unpacked v h =
      let total = add_int unpacked size in
      if ltb_ℤ limits.unpacked total
      then inl unpacks_large
      else elim (visit v h) [ none ↦ inl not_an_archive | some w ↦ inr (1, total, w) ]

  unfoldable pub type_turn :
      Typeflag → Limits → (V → Header → Option V) → ℤ → V → Header → RefusalKind ⊎ (ℕ × ℤ × V)
  unfolding regular_turn
  type_turn regular limits visit unpacked v h = regular_turn h.size limits visit unpacked v h
  type_turn directory limits visit unpacked v h = inr (0, unpacked, v)
  type_turn symlink limits visit unpacked v h = inl unsafe_entry
  type_turn link limits visit unpacked v h = inl unsafe_entry
  type_turn x_global_header limits visit unpacked v h = inr (0, unpacked, v)
  type_turn x_header limits visit unpacked v h = inr (0, unpacked, v)
  type_turn other_type limits visit unpacked v h = inl unsafe_entry

  -- One turn of the loop of `walk`: a refusal, or what it adds to the files, the total, and the
  -- value of `visit`.
  unfoldable pub turn :
      Limits → (V → Header → Option V) → ℕ → ℤ → V → Header → RefusalKind ⊎ (ℕ × ℤ × V)
  unfolding type_turn check_name
  turn limits visit seen unpacked v h =
      if ltb_ℤ limits.entries (pos (suc seen))
      then inl too_many_files
      else elim (check_name h.name) [
        | some kind ↦ inl kind
        | none ↦ type_turn h.typeflag limits visit unpacked v h
      ]

  unfoldable pub walk_entries :
      Limits → (V → Header → Option V) → ℕ → ℕ → ℤ → V → List Header → Bool → Walked V
  unfolding turn
  walk_entries limits visit seen files unpacked v [] whole =
      if whole then walked files unpacked v else refused not_an_archive
  walk_entries limits visit seen files unpacked v (h ∷ headers) whole =
      elim (turn limits visit seen unpacked v h) [
        | inl kind ↦ refused kind
        | inr (more, total, w) ↦
            walk_entries limits visit (suc seen) (files + more) total w headers whole
      ]

  unfoldable pub walk : Limits → (V → Header → Option V) → V → Archive → Walked V
  walk limits visit v not_gzipped = refused not_an_archive
  walk limits visit v (entries_of headers whole) =
      walk_entries limits visit 0 0 (pos 0) v headers whole

abbrev pub visit_nothing : Unit {0} → Header → Option (Unit {0})
visit_nothing u h = some u

unfoldable pub inspect_archive : Limits → Archive → Walked (Unit {0})
inspect_archive limits archive = walk limits visit_nothing tt archive

-- The paths, and the contents of those that are wanted.
pub record Tree : Type 0 where
  pub paths : List Text
  pub contents : List (Text × Text)

unfoldable pub visit_tree : List Text → ℤ → Tree → Header → Option Tree
unfolding trim_prefix
visit_tree readable max_read tree h =
    let listed = record tree { paths = tree.paths ++ trim_prefix h.name (codes "./") ∷ [] } in
    if not (any (λ name. name == trim_prefix h.name (codes "./")) readable) || ltb_ℤ max_read h.size
    then some listed
    else elim h.body [
      | none ↦ none
      | some read ↦ some (record listed {
        contents = tree.contents ++ (trim_prefix h.name (codes "./"), read) ∷ [];
      })
    ]

unfoldable pub insert_text : Text → List Text → List Text
unfolding text_ltb
insert_text s [] = s ∷ []
insert_text s (t ∷ ts) =
    let rest = insert_text s ts in if text_ltb t s then t ∷ rest else s ∷ t ∷ ts

-- `sort.Strings`.
unfoldable pub sort_texts : List Text → List Text
unfolding insert_text
sort_texts [] = []
sort_texts (s ∷ ts) = insert_text s (sort_texts ts)

unfoldable pub read_tree : Limits → List Text → ℤ → Archive → RefusalKind ⊎ Tree
unfolding sort_texts visit_tree
read_tree limits readable max_read archive =
    elim (walk limits (visit_tree readable max_read) (record { paths = []; contents = [] })
      archive) [
        | refused kind ↦ inl kind
        | walked _ _ tree ↦ inr (record tree { paths = sort_texts tree.paths })
      ]
