-- ===== src/Tests/Parcels.antt =====
-- Archives that are sent to the panel.
use skifity.Prelude.{
  length, All, ◌≤◌, ◌≡◌, refl, ◌⊎◌, inr, true, false, none, some, List, [], ◌∷◌, ◌++◌, arith,
}
use skifity.Prelude.Int.{ℤ, ltb_ℤ, pos, negsuc}
use skifity.Prelude.Text.{text_ltb, Text, codes, has_prefix, has_suffix, trim_prefix, trim_suffix}
use skifity.Prelude.Tables.{count, insert_desc, order_desc}
use skifity.Cron.Number.{add_int}
use skifity.Uploads.Names.{check_name}
use skifity.Uploads.Archive.{
  default_limits, Typeflag, Header, regular_turn, type_turn, turn, walk_entries, walk,
  visit_nothing, inspect_archive, visit_tree, insert_text, sort_texts, read_tree, regular,
  directory, entries_of, walked,
}
use skifity.Uploads.Shelf.{
  Store, Summary, valid_sha, valid_app_id, extension, folder, set_folder, is_upload, list_uploads,
  remove_files, prune_folder, put_file, Sent, save, latest,
}
use skifity.Uploads.Accepted.{is_regular, sizes, Acceptable}
use skifity.Uploads.Reported.{walk-Reported, walk-total}
use skifity.Uploads.Overflow.{regular_file, inspect_archive-wraps}
use skifity.Uploads.Saved.{save-Stored}

abbrev entry : Text → Typeflag → ℤ → Header
entry name flag size = record { name = name; typeflag = flag; size = size; body = some (codes "x") }

abbrev site : List Header
site =
    entry (codes "./") directory (pos 0)
    ∷ entry (codes "./index.html") regular (pos 900)
    ∷ entry (codes "css/main.css") regular (pos 100)
    ∷ []

site_walked : walk default_limits visit_nothing tt (entries_of site true) ≡ walked 2 (pos 1000) tt
unfolding walk walk_entries turn type_turn regular_turn add_int check_name
site_walked = refl

walk-Reported_example :
    (true ≡ true)
    × All Acceptable site
    × (2 ≡ count is_regular site)
    × ((length site ≡ 0) ⊎ (ltb_ℤ (pos 50000) (pos (length site)) ≡ false))
walk-Reported_example =
    walk-Reported default_limits visit_nothing site true tt tt 2 (pos 1000) site_walked

walk-total_example :
    (pos 1000 ≡ pos (sizes site)) × (ltb_ℤ (pos 1073741824) (pos (sizes site)) ≡ false)
walk-total_example =
    walk-total default_limits visit_nothing site true tt tt 2 (pos 1000)
      (unfold sizes in ground arith) refl site_walked

inspect_archive-wraps_example :
    inspect_archive default_limits (
      entries_of
        (regular_file (codes "a") 1 ∷ regular_file (codes "b") 9223372036854775807 ∷ [])
        true)
    ≡ walked 2 (negsuc 9223372036854775807) tt
inspect_archive-wraps_example =
    inspect_archive-wraps default_limits 1073741824 1 9223372036854775807 (codes "a") (codes "b")
      refl refl refl (unfold check_name in refl) (unfold check_name in refl) (ground arith)
      (ground arith) (ground arith)

-- An app that keeps two uploads, and has two.
abbrev digits : Text → Text
digits c = c ++ (c ++ (c ++ (c ++ (c ++ (c ++ (c ++ c))))))

abbrev sum_of : Text → Text
sum_of c = digits (digits c)

abbrev shelf : Store
shelf = record {
  limits = none;
  keep = pos 2;
  folders =
      (
        codes "app_1",
        record { name = sum_of (codes "a") ++ extension; mod_time = 10 }
            ∷ record { name = sum_of (codes "b") ++ extension; mod_time = 20 }
            ∷ [],
      )
      ∷ [];
}

abbrev parcel : Sent
parcel = record { written = 512; sum = sum_of (codes "c"); archive = entries_of site true }

abbrev parcel_summary : Summary
parcel_summary = record { sha256 = sum_of (codes "c"); size = 512; files = 2; unpacked = pos 1000 }

-- The oldest is gone.
abbrev shelf_after : Store
shelf_after = record {
  limits = none;
  keep = pos 2;
  folders =
      (
        codes "app_1",
        record { name = sum_of (codes "b") ++ extension; mod_time = 20 }
            ∷ record { name = sum_of (codes "c") ++ extension; mod_time = 30 }
            ∷ [],
      )
      ∷ [];
}

parcel_saved : save (codes "app_1") 30 parcel shelf ≡ (inr parcel_summary, shelf_after)
unfolding save inspect_archive walk walk_entries turn type_turn regular_turn add_int check_name
    valid_app_id set_folder prune_folder put_file folder list_uploads is_upload remove_files
    order_desc insert_desc has_suffix has_prefix trim_suffix valid_sha
parcel_saved = refl

save-Stored_example :
    (latest (codes "app_1") shelf_after ≡ some (sum_of (codes "c")))
    × (length (list_uploads (folder (codes "app_1") shelf_after.folders)) ≤ 2)
    × (sum_of (codes "c") ≡ sum_of (codes "c"))
save-Stored_example =
    save-Stored (codes "app_1") 30 parcel shelf parcel_summary shelf_after
      (unfold valid_sha in refl) (unfold folder in (ground arith, (ground arith, tt))) parcel_saved

-- What a tree reader collects: the paths, and the one file that is wanted.
tree_read :
    walk default_limits
      (visit_tree (codes "index.html" ∷ []) (pos 1000))
      (record { paths = []; contents = [] })
      (entries_of site true)
    ≡ walked 2 (pos 1000) (record {
      paths = codes "index.html" ∷ codes "css/main.css" ∷ [];
      contents = (codes "index.html", codes "x") ∷ [];
    })
unfolding walk walk_entries turn type_turn regular_turn add_int check_name visit_tree trim_prefix
tree_read = refl

read_tree_sorted :
    read_tree default_limits (codes "index.html" ∷ []) (pos 1000) (entries_of site true)
    ≡ inr (record {
      paths = codes "css/main.css" ∷ codes "index.html" ∷ [];
      contents = (codes "index.html", codes "x") ∷ [];
    })
unfolding read_tree sort_texts insert_text text_ltb walk walk_entries turn type_turn regular_turn
    add_int check_name visit_tree trim_prefix
read_tree_sorted = refl
