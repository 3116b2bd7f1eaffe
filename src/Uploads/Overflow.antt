-- ===== src/Uploads/Overflow.antt =====
-- The total of an archive is added in 64 bits, and it may wrap below the limit.
use skifity.Prelude.{nat_eq}
use skifity.Prelude.{
  if◌then◌else◌, ℕ, suc, ◌+◌, ◌-◌, ◌^◌, ◌≤◌, ◌<◌, ◌≡◌, refl, ap, ◌∙◌, ◌⊎◌, inl, inr, Bool, true,
  false, Option, none, some, List, [], ◌∷◌, arith,
}
use skifity.Prelude.Int.{ℤ, ltb_ℤ, pos, negsuc}
use skifity.Prelude.Text.{Text}
use skifity.Cron.Number.{max_int, add_int}
use skifity.Uploads.Names.{RefusalKind, check_name, too_many_files, unpacks_large}
use skifity.Uploads.Archive.{
  Limits, Header, Walked, regular_turn, type_turn, turn, walk_entries, walk, visit_nothing,
  inspect_archive, regular, entries_of, refused, walked,
}

abbrev pub regular_file : Text → ℕ → Header
regular_file name size = record { name = name; typeflag = regular; size = pos size; body = none }

few_step :
    {V : Type 0} (b c : Bool) (o : Option RefusalKind) (total : ℤ) (v : V)
    → b ≡ false
    → o ≡ none
    → c ≡ false
    → (if◌then◌else◌ {A = RefusalKind ⊎ (ℕ × ℤ × V)} b
        (inl too_many_files)
        (elim o as (λ _. RefusalKind ⊎ (ℕ × ℤ × V)) [
          | some kind ↦ inl kind
          | none ↦ if c then inl unpacks_large else inr (1, total, v)
        ]))
      ≡ inr (1, total, v)
few_step false false none total v few named small = refl
few_step true c o total v few named small = cc
few_step false true o total v few named small = cc
few_step false false (some k) total v few named small = cc

turn-regular_file :
    (limits : Limits) (seen : ℕ) (unpacked : ℤ) (name : Text) (size : ℕ)
    → ltb_ℤ limits.entries (pos (suc seen)) ≡ false
    → check_name name ≡ none
    → ltb_ℤ limits.unpacked (add_int unpacked size) ≡ false
    → turn limits visit_nothing seen unpacked tt (regular_file name size)
      ≡ inr (1, add_int unpacked size, tt)
unfolding turn type_turn regular_turn
turn-regular_file limits seen unpacked name size few named small =
    few_step (ltb_ℤ limits.entries (pos (suc seen))) (ltb_ℤ limits.unpacked (add_int unpacked size))
      (check_name name) (add_int unpacked size) tt few named small

abbrev go_on : Limits → ℕ → ℕ → List Header → RefusalKind ⊎ (ℕ × ℤ × Unit {0}) → Walked (Unit {0})
go_on limits seen files headers (inl kind) = refused kind
go_on limits seen files headers (inr (more, total, w)) =
    walk_entries limits visit_nothing seen (files + more) total w headers true

wrapped : (m k : ℕ) → max_int < m + k → add_int (pos m) k ≡ negsuc (2 ^ 64 - (m + k) - 1)
unfolding add_int
wrapped m k h = ground (arith, h)

negative_is_small : (u n : ℕ) → ltb_ℤ (pos u) (negsuc n) ≡ false
negative_is_small u n = ground arith

first_total : (m : ℕ) → m ≤ max_int → add_int (pos 0) m ≡ pos m
unfolding add_int
first_total m h = ground (arith, h)

-- Where the first of two regular files with accepted names is within the limit and the sizes of
-- both add up to more than an int64 holds, and two entries are allowed, the total wraps below
-- zero and the archive is accepted.
pub inspect_archive-wraps :
    (limits : Limits) (u m k : ℕ) (a b : Text)
    → limits.unpacked ≡ pos u
    → ltb_ℤ limits.entries (pos 1) ≡ false
    → ltb_ℤ limits.entries (pos 2) ≡ false
    → check_name a ≡ none
    → check_name b ≡ none
    → m ≤ u
    → m ≤ max_int
    → max_int < m + k
    → inspect_archive limits (entries_of (regular_file a m ∷ regular_file b k ∷ []) true)
      ≡ walked 2 (negsuc (2 ^ 64 - (m + k) - 1)) tt
unfolding inspect_archive walk walk_entries
inspect_archive-wraps limits u m k a b limit one two name_a name_b le fits over =
    let total = add_int (pos 0) m in
    ap (go_on limits 1 0 (regular_file b k ∷ [])) (
      turn-regular_file limits 0 (pos 0) a m one name_a
        (ap (λ l. ltb_ℤ l total) limit ∙ ap (ltb_ℤ (pos u)) (first_total m fits) ∙ small u m le))
    ∙ ap (go_on limits 2 1 []) (
        turn-regular_file limits 1 total b k two name_b (
          ap (λ l. ltb_ℤ l (add_int total k)) limit
          ∙ ap (λ t. ltb_ℤ (pos u) (add_int t k)) (first_total m fits)
          ∙ ap (ltb_ℤ (pos u)) (wrapped m k over)
          ∙ negative_is_small u (2 ^ 64 - (m + k) - 1)))
    ∙ ap (λ t. walked 2 (add_int t k) tt) (first_total m fits)
    ∙ ap (λ t. walked 2 t tt) (wrapped m k over)
  where
    small : (x y : ℕ) → y ≤ x → ltb_ℤ (pos x) (pos y) ≡ false
    small x y h = ground (arith, h)
