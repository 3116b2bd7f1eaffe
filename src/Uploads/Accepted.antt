-- ===== src/Uploads/Accepted.antt =====
-- What is known of an archive that is accepted.
use mathlib.Core.Sum.{inl-ne-inr, inr-injective}
use skifity.Prelude.{
  if◌then◌else◌, ℕ, suc, ◌+◌, ◌≡◌, refl, sym, ap, subst, ◌∙◌, ◌⊎◌, inl, inr, Bool, true, false,
  Option, none, some, List, [], ◌∷◌,
}
use skifity.Prelude.Int.{ℤ, pos_part, ltb_ℤ, pos, negsuc}
use skifity.Cron.Number.{add_int}
use skifity.Uploads.Names.{RefusalKind, check_name, not_an_archive, too_many_files, unpacks_large}
use skifity.Uploads.Archive.{
  Limits, Typeflag, Header, regular_turn, type_turn, turn, regular, directory, symlink, link,
  x_global_header, x_header, other_type,
}
use skifity.Uploads.Inside.{Inside, check_name-Inside}

abbrev pub is_allowed : Typeflag → Bool
is_allowed regular = true
is_allowed directory = true
is_allowed x_global_header = true
is_allowed x_header = true
is_allowed _ = false

abbrev pub counts : Typeflag → Bool
counts regular = true
counts _ = false

abbrev pub is_regular : Header → Bool
is_regular h = counts h.typeflag

-- The bytes that the regular files unpack to.
unfoldable pub sizes : List Header → ℕ
sizes [] = 0
sizes (h ∷ headers) = (if is_regular h then pos_part h.size else 0) + sizes headers

-- An ordinary entry that is unpacked inside the folder.
abbrev pub Acceptable : Header → Type 0
Acceptable h = Inside h.name × (is_allowed h.typeflag ≡ true)

module _ {ℓ} {V : Type ℓ} (limits : Limits) (visit : V → Header → Option V) where
  -- What a turn that goes on says of an entry of a type.
  abbrev pub Turned : Typeflag → ℤ → Header → ℕ × ℤ × V → Type 0
  Turned flag unpacked h (more, total, w) =
      (more ≡ (if counts flag then 1 else 0))
      × (total ≡ (if counts flag then add_int unpacked (pos_part h.size) else unpacked))
      × ((total ≡ unpacked) ⊎ (ltb_ℤ limits.unpacked total ≡ false))
      × (is_allowed flag ≡ true)

  visited :
      (o : Option V) (total : ℤ) (r : ℕ × ℤ × V)
      → (elim o as (λ _. RefusalKind ⊎ (ℕ × ℤ × V)) [
        | none ↦ inl not_an_archive
        | some w ↦ inr (1, total, w)
      ])
        ≡ inr r
      → (r.0 ≡ 1) × (r.1 ≡ total)
  visited none total r q = absurd (inl-ne-inr q)
  visited (some w) total r q =
      let e = inr-injective (1, total, w) r q in
      (ap (λ (s : ℕ × ℤ × V). s.0) (sym e), ap (λ (s : ℕ × ℤ × V). s.1) (sym e))

  within :
      (b : Bool) (next : RefusalKind ⊎ (ℕ × ℤ × V)) (r : ℕ × ℤ × V)
      → (if b then inl unpacks_large else next) ≡ inr r
      → (b ≡ false) × (next ≡ inr r)
  within true next r q = absurd (inl-ne-inr q)
  within false next r q = (refl, q)

  regular_turn-Turned :
      (size unpacked : ℤ) (v : V) (h : Header) (r : ℕ × ℤ × V)
      → h.size ≡ size
      → regular_turn size limits visit unpacked v h ≡ inr r
      → Turned regular unpacked h r
  unfolding regular_turn
  regular_turn-Turned (negsuc n) unpacked v h r e q = absurd (inl-ne-inr q)
  regular_turn-Turned (pos n) unpacked v h r e q =
      let total = add_int unpacked n in
      let (small, next) = within (ltb_ℤ limits.unpacked total) _ r q in
      let (one, same) = visited (visit v h) total r next in
      (
        one,
        same ∙ ap (λ s. add_int unpacked (pos_part s)) (sym e),
        inr (ap (ltb_ℤ limits.unpacked) same ∙ small),
        refl,
      )

  type_turn-Turned :
      (flag : Typeflag) (unpacked : ℤ) (v : V) (h : Header) (r : ℕ × ℤ × V)
      → type_turn flag limits visit unpacked v h ≡ inr r
      → Turned flag unpacked h r
  unfolding type_turn
  type_turn-Turned regular unpacked v h r q = regular_turn-Turned h.size unpacked v h r refl q
  type_turn-Turned directory unpacked v h r q =
      subst (Turned directory unpacked h) (inr-injective (0, unpacked, v) r q)
        (refl, refl, inl refl, refl)
  type_turn-Turned symlink unpacked v h r q = absurd (inl-ne-inr q)
  type_turn-Turned link unpacked v h r q = absurd (inl-ne-inr q)
  type_turn-Turned x_global_header unpacked v h r q =
      subst (Turned x_global_header unpacked h) (inr-injective (0, unpacked, v) r q)
        (refl, refl, inl refl, refl)
  type_turn-Turned x_header unpacked v h r q =
      subst (Turned x_header unpacked h) (inr-injective (0, unpacked, v) r q)
        (refl, refl, inl refl, refl)
  type_turn-Turned other_type unpacked v h r q = absurd (inl-ne-inr q)

  named :
      (b : Bool) (o : Option RefusalKind) (next : RefusalKind ⊎ (ℕ × ℤ × V)) (r : ℕ × ℤ × V)
      → (if b
          then inl too_many_files
          else elim o as (λ _. RefusalKind ⊎ (ℕ × ℤ × V)) [ some kind ↦ inl kind | none ↦ next ])
        ≡ inr r
      → (b ≡ false) × (o ≡ none) × (next ≡ inr r)
  named true o next r q = absurd (inl-ne-inr q)
  named false (some kind) next r q = absurd (inl-ne-inr q)
  named false none next r q = (refl, refl, q)

  pub turn-Acceptable :
      (seen : ℕ) (unpacked : ℤ) (v : V) (h : Header) (r : ℕ × ℤ × V)
      → turn limits visit seen unpacked v h ≡ inr r
      → Acceptable h
        × (ltb_ℤ limits.entries (pos (suc seen)) ≡ false)
        × Turned h.typeflag unpacked h r
  unfolding turn
  turn-Acceptable seen unpacked v h r q =
      let (few, safe, next) =
        named (ltb_ℤ limits.entries (pos (suc seen))) (check_name h.name)
          (type_turn h.typeflag limits visit unpacked v h) r q in
      let turned = type_turn-Turned h.typeflag unpacked v h r next in
      ((check_name-Inside h.name safe, turned.3), few, turned)
