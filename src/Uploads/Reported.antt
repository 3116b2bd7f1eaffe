-- ===== src/Uploads/Reported.antt =====
-- What walking an archive reports of it.
use skifity.Prelude.{nat_eq}
use skifity.Prelude.{
  if◌then◌else◌, length, All, ℕ, suc, ◌+◌, ◌≤◌, ◌≡◌, refl, sym, ap, subst, ◌∙◌, ◌⊎◌, inl, inr, Bool,
  true, false, Option, List, [], ◌∷◌, arith,
}
use skifity.Prelude.Int.{ℤ, pos_part, ltb_ℤ, pos}
use skifity.Prelude.Tables.{count}
use skifity.Cron.Number.{max_int, add_int}
use skifity.Uploads.Names.{RefusalKind, not_an_archive}
use skifity.Uploads.Archive.{
  Limits, Header, Walked, turn, walk_entries, walk, entries_of, refused, walked,
}
use skifity.Uploads.Accepted.{is_regular, sizes, Acceptable, turn-Acceptable}

-- `seen`, `files` and `unpacked` are counted before; `n` and `t` are reported.
pub record Reported (limits : Limits) (headers : List Header) (whole : Bool) (seen files : ℕ)
    (unpacked : ℤ) (n : ℕ) (t : ℤ) : Type 0 where
  pub complete : whole ≡ true
  pub acceptable : All Acceptable headers
  pub counted : n ≡ files + count is_regular headers
  pub within_entries :
      (length headers ≡ 0) ⊎ (ltb_ℤ limits.entries (pos (seen + length headers)) ≡ false)
  pub within_unpacked : (t ≡ unpacked) ⊎ (ltb_ℤ limits.unpacked t ≡ false)
  pub exact : (m : ℕ) → unpacked ≡ pos m → m + sizes headers ≤ max_int → t ≡ pos (m + sizes headers)

module _ {ℓ} {V : Type ℓ} (limits : Limits) (visit : V → Header → Option V) where
  files_more :
      (b : Bool) (files more rest n : ℕ)
      → more ≡ (if b then 1 else 0)
      → n ≡ (files + more) + rest
      → n ≡ files + (if b then suc rest else rest)
  files_more true files more rest n h e = omega (arith, h, e)
  files_more false files more rest n h e = omega (arith, h, e)

  add_exact :
      (b : Bool) (m k rest : ℕ) (unpacked total : ℤ)
      → unpacked ≡ pos m
      → total ≡ (if b then add_int unpacked k else unpacked)
      → m + ((if b then k else 0) + rest) ≤ max_int
      → total ≡ pos (m + (if b then k else 0))
  unfolding add_int
  add_exact true m k rest unpacked total h e le = rw (e, h) (ground (arith, le))
  add_exact false m k rest unpacked total h e le = rw (e, h) (ap pos (omega arith))

  entries_left :
      (seen more : ℕ)
      → ltb_ℤ limits.entries (pos (suc seen)) ≡ false
      → (more ≡ 0) ⊎ (ltb_ℤ limits.entries (pos (suc seen + more)) ≡ false)
      → ltb_ℤ limits.entries (pos (seen + suc more)) ≡ false
  entries_left seen more few (inl e) =
      subst (λ k. ltb_ℤ limits.entries (pos k) ≡ false) (omega (arith, e)) few
  entries_left seen more few (inr e) =
      subst (λ k. ltb_ℤ limits.entries (pos k) ≡ false) (omega arith) e

  total_left :
      (t total unpacked : ℤ)
      → (t ≡ total) ⊎ (ltb_ℤ limits.unpacked t ≡ false)
      → (total ≡ unpacked) ⊎ (ltb_ℤ limits.unpacked total ≡ false)
      → (t ≡ unpacked) ⊎ (ltb_ℤ limits.unpacked t ≡ false)
  total_left t total unpacked (inr ok) h = inr ok
  total_left t total unpacked (inl same) (inl e) = inl (same ∙ e)
  total_left t total unpacked (inl same) (inr ok) = inr (ap (ltb_ℤ limits.unpacked) same ∙ ok)

  ended_whole :
      (whole : Bool) (files : ℕ) (unpacked : ℤ) (v w : V) (n seen : ℕ) (t : ℤ)
      → (if whole then walked files unpacked v else refused not_an_archive) ≡ walked n t w
      → Reported limits [] whole seen files unpacked n t
  unfolding count sizes
  ended_whole true files unpacked v w n seen t q = record {
    complete = refl;
    acceptable = tt;
    counted = ap files_of (sym q) ∙ (omega arith);
    within_entries = inl refl;
    within_unpacked = inl (ap total_of (sym q));
    exact = λ m e le. ap total_of (sym q) ∙ e ∙ ap pos (omega arith);
  }
    where
      files_of : Walked V → ℕ
      files_of (refused k) = 0
      files_of (walked f u x) = f

      total_of : Walked V → ℤ
      total_of (refused k) = pos 0
      total_of (walked f u x) = u
  ended_whole false files unpacked v w n seen t q = absurd (subst is_refused q tt)
    where
      is_refused : Walked V → Type 0
      is_refused (refused k) = Unit
      is_refused (walked f u x) = ⊥

  turned_on :
      (o : RefusalKind ⊎ (ℕ × ℤ × V)) (f : ℕ × ℤ × V → Walked V) (r : Walked V) (n : ℕ) (t : ℤ)
      (w : V)
      → (elim o as (λ _. Walked V) [ inl kind ↦ refused kind | inr s ↦ f s ]) ≡ walked n t w
      → (s : ℕ × ℤ × V) × (o ≡ inr s) × (f s ≡ walked n t w)
  turned_on (inl k) f r n t w q = absurd (subst is_refused q tt)
    where
      is_refused : Walked V → Type 0
      is_refused (refused k) = Unit
      is_refused (walked f u x) = ⊥
  turned_on (inr s) f r n t w q = (s, refl, q)

  pub walk_entries-Reported :
      (headers : List Header) (whole : Bool) (seen files : ℕ) (unpacked : ℤ) (v w : V) (n : ℕ)
      (t : ℤ)
      → walk_entries limits visit seen files unpacked v headers whole ≡ walked n t w
      → Reported limits headers whole seen files unpacked n t
  unfolding walk_entries count sizes
  walk_entries-Reported [] whole seen files unpacked v w n t q =
      ended_whole whole files unpacked v w n seen t q
  walk_entries-Reported (h ∷ headers) whole seen files unpacked v w n t q =
      let (s, went, rest) =
        turned_on (turn limits visit seen unpacked v h)
          (λ s. walk_entries limits visit (suc seen) (files + s.0) s.1 s.2 headers whole)
          (refused not_an_archive) n t w q in
      let (ok, few, turned) = turn-Acceptable limits visit seen unpacked v h s went in
      let r = walk_entries-Reported headers whole (suc seen) (files + s.0) (s.1) (s.2) w n t rest in
      record {
        complete = r.complete;
        acceptable = (ok, r.acceptable);
        counted =
            files_more (is_regular h) files (s.0) (count is_regular headers) n turned.0 r.counted;
        within_entries = inr (entries_left seen (length headers) few r.within_entries);
        within_unpacked = total_left t (s.1) unpacked r.within_unpacked turned.2;
        exact = λ m e le.
            let k = if is_regular h then pos_part h.size else 0 in
            let here =
              add_exact (is_regular h) m (pos_part h.size) (sizes headers) unpacked (s.1) e turned.1
                le in
            r.exact (m + k) here (omega (arith, le)) ∙ ap pos (omega arith);
      }

  -- An archive is accepted only if it ends as it should, each of its entries is an ordinary file,
  -- a folder or metadata and has a name that, walked part by part, never leaves the folder it is
  -- unpacked into, and it has no more entries than the limit, or none; the number of files
  -- reported is that of its regular files.
  pub walk-Reported :
      (headers : List Header) (whole : Bool) (v w : V) (n : ℕ) (t : ℤ)
      → walk limits visit v (entries_of headers whole) ≡ walked n t w
      → (whole ≡ true)
        × All Acceptable headers
        × (n ≡ count is_regular headers)
        × ((length headers ≡ 0) ⊎ (ltb_ℤ limits.entries (pos (length headers)) ≡ false))
  unfolding walk
  walk-Reported headers whole v w n t q =
      let r = walk_entries-Reported headers whole 0 0 (pos 0) v w n t q in
      (
        r.complete,
        r.acceptable,
        r.counted ∙ (omega arith),
        subst (λ k. (length headers ≡ 0) ⊎ (ltb_ℤ limits.entries (pos k) ≡ false)) (omega arith)
            r.within_entries,
      )

  -- Where the sizes of the regular files add up to what an int64 holds, and the limit is not
  -- negative, the total reported is their sum and is within the limit.
  pub walk-total :
      (headers : List Header) (whole : Bool) (v w : V) (n : ℕ) (t : ℤ)
      → sizes headers ≤ max_int
      → ltb_ℤ limits.unpacked (pos 0) ≡ false
      → walk limits visit v (entries_of headers whole) ≡ walked n t w
      → (t ≡ pos (sizes headers)) × (ltb_ℤ limits.unpacked (pos (sizes headers)) ≡ false)
  unfolding walk
  walk-total headers whole v w n t fits sane q =
      let r = walk_entries-Reported headers whole 0 0 (pos 0) v w n t q in
      let same = r.exact 0 refl (omega (arith, fits)) ∙ ap pos (omega arith) in
      (
        same,
        elim r.within_unpacked [
          | inl zero_total ↦ ap (ltb_ℤ limits.unpacked) (sym same ∙ zero_total) ∙ sane
          | inr ok ↦ ap (ltb_ℤ limits.unpacked) (sym same) ∙ ok
        ],
      )
