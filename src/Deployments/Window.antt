-- ===== src/Deployments/Window.antt =====
-- Which deployments a list offers to roll back to, and which of them a rollback accepts.
use skifity.Prelude.{
  ltb, leb, if◌then◌else◌, Bool-cases, nat_eq, ◌==◌, list_beq_iff, take, All, ℕ, zero, suc, ◌+◌,
  ◌≡◌, refl, sym, ap, ◌∙◌, inl, inr, Bool, true, false, ◌&&◌, none, some, List, [], ◌∷◌, arith,
}
use skifity.Prelude.Text.{Text, text_eq}
use skifity.Prelude.Tables.{find, count, Apart}
use skifity.Prelude.TableLaws.{All-imp, All-zip}
use skifity.Prelude.CountLaws.{count_none}
use skifity.Deployments.Rows.{Deployment, has_image, mark_from}
use skifity.Deployments.Writes.{has_id}
use skifity.Deployments.Consistent.{OtherId}

pub other_way : (a b : Text) → (a == b) ≡ false → (b == a) ≡ false
other_way a b h = elim (Bool-cases (b == a)) [
  | inl e ↦ absurd (clash (a == b) ((list_beq_iff a b).1 (sym ((list_beq_iff b a).0 e))) h)
  | inr e ↦ e
]
  where
    clash : (c : Bool) → c ≡ true → c ≡ false → ⊥
    clash true e h = cc
    clash false e h = cc

find-none :
    (p : Deployment → Bool) (xs : List Deployment) → All (λ x. p x ≡ false) xs → find p xs ≡ none
unfolding find
find-none p [] h = refl
find-none p (x ∷ xs) h = rw h.0 (find-none p xs h.1)

and_false : (a b : Bool) → b ≡ false → (a && b) ≡ false
and_false true b h = h
and_false false b h = refl

found_head :
    (q : Deployment → Bool) (x : Deployment) (xs : List Deployment) (b : Bool)
    → q x ≡ b
    → All (OtherId x) xs
    → find (λ e. q e && has_id x.id e) (x ∷ xs) ≡ (if b then some x else none)
unfolding find
found_head q x xs true e h = rw (e, (list_beq_iff x.id x.id).1 refl) refl
found_head q x xs false e h = rw e (
    find-none (λ y. q y && has_id x.id y) xs
      (All-imp (OtherId x) (λ y. (q y && has_id x.id y) ≡ false) xs
        (λ y d. and_false (q y) (has_id x.id y) (other_way x.id y.id d)) h))

-- Where ids are apart, a row is what its id finds.
pub find_own :
    (q : Deployment → Bool) (xs : List Deployment)
    → Apart OtherId xs
    → All (λ d. find (λ e. q e && has_id d.id e) xs ≡ (if q d then some d else none)) xs
unfolding find
find_own q [] h = tt
find_own q (x ∷ xs) h = (
  found_head q x xs (q x) refl h.0,
  All-zip (OtherId x) (λ d. find (λ e. q e && has_id d.id e) xs ≡ (if q d then some d else none))
      (λ d. find (λ e. q e && has_id d.id e) (x ∷ xs) ≡ (if q d then some d else none)) xs
      (λ d other found. rw (and_false (q x) (has_id d.id x) other) found) h.0 (find_own q xs h.1),
)

-- Newest first, with no number twice.
abbrev pub Newer : Deployment → Deployment → Type 0
Newer x y = ltb y.number x.number ≡ true

-- The deployments with an image that are newer.
abbrev pub ahead : Deployment → List Deployment → ℕ
ahead d ds = count (λ e. has_image e && ltb d.number e.number) ds

not_ahead : (b : Bool) (m n : ℕ) → ltb n m ≡ true → (b && ltb m n) ≡ false
not_ahead true m n h = ground (arith, h)
not_ahead false m n h = refl

not_ahead_self : (b : Bool) (m : ℕ) → (b && ltb m m) ≡ false
not_ahead_self true m = ground arith
not_ahead_self false m = refl

ahead-head : (x : Deployment) (xs : List Deployment) → All (Newer x) xs → ahead x (x ∷ xs) ≡ 0
ahead-head x xs h =
    count_none (λ e. has_image e && ltb x.number e.number) (x ∷ xs)
      (
        not_ahead_self (has_image x) x.number,
        All-imp (Newer x) (λ e. (has_image e && ltb x.number e.number) ≡ false) xs
            (λ e. not_ahead (has_image e) x.number e.number) h,
      )

pub All-mark_from {κ} :
    (P : Deployment → Type κ) (keep seen : ℕ) (ds : List Deployment)
    → ((d : Deployment) (b : Bool) → P d → P (record d { can_rollback = b }))
    → All P ds
    → All P (mark_from keep seen ds)
unfolding mark_from
All-mark_from P keep seen [] f h = tt
All-mark_from P keep seen (d ∷ ds) f h = elim (Bool-cases (has_image d)) [
  | inl e ↦ rw e (f d (leb (suc seen) keep) h.0, All-mark_from P keep (suc seen) ds f h.1)
  | inr e ↦ rw e (h.0, All-mark_from P keep seen ds f h.1)
]

-- How a marked row is judged where `seen` were counted before.
abbrev pub Judged : ℕ → ℕ → List Deployment → Deployment → Type 0
Judged keep seen ds d = d.can_rollback ≡ (has_image d && leb (seen + suc (ahead d ds)) keep)

Judged-head :
    (keep seen : ℕ) (x : Deployment) (xs : List Deployment)
    → has_image x ≡ true
    → All (Newer x) xs
    → Judged keep seen (x ∷ xs) (record x { can_rollback = leb (suc seen) keep })
Judged-head keep seen x xs e h = rw (e, ahead-head x xs h) (ground arith)

Judged-later :
    (keep seen : ℕ) (x d : Deployment) (xs : List Deployment)
    → has_image x ≡ true
    → Newer x d
    → Judged keep (suc seen) xs d
    → Judged keep seen (x ∷ xs) d
unfolding count
Judged-later keep seen x d xs e newer h =
    h ∙ rw (e, newer) (ap (λ n. has_image d && leb n keep) (suc_seen seen (ahead d xs)))
  where
    suc_seen : (m n : ℕ) → suc m + suc n ≡ m + suc (suc n)
    suc_seen m n = omega arith

Judged-past :
    (keep seen : ℕ) (x d : Deployment) (xs : List Deployment)
    → has_image x ≡ false
    → Judged keep seen xs d
    → Judged keep seen (x ∷ xs) d
unfolding count
Judged-past keep seen x d xs e h = h ∙ rw e refl

pub mark_from-Judged :
    (keep seen : ℕ) (ds : List Deployment)
    → Apart Newer ds
    → All (λ d. d.can_rollback ≡ false) ds
    → All (Judged keep seen ds) (mark_from keep seen ds)
unfolding mark_from
mark_from-Judged keep seen [] h fresh = tt
mark_from-Judged keep seen (x ∷ xs) h fresh = elim (Bool-cases (has_image x)) [
  | inl e ↦ rw e (
    Judged-head keep seen x xs e h.0,
    All-zip (Newer x) (Judged keep (suc seen) xs) (Judged keep seen (x ∷ xs))
        (mark_from keep (suc seen) xs) (λ d. Judged-later keep seen x d xs e)
        (All-mark_from (Newer x) keep (suc seen) xs (λ d b n. n) h.0)
        (mark_from-Judged keep (suc seen) xs h.1 fresh.1),
  )
  | inr e ↦ rw e (
    fresh.0 ∙ rw e refl,
    All-imp (Judged keep seen xs) (Judged keep seen (x ∷ xs)) (mark_from keep seen xs)
        (λ d. Judged-past keep seen x d xs e) (mark_from-Judged keep seen xs h.1 fresh.1),
  )
]

pub mark_from-take :
    (n keep seen : ℕ) (ds : List Deployment)
    → mark_from keep seen (take n ds) ≡ take n (mark_from keep seen ds)
unfolding mark_from
mark_from-take zero keep seen ds = refl
mark_from-take (suc n) keep seen [] = refl
mark_from-take (suc n) keep seen (d ∷ ds) = elim (Bool-cases (has_image d)) [
  | inl e ↦ rw e (
      ap (λ rest. record d { can_rollback = leb (suc seen) keep } ∷ rest)
        (mark_from-take n keep (suc seen) ds))
  | inr e ↦ rw e (ap (λ rest. d ∷ rest) (mark_from-take n keep seen ds))
]
