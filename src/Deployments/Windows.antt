-- ===== src/Deployments/Windows.antt =====
-- The number of days that a window of the maintenance can have.
use skifity.Prelude.{
  nat_eq, ◌==◌, Bool-cases, ltb, leb, if◌then◌else◌, lt→ltb, filter, All, ℕ, zero, suc, ◌+◌, ◌-◌,
  ◌*◌, ◌/◌, ◌%◌, ◌^◌, ◌≤◌, ◌<◌, ◌≡◌, refl, sym, ap, ◌∙◌, inl, inr, Bool, true, false, not, ◌&&◌,
  ◌||◌, List, [], ◌∷◌, arith,
}
use skifity.Prelude.Int.{pos, negsuc}
use skifity.Prelude.BoolLaws.{clash, both_true, negation_true}
use skifity.Prelude.TableLaws.{filter_hit, filter_miss, All-imp, All-filter-holds}
use skifity.Deployments.Rows.{AuditEvent, Database}
use skifity.Deployments.Retention.{
  Retention, nanos, is_before, day, window, is_older, or_default, prune_deployments,
  prune_operations, prune_audit, prune,
}

-- The longest window that fits, in days.
abbrev pub most_days : ℕ
most_days = 106751

below_half : (days : ℕ) → days ≤ most_days → days * day % 2 ^ 64 ≡ days * day
below_half days h = ground arith

fits :
    (n m : ℕ)
    → n ≡ m
    → m < 2 ^ 63
    → (if ltb n (2 ^ 63) then pos n else negsuc (2 ^ 64 - n - 1)) ≡ pos m
fits n m e h = rw (e, lt→ltb m (2 ^ 63) h) refl

window_fits : (days : ℕ) → days ≤ most_days → window days ≡ pos (days * day)
unfolding window
window_fits days h = fits (days * day % 2 ^ 64) (days * day) (below_half days h) (omega (arith, h))

-- Times that are a second apart compare as texts as they do as times.
is_before-earlier : (a b : ℕ) → a + nanos ≤ b → is_before a b ≡ true
unfolding is_before
is_before-earlier a b h =
    first (ltb (a / nanos) (b / nanos)) _ (lt→ltb (a / nanos) (b / nanos) (omega (arith, h)))
  where
    first : (p q : Bool) → p ≡ true → (p || q) ≡ true
    first true q e = refl
    first false q e = cc

is_before-later : (a b : ℕ) → b + nanos ≤ a → is_before a b ≡ false
unfolding is_before
is_before-later a b h =
    let below : b / nanos < a / nanos = omega (arith, h) in neither (a / nanos) (b / nanos) _ below
  where
    neither : (m n : ℕ) (q : Bool) → n < m → (ltb m n || (m == n && q)) ≡ false
    neither m n q lt = ground (arith, lt)

module _ (now age : ℕ) where
  -- A second older than the window, and a second younger.
  is_older-old : (at : ℕ) → at + age + nanos ≤ now → is_older now at (pos age) ≡ true
  unfolding is_older
  is_older-old at h =
      both_true (leb age now) (is_before at (now - age)) (within age now (omega (arith, h)))
        (is_before-earlier at (now - age) (omega (arith, h)))
    where
      within : (m n : ℕ) → m ≤ n → leb m n ≡ true
      within m n le = ground (arith, le)

  is_older-young : (at : ℕ) → now + nanos ≤ at + age → is_older now at (pos age) ≡ false
  unfolding is_older
  is_older-young at h = elim (Bool-cases (leb age now)) [
    | inl e ↦ rw e (is_before-later at (now - age) (apart age now at e h))
    | inr e ↦ rw e refl
  ]
    where
      apart : (m n at : ℕ) → leb m n ≡ true → n + nanos ≤ at + m → (n - m) + nanos ≤ at
      apart m n at e h = ground (arith, e, h)

  kept_is_young : (at : ℕ) → not (is_older now at (pos age)) ≡ true → now < at + age + nanos
  kept_is_young at kept = elim (Bool-cases (leb (at + age + nanos) now)) [
    | inl e ↦
        clash (is_older now at (pos age)) (is_older-old at (ground (arith, e)))
          (negation_true (is_older now at (pos age)) kept)
    | inr e ↦ ground (arith, e)
  ]

-- What a filter drops is not among what another keeps.
filter-after :
    (p q : AuditEvent → Bool) (xs : List AuditEvent)
    → ((x : AuditEvent) → p x ≡ true → q x ≡ true)
    → filter p (filter q xs) ≡ filter p xs
filter-after p q [] h = refl
filter-after p q (x ∷ xs) h = elim (Bool-cases (q x)) [
  | inl kept ↦ ap (filter p) (filter_hit q x xs kept) ∙ elim (Bool-cases (p x)) [
    | inl e ↦
        filter_hit p x (filter q xs) e
        ∙ ap (λ rest. x ∷ rest) (filter-after p q xs h)
        ∙ sym (filter_hit p x xs e)
    | inr e ↦ filter_miss p x (filter q xs) e ∙ filter-after p q xs h ∙ sym (filter_miss p x xs e)
  ]
  | inr dropped ↦ elim (Bool-cases (p x)) [
    | inl e ↦ clash (q x) (h x e) dropped
    | inr e ↦
        ap (filter p) (filter_miss q x xs dropped)
        ∙ filter-after p q xs h
        ∙ sym (filter_miss p x xs e)
  ]
]

-- The entries that are at least a second younger than the window.
abbrev pub is_young : ℕ → ℕ → AuditEvent → Bool
is_young now age e = leb (now + nanos) (e.at + age)

audit-seconds :
    (now age : ℕ) (events : List AuditEvent)
    → let kept = filter (λ e. not (is_older now e.at (pos age))) events in
      All (λ e. now < e.at + age + nanos) kept
      × filter (is_young now age) kept ≡ filter (is_young now age) events
audit-seconds now age events = (
  All-imp (λ e. not (is_older now e.at (pos age)) ≡ true) (λ e. now < e.at + age + nanos)
      (filter (λ e. not (is_older now e.at (pos age))) events) (λ e. kept_is_young now age e.at)
      (All-filter-holds (λ e. not (is_older now e.at (pos age))) events),
  filter-after (is_young now age) (λ e. not (is_older now e.at (pos age))) events
      (λ e young. ap not (is_older-young now age e.at (ground (arith, young)))),
)

-- For a window of at most 106751 days the maintenance keeps no audit entry that is a second or
-- more older than the window, and keeps in their order all that are a second or more younger:
-- times are compared as texts, whose order within a second is another.
pub prune_audit-seconds :
    (now days : ℕ) (db : Database)
    → days ≤ most_days
    → let kept = (prune_audit now (window days) db).1.audit_events in
      All (λ e. now < e.at + days * day + nanos) kept
      × filter (is_young now (days * day)) kept ≡ filter (is_young now (days * day)) db.audit_events
unfolding prune_audit
prune_audit-seconds now days db h =
    rw (window_fits days h) (audit-seconds now (days * day) db.audit_events)

wraps :
    (n : ℕ)
    → 2 ^ 63 ≤ n
    → n < 2 ^ 64
    → (if ltb (n % 2 ^ 64) (2 ^ 63) then pos (n % 2 ^ 64) else negsuc (2 ^ 64 - n % 2 ^ 64 - 1))
      ≡ negsuc (2 ^ 64 - n - 1)
wraps n low high = ground (arith, low, high)

window_wraps :
    (days : ℕ)
    → most_days < days
    → days ≤ 2 * most_days
    → window days ≡ negsuc (2 ^ 64 - days * day - 1)
unfolding window
window_wraps days low high = wraps (days * day) (omega (arith, low)) (omega (arith, high))

past_dropped :
    (now age : ℕ) (events : List AuditEvent)
    → nanos ≤ suc age
    → All (λ e. e.at ≤ now) events
    → filter (λ e. not (is_older now e.at (negsuc age))) events ≡ []
unfolding is_older
past_dropped now age [] far h = refl
past_dropped now age (e ∷ events) far h =
    filter_miss (λ x. not (is_before x.at (now + suc age))) e events
      (ap not (is_before-earlier e.at (now + suc age) (omega (arith, far, h.0))))
    ∙ past_dropped now age events far h.1

positive : (days : ℕ) → most_days < days → or_default (pos days) 365 ≡ days
positive zero h = ground (arith, h)
positive (suc n) h = refl

-- A window of more than 106751 days, and at most twice that, wraps the 64 bits of a duration:
-- where no entry is from the future, the maintenance then deletes the whole audit log.
pub prune-wraps :
    (now days : ℕ) (keep : Retention) (db : Database)
    → keep.audit_days ≡ pos days
    → most_days < days
    → days ≤ 2 * most_days
    → All (λ e. e.at ≤ now) db.audit_events
    → (prune now keep db).1.audit_events ≡ []
unfolding prune prune_deployments prune_operations prune_audit
prune-wraps now days keep db setting low high past =
    rw (setting, positive days low, window_wraps days low high)
      (past_dropped now (2 ^ 64 - days * day - 1) db.audit_events (omega (arith, high)) past)
