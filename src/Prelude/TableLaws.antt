-- ===== src/Prelude/TableLaws.antt =====
-- What updating, deleting, counting and ordering keep of a table's rows.
use skifity.Prelude.{
  ltb, Bool-cases, take, any, filter, All, All-append, ℕ, zero, suc, ◌≤◌, ◌≡◌, refl, ap, ◌∙◌, inl,
  inr, Bool, true, false, not, ◌&&◌, ◌||◌, List, [], ◌∷◌, ◌++◌, arith,
}
use skifity.Prelude.Tables.{
  update_where, max_of, insert_desc, order_desc, insert_asc, order_asc, Apart,
}

module _ {ℓ} {A : Type ℓ} where
  -- What holds of a kept row and of a dropped one holds of the step of a filter.
  filter_step {κ} :
      (M : List A → Type κ) (b : Bool) (x : A) (rest : List A)
      → (b ≡ true → M (x ∷ rest))
      → (b ≡ false → M rest)
      → M (elim b [ true ↦ x ∷ rest | false ↦ rest ])
  filter_step M true x rest f g = f refl
  filter_step M false x rest f g = g refl

  filter_by :
      (b : Bool) (x : A) (rest : List A)
      → ((b ≡ true → (elim b [ true ↦ x ∷ rest | false ↦ rest ]) ≡ x ∷ rest)
          × (b ≡ false → (elim b [ true ↦ x ∷ rest | false ↦ rest ]) ≡ rest))
  filter_by true x rest = (λ e. refl, λ e. cc)
  filter_by false x rest = (λ e. cc, λ e. refl)

  pub filter_hit :
      (p : A → Bool) (x : A) (xs : List A) → p x ≡ true → filter p (x ∷ xs) ≡ x ∷ filter p xs
  filter_hit p x xs = (filter_by (p x) x (filter p xs)).0

  pub filter_miss :
      (p : A → Bool) (x : A) (xs : List A) → p x ≡ false → filter p (x ∷ xs) ≡ filter p xs
  filter_miss p x xs = (filter_by (p x) x (filter p xs)).1

  module _ {κ} (P : A → Type κ) where
    pub All-filter : (p : A → Bool) (xs : List A) → All P xs → All P (filter p xs)
    All-filter p [] h = tt
    All-filter p (x ∷ xs) h =
        filter_step (All P) (p x) x (filter p xs) (λ e. (h.0, All-filter p xs h.1))
          (λ e. All-filter p xs h.1)

    pub All-take : (n : ℕ) (xs : List A) → All P xs → All P (take n xs)
    All-take zero xs h = tt
    All-take (suc n) [] h = tt
    All-take (suc n) (x ∷ xs) h = (h.0, All-take n xs h.1)

    pub All-update_where :
        (p : A → Bool) (f : A → A) (xs : List A)
        → ((x : A) → P x → P (f x))
        → All P xs
        → All P (update_where p f xs)
    unfolding update_where
    All-update_where p f [] g h = tt
    All-update_where p f (x ∷ xs) g h = elim (Bool-cases (p x)) [
      | inl e ↦ rw e (g x h.0, All-update_where p f xs g h.1)
      | inr e ↦ rw e (h.0, All-update_where p f xs g h.1)
    ]

    -- The rows that are changed are those that the test holds of.
    pub All-update_where_if :
        (p : A → Bool) (f : A → A) (xs : List A)
        → ((x : A) → p x ≡ true → P x → P (f x))
        → All P xs
        → All P (update_where p f xs)
    unfolding update_where
    All-update_where_if p f [] g h = tt
    All-update_where_if p f (x ∷ xs) g h = elim (Bool-cases (p x)) [
      | inl e ↦ rw e (g x e h.0, All-update_where_if p f xs g h.1)
      | inr e ↦ rw e (h.0, All-update_where_if p f xs g h.1)
    ]

    pub All-insert_desc :
        (key : A → ℕ) (x : A) (ys : List A) → P x → All P ys → All P (insert_desc key x ys)
    unfolding insert_desc
    All-insert_desc key x [] p h = (p, tt)
    All-insert_desc key x (y ∷ ys) p h = elim (Bool-cases (ltb (key x) (key y))) [
      | inl e ↦ rw e (h.0, All-insert_desc key x ys p h.1)
      | inr e ↦ rw e (p, h)
    ]

    pub All-order_desc : (key : A → ℕ) (xs : List A) → All P xs → All P (order_desc key xs)
    unfolding order_desc
    All-order_desc key [] h = tt
    All-order_desc key (x ∷ xs) h =
        All-insert_desc key x (order_desc key xs) h.0 (All-order_desc key xs h.1)

    pub All-insert_asc :
        (key : A → ℕ) (x : A) (ys : List A) → P x → All P ys → All P (insert_asc key x ys)
    unfolding insert_asc
    All-insert_asc key x [] p h = (p, tt)
    All-insert_asc key x (y ∷ ys) p h = elim (Bool-cases (ltb (key y) (key x))) [
      | inl e ↦ rw e (h.0, All-insert_asc key x ys p h.1)
      | inr e ↦ rw e (p, h)
    ]

    pub All-order_asc : (key : A → ℕ) (xs : List A) → All P xs → All P (order_asc key xs)
    unfolding order_asc
    All-order_asc key [] h = tt
    All-order_asc key (x ∷ xs) h =
        All-insert_asc key x (order_asc key xs) h.0 (All-order_asc key xs h.1)

  pub All-imp {κ ι} :
      (P : A → Type κ) (Q : A → Type ι) (xs : List A) → ((x : A) → P x → Q x) → All P xs → All Q xs
  All-imp P Q [] f h = tt
  All-imp P Q (x ∷ xs) f h = (f x h.0, All-imp P Q xs f h.1)

  pub All-of {κ} : (P : A → Type κ) (xs : List A) → ((x : A) → P x) → All P xs
  All-of P [] f = tt
  All-of P (x ∷ xs) f = (f x, All-of P xs f)

  pub All-zip {κ ι μ} :
      (P : A → Type κ) (Q : A → Type ι) (R : A → Type μ) (xs : List A)
      → ((x : A) → P x → Q x → R x)
      → All P xs
      → All Q xs
      → All R xs
  All-zip P Q R [] f hp hq = tt
  All-zip P Q R (x ∷ xs) f hp hq = (f x hp.0 hq.0, All-zip P Q R xs f hp.1 hq.1)

  pub All-filter-holds : (p : A → Bool) (xs : List A) → All (λ x. p x ≡ true) (filter p xs)
  All-filter-holds p [] = tt
  All-filter-holds p (x ∷ xs) =
      filter_step (All (λ y. p y ≡ true)) (p x) x (filter p xs) (λ e. (e, All-filter-holds p xs))
        (λ e. All-filter-holds p xs)

  unfilter_step {κ ι} :
      (P : A → Type κ) (G : Type ι) (b : Bool) (x : A) (rest : List A)
      → (All P rest → G)
      → All P (elim b [ true ↦ x ∷ rest | false ↦ rest ])
      → (b ≡ true → P x) × G
  unfilter_step P G true x rest f h = (λ e. h.0, f h.1)
  unfilter_step P G false x rest f h = (λ e. cc, f h)

  pub All-unfilter {κ} :
      (P : A → Type κ) (p : A → Bool) (xs : List A)
      → All P (filter p xs)
      → All (λ x. p x ≡ true → P x) xs
  All-unfilter P p [] h = tt
  All-unfilter P p (x ∷ xs) h =
      unfilter_step P (All (λ y. p y ≡ true → P y) xs) (p x) x (filter p xs) (All-unfilter P p xs) h

  pub filter-keeps : (p : A → Bool) (xs : List A) → All (λ x. p x ≡ true) xs → filter p xs ≡ xs
  filter-keeps p [] h = refl
  filter-keeps p (x ∷ xs) h = filter_hit p x xs h.0 ∙ ap (λ rest. x ∷ rest) (filter-keeps p xs h.1)

  pub none-any : (p : A → Bool) (xs : List A) → All (λ x. p x ≡ false) xs → any p xs ≡ false
  none-any p [] h = refl
  none-any p (x ∷ xs) h = rw h.0 (none-any p xs h.1)

  -- A row that passes one test, where none passes it with the other, is among those left.
  pub any_left :
      (p q : A → Bool) (xs : List A)
      → any p xs ≡ true
      → any (λ x. q x && p x) xs ≡ false
      → any p (filter (λ x. not (q x)) xs) ≡ true
  any_left p q [] h none_both = cc
  any_left p q (x ∷ xs) h none_both = ground (arith, any_left p q xs)

  -- No row passes a test that none of them was found to pass.
  pub any-none : (p : A → Bool) (xs : List A) → any p xs ≡ false → All (λ x. p x ≡ false) xs
  any-none p [] h = tt
  any-none p (x ∷ xs) h = elim (Bool-cases (p x)) [
    | inl e ↦ absurd (miss (p x) (any p xs) e h)
    | inr e ↦ (e, any-none p xs (rest (p x) (any p xs) e h))
  ]
    where
      miss : (a b : Bool) → a ≡ true → (a || b) ≡ false → ⊥
      miss true b e h = cc
      miss false b e h = cc

      rest : (a b : Bool) → a ≡ false → (a || b) ≡ false → b ≡ false
      rest true b e h = cc
      rest false b e h = h

  module _ (R : A → A → Type 0) where
    pub Apart-snoc :
        (xs : List A) (y : A) → Apart R xs → All (λ x. R x y) xs → Apart R (xs ++ y ∷ [])
    Apart-snoc [] y h r = (tt, tt)
    Apart-snoc (x ∷ xs) y h r =
        (All-append (R x) xs (y ∷ []) h.0 (r.0, tt), Apart-snoc xs y h.1 r.1)

    pub Apart-filter : (p : A → Bool) (xs : List A) → Apart R xs → Apart R (filter p xs)
    Apart-filter p [] h = tt
    Apart-filter p (x ∷ xs) h =
        filter_step (Apart R) (p x) x (filter p xs)
          (λ e. (All-filter (R x) p xs h.0, Apart-filter p xs h.1)) (λ e. Apart-filter p xs h.1)

    -- An update that keeps what the relation is about.
    pub Apart-update_where :
        (p : A → Bool) (f : A → A) (xs : List A)
        → ((x y : A) → R x y → R x (f y))
        → ((x y : A) → R x y → R (f x) y)
        → Apart R xs
        → Apart R (update_where p f xs)
    unfolding update_where
    Apart-update_where p f [] r l h = tt
    Apart-update_where p f (x ∷ xs) r l h = elim (Bool-cases (p x)) [
      | inl e ↦ rw e (
        All-update_where (R (f x)) p f xs (λ y. r (f x) y) (All-imp (R x) (R (f x)) xs (l x) h.0),
        Apart-update_where p f xs r l h.1,
      )
      | inr e ↦ rw e (All-update_where (R x) p f xs (r x) h.0, Apart-update_where p f xs r l h.1)
    ]

  pub any-update_where :
      (q p : A → Bool) (f : A → A) (xs : List A)
      → ((x : A) → q (f x) ≡ q x)
      → any q (update_where p f xs) ≡ any q xs
  unfolding update_where
  any-update_where q p f [] same = refl
  any-update_where q p f (x ∷ xs) same = elim (Bool-cases (p x)) [
    | inl e ↦ rw e (rw (same x) (ap (λ b. q x || b) (any-update_where q p f xs same)))
    | inr e ↦ rw e (ap (λ b. q x || b) (any-update_where q p f xs same))
  ]

  -- What holds of the rows that are written, and of those that are not.
  pub All-written_where {κ ι} :
      (Q : A → Type ι) (P : A → Type κ) (p : A → Bool) (f : A → A) (xs : List A)
      → ((x : A) → p x ≡ true → Q x → P (f x))
      → ((x : A) → p x ≡ false → Q x → P x)
      → All Q xs
      → All P (update_where p f xs)
  unfolding update_where
  All-written_where Q P p f [] g k h = tt
  All-written_where Q P p f (x ∷ xs) g k h = elim (Bool-cases (p x)) [
    | inl e ↦ rw e (g x e h.0, All-written_where Q P p f xs g k h.1)
    | inr e ↦ rw e (k x e h.0, All-written_where Q P p f xs g k h.1)
  ]

  pub All-written {κ} :
      (P : A → Type κ) (p : A → Bool) (f : A → A) (xs : List A)
      → ((x : A) → p x ≡ true → P (f x))
      → ((x : A) → p x ≡ false → P x)
      → All P (update_where p f xs)
  unfolding update_where
  All-written P p f [] g k = tt
  All-written P p f (x ∷ xs) g k = elim (Bool-cases (p x)) [
    | inl e ↦ rw e (g x e, All-written P p f xs g k)
    | inr e ↦ rw e (k x e, All-written P p f xs g k)
  ]

  pub max_of-bound : (key : A → ℕ) (xs : List A) → All (λ x. key x ≤ max_of key xs) xs
  unfolding max_of
  max_of-bound key [] = tt
  max_of-bound key (x ∷ xs) = (
    ground arith,
    All-imp (λ y. key y ≤ max_of key xs) (λ y. key y ≤ max_of key (x ∷ xs)) xs (λ y h. ground arith)
        (max_of-bound key xs),
  )
