-- ===== src/Prelude/OrderLaws.antt =====
-- The order of rows by a column, and rows that are apart from each other.
use skifity.Prelude.{
  ltb, if◌then◌else◌, Bool-cases, filter, All, ℕ, suc, ◌≤◌, ◌≡◌, refl, sym, ap, ◌∙◌, inl, inr, Bool,
  true, false, List, [], ◌∷◌, map, arith,
}
use skifity.Prelude.Tables.{count, insert_desc, order_desc, insert_asc, order_asc, Apart}
use skifity.Prelude.TableLaws.{
  filter_hit, filter_miss, All-filter, All-insert_desc, All-order_desc, All-insert_asc,
  All-order_asc, All-imp, All-zip,
}

module _ {ℓ} {A : Type ℓ} where
  -- Rows in falling order of a key.
  abbrev pub Falling : (A → ℕ) → List A → Type 0
  Falling key xs = Apart (λ x y. key y ≤ key x) xs

  insert_desc-Falling :
      (key : A → ℕ) (x : A) (ys : List A) → Falling key ys → Falling key (insert_desc key x ys)
  unfolding insert_desc
  insert_desc-Falling key x [] h = (tt, tt)
  insert_desc-Falling key x (y ∷ ys) h = elim (Bool-cases (ltb (key x) (key y))) [
    | inl e ↦ rw e (
      All-insert_desc (λ z. key z ≤ key y) key x ys (ground (arith, e)) h.0,
      insert_desc-Falling key x ys h.1,
    )
    | inr e ↦ rw e (
      (
        ground (arith, e),
        All-imp (λ z. key z ≤ key y) (λ z. key z ≤ key x) ys (λ z le. ground (arith, e, le)) h.0,
      ),
      h,
    )
  ]

  pub order_desc-Falling : (key : A → ℕ) (xs : List A) → Falling key (order_desc key xs)
  unfolding order_desc
  order_desc-Falling key [] = tt
  order_desc-Falling key (x ∷ xs) =
      insert_desc-Falling key x (order_desc key xs) (order_desc-Falling key xs)

  -- Rows in rising order of a key.
  abbrev pub Rising : (A → ℕ) → List A → Type 0
  Rising key xs = Apart (λ x y. key x ≤ key y) xs

  insert_asc-Rising :
      (key : A → ℕ) (x : A) (ys : List A) → Rising key ys → Rising key (insert_asc key x ys)
  unfolding insert_asc
  insert_asc-Rising key x [] h = (tt, tt)
  insert_asc-Rising key x (y ∷ ys) h = elim (Bool-cases (ltb (key y) (key x))) [
    | inl e ↦ rw e (
      All-insert_asc (λ z. key y ≤ key z) key x ys (ground (arith, e)) h.0,
      insert_asc-Rising key x ys h.1,
    )
    | inr e ↦ rw e (
      (
        ground (arith, e),
        All-imp (λ z. key y ≤ key z) (λ z. key x ≤ key z) ys (λ z le. ground (arith, e, le)) h.0,
      ),
      h,
    )
  ]

  pub order_asc-Rising : (key : A → ℕ) (xs : List A) → Rising key (order_asc key xs)
  unfolding order_asc
  order_asc-Rising key [] = tt
  order_asc-Rising key (x ∷ xs) =
      insert_asc-Rising key x (order_asc key xs) (order_asc-Rising key xs)

  insert_asc-front :
      (key : A → ℕ) (x : A) (ys : List A)
      → All (λ y. key x ≤ key y) ys
      → insert_asc key x ys ≡ x ∷ ys
  unfolding insert_asc
  insert_asc-front key x [] h = refl
  insert_asc-front key x (y ∷ ys) h = rw (not_less (key x) (key y) h.0) refl
    where
      not_less : (m n : ℕ) → m ≤ n → ltb n m ≡ false
      not_less m n le = ground (arith, le)

  insert_asc-later :
      (key : A → ℕ) (x y : A) (ys : List A)
      → ltb (key y) (key x) ≡ true
      → insert_asc key x (y ∷ ys) ≡ y ∷ insert_asc key x ys
  unfolding insert_asc
  insert_asc-later key x y ys less = rw less refl

  -- A test that drops the inserted row, and one that keeps it.
  filter-insert_asc :
      (key : A → ℕ) (p : A → Bool) (x : A) (ys : List A) (b : Bool)
      → p x ≡ b
      → Rising key ys
      → filter p (insert_asc key x ys)
        ≡ elim b [ true ↦ insert_asc key x (filter p ys) | false ↦ filter p ys ]
  unfolding insert_asc
  filter-insert_asc key p x [] true e h = rw e refl
  filter-insert_asc key p x [] false e h = rw e refl
  filter-insert_asc key p x (y ∷ ys) true e h = elim (Bool-cases (ltb (key y) (key x))) [
    | inl less ↦ rw less (elim (Bool-cases (p y)) [
      | inl hit ↦
          filter_hit p y (insert_asc key x ys) hit
          ∙ ap (λ rest. y ∷ rest) (filter-insert_asc key p x ys true e h.1)
          ∙ sym (insert_asc-later key x y (filter p ys) less)
          ∙ ap (insert_asc key x) (sym (filter_hit p y ys hit))
      | inr miss ↦
          filter_miss p y (insert_asc key x ys) miss
          ∙ filter-insert_asc key p x ys true e h.1
          ∙ ap (insert_asc key x) (sym (filter_miss p y ys miss))
    ])
    | inr more ↦ rw more (
        filter_hit p x (y ∷ ys) e
        ∙ sym (
            insert_asc-front key x (filter p (y ∷ ys)) (
              All-filter (λ z. key x ≤ key z) p (y ∷ ys)
                (
                  not_less (key x) (key y) more,
                  All-imp (λ z. key y ≤ key z) (λ z. key x ≤ key z) ys
                      (λ z le. ground (arith, not_less (key x) (key y) more, le)) h.0,
                ))))
  ]
    where
      not_less : (m n : ℕ) → ltb n m ≡ false → m ≤ n
      not_less m n le = ground (arith, le)
  filter-insert_asc key p x (y ∷ ys) false e h = elim (Bool-cases (ltb (key y) (key x))) [
    | inl less ↦ rw less (
        ap (λ rest. elim (p y) as (λ _. List A) [ true ↦ y ∷ rest | false ↦ rest ])
          (filter-insert_asc key p x ys false e h.1))
    | inr more ↦ rw more (filter_miss p x (y ∷ ys) e)
  ]

  pub filter-order_asc :
      (key : A → ℕ) (p : A → Bool) (xs : List A)
      → filter p (order_asc key xs) ≡ order_asc key (filter p xs)
  unfolding order_asc
  filter-order_asc key p [] = refl
  filter-order_asc key p (x ∷ xs) =
      filter-insert_asc key p x (order_asc key xs) (p x) refl (order_asc-Rising key xs)
      ∙ go (p x) (filter-order_asc key p xs)
    where
      go :
          (b : Bool)
          → filter p (order_asc key xs) ≡ order_asc key (filter p xs)
          → elim b as (λ _. List A) [
            | true ↦ insert_asc key x (filter p (order_asc key xs))
            | false ↦ filter p (order_asc key xs)
          ]
            ≡ order_asc key (elim b [ true ↦ x ∷ filter p xs | false ↦ filter p xs ])
      go true h = ap (insert_asc key x) h
      go false h = h

  module _ (R : A → A → Type 0) (symmetric : (x y : A) → R x y → R y x) where
    insert_desc-Apart :
        (key : A → ℕ) (x : A) (ys : List A)
        → All (R x) ys
        → Apart R ys
        → Apart R (insert_desc key x ys)
    unfolding insert_desc
    insert_desc-Apart key x [] r h = (tt, tt)
    insert_desc-Apart key x (y ∷ ys) r h = elim (Bool-cases (ltb (key x) (key y))) [
      | inl e ↦ rw e (
        All-insert_desc (R y) key x ys (symmetric x y r.0) h.0,
        insert_desc-Apart key x ys r.1 h.1,
      )
      | inr e ↦ rw e (r, h)
    ]

    pub order_desc-Apart : (key : A → ℕ) (xs : List A) → Apart R xs → Apart R (order_desc key xs)
    unfolding order_desc
    order_desc-Apart key [] h = tt
    order_desc-Apart key (x ∷ xs) h =
        insert_desc-Apart key x (order_desc key xs) (All-order_desc (R x) key xs h.0)
          (order_desc-Apart key xs h.1)

  module _ (R : A → A → Type 0) (symmetric : (x y : A) → R x y → R y x) where
    insert_asc-Apart :
        (key : A → ℕ) (x : A) (ys : List A)
        → All (R x) ys
        → Apart R ys
        → Apart R (insert_asc key x ys)
    unfolding insert_asc
    insert_asc-Apart key x [] r h = (tt, tt)
    insert_asc-Apart key x (y ∷ ys) r h = elim (Bool-cases (ltb (key y) (key x))) [
      | inl e ↦
          rw e (
            All-insert_asc (R y) key x ys (symmetric x y r.0) h.0,
            insert_asc-Apart key x ys r.1 h.1,
          )
      | inr e ↦ rw e (r, h)
    ]

    pub order_asc-Apart : (key : A → ℕ) (xs : List A) → Apart R xs → Apart R (order_asc key xs)
    unfolding order_asc
    order_asc-Apart key [] h = tt
    order_asc-Apart key (x ∷ xs) h =
        insert_asc-Apart key x (order_asc key xs) (All-order_asc (R x) key xs h.0)
          (order_asc-Apart key xs h.1)

  -- What two rows that have a property are to each other, by what they are in two ways.
  pub Apart-zip {κ} :
      (P : A → Type κ) (R S T : A → A → Type 0) (xs : List A)
      → ((x y : A) → P x → P y → R x y → S x y → T x y)
      → All P xs
      → Apart R xs
      → Apart S xs
      → Apart T xs
  Apart-zip P R S T [] f p r s = tt
  Apart-zip P R S T (x ∷ xs) f p r s = (
    All-zip (λ y. P y × R x y) (S x) (T x) xs (λ y pr h. f x y p.0 pr.0 pr.1 h)
        (All-zip P (R x) (λ y. P y × R x y) xs (λ y hp hr. (hp, hr)) p.1 r.0) s.0,
    Apart-zip P R S T xs f p.1 r.1 s.1,
  )

module _ {ℓ κ} {A : Type ℓ} {B : Type κ} (f : A → B) where
  pub All-map {ι} : (P : B → Type ι) (xs : List A) → All (λ x. P (f x)) xs → All P (map f xs)
  All-map P [] h = tt
  All-map P (x ∷ xs) h = (h.0, All-map P xs h.1)

  pub Apart-map :
      (R : B → B → Type 0) (xs : List A) → Apart (λ x y. R (f x) (f y)) xs → Apart R (map f xs)
  Apart-map R [] h = tt
  Apart-map R (x ∷ xs) h = (All-map (R (f x)) xs h.0, Apart-map R xs h.1)

  pub count-map : (p : B → Bool) (xs : List A) → count p (map f xs) ≡ count (λ x. p (f x)) xs
  unfolding count
  count-map p [] = refl
  count-map p (x ∷ xs) = ap (λ n. if p (f x) then suc n else n) (count-map p xs)
