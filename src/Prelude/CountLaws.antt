-- ===== src/Prelude/CountLaws.antt =====
-- How many rows pass a test, after ordering, deleting and changing them.
use skifity.Prelude.{
  if◌then◌else◌, filter, All, ℕ, suc, ◌≤◌, ◌≡◌, refl, ap, Bool, true, false, ◌&&◌, List, [], ◌∷◌,
  arith,
}
use skifity.Prelude.Tables.{count, insert_desc, order_desc}

count_step :
    (a b : Bool) (m n : ℕ)
    → (a ≡ true → b ≡ true)
    → m ≤ n
    → (if a then suc m else m) ≤ (if b then suc n else n)
count_step true true m n f h = omega (arith, h)
count_step true false m n f h = ground (arith, f refl)
count_step false true m n f h = omega (arith, h)
count_step false false m n f h = h

module _ {ℓ} {A : Type ℓ} where
  module _ (p : A → Bool) where
    pub count-insert_desc :
        (key : A → ℕ) (x : A) (ys : List A) → count p (insert_desc key x ys) ≡ count p (x ∷ ys)
    unfolding insert_desc count
    count-insert_desc key x [] = refl
    count-insert_desc key x (y ∷ ys) = ground (arith, count-insert_desc key x ys)

    pub count-order_desc : (key : A → ℕ) (xs : List A) → count p (order_desc key xs) ≡ count p xs
    unfolding order_desc count
    count-order_desc key [] = refl
    count-order_desc key (x ∷ xs) =
        ground (arith, count-insert_desc key x (order_desc key xs), count-order_desc key xs)

    pub count-filter :
        (q : A → Bool) (xs : List A) → count p (filter q xs) ≡ count (λ x. q x && p x) xs
    unfolding count
    count-filter q [] = refl
    count-filter q (x ∷ xs) = ground (arith, count-filter q xs)

  -- Rows that pass one test pass the other.
  pub count_le :
      (p q : A → Bool) (xs : List A)
      → All (λ x. p x ≡ true → q x ≡ true) xs
      → count p xs ≤ count q xs
  unfolding count
  count_le p q [] h = omega arith
  count_le p q (x ∷ xs) h =
      count_step (p x) (q x) (count p xs) (count q xs) h.0 (count_le p q xs h.1)

  pub count_same :
      (p q : A → Bool) (xs : List A) → All (λ x. p x ≡ q x) xs → count p xs ≡ count q xs
  unfolding count
  count_same p q [] h = refl
  count_same p q (x ∷ xs) h = rw h.0 (ap (λ n. if q x then suc n else n) (count_same p q xs h.1))

  pub count_none : (p : A → Bool) (xs : List A) → All (λ x. p x ≡ false) xs → count p xs ≡ 0
  unfolding count
  count_none p [] h = refl
  count_none p (x ∷ xs) h = rw h.0 (count_none p xs h.1)
