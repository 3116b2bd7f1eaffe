-- ===== src/Prelude/Tables.antt =====
-- The rows of a database table as a list, and what the program's statements do with them.
use Prim.Native.Nat.{ℕ, suc}
use mathlib.Core.Bool.{Bool}
use mathlib.Core.List.{List, [], ◌∷◌}
use mathlib.Core.Option.{Option, none, some}
use skifity.Prelude.Tests.{ltb, if◌then◌else◌}
use skifity.Prelude.Lists.{All}

module _ {ℓ} {A : Type ℓ} where
  -- The first row that a test holds of.
  unfoldable pub find : (A → Bool) → List A → Option A
  find p [] = none
  find p (x ∷ xs) = if p x then some x else find p xs

  unfoldable pub update_where : (A → Bool) → (A → A) → List A → List A
  update_where p f [] = []
  update_where p f (x ∷ xs) = (if p x then f x else x) ∷ update_where p f xs

  unfoldable pub count : (A → Bool) → List A → ℕ
  count p [] = 0
  count p (x ∷ xs) = if p x then suc (count p xs) else count p xs

  -- `MAX` of a column, where no row gives 0.
  unfoldable pub max_of : (A → ℕ) → List A → ℕ
  max_of key [] = 0
  max_of key (x ∷ xs) = if ltb (max_of key xs) (key x) then key x else max_of key xs

  -- `ORDER BY key DESC` and `ORDER BY key`.
  unfoldable pub insert_desc : (A → ℕ) → A → List A → List A
  insert_desc key x [] = x ∷ []
  insert_desc key x (y ∷ ys) =
      let rest = insert_desc key x ys in if ltb (key x) (key y) then y ∷ rest else x ∷ y ∷ ys

  unfoldable pub order_desc : (A → ℕ) → List A → List A
  unfolding insert_desc
  order_desc key [] = []
  order_desc key (x ∷ xs) = insert_desc key x (order_desc key xs)

  unfoldable pub insert_asc : (A → ℕ) → A → List A → List A
  insert_asc key x [] = x ∷ []
  insert_asc key x (y ∷ ys) =
      let rest = insert_asc key x ys in if ltb (key y) (key x) then y ∷ rest else x ∷ y ∷ ys

  unfoldable pub order_asc : (A → ℕ) → List A → List A
  unfolding insert_asc
  order_asc key [] = []
  order_asc key (x ∷ xs) = insert_asc key x (order_asc key xs)

  unfoldable pub head : List A → Option A
  head [] = none
  head (x ∷ xs) = some x

  -- Every two rows, the first of them before the second, are apart.
  abbrev pub Apart : (A → A → Type 0) → List A → Type 0
  Apart R [] = Unit
  Apart R (x ∷ xs) = All (R x) xs × Apart R xs
