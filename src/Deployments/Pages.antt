-- ===== src/Deployments/Pages.antt =====
-- The lines of a build in the order of their numbers, cut after a line.
use skifity.Prelude.{nat_eq}
use skifity.Prelude.{
  ltb, nat_beq, Bool-cases, list_beq_iff, take, filter, All, ℕ, zero, suc, ◌≤◌, ◌≡◌, refl, sym, ap,
  ◌∙◌, inl, inr, Bool, true, false, ◌&&◌, List, [], ◌∷◌, ◌++◌, map, arith,
}
use skifity.Prelude.Int.{ℤ, ltb_ℤ, pos, negsuc}
use skifity.Prelude.Text.{Text}
use skifity.Prelude.Tables.{order_asc, Apart}
use skifity.Prelude.TableLaws.{
  filter_hit, filter_miss, All-take, All-imp, All-of, All-filter-holds, filter-keeps, Apart-filter,
}
use skifity.Prelude.OrderLaws.{order_asc-Rising, filter-order_asc, order_asc-Apart, Apart-zip}
use skifity.Deployments.Rows.{BuildLog, Database}
use skifity.Deployments.Logs.{LogLine, of_deployment, listed, lines_after}
use skifity.Deployments.Consistent.{OtherLine, Consistent}

abbrev pub after_number : ℤ → BuildLog → Bool
after_number since l = ltb_ℤ since (pos l.seq)

-- The number of the last line of a page, or the number that the page starts after.
unfoldable pub last_of : ℤ → List LogLine → ℤ
last_of since [] = since
last_of since (l ∷ lines) = last_of (pos l.seq) lines

unfoldable pub last_row : ℤ → List BuildLog → ℤ
last_row since [] = since
last_row since (l ∷ rows) = last_row (pos l.seq) rows

pub last_of-listed :
    (since : ℤ) (rows : List BuildLog) → last_of since (map listed rows) ≡ last_row since rows
unfolding last_of last_row
last_of-listed since [] = refl
last_of-listed since (l ∷ rows) = last_of-listed (pos l.seq) rows

-- Rows of one deployment in rising order, with no number twice.
abbrev pub Later : BuildLog → BuildLog → Type 0
Later a b = ltb a.seq b.seq ≡ true

not_after_self : (n : ℕ) → ltb_ℤ (pos n) (pos n) ≡ false
not_after_self n = ground arith

later_after : (m n : ℕ) → ltb m n ≡ true → ltb_ℤ (pos m) (pos n) ≡ true
later_after m n h = ground (arith, h)

after_before :
    (m n : ℕ) (since : ℤ) → ltb m n ≡ true → ltb_ℤ since (pos m) ≡ true → ltb_ℤ since (pos n) ≡ true
after_before m n (pos k) h g = ground (arith, h, g)
after_before m n (negsuc k) h g = ground (arith, h, g)

not_after_later : (m n : ℕ) → ltb m n ≡ true → ltb_ℤ (pos n) (pos m) ≡ false
not_after_later m n h = ground (arith, h)

-- What is before every row of a page is before the last of it.
before_last :
    (x : BuildLog) (since : ℤ) (rows : List BuildLog)
    → ltb_ℤ since (pos x.seq) ≡ false
    → All (Later x) rows
    → after_number (last_row since rows) x ≡ false
unfolding last_row
before_last x since [] h later = h
before_last x since (l ∷ rows) h later =
    before_last x (pos l.seq) rows (not_after_later x.seq l.seq later.0) later.1

-- Rising rows are the first of them and those after the last of these.
pub page_and_rest :
    (n : ℕ) (since : ℤ) (rows : List BuildLog)
    → Apart Later rows
    → All (λ x. after_number since x ≡ true) rows
    → rows ≡ take n rows ++ filter (after_number (last_row since (take n rows))) rows
unfolding last_row
page_and_rest zero since rows h after = sym (filter-keeps (after_number since) rows after)
page_and_rest (suc n) since [] h after = refl
page_and_rest (suc n) since (x ∷ rows) h after =
    ap (λ rest. x ∷ rest)
      (page_and_rest n (pos x.seq) rows h.1 (
          All-imp (Later x) (λ y. after_number (pos x.seq) y ≡ true) rows
            (λ y. later_after x.seq y.seq) h.0)
        ∙ ap (λ rest. take n rows ++ rest)
            (sym (
              filter_miss (after_number (last_row (pos x.seq) (take n rows))) x rows (
                before_last x (pos x.seq) (take n rows) (not_after_self x.seq)
                  (All-take (Later x) n rows h.0)))))

pub map_append : (xs ys : List BuildLog) → map listed (xs ++ ys) ≡ map listed xs ++ map listed ys
map_append [] ys = refl
map_append (x ∷ xs) ys = ap (λ rest. listed x ∷ rest) (map_append xs ys)

pub take-map : (n : ℕ) (xs : List BuildLog) → take n (map listed xs) ≡ map listed (take n xs)
take-map zero xs = refl
take-map (suc n) [] = refl
take-map (suc n) (x ∷ xs) = ap (λ rest. listed x ∷ rest) (take-map n xs)

pub filter-filter :
    (p q : BuildLog → Bool) (rows : List BuildLog)
    → filter p (filter q rows) ≡ filter (λ x. q x && p x) rows
filter-filter p q [] = refl
filter-filter p q (x ∷ rows) = elim (Bool-cases (q x)) [
  | inl hit ↦
      ap (filter p) (filter_hit q x rows hit)
      ∙ ap (λ rest. elim (p x) as (λ _. List BuildLog) [ true ↦ x ∷ rest | false ↦ rest ])
          (filter-filter p q rows)
      ∙ ap
          (λ b. elim (b && p x) as (λ _. List BuildLog) [
            | true ↦ x ∷ filter (λ y. q y && p y) rows
            | false ↦ filter (λ y. q y && p y) rows
          ])
          (sym hit)
  | inr miss ↦
      ap (filter p) (filter_miss q x rows miss)
      ∙ filter-filter p q rows
      ∙ sym (filter_miss (λ y. q y && p y) x rows (ap (λ b. b && p x) miss))
]

-- The rows of a deployment in the order of their numbers.
abbrev pub numbered : Database → Text → List BuildLog
numbered db id = order_asc (λ l. l.seq) (filter (of_deployment id) db.build_logs)

pub lines_after-numbered :
    (db : Database) (id : Text) (since : ℤ)
    → lines_after db id since ≡ map listed (filter (after_number since) (numbered db id))
unfolding lines_after
lines_after-numbered db id since = ap (map listed) (
    sym (
      filter-order_asc (λ l. l.seq) (after_number since) (filter (of_deployment id) db.build_logs)
      ∙ ap (order_asc (λ l. l.seq))
          (filter-filter (after_number since) (of_deployment id) db.build_logs)))

abbrev OtherSeq : BuildLog → BuildLog → Type 0
OtherSeq a b = nat_beq a.seq b.seq ≡ false

same_deployment :
    (id : Text) (a b : BuildLog) (c : Bool)
    → of_deployment id a ≡ true
    → of_deployment id b ≡ true
    → (of_deployment b.deployment_id a && c) ≡ false
    → c ≡ false
same_deployment id a b c ha hb h = drop_true (of_deployment b.deployment_id a) same h
  where
    same : of_deployment b.deployment_id a ≡ true
    same =
        (list_beq_iff a.deployment_id b.deployment_id).1
          ((list_beq_iff a.deployment_id id).0 ha ∙ sym ((list_beq_iff b.deployment_id id).0 hb))

    drop_true : (d : Bool) → d ≡ true → (d && c) ≡ false → c ≡ false
    drop_true true e k = k
    drop_true false e k = cc

pub numbered-Later : (db : Database) (id : Text) → Consistent db → Apart Later (numbered db id)
numbered-Later db id c =
    let mine = filter (of_deployment id) db.build_logs in
    let apart = Apart-filter OtherLine (of_deployment id) db.build_logs c.lines_apart in
    Apart-zip (λ l. Unit {0}) (λ a b. a.seq ≤ b.seq) OtherSeq Later (numbered db id)
      (λ a b ha hb le other. ground (arith, le, other))
      (All-of (λ l. Unit) (numbered db id) (λ l. tt)) (order_asc-Rising (λ l. l.seq) mine)
      (order_asc-Apart OtherSeq (λ a b h. ground (arith, h)) (λ l. l.seq) mine
        (Apart-zip (λ l. of_deployment id l ≡ true) OtherLine OtherLine OtherSeq mine
          (λ a b ha hb r s. same_deployment id a b (nat_beq a.seq b.seq) ha hb r)
          (All-filter-holds (of_deployment id) db.build_logs) apart apart))

pub last_row_bound :
    (since : ℤ) (rows : List BuildLog) (x : BuildLog)
    → All (λ l. after_number since l ≡ true) rows
    → Apart Later rows
    → after_number (last_row since rows) x ≡ true
    → after_number since x ≡ true
unfolding last_row
last_row_bound since [] x h apart after = after
last_row_bound since (l ∷ rows) x h apart after =
    after_before l.seq x.seq since
      (after_later l.seq x.seq (
        last_row_bound (pos l.seq) rows x
          (All-imp (Later l) (λ y. after_number (pos l.seq) y ≡ true) rows
            (λ y. later_after l.seq y.seq) apart.0)
          apart.1 after))
      h.0
  where
    after_later : (m n : ℕ) → ltb_ℤ (pos m) (pos n) ≡ true → ltb m n ≡ true
    after_later m n k = ground (arith, k)
