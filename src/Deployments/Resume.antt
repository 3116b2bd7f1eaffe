-- ===== src/Deployments/Resume.antt =====
-- A stream of build output that is resumed after its last line misses none and repeats none.
use skifity.Prelude.{
  take, filter, ℕ, zero, suc, ◌≡◌, refl, sym, ap, ◌∙◌, Bool, true, false, ◌&&◌, List, [], ◌∷◌, ◌++◌,
  map,
}
use skifity.Prelude.Int.{ℤ}
use skifity.Prelude.Text.{Text}
use skifity.Prelude.Tables.{Apart}
use skifity.Prelude.TableLaws.{All-take, All-filter-holds, Apart-filter}
use skifity.Deployments.Rows.{BuildLog, Database, page_size}
use skifity.Deployments.Logs.{listed, lines_after, list_build_logs}
use skifity.Deployments.Consistent.{Consistent}
use skifity.Deployments.Pages.{
  after_number, last_of, last_row, last_of-listed, Later, page_and_rest, map_append, take-map,
  filter-filter, numbered, lines_after-numbered, numbered-Later, last_row_bound,
}

-- A weaker test changes nothing before a stronger one.
filter_weaker :
    (p q : BuildLog → Bool) (rows : List BuildLog)
    → ((x : BuildLog) → p x ≡ true → q x ≡ true)
    → filter p (filter q rows) ≡ filter p rows
filter_weaker p q rows h = filter-filter p q rows ∙ go rows
  where
    both : (a b : Bool) → (b ≡ true → a ≡ true) → (a && b) ≡ b
    both true b k = refl
    both false true k = k refl
    both false false k = refl

    go : (xs : List BuildLog) → filter (λ x. q x && p x) xs ≡ filter p xs
    go [] = refl
    go (x ∷ xs) =
        ap
          (λ b. elim b as (λ _. List BuildLog) [
            | true ↦ x ∷ filter (λ y. q y && p y) xs
            | false ↦ filter (λ y. q y && p y) xs
          ])
          (both (q x) (p x) (h x))
        ∙ ap (λ rest. elim (p x) as (λ _. List BuildLog) [ true ↦ x ∷ rest | false ↦ rest ]) (go xs)

cut_after :
    (n : ℕ) (since : ℤ) (rows : List BuildLog)
    → Apart Later rows
    → filter (after_number since) rows
      ≡ take n (filter (after_number since) rows)
        ++ filter (after_number (last_row since (take n (filter (after_number since) rows)))) rows
cut_after n since rows apart =
    let left = filter (after_number since) rows in
    let left_apart = Apart-filter Later (after_number since) rows apart in
    let left_after = All-filter-holds (after_number since) rows in
    let page = take n left in
    page_and_rest n since left left_apart left_after
    ∙ ap (λ rest. page ++ rest)
        (filter_weaker (after_number (last_row since page)) (after_number since) rows (λ x.
          last_row_bound since page x
            (All-take (λ l. after_number since l ≡ true) n left left_after)
            (Apart-take n left left_apart)))
  where
    Apart-take : (k : ℕ) (xs : List BuildLog) → Apart Later xs → Apart Later (take k xs)
    Apart-take zero xs h = tt
    Apart-take (suc k) [] h = tt
    Apart-take (suc k) (x ∷ xs) h = (All-take (Later x) k xs h.0, Apart-take k xs h.1)

-- Where the keys of the rows are apart, the lines of a build after a number are the page that
-- ListBuildLogs gives, followed by the lines after the last number of that page: a stream that is
-- resumed misses no line and repeats none.
pub list_build_logs-resume :
    (db : Database) (id : Text) (since limit : ℤ)
    → Consistent db
    → lines_after db id since
      ≡ list_build_logs db id since limit
        ++ lines_after db id (last_of since (list_build_logs db id since limit))
unfolding list_build_logs
list_build_logs-resume db id since limit c =
    let n = page_size limit 5000 2000 in
    let rows = numbered db id in
    let left = filter (after_number since) rows in
    let listed_page = ap (take n) (lines_after-numbered db id since) ∙ take-map n left in
    lines_after-numbered db id since
    ∙ ap (map listed) (cut_after n since rows (numbered-Later db id c))
    ∙ map_append (take n left) (filter (after_number (last_row since (take n left))) rows)
    ∙ ap (λ t. map listed (take n left) ++ map listed (filter (after_number t) rows))
        (sym (last_of-listed since (take n left)))
    ∙ ap (λ page. page ++ map listed (filter (after_number (last_of since page)) rows))
        (sym listed_page)
    ∙ ap (λ rest. take n (lines_after db id since) ++ rest)
        (sym (lines_after-numbered db id (last_of since (take n (lines_after db id since)))))
