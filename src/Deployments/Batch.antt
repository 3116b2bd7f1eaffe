-- ===== src/Deployments/Batch.antt =====
-- A batch of build output is stored as its lines would be one after the other.
use mathlib.Core.List.{append-nil, append_assoc}
use skifity.Prelude.{nat_eq}
use skifity.Prelude.{
  ltb, if◌then◌else◌, Bool-cases, list_beq_iff, filter, All, ℕ, suc, ◌≡◌, refl, sym, ap, ◌∙◌, inl,
  inr, Bool, true, false, Option, none, some, List, [], ◌∷◌, ◌++◌, arith,
}
use skifity.Prelude.Text.{Text, codes}
use skifity.Prelude.Tables.{max_of}
use skifity.Prelude.TableLaws.{filter_hit}
use skifity.Deployments.Rows.{BuildLog, Database, or_text}
use skifity.Deployments.Logs.{
  LogLine, of_deployment, last_seq, log_row, accepts_log, append_build_log, number_lines,
  append_build_logs,
}

-- The lines in their order, each appended by itself.
unfoldable pub append_each : Text → List LogLine → ℕ → Database → Option Database
append_each id [] now db = some db
append_each id (l ∷ lines) now db =
    elim (append_build_log id (or_text l.stream (codes "stdout")) l.line now db) [
      | none ↦ none
      | some (seq, written) ↦ append_each id lines now written
    ]

max_of-snoc :
    (xs : List BuildLog) (r : BuildLog) (n : ℕ)
    → max_of (λ l. l.seq) xs ≡ n
    → r.seq ≡ suc n
    → max_of (λ l. l.seq) (xs ++ r ∷ []) ≡ suc n
unfolding max_of
max_of-snoc xs r n h e = grows xs ∙ ap (λ m. if ltb m r.seq then r.seq else m) h ∙ larger n r.seq e
  where
    larger : (m k : ℕ) → k ≡ suc m → (if ltb m k then k else m) ≡ suc m
    larger m k q = ground (arith, q)

    choose :
        (a b m k : ℕ)
        → b ≡ (if ltb m k then k else m)
        → (if ltb b a then a else b)
          ≡ (if ltb (if ltb m a then a else m) k then k else (if ltb m a then a else m))
    choose a b m k q = ground (arith, q)

    grows :
        (ys : List BuildLog)
        → max_of (λ l. l.seq) (ys ++ r ∷ [])
          ≡ (if ltb (max_of (λ l. l.seq) ys) r.seq then r.seq else max_of (λ l. l.seq) ys)
    grows [] = refl
    grows (y ∷ ys) =
        choose y.seq (max_of (λ l. l.seq) (ys ++ r ∷ [])) (max_of (λ l. l.seq) ys) r.seq (grows ys)

filter_snoc :
    (p : BuildLog → Bool) (xs : List BuildLog) (r : BuildLog)
    → p r ≡ true
    → filter p (xs ++ r ∷ []) ≡ filter p xs ++ r ∷ []
filter_snoc p [] r h = filter_hit p r [] h
filter_snoc p (x ∷ xs) r h = go (p x) (filter_snoc p xs r h)
  where
    go :
        (b : Bool)
        → filter p (xs ++ r ∷ []) ≡ filter p xs ++ r ∷ []
        → (elim b [ true ↦ x ∷ filter p (xs ++ r ∷ []) | false ↦ filter p (xs ++ r ∷ []) ])
          ≡ (elim b [ true ↦ x ∷ filter p xs | false ↦ filter p xs ]) ++ r ∷ []
    go true e = ap (λ rest. x ∷ rest) e
    go false e = e

last_seq-snoc :
    (id : Text) (rows : List BuildLog) (l : LogLine) (now : ℕ)
    → last_seq id (rows ++ log_row id (suc (last_seq id rows)) l now ∷ []) ≡ suc (last_seq id rows)
last_seq-snoc id rows l now =
    let r = log_row id (suc (last_seq id rows)) l now in
    ap (max_of (λ x. x.seq)) (filter_snoc (of_deployment id) rows r ((list_beq_iff id id).1 refl))
    ∙ max_of-snoc (filter (of_deployment id) rows) r (last_seq id rows) refl refl

abbrev with_logs : Database → List BuildLog → Database
with_logs db rows = record db { build_logs = rows }

untimed :
    (id : Text) (seq now : ℕ) (l : LogLine)
    → l.at ≡ none
    → log_row id seq
        (record { seq = 0; stream = or_text l.stream (codes "stdout"); line = l.line; at = none })
        now
      ≡ log_row id seq (record l { stream = or_text l.stream (codes "stdout") }) now
untimed id seq now l h =
    ap
      (λ (t : Option ℕ).
        log_row id seq
          (record { seq = 0; stream = or_text l.stream (codes "stdout"); line = l.line; at = t })
          now)
      (sym h)

stored :
    (id stream line : Text) (now : ℕ) (db : Database)
    → accepts_log db id ≡ true
    → append_build_log id stream line now db
      ≡ some (
        suc (last_seq id db.build_logs),
        with_logs db (
            db.build_logs
            ++ log_row id
                (suc (last_seq id db.build_logs))
                (record { seq = 0; stream = stream; line = line; at = none })
                now
              ∷ []),
      )
unfolding append_build_log
stored id stream line now db h = rw h refl

refused :
    (id stream line : Text) (now : ℕ) (db : Database)
    → accepts_log db id ≡ false
    → append_build_log id stream line now db ≡ none
unfolding append_build_log
refused id stream line now db h = rw h refl

appended :
    (id : Text) (lines : List LogLine) (now : ℕ) (db : Database)
    → accepts_log db id ≡ true
    → All (λ l. l.at ≡ none) lines
    → append_each id lines now db
      ≡ some (with_logs db (db.build_logs ++ number_lines id (last_seq id db.build_logs) now lines))
unfolding append_each number_lines
appended id [] now db h none_timed =
    ap (λ rows. some (with_logs db rows)) (sym (append-nil db.build_logs))
appended id (l ∷ lines) now db h none_timed =
    let stream = or_text l.stream (codes "stdout") in
    let seq = suc (last_seq id db.build_logs) in
    let given =
      log_row id seq (record { seq = 0; stream = stream; line = l.line; at = none }) now in
    let row = log_row id seq (record l { stream = stream }) now in
    let next = with_logs db (db.build_logs ++ given ∷ []) in
    ap
      (λ (o : Option (ℕ × Database)). elim o as (λ _. Option Database) [
        | none ↦ none
        | some (n, written) ↦ append_each id lines now written
      ])
      (stored id stream l.line now db h)
    ∙ appended id lines now next h none_timed.1
    ∙ ap (λ n. some (with_logs db ((db.build_logs ++ given ∷ []) ++ number_lines id n now lines)))
        (last_seq-snoc id db.build_logs
          (record { seq = 0; stream = stream; line = l.line; at = none }) now)
    ∙ ap (λ r. some (with_logs db ((db.build_logs ++ r ∷ []) ++ number_lines id seq now lines)))
        (untimed id seq now l none_timed.0)
    ∙ ap (λ rows. some (with_logs db rows))
        (append_assoc db.build_logs (row ∷ []) (number_lines id seq now lines))

-- A batch of lines that have no time of their own is stored as its lines would be one after the
-- other, and is refused where they would be.
pub append_build_logs-each :
    (id : Text) (lines : List LogLine) (now : ℕ) (db : Database)
    → All (λ l. l.at ≡ none) lines
    → append_build_logs id lines now db ≡ append_each id lines now db
unfolding append_build_logs append_each
append_build_logs-each id [] now db h = refl
append_build_logs-each id (l ∷ lines) now db h = elim (Bool-cases (accepts_log db id)) [
  | inl ok ↦ rw ok (sym (appended id (l ∷ lines) now db ok h))
  | inr missing ↦ rw missing (
      ap
        (λ (o : Option (ℕ × Database)). elim o as (λ _. Option Database) [
          | none ↦ none
          | some (n, written) ↦ append_each id lines now written
        ])
        (sym (refused id (or_text l.stream (codes "stdout")) l.line now db missing)))
]
