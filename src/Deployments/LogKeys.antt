-- ===== src/Deployments/LogKeys.antt =====
-- A new line has a number that no line of its deployment has.
use mathlib.Core.List.{append-nil, append_assoc}
use skifity.Prelude.{
  ltb, nat_beq, any, filter, All, All-append, ℕ, suc, ◌≤◌, ◌≡◌, refl, sym, subst, Bool, true, false,
  ◌&&◌, List, [], ◌∷◌, ◌++◌, arith,
}
use skifity.Prelude.Text.{Text, codes}
use skifity.Prelude.Tables.{Apart}
use skifity.Prelude.TableLaws.{All-imp, All-unfilter, Apart-snoc, max_of-bound}
use skifity.Deployments.Rows.{Deployment, BuildLog, or_text}
use skifity.Deployments.Writes.{has_id}
use skifity.Deployments.Logs.{LogLine, of_deployment, last_seq, log_row, number_lines}
use skifity.Deployments.Consistent.{OtherLine, Owned}

-- No line of the deployment has a number above `seq`.
abbrev pub Bounded : Text → ℕ → BuildLog → Type 0
Bounded id seq l = (of_deployment id l && ltb seq l.seq) ≡ false

bounded_by : (b : Bool) (n seq : ℕ) → (b ≡ true → n ≤ seq) → (b && ltb seq n) ≡ false
bounded_by true n seq h = ground (arith, h refl)
bounded_by false n seq h = refl

pub last_seq-Bounded : (id : Text) (rows : List BuildLog) → All (Bounded id (last_seq id rows)) rows
last_seq-Bounded id rows =
    All-imp (λ l. of_deployment id l ≡ true → l.seq ≤ last_seq id rows)
      (Bounded id (last_seq id rows)) rows
      (λ l h. bounded_by (of_deployment id l) l.seq (last_seq id rows) h)
      (All-unfilter (λ l. l.seq ≤ last_seq id rows) (of_deployment id) rows
        (max_of-bound (λ l. l.seq) (filter (of_deployment id) rows)))

next_is_new : (b : Bool) (n seq : ℕ) → (b && ltb seq n) ≡ false → (b && nat_beq n (suc seq)) ≡ false
next_is_new true n seq h = ground (arith, h)
next_is_new false n seq h = refl

next_is_bound : (b : Bool) (n seq : ℕ) → (b && ltb seq n) ≡ false → (b && ltb (suc seq) n) ≡ false
next_is_bound true n seq h = ground (arith, h)
next_is_bound false n seq h = refl

self_is_bound : (b : Bool) (n : ℕ) → (b && ltb n n) ≡ false
self_is_bound true n = ground arith
self_is_bound false n = refl

pub snoc-OtherLine :
    (id : Text) (seq : ℕ) (rows : List BuildLog) (l : LogLine) (now : ℕ)
    → All (Bounded id seq) rows
    → Apart OtherLine rows
    → Apart OtherLine (rows ++ log_row id (suc seq) l now ∷ [])
snoc-OtherLine id seq rows l now h a = Apart-snoc OtherLine rows (log_row id (suc seq) l now) a (
    All-imp (Bounded id seq) (λ x. OtherLine x (log_row id (suc seq) l now)) rows
      (λ x b. next_is_new (of_deployment id x) x.seq seq b) h)

pub number_lines-OtherLine :
    (id : Text) (seq now : ℕ) (lines : List LogLine) (rows : List BuildLog)
    → All (Bounded id seq) rows
    → Apart OtherLine rows
    → Apart OtherLine (rows ++ number_lines id seq now lines)
unfolding number_lines
number_lines-OtherLine id seq now [] rows h a = subst (Apart OtherLine) (sym (append-nil rows)) a
number_lines-OtherLine id seq now (l ∷ lines) rows h a =
    let line = record l { stream = or_text l.stream (codes "stdout") } in
    let row = log_row id (suc seq) line now in
    subst (Apart OtherLine) (append_assoc rows (row ∷ []) (number_lines id (suc seq) now lines)) (
      number_lines-OtherLine id (suc seq) now lines (rows ++ row ∷ [])
        (All-append (Bounded id (suc seq)) rows (row ∷ [])
          (All-imp (Bounded id seq) (Bounded id (suc seq)) rows
            (λ x b. next_is_bound (of_deployment id x) x.seq seq b) h)
          (self_is_bound (of_deployment id row) (suc seq), tt))
        (snoc-OtherLine id seq rows line now h a))

pub number_lines-Owned :
    (deployments : List Deployment) (id : Text) (seq now : ℕ) (lines : List LogLine)
    → any (has_id id) deployments ≡ true
    → All (Owned deployments) (number_lines id seq now lines)
unfolding number_lines
number_lines-Owned deployments id seq now [] h = tt
number_lines-Owned deployments id seq now (l ∷ lines) h =
    (h, number_lines-Owned deployments id (suc seq) now lines h)
