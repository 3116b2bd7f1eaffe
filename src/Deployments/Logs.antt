-- ===== src/Deployments/Logs.antt =====
-- internal/store/deployments.go: the lines of a build, which are numbered for a stream to resume.
use skifity.Prelude.{
  if◌then◌else◌, nat_eq, ◌==◌, take, drop, any, filter, ℕ, suc, Bool, not, ◌&&◌, Option, none, some,
  List, [], ◌∷◌, ◌++◌, map,
}
use skifity.Prelude.Int.{ℤ, pos_part, ltb_ℤ, pos}
use skifity.Prelude.Text.{Text, codes, text_eq}
use skifity.Prelude.Tables.{max_of, order_asc}
use skifity.Deployments.Rows.{BuildLog, Database, or_text, page_size, history}

-- A line as it is given or listed; a time that is zero is `none`.
pub record LogLine : Type 0 where
  pub seq : ℕ
  pub stream : Text
  pub line : Text
  pub at : Option ℕ

abbrev pub of_deployment : Text → BuildLog → Bool
of_deployment id l = l.deployment_id == id

abbrev pub last_seq : Text → List BuildLog → ℕ
last_seq id rows = max_of (λ l. l.seq) (filter (of_deployment id) rows)

abbrev pub log_row : Text → ℕ → LogLine → ℕ → BuildLog
log_row id seq l now = record {
  deployment_id = id;
  seq = seq;
  stream = l.stream;
  line = l.line;
  at = elim l.at [ none ↦ now | some t ↦ t ];
}

-- The deployment is there. The number is new to it, since it is above the largest.
abbrev pub accepts_log : Database → Text → Bool
accepts_log db id = any (λ d. d.id == id) db.deployments

unfoldable pub append_build_log : Text → Text → Text → ℕ → Database → Option (ℕ × Database)
unfolding max_of
append_build_log id stream line now db =
    let seq = suc (last_seq id db.build_logs) in
    let row = log_row id seq (record { seq = 0; stream = stream; line = line; at = none }) now in
    if accepts_log db id
    then some (seq, record db { build_logs = db.build_logs ++ row ∷ [] })
    else none

-- The rows of a batch, numbered on from the last.
unfoldable pub number_lines : Text → ℕ → ℕ → List LogLine → List BuildLog
number_lines id seq now [] = []
number_lines id seq now (l ∷ lines) =
    log_row id (suc seq) (record l { stream = or_text l.stream (codes "stdout") }) now
    ∷ number_lines id (suc seq) now lines

unfoldable pub append_build_logs : Text → List LogLine → ℕ → Database → Option Database
unfolding max_of number_lines
append_build_logs id [] now db = some db
append_build_logs id (l ∷ lines) now db =
    let rows = number_lines id (last_seq id db.build_logs) now (l ∷ lines) in
    if accepts_log db id then some (record db { build_logs = db.build_logs ++ rows }) else none

abbrev pub listed : BuildLog → LogLine
listed l = record { seq = l.seq; stream = l.stream; line = l.line; at = some l.at }

abbrev pub is_after : Text → ℤ → BuildLog → Bool
is_after id since l = of_deployment id l && ltb_ℤ since (pos l.seq)

-- The lines of a deployment after a number, in their order.
unfoldable pub lines_after : Database → Text → ℤ → List LogLine
unfolding order_asc
lines_after db id since =
    map listed (order_asc (λ l. l.seq) (filter (is_after id since) db.build_logs))

unfoldable pub list_build_logs : Database → Text → ℤ → ℤ → List LogLine
unfolding lines_after
list_build_logs db id since limit = take (page_size limit 5000 2000) (lines_after db id since)

-- The deployments of an app but for the newest `keep`.
unfoldable pub beyond_newest : Database → Text → ℤ → List Text
unfolding history
beyond_newest db app keep = map (λ d. d.id) (drop (pos_part keep) (history db app))

unfoldable pub prune_build_logs : Text → ℤ → Database → Database
unfolding beyond_newest
prune_build_logs app keep db =
    let old = beyond_newest db app keep in
    record db {
      build_logs = filter (λ l. not (any (λ id. id == l.deployment_id) old)) db.build_logs;
    }
