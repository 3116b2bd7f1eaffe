-- ===== src/Scaling.antt =====
-- internal/deploy/scaling.go: what breaks when an app runs more than once. A finding is its code,
-- its severity and the values that its detail is written with; the words around them, which are
-- those of its code, are left out.
pub mod Laws
use skifity.Prelude.{
  ltb, if◌then◌else◌, nat_eq, ◌==◌, length, ℕ, suc, ◌-◌, ◌*◌, ◌/◌, ◌%◌, ◌^◌, Bool, false, not, ◌&&◌,
  ◌||◌, Option, none, some, List, [], ◌∷◌, ◌++◌, filter,
}
use skifity.Prelude.Int.{ℤ, pos_part, ltb_ℤ, eqb_ℤ, sub_ℕ, pos, negsuc}
use skifity.Prelude.Text.{
  Text, codes, text_eq, is_empty, has_suffix, contains, upper, to_lower, to_upper, join,
}

pub data Code : Type 0 where
  volume no_health_check no_metrics target_below_idle memory_target_below_idle : Code
  single_instance volume_with_replicas in_memory_sessions file_cache sqlite : Code
  local_uploads in_process_cron : Code

pub data Severity : Type 0 where
  error warning info : Severity

-- A value in a text, with the verb that prints it: `%s`, `%q` or `%d`.
pub data Argument : Type 0 where
  plain quoted : Text → Argument
  number : ℤ → Argument

pub record Finding : Type 0 where
  pub code : Code
  pub severity : Severity
  pub args : List Argument

-- A finding whose detail names nothing.
abbrev pub bare : Code → Severity → Finding
bare code severity = record { code = code; severity = severity; args = [] }

-- A variable of an app; `opened` is what the keyring makes of its sealed value.
pub record Variable : Type 0 where
  pub key : Text
  pub is_secret : Bool
  pub opened : Option Text

pub record App : Type 0 where
  pub health_path : Text
  pub port : ℤ
  pub autoscale : Bool
  pub scale_to_zero : Bool
  pub cpu_target : ℤ
  pub cpu_request_m : ℤ
  pub memory_target : ℤ
  pub mem_request_mb : ℤ
  pub replicas : ℤ
  pub status : Text

abbrev pub read_value : Variable → Text
read_value v = if v.is_secret then [] else elim v.opened [ none ↦ [] | some plaintext ↦ plaintext ]

-- `inspectVariable`, on the key in upper case and the value in lower case, and on both as they are.
unfoldable pub inspect : Text → Text → Text → Text → Option Finding
unfolding contains has_suffix
inspect upper value key read =
    if contains upper (codes "SESSION")
      && (contains value (codes "memory")
          || (value == codes "file" || contains value (codes "filesystem")))
    then some (record {
      code = in_memory_sessions;
      severity = error;
      args = plain key ∷ quoted read ∷ [];
    })
    else if contains upper (codes "CACHE")
        && (value == codes "file" || contains value (codes "filesystem"))
    then some
        (record { code = file_cache; severity = warning; args = plain key ∷ quoted read ∷ [] })
    else if contains value (codes "sqlite")
        || (has_suffix value (codes ".db") || has_suffix value (codes ".sqlite3"))
    then some (record { code = sqlite; severity = error; args = plain key ∷ [] })
    else if upper == codes "UPLOAD_DIR"
        || (upper == codes "UPLOADS_PATH" || contains upper (codes "STORAGE_PATH"))
    then some (record { code = local_uploads; severity = error; args = plain key ∷ [] })
    else if contains upper (codes "CRON") && value == codes "true"
    then some (record { code = in_process_cron; severity = warning; args = plain key ∷ [] })
    else none

unfoldable pub inspect_variable : Variable → Option Finding
inspect_variable v = inspect (to_upper v.key) (to_lower (read_value v)) v.key (read_value v)

unfoldable pub inspect_all : List Variable → List Finding
inspect_all [] = []
inspect_all (v ∷ vs) = elim (inspect_variable v) [
  | none ↦ inspect_all vs
  | some finding ↦ finding ∷ inspect_all vs
]

abbrev pub is_positive : ℤ → Bool
is_positive n = ltb_ℤ (pos 0) n

-- A product of two ints that are not negative: it wraps in 64 bits.
unfoldable pub mul_int : ℕ → ℕ → ℤ
mul_int m n =
    let bits = m * n % 2 ^ 64 in if ltb bits (2 ^ 63) then pos bits else negsuc (2 ^ 64 - bits - 1)

-- Division by 100, towards zero.
abbrev pub percent_of : ℤ → ℤ
percent_of (pos n) = pos (n / 100)
percent_of (negsuc n) = sub_ℕ 0 (suc n / 100)

-- The usage at which an instance is added, and whether it is low enough to say.
unfoldable pub first_tripwire : ℤ → ℤ → ℕ → ℤ × Bool
unfolding mul_int
first_tripwire target request floor =
    if not (is_positive target) || not (is_positive request)
    then (pos 0, false)
    else (let trip = percent_of (mul_int (pos_part request) (pos_part target)) in
        (trip, ltb_ℤ trip (pos floor)))

abbrev pub report_if : Bool → Finding → List Finding
report_if found finding = if found then finding ∷ [] else []

abbrev pub tripwire_finding : Code → ℤ → ℤ → ℤ → Finding
tripwire_finding code request target trip = record {
  code = code;
  severity = warning;
  args = number request ∷ number target ∷ number trip ∷ [];
}

-- `metrics` is whether the cluster answers with usage; it is `none` without a cluster.
abbrev pub lacks_metrics : Option Bool → Bool
lacks_metrics none = false
lacks_metrics (some answers) = not answers

-- `volumes` are the paths at which they are mounted.
unfoldable pub scaling_readiness : App → List Text → List Variable → Option Bool → List Finding
unfolding inspect_all first_tripwire join
scaling_readiness app volumes variables metrics =
    let has_volume = not (length volumes == 0) in
    let (cpu_trip, cpu_low) = first_tripwire app.cpu_target app.cpu_request_m 100 in
    let (memory_trip, memory_low) = first_tripwire app.memory_target app.mem_request_mb 256 in
    report_if has_volume
      (record { code = volume; severity = error; args = plain (join volumes (codes ", ")) ∷ [] })
    ++ (inspect_all variables
        ++ (report_if (is_empty app.health_path && is_positive app.port)
              (bare no_health_check warning)
            ++ (report_if
                  (app.autoscale
                    && (not app.scale_to_zero
                        && ((is_positive app.cpu_target || is_positive app.memory_target)
                            && lacks_metrics metrics)))
                  (bare no_metrics error)
                ++ (report_if (app.autoscale && cpu_low)
                      (tripwire_finding target_below_idle app.cpu_request_m app.cpu_target cpu_trip)
                    ++ (report_if (app.autoscale && memory_low) (
                          tripwire_finding memory_target_below_idle app.mem_request_mb
                            app.memory_target memory_trip)
                        ++ (report_if (eqb_ℤ app.replicas (pos 1) && not app.autoscale)
                              (bare single_instance info)
                            ++ report_if
                                ((ltb_ℤ (pos 1) app.replicas || app.autoscale) && has_volume)
                                (bare volume_with_replicas error)))))))

-- The apps whose live state is not what was asked for.
unfoldable pub apps_needing_attention : List App → List App
apps_needing_attention apps =
    filter (λ app. app.status == codes "failed" || app.status == codes "crashing") apps
