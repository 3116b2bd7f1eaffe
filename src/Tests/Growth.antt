-- ===== src/Tests/Growth.antt =====
-- The readiness report of an app with a secret and a low target.
use skifity.Prelude.{◌^◌, ◌≡◌, refl, true, false, none, some, [], ◌∷◌, map}
use skifity.Prelude.Int.{pos}
use skifity.Prelude.Text.{codes}
use skifity.Scaling.{
  apps_needing_attention, Variable, App, inspect, inspect_variable, scaling_readiness, plain,
  quoted, number, first_tripwire, target_below_idle, in_memory_sessions, error, warning,
}
use skifity.Scaling.Laws.{resealed, scaling_readiness-secret}

abbrev session_store : Variable
session_store = record {
  key = codes "Session_Driver";
  is_secret = false;
  opened = some (codes "File");
}

abbrev database_url : Variable
database_url = record {
  key = codes "DATABASE_URL";
  is_secret = true;
  opened = some (codes "sqlite:///x.db");
}

abbrev blog : App
blog = record {
  health_path = codes "/healthz";
  port = pos 80;
  autoscale = true;
  scale_to_zero = false;
  cpu_target = pos 70;
  cpu_request_m = pos 50;
  memory_target = pos 0;
  mem_request_mb = pos 128;
  replicas = pos 1;
  status = codes "crashing";
}

scaling_readiness-secret_example :
    scaling_readiness blog []
      (map (resealed (λ key. none)) (session_store ∷ database_url ∷ []))
      none
    ≡ scaling_readiness blog [] (session_store ∷ database_url ∷ []) none
scaling_readiness-secret_example =
    scaling_readiness-secret blog [] (session_store ∷ database_url ∷ []) none (λ key. none)

blog_report :
    scaling_readiness blog [] (session_store ∷ database_url ∷ []) none
    ≡ record {
      code = in_memory_sessions;
      severity = error;
      args = plain (codes "Session_Driver") ∷ quoted (codes "File") ∷ [];
    }
      ∷ record {
        code = target_below_idle;
        severity = warning;
        args = number (pos 50) ∷ number (pos 70) ∷ number (pos 35) ∷ [];
      }
      ∷ []
unfolding scaling_readiness inspect_variable inspect
blog_report = refl

-- The product of a target and a reservation wraps.
tripwire_wraps : first_tripwire (pos (2 ^ 32)) (pos (2 ^ 32)) 100 ≡ (pos 0, true)
unfolding first_tripwire
tripwire_wraps = refl

blog_needs_attention :
    apps_needing_attention (record blog { status = codes "running" } ∷ blog ∷ []) ≡ blog ∷ []
unfolding apps_needing_attention
blog_needs_attention = refl
