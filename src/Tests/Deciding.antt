-- ===== src/Tests/Deciding.antt =====
-- A decision on a restart, and redaction.
use vops.Prelude.{String, ◌≡◌, ◌↔◌, ◌≢◌, refl, false, some, [], ◌∷◌, arith, eq_iff}
use vops.Agent.Json.{Json, str, obj, field, end}
use vops.Agent.Model.{staging}
use vops.Agent.Redaction.{redact_secrets}
use vops.Agent.Redaction.Laws.{IsSafe, redact_secrets-IsSafe}
use vops.Agent.Policy.{Request, decide, allow, deny, is_read}
use vops.Agent.Policy.Allowed.{IsAllowed}
use vops.Agent.Policy.Laws.{decide-allow}
use vops.Agent.Safety.{current, on_module_init, activate}
use vops.Agent.Safety.Stopping.{activate-stops}
use vops.Agent.Verification.{StepResult, summarise_verification, checks_of}
use vops.Agent.Model.{passed}
use vops.Agent.Verification.Passed.{AllAccepted, summarise_verification-passed}
use vops.Tests.Data.{patterns, session, restart, plan, world, db}

abbrev request : Request
request = record {
  session = session;
  capability = "application.restart";
  input = field "host" (str "web") end;
  environment = staging;
  approved_plan = some plan;
}

decide-allow_example :
    ((decide false request restart).effect ≡ allow) ↔ IsAllowed false request restart
decide-allow_example = decide-allow false request restart

activate-stops_example :
    ((decide (current (activate world "operator" "leak" db).1).is_on request restart).effect ≡ deny)
    × ((current db).is_on ≡ false
        → (decide
            (current (on_module_init (activate world "operator" "leak" db).1)).is_on
            request
            restart).effect
          ≡ deny)
unfolding is_read
activate-stops_example = activate-stops world "operator" "leak" db request restart refl

abbrev report : StepResult
report = record {
  step = "step_1";
  capability = "healthcheck.run";
  output = obj (field "status" (str "healthy") end);
}

summarise_verification-passed_example :
    ((summarise_verification (report ∷ [])).status ≡ passed)
    ↔ ((checks_of (report ∷ []) ≢ []) × AllAccepted (checks_of (report ∷ [])))
summarise_verification-passed_example = summarise_verification-passed (report ∷ [])

abbrev secret : Json
secret = obj (field "password" (str "x") (field "note" (str "Bearer abc") end))

redact_secrets-IsSafe_example :
    IsSafe patterns (redact_secrets patterns secret).0
    × ((redact_secrets patterns secret).1 ≡ false → (redact_secrets patterns secret).0 ≡ secret)
redact_secrets-IsSafe_example = redact_secrets-IsSafe patterns secret

stable : (s : String) → patterns.scrub (patterns.scrub s) ≡ patterns.scrub s
stable s = ground (arith, eq_iff s "Bearer abc", eq_iff "[REDACTED]" "Bearer abc")
