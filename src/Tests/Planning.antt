-- ===== src/Tests/Planning.antt =====
-- A plan that a session creates.
use vops.Prelude.{String, ◌≡◌, true, none, some, [], ◌∷◌, is_empty}
use vops.Agent.Json.{str, field, end}
use vops.Agent.Model.{staging, PlanStatus, Plan, Risk}
use vops.Agent.Policy
use vops.Agent.Registry
use vops.Agent.Audit.{digest}
use vops.Agent.Plans
use vops.Agent.Plans.{CreatePlanInput}

abbrev proposal : CreatePlanInput
proposal = record {
  objective = "restart";
  environment = none;
  target = none;
  steps =
      record { capability = "application.restart"; input = some (field "host" (str "web") end) }
      ∷ [];
  success_criteria = none;
  excluded_effects = none;
}

abbrev proposed_plan : Plan
proposed_plan = record {
  id = "plan";
  hash = "h0";
  status = PlanStatus.awaiting_approval;
  body = record {
    session_id = "s1";
    objective = "restart";
    environment = staging;
    target = none;
    steps =
        record {
          id = "step_n";
          capability = "application.restart";
          input = field "host" (str "web") end;
          risk = Risk.medium;
        }
        ∷ [];
    success_criteria = [];
    estimated_effects = "restarts" ∷ [];
    excluded_effects = [];
    rollback = record { available = true; limitations = [] };
  };
  created_at = 1000;
  updated_at = 1000;
}
