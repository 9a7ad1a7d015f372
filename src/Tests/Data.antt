-- ===== src/Tests/Data.antt =====
-- A world, a session, a plan and a store to run the theorems on.
use vops.Prelude.{true, false, none, some, [], ◌∷◌, ◌==◌, if◌then◌else◌}
use vops.Prelude.Result.{ok}
use vops.Agent.Json.{end, field, str, null}
use vops.Agent.Redaction.{Patterns}
use vops.Agent.Model.{
  staging, AgentClient, SessionMode, SessionStatus, Session, Risk, Access, ApprovalDefault,
  Reversible, Capability, PlanStatus, PlanStep, Plan, Approval, ApprovalStatus, OperationState,
  Operation,
}
use vops.Agent.Registry.{Registry}
use vops.Agent.Audit.{Hasher}
use vops.Agent.Safety.{clear_state}
use vops.Agent.Store.{World, Db}
use vops.Agent.Broker.{Executor}

abbrev pub patterns : Patterns
patterns = record {
  scrub = λ s. if s == "Bearer abc" then "[REDACTED]" else s;
  is_sensitive = λ k. k == "password";
}

-- One text has a hash of its own; all others share one.
abbrev pub hasher : Hasher
hasher = record {
  writer = record { quote = λ s. s; show = λ n. "n"; before = λ a b. true };
  sha256 = λ s. if s == "token" then "h1" else "h0";
  iso = λ n. "t";
}

abbrev pub restart : Capability
restart = record {
  id = "application.restart";
  access = Access.remote_write;
  risk = Risk.medium;
  reversal = Reversible.reversible;
  enabled = true;
  unavailable_reason = none;
  possible_effects = "restarts" ∷ [];
  host_scoped = true;
  approval_defaults = λ e. ApprovalDefault.plan_approval;
}

abbrev pub registry : Registry
registry = record { definitions = restart ∷ []; check = λ c input. ([], input) }

abbrev pub world : World
world = record {
  now = 1000;
  local_id = λ prefix n. prefix;
  new_token = λ n. "token";
  trim = λ s. s;
  slice = λ s n. s;
  to_fixed = λ z. "0.00";
  to_text = λ z. "0";
  show_number = λ n. "n";
  hasher = hasher;
  patterns = patterns;
  registry = registry;
}

abbrev pub session : Session
session = record {
  id = "s1";
  actor = record { client = AgentClient.codex; client_version = none; display_name = "Codex" };
  objective = "deploy";
  mode = SessionMode.protected;
  status = SessionStatus.active;
  repository_path = "/r";
  repository_name = "r";
  scope = record { projects = "r" ∷ []; targets = []; environments = staging ∷ [] };
  permissions = record {
    allow = [];
    allow_within_approved_plan = "application.restart" ∷ [];
    require_approval = [];
    deny = "server.destroy" ∷ [];
  };
  limits = record { expires_at = 5000; max_operations = 3; max_provider_spend = 900 };
  operation_count = 0;
  provider_spend = 0;
  created_at = 0;
  updated_at = 0;
}

abbrev pub plan_step : PlanStep
plan_step = record {
  id = "step_1";
  capability = "application.restart";
  input = field "host" (str "web") end;
  risk = Risk.medium;
}

abbrev pub plan : Plan
plan = record {
  id = "p1";
  hash = "h0";
  status = PlanStatus.approved;
  body = record {
    session_id = "s1";
    objective = "restart";
    environment = staging;
    target = none;
    steps = plan_step ∷ [];
    success_criteria = [];
    estimated_effects = "restarts" ∷ [];
    excluded_effects = [];
    rollback = record { available = true; limitations = [] };
  };
  created_at = 0;
  updated_at = 0;
}

abbrev pub operation : Operation
operation = record {
  id = "o1";
  session_id = "s1";
  plan_id = "p1";
  capability = none;
  state = OperationState.running;
  current_step = none;
  result = none;
  verification = none;
  error = none;
  rollback_available = true;
  cancel_requested = false;
  created_at = 0;
  updated_at = 0;
}

abbrev pub approval : Approval
approval = record {
  id = "a1";
  session_id = "s1";
  plan_id = some "p1";
  capability = none;
  status = ApprovalStatus.granted;
  reason = "restart";
  risk = Risk.medium;
  target = none;
  environment = some staging;
  expected_effects = [];
  reversal = Reversible.reversible;
  requested_at = 0;
  decided_at = some 10;
  expires_at = 2000;
  decision_reason = none;
}

abbrev pub db : Db
db = record {
  draws = 0;
  sessions = ("s1", record { token_hash = some "h1"; session = session }) ∷ [];
  plans = ("p1", plan) ∷ [];
  approvals = ("a1", approval) ∷ [];
  operations = ("o1", operation) ∷ [];
  events = [];
  stop = none;
  in_memory = clear_state;
}

-- Every capability answers null.
abbrev pub executor : Executor
executor = λ capability input s p id store. (ok null, store)
