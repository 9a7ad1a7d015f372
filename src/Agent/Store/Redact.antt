-- ===== src/Agent/Store/Redact.antt =====
-- `safeJson` of a record: redaction walks the texts of the record. No field of a record has a
-- sensitive name; the inputs of a plan's steps and the result of an operation are JSON of their own.
use mathlib.Core.Option
use vops.Prelude.{map, false}
use vops.Agent.Json.{Json}
use vops.Agent.Redaction.{Patterns, visit, visit_fields}
use vops.Agent.Model.{Session, Plan, PlanStep, Approval, Check, Verification, Operation}

module _ (p : Patterns) where
  unfoldable pub redact_session : Session → Session
  redact_session s = record s {
    id = p.scrub s.id;
    actor = record s.actor {
      client_version = Option.map p.scrub s.actor.client_version;
      display_name = p.scrub s.actor.display_name;
    };
    objective = p.scrub s.objective;
    repository_path = p.scrub s.repository_path;
    repository_name = p.scrub s.repository_name;
    scope = record s.scope {
      projects = map p.scrub s.scope.projects;
      targets = map p.scrub s.scope.targets;
    };
    permissions = record {
      allow = map p.scrub s.permissions.allow;
      allow_within_approved_plan = map p.scrub s.permissions.allow_within_approved_plan;
      require_approval = map p.scrub s.permissions.require_approval;
      deny = map p.scrub s.permissions.deny;
    };
  }

  redact_step : PlanStep → PlanStep
  redact_step s = record s {
    id = p.scrub s.id;
    capability = p.scrub s.capability;
    input = (visit_fields p s.input false).0;
  }

  unfoldable pub redact_plan : Plan → Plan
  unfolding redact_step
  redact_plan x = record x {
    id = p.scrub x.id;
    hash = p.scrub x.hash;
    body = record x.body {
      session_id = p.scrub x.session_id;
      objective = p.scrub x.objective;
      target = Option.map p.scrub x.target;
      steps = map redact_step x.steps;
      success_criteria = map p.scrub x.success_criteria;
      estimated_effects = map p.scrub x.estimated_effects;
      excluded_effects = map p.scrub x.excluded_effects;
      rollback = record x.rollback { limitations = map p.scrub x.rollback.limitations };
    };
  }

  unfoldable pub redact_approval : Approval → Approval
  redact_approval a = record a {
    id = p.scrub a.id;
    session_id = p.scrub a.session_id;
    plan_id = Option.map p.scrub a.plan_id;
    capability = Option.map p.scrub a.capability;
    reason = p.scrub a.reason;
    target = Option.map p.scrub a.target;
    expected_effects = map p.scrub a.expected_effects;
    decision_reason = Option.map p.scrub a.decision_reason;
  }

  redact_check : Check → Check
  redact_check c = record {
    capability = p.scrub c.capability;
    step = p.scrub c.step;
    status = p.scrub c.status;
    failing = map p.scrub c.failing;
  }

  redact_verification : Verification → Verification
  unfolding redact_check
  redact_verification v = record v { checks = map redact_check v.checks }

  unfoldable pub redact_operation : Operation → Operation
  unfolding redact_verification
  redact_operation o = record o {
    id = p.scrub o.id;
    session_id = p.scrub o.session_id;
    plan_id = p.scrub o.plan_id;
    capability = Option.map p.scrub o.capability;
    current_step = Option.map p.scrub o.current_step;
    result = Option.map (λ (d : Json). (visit p d false).0) o.result;
    verification = Option.map redact_verification o.verification;
  }
