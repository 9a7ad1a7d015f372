-- ===== src/Agent/Plans.antt =====
-- src/agent-control/plan-engine.ts.
pub mod Hash
pub mod Vetted
pub mod Executable
use vops.Prelude.{
  length, ℕ, suc, String, Bool, true, false, not, ◌&&◌, ◌||◌, Option, none, some, List, [], ◌∷◌,
  ◌++◌, ◌==◌, map, any, every, is_empty, unique, if◌then◌else◌,
}
use vops.Prelude.Result.{Result, ok, err}
use vops.Prelude.Texts.{◌⋯◌}
use vops.Agent.Json.{Json, null, str, obj, arr, texts, Fields, field, end}
use vops.Agent.Model.{
  Environment, development, staging, production, Session, Risk, read_only, low, medium, high,
  destructive, Reversible, reversible, irreversible, conditional, Capability, PlanStatus,
  awaiting_approval, approved, PlanStep, Rollback, PlanBody, Plan, Failure, plain, control,
  plan_invalid, plan_stale, scope_denied, approval_required, not_found, is_failed, is_denied,
  needs_approval,
}
use vops.Agent.Redaction.{some_field}
use vops.Agent.Registry
use vops.Agent.Registry.{SchemaError}
use vops.Agent.Policy
use vops.Agent.Policy.{Request, Decision, Effect, Reason, evaluate}
use vops.Agent.Safety.{current}
use vops.Agent.Sessions.Inputs.{client_name}
use vops.Agent.Store.{
  World, Db, M, ◌>>=◌, ◌>>◌, pure, throw, lift, local_id, append_event, save_plan, get_plan,
}
use Hash.{hash_plan}

pub record StepInput : Type 0 where
  pub capability : String
  pub input : Option Fields

pub record CreatePlanInput : Type 0 where
  pub objective : String
  pub environment : Option Environment
  pub target : Option String
  pub steps : List StepInput
  pub success_criteria : Option (List String)
  pub excluded_effects : Option (List String)

-- What is wrong with a plan; the texts of the errors are not kept apart.
pub data PlanError : Type 0 where
  schema_error : (step : String) → SchemaError → PlanError
  secret_field : (step : String) → PlanError
  denied_step : (step : String) → Reason → PlanError
  changed : PlanError

pub record Drafted : Type 0 where
  pub step : PlanStep
  pub capability : Capability
  pub errors : List PlanError
  pub needs_approval : Bool

unfoldable pub or_empty : Option Fields → Fields
or_empty none = end
or_empty (some fs) = fs

unfoldable pub or_list : Option (List String) → List String
or_list none = []
or_list (some xs) = xs

unfoldable pub present : Option String → Option String
present none = none
present (some s) = if s == "" then none else some s

unfoldable pub secret_errors : Bool → String → List PlanError
secret_errors true id = secret_field id ∷ []
secret_errors false id = []

unfoldable pub policy_errors : Decision → String → List PlanError
policy_errors d id = elim d.effect [ Effect.deny ↦ denied_step id d.reason ∷ [] | _ ↦ [] ]

unfoldable pub wants_approval : Decision → Bool
wants_approval d = elim d.effect [ Effect.approval_required ↦ true | _ ↦ false ]

unfoldable pub is_reversible : Reversible → Bool
is_reversible reversible = true
is_reversible _ = false

unfoldable pub is_irreversible : Reversible → Bool
is_irreversible irreversible = true
is_irreversible _ = false

unfoldable pub is_conditional : Reversible → Bool
is_conditional conditional = true
is_conditional _ = false

unfoldable pub rollback_limitations : List Reversible → List String
unfolding is_irreversible is_conditional
rollback_limitations values =
    if any is_irreversible values
    then "At least one plan step has no rollback operation." ∷ []
    else if any is_conditional values
    then "Rollback depends on state captured by the underlying capability and may not restore persistent data."
      ∷ []
    else []

unfoldable pub effects_of : List Drafted → List String
effects_of [] = []
effects_of (d ∷ rest) = d.capability.possible_effects ++ effects_of rest

unfoldable pub errors_of : List Drafted → List PlanError
errors_of [] = []
errors_of (d ∷ rest) = d.errors ++ errors_of rest

unfoldable pub environment_of : Option Environment → List Environment → Environment
environment_of (some e) es = e
environment_of none [] = staging
environment_of none (e ∷ es) = e

module _ (w : World) where
  -- One step of the plan that is created, with the number of the step. The validator writes the
  -- defaults of the schema into the input, and the policy sees the input with them.
  unfoldable pub draft_as :
      Session
      → Environment
      → Bool
      → String
      → Capability
      → Fields
      → Decision
      → List SchemaError
      → Drafted
  unfolding secret_errors policy_errors wants_approval
  draft_as session environment stopped id capability input d errors = record {
    step = record { id = id; capability = capability.id; input = input; risk = capability.risk };
    capability = capability;
    errors =
        map (schema_error id) errors
        ++ (secret_errors (some_field w.patterns input) id ++ policy_errors d id);
    needs_approval = wants_approval d;
  }

  unfoldable pub draft_with :
      Session → Environment → Bool → String → StepInput → Capability → Result Failure Drafted
  unfolding or_empty draft_as
  draft_with session environment stopped id s capability =
      let (errors, input) = Registry.validate w.registry s.capability (or_empty s.input) in
      let request : Request = record {
        session = session;
        capability = s.capability;
        input = input;
        environment = environment;
        approved_plan = none;
      } in
      elim (evaluate w.registry stopped request) [
        | err e ↦ err e
        | ok d ↦ ok (draft_as session environment stopped id capability input d errors)
      ]

  unfoldable pub draft : Session → Environment → Bool → String → StepInput → Result Failure Drafted
  unfolding draft_with
  draft session environment stopped id s = elim (Registry.describe w.registry s.capability) [
    | err e ↦ err e
    | ok capability ↦ draft_with session environment stopped id s capability
  ]

  unfoldable pub cons_drafted :
      Result Failure Drafted → Result Failure (List Drafted) → Result Failure (List Drafted)
  cons_drafted (err e) rest = err e
  cons_drafted (ok d) (err e) = err e
  cons_drafted (ok d) (ok ds) = ok (d ∷ ds)

  unfoldable pub draft_all :
      Session → Environment → Bool → ℕ → List StepInput → Result Failure (List Drafted)
  unfolding draft cons_drafted
  draft_all session environment stopped n [] = ok []
  draft_all session environment stopped n (s ∷ rest) =
      cons_drafted (draft session environment stopped ("step_" ⋯ w.show_number (suc n)) s)
        (draft_all session environment stopped (suc n) rest)

  unfoldable pub body_of : Session → CreatePlanInput → Environment → List Drafted → PlanBody
  unfolding present or_list effects_of is_reversible rollback_limitations
  body_of session input environment ds = record {
    session_id = session.id;
    objective = w.trim input.objective;
    environment = environment;
    target = present input.target;
    steps = map (λ (d : Drafted). d.step) ds;
    success_criteria = or_list input.success_criteria;
    estimated_effects = unique (effects_of ds);
    excluded_effects = or_list input.excluded_effects;
    rollback = record {
      available = every (λ (d : Drafted). is_reversible d.capability.reversal) ds;
      limitations = rollback_limitations (map (λ (d : Drafted). d.capability.reversal) ds);
    };
  }

  unfoldable pub plan_event : Session → Option String → String → String → Json → M (Unit {0})
  plan_event session target event_type summary detail = do
    id ← local_id w "evt"
    append_event w (record {
      event_id = id;
      timestamp = w.now;
      session_id = some session.id;
      actor = client_name session.actor.client;
      operation_id = none;
      event_type = event_type;
      capability = none;
      target = target;
      summary = summary;
      detail = some detail;
    })

  reject : Session → CreatePlanInput → M Plan
  unfolding plan_event
  reject session input = do
    plan_event session input.target "plan.denied" "Rejected an invalid or out-of-scope plan."
        (obj (field "objective" (str input.objective) end))
    throw plan_invalid is_failed true

  unfoldable pub save_new : Session → PlanBody → Bool → M Plan
  unfolding plan_event
  save_new session body needs = do
    id ← local_id w "plan"
    let plan : Plan = record {
      id = id;
      hash = hash_plan w.hasher body;
      status = if needs then awaiting_approval else approved;
      body = body;
      created_at = w.now;
      updated_at = w.now;
    }
    save_plan w plan
    plan_event session body.target "plan.created"
        ("Created " ⋯ w.show_number (length body.steps) ⋯ "-step plan.")
        (obj (
          field "planId" (str plan.id) (
            field "hash" (str plan.hash)
              (field "effects" (arr (texts body.estimated_effects)) end))))
    pure plan

  unfoldable pub finish :
      Session → CreatePlanInput → Environment → Result Failure (List Drafted) → M Plan
  unfolding reject save_new body_of errors_of
  finish session input environment (err e) = lift (err e)
  finish session input environment (ok ds) =
      if is_empty (errors_of ds)
      then save_new session (body_of session input environment ds)
          (any (λ (d : Drafted). d.needs_approval) ds)
      else reject session input

  unfoldable pub create : Session → CreatePlanInput → M Plan
  unfolding finish draft_all environment_of current
  create session input = if is_empty input.steps then throw plan_invalid is_failed false else do
    stop ← (λ db. (ok (current db), db))
    let environment = environment_of input.environment session.scope.environments
    finish session input environment (draft_all session environment stop.is_on 0 input.steps)

  or_not_found : Option Plan → M Plan
  or_not_found none = throw not_found is_failed false
  or_not_found (some p) = pure p

  unfoldable pub get : String → M Plan
  unfolding or_not_found
  get id = do found ← get_plan w id; or_not_found found

  unfoldable pub step_errors : List PlanStep → List PlanError
  step_errors [] = []
  step_errors (s ∷ rest) =
      map (schema_error s.id) (Registry.validate w.registry s.capability s.input).0
      ++ step_errors rest

  -- The errors of `validate`.
  unfoldable pub validate : Plan → List PlanError
  unfolding step_errors
  validate plan =
      let rest = step_errors plan.steps in
      if hash_plan w.hasher plan.body == plan.hash then rest else changed ∷ rest

  unfoldable pub is_approved : PlanStatus → Bool
  is_approved approved = true
  is_approved _ = false

  unfoldable pub check_executable : Plan → String → M Plan
  unfolding validate is_approved
  check_executable plan session_id =
      if not (plan.session_id == session_id)
      then throw scope_denied is_denied false
      else if not (is_empty (validate plan))
      then throw plan_stale is_denied true
      else if not (is_approved plan.status)
      then throw approval_required needs_approval true
      else pure plan

  unfoldable pub require_executable : String → String → M Plan
  unfolding get check_executable
  require_executable id session_id = do plan ← get id; check_executable plan session_id

  unfoldable pub set_status : String → PlanStatus → M Plan
  unfolding get
  set_status id status = do
    plan ← get id
    let updated = record plan { status = status; updated_at = w.now }
    save_plan w updated
    pure updated
