-- ===== src/Agent/Broker.antt =====
-- src/agent-control/action-broker.ts.
pub mod Gate
use vops.Prelude.{
  String, Bool, true, false, not, ◌&&◌, Option, none, some, List, [], ◌∷◌, ◌++◌, ◌==◌,
  if◌then◌else◌,
}
use vops.Prelude.Result.{Result, ok, err}
use vops.Prelude.Texts.{◌⋯◌}
use vops.Agent.Json.{Json, str, arr, obj, Items, nil, cons, Fields, field, end}
use vops.Agent.Model.{
  Environment, Session, PlanStatus, awaiting_approval, approved, running, succeeded, failed,
  cancelled, PlanStep, Plan, Approval, OperationState, Operation, ErrorCode, Failure, plain,
  control, scope_denied, approval_required, operation_failed, is_failed, is_denied, needs_approval,
}
use vops.Agent.Redaction.{redact_secrets}
use vops.Agent.Registry
use vops.Agent.Policy
use vops.Agent.Policy.{Request, Decision, evaluate}
use vops.Agent.Safety.{current}
use vops.Agent.Sessions
use vops.Agent.Sessions.Inputs.{client_name}
use vops.Agent.Plans
use vops.Agent.Plans.{CreatePlanInput, PlanError}
use vops.Agent.Approvals
use vops.Agent.Approvals.{Expansion}
use vops.Agent.Operations
use vops.Agent.Operations.{Patch, no_patch}
use vops.Agent.Verification.{StepResult, summarise_verification}
use vops.Agent.Store.{World, Db, M, ◌>>=◌, ◌>>◌, pure, throw, lift, local_id, append_event}

-- A capability's services (`CoreActionExecutor`): what a call returns or throws, and the store as it
-- is then. Other requests may have run meanwhile, so the store may change in any way.
abbrev pub Executor : Type 0
Executor = String → Fields → Session → Plan → String → M Json

-- How the loop over the steps ends, if nothing throws.
pub data LoopEnd : Type 0 where
  ran : List StepResult → LoopEnd
  stopped : Operation → LoopEnd

unfoldable pub is_awaiting : PlanStatus → Bool
is_awaiting awaiting_approval = true
is_awaiting _ = false

as_control_error : Failure → Failure
as_control_error (control code status recoverable) = control code status recoverable
as_control_error (plain message) = control operation_failed is_failed true

results_json : List StepResult → Items
results_json [] = nil
results_json (r ∷ rest) =
    cons
      (obj (
        field "step" (str r.step)
          (field "capability" (str r.capability) (field "output" r.output end))))
      (results_json rest)

module _ (w : World) (execute : Executor) where
  try_catch : {A : Type 0} → M A → (Failure → M A) → M A
  try_catch body handler db =
      let (r, db') = body db in elim r [ ok a ↦ (ok a, db') | err e ↦ handler e db' ]

  refuse : Decision → M (Unit {0})
  refuse d = elim d.effect [
    | Policy.Effect.allow ↦ pure tt
    | Policy.Effect.approval_required ↦ throw approval_required needs_approval true
    | Policy.Effect.deny ↦ throw scope_denied is_denied true
  ]

  -- The policy's request for a step, with the plan taken as approved.
  abbrev pub step_request : Session → Plan → PlanStep → Request
  step_request session plan step = record {
    session = session;
    capability = step.capability;
    input = step.input;
    environment = plan.environment;
    approved_plan = some (record plan { status = approved });
  }

  unfoldable pub require_step_allowed : Session → Plan → PlanStep → M (Unit {0})
  unfolding refuse current
  require_step_allowed session plan step = do
    stop ← (λ db. (ok (current db), db))
    d ← lift (evaluate w.registry stop.is_on (step_request session plan step))
    refuse d

  step_event : Session → Plan → Operation → PlanStep → M (Unit {0})
  step_event session plan operation step = do
    id ← local_id w "evt"
    append_event w (record {
      event_id = id;
      timestamp = w.now;
      session_id = some session.id;
      actor = client_name session.actor.client;
      operation_id = some operation.id;
      event_type = "operation.step_succeeded";
      capability = some step.capability;
      target = plan.target;
      summary = step.id ⋯ " " ⋯ step.capability ⋯ " succeeded.";
      detail = some (obj (field "step" (str step.id) end));
    })

  -- The loop body below the check for a cancellation.
  unfoldable pub run_step : Session → Plan → Operation → PlanStep → M StepResult
  unfolding require_step_allowed step_event
  run_step session plan operation step = do
    require_step_allowed session plan step
    Operations.transition w operation.id OperationState.running
        (record no_patch { current_step = some step.id; capability = some step.capability })
    output ← execute step.capability step.input session plan operation.id
    step_event session plan operation step
    pure (record {
      step = step.id;
      capability = step.capability;
      output = (redact_secrets w.patterns output).0;
    })

  stop_loop : Plan → Operation → M LoopEnd
  stop_loop plan operation = do
    Operations.transition w operation.id OperationState.cancelled no_patch
    Plans.set_status w plan.id cancelled
    o ← Operations.get w operation.id
    pure (stopped o)

  unfoldable pub run_steps :
      Session → Plan → Operation → List PlanStep → List StepResult → M LoopEnd
  unfolding stop_loop run_step
  run_steps session plan operation [] results = pure (ran results)
  run_steps session plan operation (step ∷ rest) results = do
    cancel ← Operations.should_cancel w operation.id
    let go : List StepResult → M LoopEnd = run_steps session plan operation rest
    if cancel
        then stop_loop plan operation
        else (run_step session plan operation step >>= λ r. go (results ++ r ∷ []))

  conclude : Plan → Operation → LoopEnd → M Operation
  unfolding results_json
  conclude plan operation (stopped o) = pure o
  conclude plan operation (ran results) = do
    Operations.transition w operation.id OperationState.verifying no_patch
    done ← Operations.transition w operation.id OperationState.succeeded (record no_patch {
      result = some (arr (results_json results));
      verification = some (summarise_verification results);
    })
    Plans.set_status w plan.id succeeded
    pure done

  fail_operation : Plan → Operation → Failure → M Operation
  unfolding as_control_error
  fail_operation plan operation e = do
    Operations.transition w operation.id OperationState.failed
        (record no_patch { error = some (as_control_error e) })
    Plans.set_status w plan.id failed
    lift (err (as_control_error e))

  run_plan : Session → Plan → M Operation
  unfolding try_catch run_steps conclude fail_operation
  run_plan session plan = do
    operation ← Operations.create w session.id plan.id plan.rollback.available
    Sessions.increment_operation w session.id
    Plans.set_status w plan.id running
    Operations.transition w operation.id OperationState.running no_patch
    try_catch (run_steps session plan operation plan.steps [] >>= conclude plan operation)
        (fail_operation plan operation)

  -- A plan that awaits its approval is marked approved once the approval is there.
  settle_approval : Plan → M (Unit {0})
  unfolding is_awaiting
  settle_approval plan =
      if is_awaiting plan.status
      then (do
        Approvals.require_approved_for_plan w plan.id
        Plans.set_status w plan.id approved
        pure tt)
      else pure tt

  execute_own : Session → Plan → M Operation
  unfolding settle_approval run_plan
  execute_own session plan =
      if not (plan.session_id == session.id) then throw scope_denied is_denied false else do
        settle_approval plan
        ready ← Plans.require_executable w plan.id session.id
        run_plan session ready

  unfoldable pub execute_plan_for_session : Session → String → M Operation
  unfolding execute_own
  execute_plan_for_session session plan_id = do plan ← Plans.get w plan_id; execute_own session plan

  unfoldable pub execute_plan : Option String → String → M Operation
  unfolding execute_plan_for_session
  execute_plan token plan_id = do
    session ← Sessions.authenticate w token
    execute_plan_for_session session plan_id

  request_approval : Plan → String → M (Plan × Option Approval)
  request_approval plan reason = do
    a ← Approvals.request_for_plan w plan reason
    pure (plan, some a)

  unfoldable pub create_plan : Option String → CreatePlanInput → M (Plan × Option Approval)
  unfolding is_awaiting request_approval
  create_plan token input = do
    session ← Sessions.authenticate w token
    plan ← Plans.create w session input
    if is_awaiting plan.status
        then request_approval plan ("Approve: " ⋯ plan.objective)
        else pure (plan, none)

  run_now : Session → Plan → M (Plan × Option Approval × Option Operation)
  run_now session plan = do o ← execute_plan_for_session session plan.id; pure (plan, none, some o)

  wait_for : Plan → String → M (Plan × Option Approval × Option Operation)
  wait_for plan reason = do a ← Approvals.request_for_plan w plan reason; pure (plan, some a, none)

  unfoldable pub invoke :
      Option String
      → String
      → Fields
      → Option String
      → Option Environment
      → Option String
      → M (Plan × Option Approval × Option Operation)
  unfolding is_awaiting run_now wait_for
  invoke token capability input objective environment target = do
    session ← Sessions.authenticate w token
    plan ← Plans.create w session (record {
      objective = elim objective [ none ↦ "Run " ⋯ capability | some o ↦ o ];
      environment = environment;
      target = target;
      steps = record { capability = capability; input = some input } ∷ [];
      success_criteria = none;
      excluded_effects = none;
    })
    if is_awaiting plan.status
        then wait_for plan ("Approve " ⋯ capability ⋯ ".")
        else run_now session plan

  unfoldable pub validate_plan : Option String → String → M (Plan × List PlanError)
  validate_plan token plan_id = do
    session ← Sessions.authenticate w token
    plan ← Plans.get w plan_id
    if not (plan.session_id == session.id)
        then throw scope_denied is_denied false
        else pure (plan, Plans.validate w plan)

  unfoldable pub request_scope_expansion :
      Option String → String → String → Option String → Option Environment → M Approval
  request_scope_expansion token capability reason target environment = do
    session ← Sessions.authenticate w token
    c ← lift (Registry.describe w.registry capability)
    Approvals.request_scope_expansion w (record {
      session_id = session.id;
      capability = capability;
      reason = reason;
      risk = c.risk;
      target = target;
      environment = environment;
      effects = c.possible_effects;
      reversal = c.reversal;
    })
