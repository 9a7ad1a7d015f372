-- ===== src/Remote/Commands/Execution.antt =====
-- src/remote/remote-command.handler.ts: what an accepted command does.
pub mod Keeping
use vops.Prelude.{
  ℕ, String, ◌==◌, Bool, true, false, not, ◌&&◌, ◌||◌, Option, none, some, List, map, is_empty, any,
  includes, leb, ltb, if◌then◌else◌,
}
use vops.Prelude.Result.{ok}
use vops.Prelude.Texts.{◌⋯◌}
use vops.Agent.Json.{Json, num, str, obj, Fields, field, end}
use vops.Agent.Model
use vops.Agent.Model.{
  OperationState, Operation, rollback_requested, Session, Plan, PlanStatus, Approval,
  ApprovalStatus, Failure,
}
use vops.Agent.Store
use vops.Agent.Safety
use vops.Agent.Approvals
use vops.Agent.Approvals.{highest_risk}
use vops.Agent.Plans
use vops.Agent.Operations
use vops.Agent.Operations.{no_patch, same_state}
use vops.Agent.Sessions
use vops.Remote.Model.{
  Device, Restrictions, CommandCode, invalid, is_expired, scope_denied, stale, replayed,
  approval_not_found, wrong_plan_hash, rollback_unavailable, unsupported, Fault, command,
  CommandType, approval_decision, cancel_request, rollback_request, agent_pause, agent_resume,
  agent_revoke, stop_all, notification_dismiss, intent_create, intent_pause, intent_revoke,
  SubjectKind, Proposal, CommandPayload, SignedCommand, Outcome, an_approval, an_operation,
  a_session, all_stopped, an_intent, CommandRecord, received, completed, rejected, Intent,
  command_message,
}
use vops.Remote.Store.{
  RemoteWorld, M, ◌>>=◌, ◌>>◌, pure, throw, catch, agent, now, append_event, remember_command,
  save_command_result, get_command, get_intent, is_known,
}
use vops.Remote.Messenger
use vops.Remote.Devices
use vops.Remote.Intents
use vops.Remote.Commands.Checks.{
  authorize_role, require_subject, require_version, require_device_scope, require_project_scope,
  validate_signed_command_shape, validate_command_time, binding_denial,
}

unfoldable pub refuse : Option CommandCode → M (Unit {0})
refuse none = pure tt
refuse (some code) = throw (command code)

abbrev outcome : {A : Type 0} → (A → Outcome) → M A → M Outcome
outcome f m = do a ← m; pure (f a)

is_pending : ApprovalStatus → Bool
is_pending ApprovalStatus.pending = true
is_pending _ = false

is_awaiting : PlanStatus → Bool
is_awaiting PlanStatus.awaiting_approval = true
is_awaiting _ = false

-- Of an operation that can be rolled back.
is_settled : OperationState → Bool
is_settled OperationState.succeeded = true
is_settled OperationState.failed = true
is_settled _ = false

-- Date.parse(payload.expires_at) > time, which no time at all is not
outlives : Option ℕ → ℕ → Bool
outlives none time = false
outlives (some expires) time = ltb time expires

text_of : Option String → String
text_of none = ""
text_of (some s) = s

abbrev or_default : String → String → String
or_default s d = if s == "" then d else s

unfoldable pub actor : Device → String
actor device = "remote_device:" ⋯ device.id

module _ (w : RemoteWorld) where
  command_reason : CommandPayload → String
  unfolding text_of
  command_reason p = w.agent_world.slice (w.agent_world.trim (text_of p.parameters.reason)) 500

  require_plan_scope : Device → String → M (Unit {0})
  unfolding refuse
  require_plan_scope device plan_id = do
    plan ← agent (Plans.get w.agent_world plan_id)
    refuse (require_device_scope device plan.target plan.environment (highest_risk plan.steps))

  or_not_found : Option Approval → M Approval
  or_not_found none = throw (command approval_not_found)
  or_not_found (some a) = pure a

  -- A text that is not there, or empty, is refused.
  or_no_hash : Option String → M String
  or_no_hash none = throw (command wrong_plan_hash)
  or_no_hash (some s) = if s == "" then throw (command wrong_plan_hash) else pure s

  approval_denial : CommandPayload → Approval → Option CommandCode
  unfolding is_pending outlives
  approval_denial p a =
      if not (is_pending a.status)
      then some stale
      else if leb a.expires_at (now w) || outlives p.expires_at a.expires_at
      then some is_expired
      else none

  plan_denial : Plan → String → Option CommandCode
  unfolding is_awaiting
  plan_denial plan hash =
      if not (plan.hash == hash)
      then some wrong_plan_hash
      else if not (is_empty (Plans.validate w.agent_world plan)) || not (is_awaiting plan.status)
      then some stale
      else none

  kind_denial : Device → Option CommandCode
  kind_denial device =
      if includes device.restrictions.approval_kinds "plan" then none else some scope_denied

  decide : Device → CommandPayload → Approval → M Outcome
  unfolding text_of command_reason actor
  decide device p a =
      let decision = text_of p.parameters.decision in
      if decision == "approve"
      then outcome an_approval (
          agent (
            Approvals.approve w.agent_world a.id
              (or_default (command_reason p) ("Approved by remote device " ⋯ device.label ⋯ "."))
              (actor device)))
      else if decision == "deny"
      then outcome an_approval (
          agent (
            Approvals.deny w.agent_world a.id
              (or_default (command_reason p) ("Denied by remote device " ⋯ device.label ⋯ "."))
              (actor device)))
      else throw (command invalid)

  unfoldable pub decide_approval : Device → CommandPayload → M Outcome
  unfolding refuse or_not_found approval_denial or_no_hash plan_denial kind_denial decide
  decide_approval device p = do
    refuse (require_subject p SubjectKind.approval)
    found ← agent (Store.get_approval w.agent_world p.subject_id)
    a ← or_not_found found
    refuse (require_version p a.requested_at)
    refuse (approval_denial p a)
    plan_id ← or_no_hash a.plan_id
    hash ← or_no_hash p.plan_hash
    plan ← agent (Plans.get w.agent_world plan_id)
    refuse (plan_denial plan hash)
    refuse (require_device_scope device plan.target plan.environment a.risk)
    refuse (kind_denial device)
    decide device p a

  cancel_operation : Device → CommandPayload → M Outcome
  unfolding refuse require_plan_scope
  cancel_operation device p = do
    refuse (require_subject p SubjectKind.operation)
    o ← agent (Operations.get w.agent_world p.subject_id)
    refuse (require_version p o.updated_at)
    require_plan_scope device o.plan_id
    outcome an_operation (agent (Operations.request_cancel w.agent_world o.id))

  rollback_denial : Operation → Option CommandCode
  unfolding is_settled
  rollback_denial o =
      if not o.rollback_available
      then some rollback_unavailable
      else if not (is_settled o.state)
      then some stale
      else none

  roll_back_operation : Device → CommandPayload → M Outcome
  unfolding refuse require_plan_scope rollback_denial
  roll_back_operation device p = do
    refuse (require_subject p SubjectKind.operation)
    o ← agent (Operations.get w.agent_world p.subject_id)
    refuse (require_version p o.updated_at)
    require_plan_scope device o.plan_id
    refuse (rollback_denial o)
    outcome an_operation
        (agent (Operations.transition w.agent_world o.id rollback_requested no_patch))

  with_session : (String → Store.M Session) → Device → CommandPayload → M Outcome
  unfolding refuse
  with_session change device p = do
    refuse (require_subject p SubjectKind.agent_session)
    session ← agent (Sessions.show w.agent_world p.subject_id)
    refuse (require_version p session.updated_at)
    refuse (require_project_scope device session.repository_name)
    outcome a_session (agent (change session.id))

  stop_everything : Device → CommandPayload → M Outcome
  unfolding refuse actor command_reason
  stop_everything device p = do
    refuse (require_subject p SubjectKind.control_node)
    agent (Safety.activate w.agent_world (actor device) (command_reason p))
    sessions ← agent (Sessions.stop_all w.agent_world)
    stop ← agent (λ db. (ok (Safety.current db), db))
    pure (all_stopped stop (map (λ (s : Session). s.id) sessions))

  or_mismatched : Option Proposal → String → M Proposal
  or_mismatched none id = throw (command invalid)
  or_mismatched (some p) id = if p.id == id then pure p else throw (command invalid)

  create_intent : Device → CommandPayload → M Outcome
  unfolding refuse or_mismatched
  create_intent device p = do
    refuse (require_subject p SubjectKind.intent)
    refuse (require_version p 0)
    proposal ← or_mismatched p.parameters.proposal p.subject_id
    outcome an_intent (Intents.create w device proposal)

  or_unavailable : Option Intent → String → M Intent
  or_unavailable none id = throw (command scope_denied)
  or_unavailable (some i) id = if i.device_id == id then pure i else throw (command scope_denied)

  with_intent : (String → String → M Intent) → Device → CommandPayload → M Outcome
  unfolding refuse or_unavailable
  with_intent change device p = do
    refuse (require_subject p SubjectKind.intent)
    found ← get_intent w p.subject_id
    i ← or_unavailable found device.id
    refuse (require_version p i.version)
    outcome an_intent (change i.id device.id)

  unfoldable pub execute_type : Option CommandType → Device → CommandPayload → M Outcome
  unfolding cancel_operation roll_back_operation with_session stop_everything create_intent
      with_intent
  execute_type (some approval_decision) device p = decide_approval device p
  execute_type (some cancel_request) device p = cancel_operation device p
  execute_type (some rollback_request) device p = roll_back_operation device p
  execute_type (some agent_pause) device p = with_session (Sessions.pause w.agent_world) device p
  execute_type (some agent_resume) device p = with_session (Sessions.resume w.agent_world) device p
  execute_type (some agent_revoke) device p = with_session (Sessions.revoke w.agent_world) device p
  execute_type (some stop_all) device p = stop_everything device p
  execute_type (some intent_create) device p = create_intent device p
  execute_type (some intent_pause) device p = with_intent (Intents.pause w) device p
  execute_type (some intent_revoke) device p = with_intent (Intents.revoke w) device p
  execute_type _ device p = throw (command unsupported)

  unfoldable pub execute : Device → CommandPayload → M Outcome
  unfolding execute_type
  execute device p = execute_type p.type_of device p
