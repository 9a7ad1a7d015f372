-- ===== src/Remote/Commands.antt =====
-- src/remote/remote-command.handler.ts: the signed commands of the paired devices. The messages of the
-- errors and the times in the records are left out.
pub mod Checks
pub mod Execution
pub mod Verified
pub mod Accepted
pub mod Kept
pub mod Overwritten
pub mod Once
use vops.Prelude.{
  ℕ, String, ◌==◌, Bool, true, false, not, ◌&&◌, ◌||◌, Option, none, some, List, map, is_empty, any,
  includes, leb, ltb, if◌then◌else◌,
}
use vops.Prelude.Result.{ok}
use vops.Prelude.Texts.{◌⋯◌}
use vops.Agent.Json.{Json, num, str, obj, Fields, field, end}
use vops.Agent.Model
use vops.Agent.Model.{
  OperationState, Operation, rollback_requested, Session, Plan, PlanStatus, Approval,
  ApprovalStatus, Failure,
}
use vops.Agent.Store
use vops.Agent.Safety
use vops.Agent.Approvals
use vops.Agent.Approvals.{highest_risk}
use vops.Agent.Plans
use vops.Agent.Operations
use vops.Agent.Operations.{no_patch, same_state}
use vops.Agent.Sessions
use vops.Remote.Model.{
  Device, Restrictions, CommandCode, invalid, is_expired, scope_denied, stale, replayed,
  approval_not_found, wrong_plan_hash, rollback_unavailable, unsupported, Fault, command,
  CommandType, approval_decision, cancel_request, rollback_request, agent_pause, agent_resume,
  agent_revoke, stop_all, notification_dismiss, intent_create, intent_pause, intent_revoke,
  SubjectKind, Proposal, CommandPayload, SignedCommand, Outcome, an_approval, an_operation,
  a_session, all_stopped, an_intent, CommandRecord, received, completed, rejected, Intent,
  command_message,
}
use vops.Remote.Store.{
  RemoteWorld, M, ◌>>=◌, ◌>>◌, pure, throw, catch, agent, now, append_event, remember_command,
  save_command_result, get_command, get_intent, is_known,
}
use vops.Remote.Messenger
use vops.Remote.Devices
use vops.Remote.Intents
use Execution
use Execution.{refuse, actor}
use Checks.{
  authorize_role, require_subject, require_version, require_device_scope, require_project_scope,
  validate_signed_command_shape, validate_command_time, binding_denial,
}

unfoldable pub type_name : CommandType → String
type_name approval_decision = "approval.decision"
type_name cancel_request = "operation.cancel_request"
type_name rollback_request = "operation.rollback_request"
type_name agent_pause = "agent.pause_request"
type_name agent_resume = "agent.resume_request"
type_name agent_revoke = "agent.revoke_request"
type_name stop_all = "agents.stop_all_request"
type_name notification_dismiss = "notification.dismiss_request"
type_name intent_create = "intent.create_request"
type_name intent_pause = "intent.pause_request"
type_name intent_revoke = "intent.revoke_request"

kind_name : SubjectKind → String
kind_name SubjectKind.approval = "approval"
kind_name SubjectKind.operation = "operation"
kind_name SubjectKind.agent_session = "agent_session"
kind_name SubjectKind.control_node = "control_node"
kind_name SubjectKind.notification = "notification"
kind_name SubjectKind.intent = "intent"

-- { ...previous, request_id, duplicate: true }
unfoldable pub again : String → CommandRecord → CommandRecord
again request_id (received r c d) = received request_id c true
again request_id (completed r c d o) = completed request_id c true o
again request_id (rejected r c d e) = rejected request_id c true e

module _ (w : RemoteWorld) where
  unfoldable pub safe_command_id : CommandPayload → Option String
  safe_command_id p = if w.is_command_id p.command_id then some p.command_id else none

  id_field : Option String → Fields → Fields
  id_field none rest = rest
  id_field (some id) rest = field "commandId" (str id) rest

  -- A type that is none of COMMAND_TYPES has no name here.
  type_field : Option CommandType → Fields → Fields
  unfolding type_name
  type_field none rest = rest
  type_field (some t) rest = field "commandType" (str (type_name t)) rest

  unfoldable pub event : Device → CommandPayload → String → String → M (Unit {0})
  unfolding actor safe_command_id id_field type_field kind_name
  event device p event_type summary = append_event w (actor device) event_type none summary (
      obj (
        id_field (safe_command_id p) (
          type_field p.type_of (
            field "subject"
              (obj (
                field "kind" (str (kind_name p.subject_kind))
                  (field "id" (str p.subject_id) (field "version" (num p.subject_version) end))))
              end))))

  unfoldable pub send : Device → CommandRecord → M (Unit {0})
  send device row = Messenger.send w device (command_message row)

  unfoldable pub verify : Device → SignedCommand → M Device
  unfolding refuse
  verify envelope_device signed = do
    refuse (validate_signed_command_shape w signed)
    device ← Devices.get_active_by_route w envelope_device.route_id
    refuse (binding_denial w device signed)
    refuse (validate_command_time w signed.payload)
    refuse (authorize_role device signed.payload)
    pure device

  unfoldable pub run_reserved : Device → String → CommandPayload → M (Unit {0})
  unfolding send event
  run_reserved device request_id p = do
    send device (received request_id p.command_id false)
    event device p "remote.command.received" "Accepted a signed remote command."
    result ← Execution.execute w device p
    let row = completed request_id p.command_id false result
    save_command_result w p.command_id row
    send device row
    event device p "remote.command.completed" "Completed a signed remote command."

  or_replayed : Option CommandRecord → Device → String → M (Unit {0})
  unfolding send again
  or_replayed none device request_id = throw (command replayed)
  or_replayed (some row) device request_id = send device (again request_id row)

  unfoldable pub run_unknown : Device → String → CommandPayload → M (Unit {0})
  unfolding run_reserved or_replayed
  run_unknown device request_id p = do
    reserved ← remember_command w p.command_id p.nonce (received request_id p.command_id false)
    if reserved
        then run_reserved device request_id p
        else do duplicate ← get_command w p.command_id; or_replayed duplicate device request_id

  answer : Option CommandRecord → Device → String → CommandPayload → M (Unit {0})
  unfolding run_unknown send again
  answer none device request_id p = run_unknown device request_id p
  answer (some row) device request_id p = send device (again request_id row)

  unfoldable pub accept : Device → String → SignedCommand → M (Unit {0})
  unfolding verify answer
  accept envelope_device request_id signed = do
    device ← verify envelope_device signed
    previous ← get_command w signed.payload.command_id
    answer previous device request_id signed.payload

  save_existing : Option CommandRecord → String → CommandRecord → M (Unit {0})
  save_existing none id row = pure tt
  save_existing (some old) id row = save_command_result w id row

  save_rejection : Option String → CommandRecord → M (Unit {0})
  unfolding save_existing
  save_rejection none row = pure tt
  save_rejection (some id) row = do existing ← get_command w id; save_existing existing id row

  -- What a command that could not be executed leaves: over the record of the same id, if there is one.
  reject : Device → String → SignedCommand → Fault → M (Unit {0})
  unfolding safe_command_id save_rejection send event
  reject envelope_device request_id signed e = do
    let row = rejected request_id (safe_command_id signed.payload) false e
    save_rejection (safe_command_id signed.payload) row
    catch (send envelope_device row) (λ f. pure tt)
    event envelope_device signed.payload "remote.command.rejected"
        "Rejected a signed remote command."

  unfoldable pub handle : Device → String → SignedCommand → M (Unit {0})
  unfolding accept reject
  handle envelope_device request_id signed =
      catch (accept envelope_device request_id signed) (reject envelope_device request_id signed)
