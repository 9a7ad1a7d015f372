-- ===== src/Agent/Policy.antt =====
-- src/agent-control/policy-engine.ts. The text of a reason is a value of `Reason`.
pub mod Allowed
pub mod Scope
pub mod Laws
use vops.Prelude.{
  ℕ, String, ◌≡◌, Bool, true, false, not, ◌&&◌, ◌||◌, Option, none, some, List, [], ◌∷◌, ◌==◌, any,
  includes, is_empty, is_zero, if◌then◌else◌,
}
use vops.Prelude.Result.{Result, ok, err}
use vops.Agent.Json.{Json, null, bool, num, str, arr, obj, Fields, get}
use vops.Agent.Model.{
  SessionStatus, active, paused, revoked, expired, completed, Environment, development, staging,
  production, Session, Risk, read_only, Access, read, ApprovalDefault, session_grant, Capability,
  PlanStatus, approved, Plan, Failure,
}
use vops.Agent.Registry.{Registry, describe}

pub record Request : Type 0 where
  pub session : Session
  pub capability : String
  pub input : Fields
  pub environment : Environment
  pub approved_plan : Option Plan

pub data Effect : Type 0 where
  allow approval_required deny : Effect

pub data Reason : Type 0 where
  emergency_stop : Reason
  unavailable : Option String → Reason
  session_is : SessionStatus → Reason
  outside_environment : Environment → Reason
  outside_target : String → Reason
  host_needed : Reason
  denied_by_session : Reason
  zero_spend : Reason
  read_only_granted : Reason
  granted : Reason
  in_approved_plan : Reason
  needs_plan : Reason
  not_granted : Reason

pub record Decision : Type 0 where
  pub effect : Effect
  pub reason : Reason

unfoldable pub is_read : Access → Bool
is_read read = true
is_read _ = false

unfoldable pub is_read_only : Risk → Bool
is_read_only read_only = true
is_read_only _ = false

unfoldable pub is_active : SessionStatus → Bool
is_active active = true
is_active _ = false

unfoldable pub is_approved : PlanStatus → Bool
is_approved approved = true
is_approved _ = false

unfoldable pub is_session_grant : ApprovalDefault → Bool
is_session_grant session_grant = true
is_session_grant _ = false

unfoldable pub same_environment : Environment → Environment → Bool
same_environment development development = true
same_environment staging staging = true
same_environment production production = true
same_environment _ _ = false

unfoldable pub matches : List String → String → Bool
matches patterns capability = any (λ pattern. pattern == "*" || pattern == capability) patterns

-- `typeof input[key] === 'string' && input[key]`
unfoldable pub nonempty_text : Option Json → Option String
nonempty_text (some (str s)) = if s == "" then none else some s
nonempty_text _ = none

unfoldable pub or_else : Option String → Option String → Option String
or_else none o = o
or_else (some s) o = some s

unfoldable pub target_from : Fields → Option String
unfolding nonempty_text or_else
target_from input =
    or_else (nonempty_text (get input "target"))
      (or_else (nonempty_text (get input "host")) (nonempty_text (get input "id")))

unfoldable pub target_denial : List String → Bool → Option String → Option Reason
target_denial targets host_scoped (some t) =
    if includes targets t then none else some (outside_target t)
target_denial targets host_scoped none = if host_scoped then some host_needed else none

unfoldable pub scope_denial : Session → Capability → Environment → Fields → Option Reason
unfolding target_denial
scope_denial session capability environment input =
    if not (any (same_environment environment) session.scope.environments)
    then some (outside_environment environment)
    else if is_empty session.scope.targets
    then none
    else target_denial session.scope.targets capability.host_scoped (target_from input)

unfoldable pub plan_covers : Option Plan → Session → Capability → Bool
plan_covers none session capability = false
plan_covers (some plan) session capability =
    is_approved plan.status
    && (plan.session_id == session.id
        && (matches session.permissions.allow_within_approved_plan capability.id
            || matches session.permissions.require_approval capability.id))

decision : Effect → Reason → Decision
decision effect reason = record { effect = effect; reason = reason }

-- The grants, once nothing stands against the request.
unfoldable pub grant : Request → Capability → Decision
unfolding decision
grant request capability =
    let session = request.session in
    if is_read_only capability.risk && matches session.permissions.allow capability.id
    then decision allow read_only_granted
    else if matches session.permissions.allow capability.id
    then decision allow granted
    else if plan_covers request.approved_plan session capability
    then decision allow in_approved_plan
    else if matches session.permissions.require_approval capability.id
        || (matches session.permissions.allow_within_approved_plan capability.id
            || not (is_session_grant (capability.approval_defaults request.environment)))
    then decision approval_required needs_plan
    else decision deny not_granted

-- The checks below the scope.
unfoldable pub permit : Option Reason → Request → Capability → Decision
unfolding decision
permit (some out_of_scope) request capability = decision deny out_of_scope
permit none request capability =
    let session = request.session in
    if matches session.permissions.deny capability.id
    then decision deny denied_by_session
    else if capability.id == "server.provision" && is_zero session.limits.max_provider_spend
    then decision deny zero_spend
    else grant request capability

-- `stopped` is `safety?.current().active`.
unfoldable pub decide : Bool → Request → Capability → Decision
unfolding decision
decide stopped request capability =
    let session = request.session in
    if stopped && not (is_read capability.access)
    then decision deny emergency_stop
    else if not capability.enabled
    then decision deny (unavailable capability.unavailable_reason)
    else if not (is_active session.status)
    then decision deny (session_is session.status)
    else permit (scope_denial session capability request.environment request.input) request
        capability

-- An unknown capability throws.
unfoldable pub evaluate : Registry → Bool → Request → Result Failure Decision
evaluate registry stopped request = elim (describe registry request.capability) [
  | err e ↦ err e
  | ok capability ↦ ok (decide stopped request capability)
]
