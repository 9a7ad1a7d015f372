-- ===== src/Remote/Commands/Checks.antt =====
-- The checks of src/remote/remote-command.handler.ts: each is the code of the error that the source
-- throws, or nothing. A payload and a request that are no objects are not modelled.
use vops.Prelude.{
  ℕ, ◌+◌, ◌-◌, ◌*◌, String, ◌==◌, Bool, true, false, not, ◌&&◌, ◌||◌, Option, none, some, List,
  is_empty, includes, any, leb, ltb, eqb, if◌then◌else◌,
}
use vops.Agent.Model.{Environment, Risk}
use vops.Agent.Policy.{same_environment}
use vops.Agent.Approvals.{risk_rank}
use vops.Remote.Model.{
  Role, viewer, admin, Device, CommandCode, invalid, binding, signing_key, signature, is_expired,
  role_denied, scope_denied, stale, CommandType, stop_all, intent_create, intent_pause,
  intent_revoke, SubjectKind, approval, operation, agent_session, control_node, notification,
  intent, CommandPayload, SignedCommand,
}
use vops.Remote.Store.{RemoteWorld, now, is_known}

abbrev pub clock_skew_ms : ℕ
clock_skew_ms = 30000

abbrev pub max_command_lifetime_ms : ℕ
max_command_lifetime_ms = 5 * 60000

unfoldable pub is_viewer : Role → Bool
is_viewer viewer = true
is_viewer _ = false

unfoldable pub is_admin : Role → Bool
is_admin admin = true
is_admin _ = false

unfoldable pub admin_only : Option CommandType → Bool
admin_only (some stop_all) = true
admin_only (some intent_create) = true
admin_only (some intent_pause) = true
admin_only (some intent_revoke) = true
admin_only _ = false

unfoldable pub same_kind : SubjectKind → SubjectKind → Bool
same_kind approval approval = true
same_kind operation operation = true
same_kind agent_session agent_session = true
same_kind control_node control_node = true
same_kind notification notification = true
same_kind intent intent = true
same_kind _ _ = false

unfoldable pub authorize_role : Device → CommandPayload → Option CommandCode
unfolding is_viewer is_admin admin_only
authorize_role device payload =
    if is_viewer device.role
    then some role_denied
    else if admin_only payload.type_of && not (is_admin device.role)
    then some role_denied
    else none

unfoldable pub require_subject : CommandPayload → SubjectKind → Option CommandCode
unfolding same_kind
require_subject payload kind = if same_kind payload.subject_kind kind then none else some invalid

unfoldable pub require_version : CommandPayload → ℕ → Option CommandCode
require_version payload version = if eqb payload.subject_version version then none else some stale

-- `target` is checked where it is there and not empty.
unfoldable pub target_outside : Option String → List String → Bool
target_outside none targets = false
target_outside (some t) targets =
    not (t == "") && (not (is_empty targets) && not (includes targets t))

unfoldable pub require_device_scope :
    Device → Option String → Environment → Risk → Option CommandCode
unfolding target_outside
require_device_scope device target environment risk =
    if target_outside target device.restrictions.targets
    then some scope_denied
    else if not (any (same_environment environment) device.restrictions.environments)
    then some scope_denied
    else if ltb (risk_rank device.restrictions.max_risk) (risk_rank risk)
    then some scope_denied
    else none

unfoldable pub require_project_scope : Device → String → Option CommandCode
require_project_scope device project =
    if not (is_empty device.restrictions.projects)
      && not (includes device.restrictions.projects project)
    then some scope_denied
    else none

module _ (w : RemoteWorld) where
  bad_plan_hash : Option String → Bool
  bad_plan_hash none = false
  bad_plan_hash (some h) = not (h == "") && not (w.is_plan_hash h)

  unfoldable pub validate_signed_command_shape : SignedCommand → Option CommandCode
  unfolding is_known bad_plan_hash
  validate_signed_command_shape signed =
      let p = signed.payload in
      if not (eqb p.protocol_version 1) || not (is_known p.type_of)
      then some invalid
      else if not (w.is_command_id p.command_id)
      then some invalid
      else if not (w.is_well_encoded signed.key_id signed.signature p)
      then some invalid
      else if p.subject_id == "" || ltb 160 (w.length_of p.subject_id)
      then some invalid
      else if ltb 32 p.parameters.count
      then some invalid
      else if bad_plan_hash p.plan_hash
      then some invalid
      else none

  -- `now - CLOCK_SKEW_MS` is below nought only where no expiry is below it.
  unfoldable pub times_denial : Option ℕ → Option ℕ → Option CommandCode
  times_denial (some issued) (some expires) =
      if leb expires issued
      then some invalid
      else if ltb (now w + clock_skew_ms) issued || ltb (expires + clock_skew_ms) (now w)
      then some is_expired
      else if ltb max_command_lifetime_ms (expires - issued)
      then some is_expired
      else none
  times_denial _ _ = some invalid

  unfoldable pub validate_command_time : CommandPayload → Option CommandCode
  unfolding times_denial
  validate_command_time payload = times_denial payload.issued_at payload.expires_at

  -- The checks of `verify` between the look-up of the device and the times.
  unfoldable pub binding_denial : Device → SignedCommand → Option CommandCode
  binding_denial device signed =
      let p = signed.payload in
      if not (device.id == p.device_id) || not (p.node_id == w.node_id)
      then some binding
      else if not (signed.key_id == device.key_id)
      then some signing_key
      else if not (w.verify_signature p signed.signature device.signing_public_key)
      then some signature
      else none
