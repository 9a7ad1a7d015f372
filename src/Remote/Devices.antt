-- ===== src/Remote/Devices.antt =====
-- src/remote/device-registry.ts. The relay is told of a device's new status too; what it answers is
-- ignored, and it is not modelled.
pub mod Revoked
pub mod Registering
use vops.Prelude.{
  ℕ, String, ◌==◌, Bool, true, false, not, ◌&&◌, ◌||◌, Option, none, some, List, [], ◌∷◌, leb, ltb,
  if◌then◌else◌,
}
use vops.Prelude.Texts.{◌⋯◌, ℤ, clamp}
use vops.Agent.Json.{Json, str, obj, field, end}
use vops.Agent.Model.{Environment, development, staging, production, Risk, read_only}
use vops.Remote.Model.{
  Role, viewer, approver, admin, DeviceStatus, pending, active, suspended, revoked, Restrictions,
  GivenRestrictions, default_restrictions, Device, Fault, other,
}
use vops.Remote.Store.{
  RemoteWorld, M, ◌>>=◌, ◌>>◌, pure, throw, agent, now, append_event, save_device, get_device,
  get_device_by_route, list_devices,
}
use vops.Agent.Store
use vops.Remote.Messenger.{is_active}
use vops.Remote.Intents

unfoldable pub role_name : Role → String
role_name viewer = "viewer"
role_name approver = "approver"
role_name admin = "admin"

unfoldable pub status_name : DeviceStatus → String
status_name pending = "pending"
status_name active = "active"
status_name suspended = "suspended"
status_name revoked = "revoked"

unfoldable pub is_viewer : Role → Bool
is_viewer viewer = true
is_viewer _ = false

unfoldable pub is_revoked : DeviceStatus → Bool
is_revoked revoked = true
is_revoked _ = false

unfoldable pub is_suspended : DeviceStatus → Bool
is_suspended suspended = true
is_suspended _ = false

abbrev given {ℓ} : {A : Type ℓ} → Option A → A → A
given none d = d
given (some a) d = a

baseline : Role → Restrictions
baseline viewer = record default_restrictions { max_risk = read_only; approval_kinds = [] }
baseline approver = default_restrictions
baseline admin = record default_restrictions {
  environments = development ∷ staging ∷ production ∷ [];
}

spend_limit : Option ℤ → ℕ → ℕ
spend_limit none d = d
spend_limit (some a) d = clamp a

unfoldable pub normalize_restrictions : Role → GivenRestrictions → Restrictions
unfolding baseline is_viewer spend_limit
normalize_restrictions role input =
    let base = baseline role in
    record {
      projects = given input.projects base.projects;
      targets = given input.targets base.targets;
      environments = given input.environments base.environments;
      max_risk = if is_viewer role then read_only else given input.max_risk base.max_risk;
      approval_kinds =
          if is_viewer role then [] else given input.approval_kinds base.approval_kinds;
      max_provider_spend = spend_limit input.max_provider_spend base.max_provider_spend;
      valid_until = input.valid_until;
    }

-- The restrictions that a device has, as an input of `normalizeRestrictions`.
abbrev pub as_given : Restrictions → GivenRestrictions
as_given r = record {
  projects = some r.projects;
  targets = some r.targets;
  environments = some r.environments;
  max_risk = some r.max_risk;
  approval_kinds = some r.approval_kinds;
  max_provider_spend = some (ℤ.pos r.max_provider_spend);
  valid_until = r.valid_until;
}

abbrev pub no_restrictions : GivenRestrictions
no_restrictions = record {
  projects = none;
  targets = none;
  environments = none;
  max_risk = none;
  approval_kinds = none;
  max_provider_spend = none;
  valid_until = none;
}

pub record Registration : Type 0 where
  pub route_id : String
  pub label : String
  pub role : Role
  pub signing_public_key : String
  pub exchange_public_key : String
  pub key_id : String
  pub restrictions : Option GivenRestrictions

module _ (w : RemoteWorld) where
  unfoldable pub event : Device → String → String → M (Unit {0})
  unfolding role_name status_name
  event d event_type summary = append_event w "local_user" event_type none summary (
      obj (
        field "deviceId" (str d.id) (
          field "label" (str d.label) (
            field "role" (str (role_name d.role))
              (field "status" (str (status_name d.status)) end)))))

  clean_label : String → M String
  clean_label label =
      let value = w.cleaned label in
      if value == "" || ltb 80 (w.length_of value)
      then throw (other "Device label must be between 1 and 80 characters.")
      else pure value

  refuse_paired : Option Device → M (Unit {0})
  unfolding is_revoked
  refuse_paired none = pure tt
  refuse_paired (some d) =
      if not (is_revoked d.status)
      then throw (other "This device route is already paired.")
      else pure tt

  unfoldable pub register : Registration → M Device
  unfolding refuse_paired clean_label event
  register input = do
    existing ← get_device_by_route w input.route_id
    refuse_paired existing
    id ← agent (Store.local_id w.agent_world "device")
    label ← clean_label input.label
    let device : Device = record {
      id = id;
      route_id = input.route_id;
      label = label;
      role = input.role;
      status = active;
      signing_public_key = input.signing_public_key;
      exchange_public_key = input.exchange_public_key;
      key_id = input.key_id;
      restrictions = normalize_restrictions input.role (given input.restrictions no_restrictions);
      paired_at = now w;
      updated_at = now w;
      last_seen_at = none;
      revoked_at = none;
      suspended_at = none;
    }
    save_device w device
    event device "remote.device.paired" ("Paired remote device '" ⋯ device.label ⋯ "'.")
    pure device

  or_not_found : Option Device → M Device
  or_not_found none = throw (other "Remote device was not found.")
  or_not_found (some d) = pure d

  unfoldable pub get : String → M Device
  unfolding or_not_found
  get id = do found ← get_device w id; or_not_found found

  unfoldable pub has_lapsed : Option ℕ → Bool
  has_lapsed none = false
  has_lapsed (some t) = leb t (now w)

  unfoldable pub or_inactive : Option Device → M Device
  unfolding is_active has_lapsed
  or_inactive none = throw (other "Remote device is not active.")
  or_inactive (some d) =
      if not (is_active d.status)
      then throw (other "Remote device is not active.")
      else if has_lapsed d.restrictions.valid_until
      then throw (other "Remote device grant expired.")
      else pure d

  unfoldable pub get_active_by_route : String → M Device
  unfolding or_inactive
  get_active_by_route route_id = do found ← get_device_by_route w route_id; or_inactive found

  unfoldable pub list : M (List Device)
  list = list_devices w

  unfoldable pub touch : String → M Device
  unfolding get
  touch id = do
    device ← get id
    let updated : Device = record device { last_seen_at = some (now w); updated_at = now w }
    save_device w updated
    pure updated

  with_status : Device → DeviceStatus → Device
  unfolding is_revoked is_suspended
  with_status d status = record d {
    status = status;
    updated_at = now w;
    revoked_at = if is_revoked status then some (now w) else d.revoked_at;
    suspended_at = if is_suspended status then some (now w) else d.suspended_at;
  }

  change_status : Device → DeviceStatus → M Device
  unfolding is_revoked is_suspended status_name with_status event
  change_status device status =
      if is_revoked device.status && not (is_revoked status)
      then throw (other "A revoked device cannot be resumed.")
      else do
        let updated = with_status device status
        save_device w updated
        if is_suspended status || is_revoked status
            then Intents.disable_for_device w updated.id (is_revoked status)
            else pure tt
        event updated ("remote.device." ⋯ status_name status)
            ("Remote device " ⋯ status_name status ⋯ ".")
        pure updated

  unfoldable pub set_status : String → DeviceStatus → M Device
  unfolding get change_status
  set_status id status = do device ← get id; change_status device status

  unfoldable pub suspend : String → M Device
  suspend id = set_status id suspended

  unfoldable pub resume : String → M Device
  resume id = set_status id active

  unfoldable pub revoke : String → M Device
  revoke id = set_status id revoked

  change_role : Device → Role → M Device
  unfolding is_revoked role_name normalize_restrictions event
  change_role device role =
      if is_revoked device.status
      then throw (other "A revoked device cannot receive a new role.")
      else do
        let updated : Device = record device {
          role = role;
          restrictions = normalize_restrictions role (as_given device.restrictions);
          updated_at = now w;
        }
        save_device w updated
        event updated "remote.device.role_changed"
            ("Changed remote device role to " ⋯ role_name role ⋯ ".")
        pure updated

  unfoldable pub set_role : String → Role → M Device
  unfolding get change_role
  set_role id role = do device ← get id; change_role device role
