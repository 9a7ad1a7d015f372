-- ===== src/Remote/Intents.antt =====
-- src/remote/intent.service.ts: actions that a device has signed in advance, to be run once when a
-- plan can be ordered. The check that one `tick` runs at a time, and the timer, are not modelled; how the
-- intents are ordered in a round is not either.
pub mod Proposals
pub mod Keeping
pub mod Settled
use vops.Prelude.{
  ℕ, suc, ◌+◌, ◌*◌, String, ◌==◌, Bool, true, false, not, ◌&&◌, ◌||◌, Option, none, some, List, [],
  ◌∷◌, any, keep, map, find, is_empty, includes, leb, ltb, if◌then◌else◌,
}
use vops.Prelude.Result.{Result, ok, err}
use vops.Prelude.Texts.{◌⋯◌, pos}
use vops.Agent.Json.{Json, num, str, obj, Fields, field, end}
use vops.Agent.Model
use vops.Agent.Model.{
  AgentClient, SessionMode, OperationState, Operation, Session, Plan, Approval, Capability, Risk,
  destructive, Failure, Environment, development, staging, production,
}
use vops.Agent.Policy.{is_read, same_environment}
use vops.Agent.Registry
use vops.Agent.Approvals
use vops.Agent.Approvals.{risk_rank}
use vops.Agent.Sessions
use vops.Agent.Sessions.Inputs.{CreateInput}
use vops.Agent.Plans.{CreatePlanInput}
use vops.Agent.Operations.{same_state, state_name}
use vops.Agent.Broker
use vops.Remote.Model.{
  Device, Intent, IntentStatus, active, paused, triggered, executing, succeeded, failed, expired,
  revoked, Trigger, Action, Constraints, Proposal, Fault, other, intent_updated,
}
use vops.Remote.Store.{
  RemoteWorld, State, Offer, M, ◌>>=◌, ◌>>◌, pure, throw, catch, agent, now, append_event,
  get_device, save_intent, get_intent, list_intents, set_secret, get_secret, remove_secret,
}
use vops.Remote.Messenger
use vops.Remote.Messenger.{is_active}
use Proposals.{validate_proposal, grant_denial}

unfoldable pub status_name : IntentStatus → String
status_name active = "active"
status_name paused = "paused"
status_name triggered = "triggered"
status_name executing = "executing"
status_name succeeded = "succeeded"
status_name failed = "failed"
status_name expired = "expired"
status_name revoked = "revoked"

unfoldable pub is_active_intent : Intent → Bool
is_active_intent i = elim i.status [ active ↦ true | _ ↦ false ]

unfoldable pub is_open : IntentStatus → Bool
is_open active = true
is_open paused = true
is_open _ = false

unfoldable pub same_text : Option String → String → Bool
same_text none t = false
same_text (some s) t = s == t

module _ (w : RemoteWorld) where
  environment_name : Environment → String
  environment_name development = "development"
  environment_name staging = "staging"
  environment_name production = "production"

  -- A field that is there only where it has a value; one that is empty is left out as well.
  text_field : String → Option String → Fields → Fields
  text_field key none rest = rest
  text_field key (some s) rest = if s == "" then rest else field key (str s) rest

  time_field : String → Option ℕ → Fields → Fields
  time_field key none rest = rest
  time_field key (some t) rest = field key (str (w.agent_world.hasher.iso t)) rest

  trigger_of : Trigger → Json
  unfolding text_field
  trigger_of t = obj (
      field "type" (str "catalog.availability") (
        field "provider" (str t.provider)
          (field "serverType" (str t.server_type) (text_field "location" t.location end))))

  target_field : Option String → Fields → Fields
  target_field none rest = rest
  target_field (some t) rest = field "target" (str t) rest

  action_of : Action → Json
  unfolding environment_name target_field
  action_of a = obj (
      field "capability" (str a.capability) (
        field "input" (obj a.input)
          (field "environment" (str (environment_name a.environment)) (target_field a.target end))))

  constraints_of : Constraints → Json
  constraints_of c = obj (
      field "expiresAt" (str (w.agent_world.hasher.iso c.expires_at)) (
        field "maxExecutions" (num 1)
          (field "maxSpendEur" (num c.max_spend) (field "failureBehavior" (str "stop") end))))

  history_fields : Intent → Fields
  unfolding time_field text_field
  history_fields i = time_field "last_checked_at" i.last_checked_at (
      time_field "matched_at" i.matched_at
        (text_field "operation_id" i.operation_id (text_field "last_error" i.last_error end)))

  public_intent : Intent → Json
  unfolding status_name trigger_of action_of constraints_of history_fields
  public_intent i = obj (
      field "id" (str i.id) (
        field "device_id" (str i.device_id) (
          field "version" (num i.version) (
            field "objective" (str i.objective) (
              field "status" (str (status_name i.status)) (
                field "trigger" (trigger_of i.trigger) (
                  field "action" (action_of i.action) (
                    field "constraints" (constraints_of i.constraints) (
                      field "plan_id" (str i.plan_id) (
                        field "plan_hash" (str i.plan_hash) (
                          field "execution_count" (num i.execution_count) (
                            field "created_at" (str (w.agent_world.hasher.iso i.created_at)) (
                              field "updated_at" (str (w.agent_world.hasher.iso i.updated_at))
                                (history_fields i))))))))))))))

  safe_error : Fault → String
  safe_error e =
      if w.tells_secret (w.message_of e)
      then "Intent failed inside the local control plane."
      else w.agent_world.slice (w.message_of e) 500

  unfoldable pub event : Intent → String → String → M (Unit {0})
  unfolding public_intent
  event i event_type summary =
      append_event w "intent_watcher" event_type (some i.agent_session_id) summary (public_intent i)

  secret_key : String → String
  secret_key id = "vops-remote-intent-" ⋯ id

  -- update(intent, patch): the patch has been applied to the intent as it was read.
  unfoldable pub update : Intent → M Intent
  update patched = do
    let updated : Intent = record patched { version = suc patched.version; updated_at = now w }
    save_intent w updated
    pure updated

  unfoldable pub notify : Intent → M (Unit {0})
  unfolding is_active
  notify i = do
    found ← get_device w i.device_id
    elim found [
      | none ↦ pure tt
      | some device ↦
          if not (is_active device.status)
          then pure tt
          else catch (Messenger.send w device (intent_updated i)) (λ e. pure tt)
    ]

  unfoldable pub deactivate : Intent → M (Unit {0})
  unfolding secret_key
  deactivate i = do
    catch (agent (Sessions.revoke w.agent_world i.agent_session_id) >> pure tt) (λ e. pure tt)
    remove_secret w (secret_key i.id)

  session_input : Device → Proposal → ℕ → CreateInput
  session_input device p max_spend = record {
    client = AgentClient.other;
    client_version = none;
    display_name = some ("Conditional intent " ⋯ p.id);
    objective = p.objective;
    repository = some w.workspace;
    mode = some SessionMode.advisory;
    targets = some (elim p.action.target [
      | none ↦ device.restrictions.targets
      | some t ↦ if t == "" then device.restrictions.targets else t ∷ []
    ]);
    environments = some (p.action.environment ∷ []);
    permissions = some (record {
      allow = some [];
      allow_within_approved_plan = some (p.action.capability ∷ []);
      require_approval = some [];
      deny = some (
          keep (λ entry. not (entry == p.action.capability))
            (map (λ (c : Capability). c.id) (Registry.list w.agent_world.registry true)));
    });
    expires_in_minutes = some (pos (12 * 60));
    max_operations = some (pos 1);
    max_provider_spend = some (pos max_spend);
  }

  plan_input : Proposal → CreatePlanInput
  plan_input p = record {
    objective = p.objective;
    environment = some p.action.environment;
    target = p.action.target;
    steps = record { capability = p.action.capability; input = some p.action.input } ∷ [];
    success_criteria =
        some ("The deterministic trigger matched within the approved intent window." ∷ []);
    excluded_effects = some ("No action outside the signed intent constraints is authorized." ∷ []);
  }

  require_approval : Option Approval → M Approval
  require_approval none =
      throw (other "Conditional intent action must produce an explicit plan approval.")
  require_approval (some a) = pure a

  new_intent : Device → Proposal → ℕ → ℕ → Session → Plan → Approval → Intent
  new_intent device p expires max_spend session plan a = record {
    id = p.id;
    device_id = device.id;
    version = 1;
    objective = p.objective;
    status = active;
    trigger = p.trigger;
    action = p.action;
    constraints = record { expires_at = expires; max_spend = max_spend };
    agent_session_id = session.id;
    plan_id = plan.id;
    plan_hash = plan.hash;
    approval_id = a.id;
    execution_count = 0;
    created_at = now w;
    updated_at = now w;
    last_checked_at = none;
    matched_at = none;
    operation_id = none;
    last_error = none;
  }

  activate : Device → Proposal → ℕ → ℕ → M Intent
  unfolding session_input plan_input require_approval new_intent event secret_key
  activate device p expires max_spend = do
    created ← agent (Sessions.create w.agent_world (session_input device p max_spend))
    agent (Sessions.extend_for_conditional_intent w.agent_world created.0.id (some expires))
    planned ← agent (Broker.create_plan w.agent_world w.execute (some created.1) (plan_input p))
    a ← require_approval planned.1
    agent (
        Approvals.approve w.agent_world a.id ("Pre-authorized by signed admin intent " ⋯ p.id ⋯ ".")
          ("remote_device:" ⋯ device.id))
    let intent = new_intent device p expires max_spend created.0 planned.0 a
    save_intent w intent
    set_secret w (secret_key intent.id) created.1
    event intent "remote.intent.activated" "Activated a signed conditional intent."
    pure intent

  refuse_known : Option Intent → M (Unit {0})
  refuse_known none = pure tt
  refuse_known (some i) = throw (other "Intent ID already exists.")

  refuse : Option String → M (Unit {0})
  refuse none = pure tt
  refuse (some message) = throw (other message)

  unfoldable pub create : Device → Proposal → M Intent
  unfolding refuse_known refuse activate
  create device p = elim (validate_proposal w p) [
    | err message ↦ throw (other message)
    | ok (expires, max_spend) ↦ do
      known ← get_intent w p.id
      refuse_known known
      capability ← agent (λ db. (Registry.describe w.agent_world.registry p.action.capability, db))
      refuse (grant_denial w device capability p max_spend)
      activate device p expires max_spend
  ]

  or_unavailable : Option Intent → String → M Intent
  or_unavailable none device_id = throw (other "Intent is unavailable to this device.")
  or_unavailable (some i) device_id =
      if i.device_id == device_id
      then pure i
      else throw (other "Intent is unavailable to this device.")

  change_to : Intent → IntentStatus → M Intent
  unfolding is_open status_name event update
  change_to i status =
      if not (is_open i.status)
      then (if status_name i.status == status_name status
          then pure i
          else throw (other "Intent cannot become that."))
      else do
        updated ← update (record i { status = status })
        event updated ("remote.intent." ⋯ status_name status)
            ("Conditional intent " ⋯ status_name status ⋯ ".")
        pure updated

  transition : String → String → IntentStatus → M Intent
  unfolding or_unavailable change_to
  transition id device_id status = do
    found ← get_intent w id
    i ← or_unavailable found device_id
    change_to i status

  unfoldable pub pause : String → String → M Intent
  unfolding transition
  pause id device_id = transition id device_id paused

  unfoldable pub revoke : String → String → M Intent
  unfolding transition
  revoke id device_id = do i ← transition id device_id revoked; deactivate i; pure i

  disable_one : Bool → Intent → M (Unit {0})
  unfolding update event deactivate
  disable_one revoking i = do
    let status = if revoking then revoked else paused
    updated ← update (record i { status = status })
    event updated ("remote.intent." ⋯ status_name status) (
        "Conditional intent "
        ⋯ status_name status
        ⋯ " because its authorizing device was "
        ⋯ (if revoking then "revoked" else "suspended")
        ⋯ ".")
    if revoking then deactivate updated else pure tt

  disable_all : Bool → List Intent → M (Unit {0})
  unfolding disable_one
  disable_all revoking [] = pure tt
  disable_all revoking (i ∷ rest) = do disable_one revoking i; disable_all revoking rest

  unfoldable pub disable_for_device : String → Bool → M (Unit {0})
  unfolding is_open disable_all
  disable_for_device device_id revoking = do
    intents ← list_intents w
    disable_all revoking
        (keep (λ (i : Intent). i.device_id == device_id && is_open i.status) intents)

  -- `entry.id.toLowerCase() === serverType.toLowerCase() || …`
  is_wanted : Intent → Offer → Bool
  is_wanted i o =
      w.lower o.id == w.lower i.trigger.server_type
      || w.lower o.name == w.lower i.trigger.server_type

  here_available : Option String → String × Bool → Bool
  here_available none l = l.1
  here_available (some place) l = l.1 && (place == "" || w.lower l.0 == w.lower place)

  unfoldable pub matched : Intent → List Offer → Bool
  unfolding is_wanted here_available
  matched i offers = elim (find (is_wanted i) offers) [
    | none ↦ false
    | some o ↦ o.everywhere || any (here_available i.trigger.location) o.locations
  ]

  finish : Intent → String → String → M (Unit {0})
  unfolding event deactivate notify
  finish i event_type summary = do event i event_type summary; deactivate i; notify i

  has_succeeded : Operation → Bool
  has_succeeded o = same_state o.state OperationState.succeeded

  conclude : Intent → Operation → M (Unit {0})
  unfolding update finish has_succeeded
  conclude i o = do
    done ← update (record i {
      status = if has_succeeded o then succeeded else failed;
      execution_count = 1;
      operation_id = some o.id;
      last_error = elim o.error [
        | none ↦ i.last_error
        | some e ↦ some (w.message_of (Fault.of_agent e))
      ];
    })
    finish done (if has_succeeded o then "remote.intent.succeeded" else "remote.intent.failed")
        ("Conditional intent execution " ⋯ state_name o.state ⋯ ".")

  give_up : Intent → Fault → M (Unit {0})
  unfolding update finish safe_error
  give_up i e = do
    stopped ←
        update (record i { status = failed; execution_count = 1; last_error = some (safe_error e) })
    finish stopped "remote.intent.failed" "Conditional intent execution failed."

  run_with : Option String → Intent → M (Unit {0})
  unfolding update conclude give_up
  run_with none i = throw (other "Intent execution credential is unavailable.")
  run_with (some token) i =
      if token == "" then throw (other "Intent execution credential is unavailable.") else do
        running ← update (record i { status = executing })
        catch
            (agent (Broker.execute_plan w.agent_world w.execute (some token) i.plan_id)
              >>= conclude running)
            (give_up running)

  unfoldable pub execute : Intent → M (Unit {0})
  unfolding secret_key run_with
  execute i = do token ← get_secret w (secret_key i.id); run_with token i

  -- The intent that is written back is the one that was read before the catalogue was asked.
  check_offers : Intent → List Offer → M (Unit {0})
  unfolding update event matched
  check_offers i offers = do
    checked ← update (record i { last_checked_at = some (now w) })
    if not (matched i offers) then pure tt else do
      hit ← update (record checked { status = triggered; matched_at = some (now w) })
      event hit "remote.intent.matched" "Conditional intent trigger matched."
      execute hit

  fail_check : Intent → Fault → M (Unit {0})
  unfolding update finish safe_error
  fail_check i e = do
    stopped ← update (record i { status = failed; last_error = some (safe_error e) })
    finish stopped "remote.intent.failed" "Conditional intent evaluation failed."

  unfoldable pub evaluate : Intent → M (Unit {0})
  unfolding check_offers fail_check
  evaluate i =
      catch (w.availability i.trigger.provider i.trigger.server_type >>= check_offers i)
        (fail_check i)

  lapse : Intent → M (Unit {0})
  unfolding update finish
  lapse i = do
    over ← update (record i { status = expired })
    finish over "remote.intent.expired" "Conditional intent expired."

  unfoldable pub visit : Intent → M (Unit {0})
  unfolding lapse
  visit i = if leb i.constraints.expires_at (now w) then lapse i else evaluate i

  visit_all : List Intent → M (Unit {0})
  visit_all [] = pure tt
  visit_all (i ∷ rest) = do visit i; visit_all rest

  unfoldable pub tick : M (Unit {0})
  unfolding visit_all is_active_intent
  tick = do intents ← list_intents w; visit_all (keep is_active_intent intents)
