-- ===== src/Tests/Phones.antt =====
-- A paired device, its commands and its intents.
use vops.Prelude.{
  ℕ, map, String, ◌≡◌, ◌≢◌, ◌⊎◌, inl, ◌==◌, true, false, none, some, [], ◌∷◌, arith, eq_iff, refl,
  sym, ap, ◌∙◌, List, any,
}
use vops.Prelude.Result.{ok, err}
use vops.Agent.Json.{end}
use vops.Agent.Model.{staging}
use vops.Agent.Store.Tables
use vops.Agent.Store.Tables.{records}
use vops.Remote.Model.{
  Role, DeviceStatus, Device, default_restrictions, Intent, IntentStatus, CommandType, SubjectKind,
  SignedCommand, received, rejected, Fault, command, signature,
}
use vops.Remote.Store.{RemoteWorld, State, Offer}
use vops.Remote.Devices.{Registration, register}
use vops.Remote.Devices.Revoked.{HasRevoked, resumes, registers, requests, requests-HasRevoked}
use vops.Remote.Devices.Registering.{register-fails}
use vops.Remote.Intents.{evaluate, matched}
use vops.Remote.Intents.Settled.{HasEnded, written, evaluate-HasEnded}
use vops.Remote.Commands.{handle, verify}
use vops.Remote.Commands.Verified.{Authorized}
use vops.Remote.Commands.Accepted.{IsFresh}
use vops.Remote.Commands.Once.{
  Arrival, arrive, run, Control, control, handle-IsAuthorized, arrive_once,
}
use vops.Remote.Commands.Overwritten.{handle-overwrites}
use vops.Tests.Data.{world, db, executor}

abbrev pub remote : RemoteWorld
remote = record {
  agent_world = world;
  execute = executor;
  node_id = "n1";
  enabled = true;
  online = true;
  random = λ prefix n. prefix;
  cleaned = λ s. s;
  lower = λ s. s;
  length_of = λ s. 1;
  is_command_id = λ s. true;
  is_well_encoded = λ key signature p. true;
  is_intent_id = λ s. true;
  is_plan_hash = λ s. true;
  verify_signature = λ p signature key. signature == "good";
  verify_challenge = λ c signature key. signature == "good";
  device_key_id = λ signing exchange. "k1";
  register_pairing = λ id expires. none;
  is_connected = λ d n. true;
  availability = λ provider server s. (ok [], s);
  supports_plan = λ id. true;
  message_of = λ e. "failed";
  tells_secret = λ s. false;
  workspace = ("/w", "w");
}

abbrev pub device : Device
device = record {
  id = "d1";
  route_id = "r1";
  label = "phone";
  role = Role.admin;
  status = DeviceStatus.active;
  signing_public_key = "sk";
  exchange_public_key = "ek";
  key_id = "k1";
  restrictions = default_restrictions;
  paired_at = 0;
  updated_at = 0;
  last_seen_at = none;
  revoked_at = none;
  suspended_at = none;
}

abbrev intent : Intent
intent = record {
  id = "i1";
  device_id = "d1";
  version = 1;
  objective = "a server";
  status = IntentStatus.active;
  trigger = record { provider = "p"; server_type = "small"; location = none };
  action = record {
    capability = "application.restart";
    input = end;
    environment = staging;
    target = none;
  };
  constraints = record { expires_at = 9000; max_spend = 0 };
  agent_session_id = "s1";
  plan_id = "p1";
  plan_hash = "h0";
  approval_id = "a1";
  execution_count = 0;
  created_at = 0;
  updated_at = 0;
  last_checked_at = none;
  matched_at = none;
  operation_id = none;
  last_error = none;
}

abbrev pub phone_state : State
phone_state = record {
  agent = db;
  devices = ("d1", device) ∷ [];
  pairings = [];
  counters = [];
  replay = [];
  commands = [];
  nonces = [];
  intents = ("i1", intent) ∷ [];
  secrets = ("vops-remote-intent-i1", "token") ∷ [];
  sent = [];
}

abbrev pausing : SignedCommand
pausing = record {
  payload = record {
    protocol_version = 1;
    command_id = "c1";
    type_of = some CommandType.intent_pause;
    device_id = "d1";
    node_id = "n1";
    nonce = "x";
    issued_at = some 900;
    expires_at = some 2000;
    subject_kind = SubjectKind.intent;
    subject_id = "i1";
    subject_version = 1;
    plan_hash = none;
    parameters = record { decision = none; reason = none; proposal = none; count = 0 };
  };
  key_id = "k1";
  signature = "good";
}

handle-IsAuthorized_example :
    (control (handle remote device "q1" pausing phone_state).1 ≡ control phone_state)
    ⊎ ((d : Device) × Authorized remote phone_state "r1" d pausing
        × IsFresh pausing.payload phone_state)
handle-IsAuthorized_example = handle-IsAuthorized remote device "q1" pausing phone_state

abbrev first : Arrival
first = record { world = remote; device = device; request_id = "q1"; signed = pausing }

abbrev second : Arrival
second = record first { request_id = "q2" }

abbrev versions : State → List ℕ
versions s = map (λ (i : Intent). i.version) (records s.intents)

paused_once : versions (arrive first phone_state) ≡ 2 ∷ []
unfolding records arrive handle vops.Remote.Commands.Checks.validate_signed_command_shape
    vops.Remote.Devices.get_active_by_route vops.Remote.Store.get_device_by_route
    vops.Remote.Commands.Checks.binding_denial vops.Remote.Commands.Checks.validate_command_time
    vops.Remote.Commands.Checks.authorize_role vops.Remote.Store.get_command Tables.get
    vops.Remote.Store.remember_command any vops.Remote.Messenger.send vops.Remote.Store.random_id
    vops.Remote.Store.next_outbound_sequence vops.Remote.Store.append_event
    vops.Agent.Store.local_id vops.Agent.Store.append_event vops.Remote.Commands.Execution.execute
    vops.Remote.Commands.Checks.require_subject vops.Remote.Store.get_intent
    vops.Remote.Commands.Checks.require_version vops.Remote.Intents.pause
    vops.Remote.Store.save_intent vops.Remote.Store.save_command_result Tables.upsert
paused_once = refl

changed : control (arrive first phone_state) ≢ control phone_state
unfolding records
changed e =
    let shown = λ (c : Control). map (λ (i : Intent). i.version) (records c.intents) in
    let same : (2 ∷ []) ≡ (1 ∷ []) = sym paused_once ∙ ap shown e in ground (arith, same)

arrive_once_example :
    control (arrive second (run (first ∷ []) (arrive first phone_state)))
    ≡ control (run (first ∷ []) (arrive first phone_state))
arrive_once_example = arrive_once first second (first ∷ []) phone_state changed (inl refl)

abbrev forged : SignedCommand
forged = record pausing { signature = "bad" }

abbrev done : State
done = record phone_state { commands = ("c1", received "q1" "c1" false) ∷ [] }

is_refused : (verify remote device forged done).0 ≡ err (command signature)
unfolding verify vops.Remote.Commands.Checks.validate_signed_command_shape
    vops.Remote.Devices.get_active_by_route vops.Remote.Store.get_device_by_route
    vops.Remote.Commands.Checks.binding_denial records
is_refused = refl

handle-overwrites_example :
    Tables.get "c1" (handle remote device "q2" forged done).1.commands
    ≡ some (rejected "q2" (some "c1") false (command signature))
unfolding Tables.get
handle-overwrites_example =
    handle-overwrites remote device "q2" forged done (command signature) (received "q1" "c1" false)
      is_refused refl refl

abbrev withdrawn : Device
withdrawn = record device { status = DeviceStatus.revoked }

abbrev after_withdrawal : State
after_withdrawal = record phone_state { devices = ("d1", withdrawn) ∷ [] }

abbrev again : Registration
again = record {
  route_id = "r1";
  label = "phone";
  role = Role.admin;
  signing_public_key = "sk";
  exchange_public_key = "ek";
  key_id = "k1";
  restrictions = none;
}

is_new : (n : ℕ) → remote.agent_world.local_id "device" n ≢ "d1"
is_new n = ground (arith, eq_iff "device" "d1")

is_keyed :
    (key : String) (d : Device) → Tables.get key after_withdrawal.devices ≡ some d → d.id ≡ key
unfolding Tables.get
is_keyed key d h = ground (arith, eq_iff "d1" key)

is_withdrawn : HasRevoked "d1" after_withdrawal.devices
unfolding Tables.get
is_withdrawn = record { keyed = is_keyed; device = withdrawn; held = refl; stopped = refl }

requests-HasRevoked_example :
    HasRevoked "d1"
      (requests ((remote, resumes "d1") ∷ (remote, registers again) ∷ []) after_withdrawal).devices
requests-HasRevoked_example =
    requests-HasRevoked ((remote, resumes "d1") ∷ (remote, registers again) ∷ []) "d1"
      after_withdrawal (is_new, (is_new, tt)) is_withdrawn

register-fails_example : (e : Fault) × ((register remote again after_withdrawal).0 ≡ err e)
unfolding vops.Remote.Store.by_route records
register-fails_example = register-fails remote again after_withdrawal withdrawn refl (is_new 0)

evaluate-HasEnded_example :
    HasEnded remote "i1" (evaluate remote intent phone_state).1
    ⊎ ((offers : List Offer) × ((remote.availability "p" "small" phone_state).0 ≡ ok offers)
        × (matched remote intent offers ≡ false)
        × (Tables.get "i1" (evaluate remote intent phone_state).1.intents
            ≡ some (written remote (record intent { last_checked_at = some 1000 }))))
evaluate-HasEnded_example = evaluate-HasEnded remote intent phone_state
