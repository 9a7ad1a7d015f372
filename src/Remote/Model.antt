-- ===== src/Remote/Model.antt =====
-- src/remote/remote-model.ts, and the signed commands of remote-message.types.ts. A time is a number
-- of milliseconds; in what a device sends it may be no time at all.
use vops.Prelude.{ℕ, String, Bool, Option, none, List, [], ◌∷◌}
use vops.Prelude.Texts.{ℤ}
use vops.Agent.Json.{Fields}
use vops.Agent.Model.{
  Environment, development, staging, Risk, medium, Failure, Approval, Operation, Session,
}
use vops.Agent.Store.{EmergencyStop}

pub data Role : Type 0 where
  viewer approver admin : Role

pub data DeviceStatus : Type 0 where
  pending active suspended revoked : DeviceStatus

pub record Restrictions : Type 0 where
  pub projects : List String
  pub targets : List String
  pub environments : List Environment
  pub max_risk : Risk
  pub approval_kinds : List String
  pub max_provider_spend : ℕ
  pub valid_until : Option ℕ

-- Partial<RemoteDeviceRestrictions>
pub record GivenRestrictions : Type 0 where
  pub projects : Option (List String)
  pub targets : Option (List String)
  pub environments : Option (List Environment)
  pub max_risk : Option Risk
  pub approval_kinds : Option (List String)
  pub max_provider_spend : Option ℤ
  pub valid_until : Option ℕ

pub record Device : Type 0 where
  pub id : String
  pub route_id : String
  pub label : String
  pub role : Role
  pub status : DeviceStatus
  pub signing_public_key : String
  pub exchange_public_key : String
  pub key_id : String
  pub restrictions : Restrictions
  pub paired_at : ℕ
  pub updated_at : ℕ
  pub last_seen_at : Option ℕ
  pub revoked_at : Option ℕ
  pub suspended_at : Option ℕ

pub data PairingStatus : Type 0 where
  pending hello_received confirmed expired cancelled : PairingStatus

pub record PairingSession : Type 0 where
  pub id : String
  pub node_id : String
  pub challenge : String
  pub status : PairingStatus
  pub created_at : ℕ
  pub expires_at : ℕ
  pub device_route_id : Option String
  pub device_signing_public_key : Option String
  pub device_exchange_public_key : Option String
  pub challenge_signature : Option String
  pub confirmed_device_id : Option String

-- PairingChallengePayload: what a device signs to prove that it holds its key.
pub record Challenge : Type 0 where
  pub pairing_id : String
  pub challenge : String
  pub device_route_id : String
  pub signing_public_key : String
  pub exchange_public_key : String
  pub expires_at : ℕ

abbrev pub default_restrictions : Restrictions
default_restrictions = record {
  projects = [];
  targets = [];
  environments = development ∷ staging ∷ [];
  max_risk = medium;
  approval_kinds = "plan" ∷ "operation" ∷ [];
  max_provider_spend = 0;
  valid_until = none;
}

pub data IntentStatus : Type 0 where
  active paused triggered executing succeeded failed expired revoked : IntentStatus

pub record Trigger : Type 0 where
  pub provider : String
  pub server_type : String
  pub location : Option String

pub record Action : Type 0 where
  pub capability : String
  pub input : Fields
  pub environment : Environment
  pub target : Option String

pub record Constraints : Type 0 where
  pub expires_at : ℕ
  pub max_spend : ℕ

pub record Intent : Type 0 where
  pub id : String
  pub device_id : String
  pub version : ℕ
  pub objective : String
  pub status : IntentStatus
  pub trigger : Trigger
  pub action : Action
  pub constraints : Constraints
  pub agent_session_id : String
  pub plan_id : String
  pub plan_hash : String
  pub approval_id : String
  pub execution_count : ℕ
  pub created_at : ℕ
  pub updated_at : ℕ
  pub last_checked_at : Option ℕ
  pub matched_at : Option ℕ
  pub operation_id : Option String
  pub last_error : Option String

-- The codes of `commandError`; of a mistake that has none the code is VOPS_REMOTE_COMMAND_REJECTED.
pub data CommandCode : Type 0 where
  invalid binding signing_key signature is_expired role_denied scope_denied stale replayed
        approval_not_found wrong_plan_hash rollback_unavailable unsupported :
      CommandCode

-- What is thrown here: by the agent control, by a command, or with a message alone.
pub data Fault : Type 0 where
  of_agent : Failure → Fault
  command : CommandCode → Fault
  other : (message : String) → Fault

pub data CommandType : Type 0 where
  approval_decision cancel_request rollback_request agent_pause agent_resume agent_revoke stop_all
        notification_dismiss intent_create intent_pause intent_revoke :
      CommandType

pub data SubjectKind : Type 0 where
  approval operation agent_session control_node notification intent : SubjectKind

-- Of the proposal of an intent: a time and a spending cap that may be no number.
pub record Proposal : Type 0 where
  pub id : String
  pub objective : String
  pub trigger : Trigger
  pub action : Action
  pub expires_at : Option ℕ
  pub max_executions : ℕ
  pub max_spend : Option ℤ
  pub stops_on_failure : Bool

pub record Parameters : Type 0 where
  pub decision : Option String
  pub reason : Option String
  pub proposal : Option Proposal
  pub count : ℕ

pub record CommandPayload : Type 0 where
  pub protocol_version : ℕ
  pub command_id : String
  pub type_of : Option CommandType
  pub device_id : String
  pub node_id : String
  pub nonce : String
  pub issued_at : Option ℕ
  pub expires_at : Option ℕ
  pub subject_kind : SubjectKind
  pub subject_id : String
  pub subject_version : ℕ
  pub plan_hash : Option String
  pub parameters : Parameters

pub record SignedCommand : Type 0 where
  pub payload : CommandPayload
  pub key_id : String
  pub signature : String

-- What the execution of a command returns.
pub data Outcome : Type 0 where
  an_approval : Approval → Outcome
  an_operation : Operation → Outcome
  a_session : Session → Outcome
  all_stopped : EmergencyStop → List String → Outcome
  an_intent : Intent → Outcome

-- The record of a command: that it was received, or its result.
pub data CommandRecord : Type 0 where
  received : (request_id command_id : String) (duplicate : Bool) → CommandRecord
  completed : (request_id command_id : String) (duplicate : Bool) → Outcome → CommandRecord
  rejected :
      (request_id : String) (command_id : Option String) (duplicate : Bool) → Fault → CommandRecord

-- What is sent to a device.
pub data Message : Type 0 where
  node_confirmation : Message
  command_message : CommandRecord → Message
  intent_updated : Intent → Message
