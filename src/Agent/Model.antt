-- ===== src/Agent/Model.antt =====
-- src/agent-control/agent-model.ts, agent-control-error.ts and the types of capability-registry.ts.
-- A time is the number of milliseconds that its ISO text stands for, an amount of money a number of
-- cents; the message of an error is left out.
use vops.Prelude.{ℕ, String, Bool, Option, List}
use vops.Agent.Json.{Json, Fields}

pub data AgentClient : Type 0 where
  claude_code codex opencode antigravity other : AgentClient

pub data SessionMode : Type 0 where
  advisory protected : SessionMode

pub data SessionStatus : Type 0 where
  active paused revoked expired completed : SessionStatus

pub data Environment : Type 0 where
  development staging production : Environment

pub record Permissions : Type 0 where
  pub allow : List String
  pub allow_within_approved_plan : List String
  pub require_approval : List String
  pub deny : List String

pub record Scope : Type 0 where
  pub projects : List String
  pub targets : List String
  pub environments : List Environment

pub record Limits : Type 0 where
  pub expires_at : ℕ
  pub max_operations : ℕ
  pub max_provider_spend : ℕ

pub record Actor : Type 0 where
  pub client : AgentClient
  pub client_version : Option String
  pub display_name : String

pub record Session : Type 0 where
  pub id : String
  pub actor : Actor
  pub objective : String
  pub mode : SessionMode
  pub status : SessionStatus
  pub repository_path : String
  pub repository_name : String
  pub scope : Scope
  pub permissions : Permissions
  pub limits : Limits
  pub operation_count : ℕ
  pub provider_spend : ℕ
  pub created_at : ℕ
  pub updated_at : ℕ

pub data Risk : Type 0 where
  read_only low medium high destructive : Risk

pub data Access : Type 0 where
  read local_write remote_write provider_write : Access

pub data ApprovalDefault : Type 0 where
  session_grant plan_approval explicit_approval : ApprovalDefault

pub data Reversible : Type 0 where
  reversible irreversible conditional : Reversible

pub record Capability : Type 0 where
  pub id : String
  pub access : Access
  pub risk : Risk
  pub reversal : Reversible
  pub enabled : Bool
  pub unavailable_reason : Option String
  pub possible_effects : List String
  pub host_scoped : Bool
  pub approval_defaults : Environment → ApprovalDefault

pub data PlanStatus : Type 0 where
  proposed awaiting_approval approved queued running succeeded failed cancelled rejected :
      PlanStatus

pub record PlanStep : Type 0 where
  pub id : String
  pub capability : String
  pub input : Fields
  pub risk : Risk

pub record Rollback : Type 0 where
  pub available : Bool
  pub limitations : List String

-- What the hash covers: a plan without its id, hash, status and times.
pub record PlanBody : Type 0 where
  pub session_id : String
  pub objective : String
  pub environment : Environment
  pub target : Option String
  pub steps : List PlanStep
  pub success_criteria : List String
  pub estimated_effects : List String
  pub excluded_effects : List String
  pub rollback : Rollback

pub record Plan : Type 0 where
  pub id : String
  pub hash : String
  pub status : PlanStatus
  pub body : PlanBody
  pub open body use *
  pub created_at : ℕ
  pub updated_at : ℕ

pub data ApprovalStatus : Type 0 where
  pending granted denied lapsed : ApprovalStatus

pub record Approval : Type 0 where
  pub id : String
  pub session_id : String
  pub plan_id : Option String
  pub capability : Option String
  pub status : ApprovalStatus
  pub reason : String
  pub risk : Risk
  pub target : Option String
  pub environment : Option Environment
  pub expected_effects : List String
  pub reversal : Reversible
  pub requested_at : ℕ
  pub decided_at : Option ℕ
  pub expires_at : ℕ
  pub decision_reason : Option String

pub data ErrorCode : Type 0 where
  auth_required token_invalid session_expired session_inactive scope_denied approval_required
        plan_invalid plan_stale not_found unsupported operation_failed :
      ErrorCode

pub data ErrorStatus : Type 0 where
  is_denied needs_approval is_failed : ErrorStatus

-- An `AgentControlError`, or any other exception.
pub data Failure : Type 0 where
  control : ErrorCode → ErrorStatus → (recoverable : Bool) → Failure
  plain : (message : String) → Failure

pub data OperationState : Type 0 where
  proposed awaiting_approval approved queued running verifying succeeded failed cancelling cancelled
        rollback_requested rolling_back rolled_back rollback_failed :
      OperationState

pub data VerificationStatus : Type 0 where
  passed degraded broken not_verified : VerificationStatus

-- A `verification` entry of an operation's result: one check, and what all of them say.
pub record Check : Type 0 where
  pub capability : String
  pub step : String
  pub status : String
  pub failing : List String

pub record Verification : Type 0 where
  pub status : VerificationStatus
  pub checks : List Check

pub record Operation : Type 0 where
  pub id : String
  pub session_id : String
  pub plan_id : String
  pub capability : Option String
  pub state : OperationState
  pub current_step : Option String
  pub result : Option Json
  pub verification : Option Verification
  pub error : Option Failure
  pub rollback_available : Bool
  pub cancel_requested : Bool
  pub created_at : ℕ
  pub updated_at : ℕ
