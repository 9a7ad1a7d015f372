-- ===== src/Agent/Operations.antt =====
-- src/agent-control/operation-manager.ts.
pub mod Lifecycle
pub mod Cancel
use vops.Prelude.{
  ℕ, String, Bool, true, false, not, ◌||◌, Option, none, some, List, [], ◌∷◌, any, eqb, ◌==◌,
  if◌then◌else◌,
}
use vops.Prelude.Result.{Result, ok, err}
use vops.Prelude.Texts.{◌⋯◌}
use vops.Agent.Json.{Json, bool, str, obj, Fields, field, end}
use vops.Agent.Model.{
  OperationState, proposed, awaiting_approval, approved, queued, running, verifying, succeeded,
  failed, cancelling, cancelled, rollback_requested, rolling_back, rolled_back, rollback_failed,
  Operation, Verification, Failure, control, ErrorCode, auth_required, token_invalid,
  session_expired, session_inactive, scope_denied, approval_required, plan_invalid, plan_stale,
  not_found, unsupported, operation_failed, is_failed,
}
use vops.Agent.Store.{
  World, Db, M, ◌>>=◌, ◌>>◌, pure, throw, local_id, append_event, save_operation, get_operation,
}

-- TRANSITIONS
unfoldable pub transitions : OperationState → List OperationState
transitions proposed = awaiting_approval ∷ approved ∷ queued ∷ cancelled ∷ []
transitions awaiting_approval = approved ∷ cancelled ∷ []
transitions approved = queued ∷ cancelled ∷ []
transitions queued = running ∷ cancelling ∷ cancelled ∷ []
transitions running = verifying ∷ succeeded ∷ failed ∷ cancelling ∷ []
transitions verifying = succeeded ∷ failed ∷ cancelling ∷ []
transitions succeeded = rollback_requested ∷ []
transitions failed = rollback_requested ∷ []
transitions cancelling = cancelled ∷ failed ∷ []
transitions cancelled = []
transitions rollback_requested = rolling_back ∷ rollback_failed ∷ []
transitions rolling_back = rolled_back ∷ rollback_failed ∷ []
transitions rolled_back = []
transitions rollback_failed = []

-- The place of a state in the type, to compare states by.
place : OperationState → ℕ
place proposed = 0
place awaiting_approval = 1
place approved = 2
place queued = 3
place running = 4
place verifying = 5
place succeeded = 6
place failed = 7
place cancelling = 8
place cancelled = 9
place rollback_requested = 10
place rolling_back = 11
place rolled_back = 12
place rollback_failed = 13

unfoldable pub same_state : OperationState → OperationState → Bool
unfolding place
same_state a b = eqb (place a) (place b)

pub state_name : OperationState → String
state_name proposed = "proposed"
state_name awaiting_approval = "awaiting_approval"
state_name approved = "approved"
state_name queued = "queued"
state_name running = "running"
state_name verifying = "verifying"
state_name succeeded = "succeeded"
state_name failed = "failed"
state_name cancelling = "cancelling"
state_name cancelled = "cancelled"
state_name rollback_requested = "rollback_requested"
state_name rolling_back = "rolling_back"
state_name rolled_back = "rolled_back"
state_name rollback_failed = "rollback_failed"

-- A field that is left out stays as it is.
pub record Patch : Type 0 where
  pub current_step : Option String
  pub capability : Option String
  pub result : Option Json
  pub error : Option Failure
  pub cancel_requested : Option Bool
  pub verification : Option Verification

abbrev pub no_patch : Patch
no_patch = record {
  current_step = none;
  capability = none;
  result = none;
  error = none;
  cancel_requested = none;
  verification = none;
}

abbrev over {ℓ} : {A : Type ℓ} → Option A → Option A → Option A
over none old = old
over (some a) old = some a

abbrev over_flag : Option Bool → Bool → Bool
over_flag none old = old
over_flag (some b) old = b

module _ (w : World) where
  text_field : String → Option String → Fields → Fields
  text_field key none rest = rest
  text_field key (some s) rest = field key (str s) rest

  unfoldable pub patched : Operation → Patch → OperationState → Operation
  patched o p state = record o {
    current_step = over p.current_step o.current_step;
    capability = over p.capability o.capability;
    result = over p.result o.result;
    error = over p.error o.error;
    cancel_requested = over_flag p.cancel_requested o.cancel_requested;
    verification = over p.verification o.verification;
    state = state;
    updated_at = w.now;
  }

  code_name : ErrorCode → String
  code_name auth_required = "VOPS_AGENT_AUTH_REQUIRED"
  code_name token_invalid = "VOPS_AGENT_TOKEN_INVALID"
  code_name session_expired = "VOPS_AGENT_SESSION_EXPIRED"
  code_name session_inactive = "VOPS_AGENT_SESSION_INACTIVE"
  code_name scope_denied = "VOPS_AGENT_SCOPE_DENIED"
  code_name approval_required = "VOPS_AGENT_APPROVAL_REQUIRED"
  code_name plan_invalid = "VOPS_AGENT_PLAN_INVALID"
  code_name plan_stale = "VOPS_AGENT_PLAN_STALE"
  code_name not_found = "VOPS_AGENT_NOT_FOUND"
  code_name unsupported = "VOPS_AGENT_UNSUPPORTED"
  code_name operation_failed = "VOPS_AGENT_OPERATION_FAILED"

  -- The code, and whether one can go on; the message is left out.
  error_field : Option Failure → Fields → Fields
  unfolding code_name
  error_field (some (control code status recoverable)) rest =
      field "error"
        (obj (field "code" (str (code_name code)) (field "recoverable" (bool recoverable) end)))
        rest
  error_field _ rest = rest

  summary : Operation → String
  unfolding state_name
  summary o =
      "Operation "
      ⋯ state_name o.state
      ⋯ (elim o.current_step [ none ↦ "" | some s ↦ if s == "" then "" else " at " ⋯ s ])
      ⋯ "."

  event : Operation → String → String → M (Unit {0})
  unfolding text_field error_field
  event o event_type text = do
    id ← local_id w "evt"
    append_event w (record {
      event_id = id;
      timestamp = w.now;
      session_id = some o.session_id;
      actor = "vops";
      operation_id = some o.id;
      event_type = event_type;
      capability = o.capability;
      target = none;
      summary = text;
      detail = some (
          obj (
            field "planId" (str o.plan_id)
              (text_field "currentStep" o.current_step (error_field o.error end))));
    })

  unfoldable pub create : String → String → Bool → M Operation
  unfolding event
  create session_id plan_id rollback_available = do
    id ← local_id w "op"
    let operation : Operation = record {
      id = id;
      session_id = session_id;
      plan_id = plan_id;
      capability = none;
      state = queued;
      current_step = none;
      result = none;
      verification = none;
      error = none;
      rollback_available = rollback_available;
      cancel_requested = false;
      created_at = w.now;
      updated_at = w.now;
    }
    save_operation w operation
    event operation "operation.queued" "Operation queued."
    pure operation

  or_not_found : Option Operation → M Operation
  or_not_found none = throw not_found is_failed false
  or_not_found (some o) = pure o

  unfoldable pub get : String → M Operation
  unfolding or_not_found
  get id = do found ← get_operation w id; or_not_found found

  unfoldable pub store : Operation → M Operation
  unfolding event summary
  store updated = do
    save_operation w updated
    event updated ("operation." ⋯ state_name updated.state) (summary updated)
    pure updated

  -- The part of `transition` below the read; `state` is that of the operation.
  unfoldable pub move_from : OperationState → Operation → OperationState → Patch → M Operation
  unfolding same_state transitions store patched
  move_from state operation target patch =
      if same_state state target
      then pure operation
      else if not (any (same_state target) (transitions state))
      then throw operation_failed is_failed false
      else store (patched operation patch target)

  unfoldable pub move : Operation → OperationState → Patch → M Operation
  unfolding move_from
  move operation target patch = move_from operation.state operation target patch

  unfoldable pub transition : String → OperationState → Patch → M Operation
  unfolding get move
  transition id state patch = do operation ← get id; move operation state patch

  unfoldable pub is_final : OperationState → Bool
  is_final succeeded = true
  is_final failed = true
  is_final cancelled = true
  is_final rolled_back = true
  is_final rollback_failed = true
  is_final _ = false

  cancel_target : OperationState → OperationState
  cancel_target queued = cancelled
  cancel_target _ = cancelling

  cancel_from : OperationState → String → Operation → M Operation
  unfolding transition is_final cancel_target
  cancel_from state id operation =
      if is_final state
      then pure operation
      else transition id (cancel_target state) (record no_patch { cancel_requested = some true })

  unfoldable pub request_cancel : String → M Operation
  unfolding get cancel_from
  request_cancel id = do operation ← get id; cancel_from operation.state id operation

  unfoldable pub should_cancel : String → M Bool
  unfolding get
  should_cancel id = do operation ← get id; pure operation.cancel_requested
