-- ===== src/Agent/Approvals.antt =====
-- src/agent-control/approval-manager.ts.
pub mod Decisions
pub mod Standing
use vops.Prelude.{
  ℕ, ◌+◌, ◌*◌, String, Bool, true, false, not, ◌&&◌, Option, none, some, List, [], ◌∷◌, ◌==◌, find,
  keep, leb, eqb, if◌then◌else◌,
}
use vops.Prelude.Texts.{◌⋯◌}
use vops.Agent.Json.{Json, str, obj, Fields, field, end}
use vops.Agent.Model.{
  Environment, Risk, read_only, low, medium, high, destructive, Reversible, conditional,
  irreversible, PlanStep, Plan, ApprovalStatus, pending, granted, denied, lapsed, Approval,
  not_found, plan_invalid, approval_required, needs_approval, is_failed, Failure,
}
use vops.Agent.Sessions.{grant_scope}
use vops.Agent.Store.{
  World, Db, M, ◌>>=◌, ◌>>◌, pure, throw, local_id, append_event, save_approval, get_approval,
  list_approvals,
}

unfoldable pub risk_rank : Risk → ℕ
risk_rank read_only = 0
risk_rank low = 1
risk_rank medium = 2
risk_rank high = 3
risk_rank destructive = 4

-- [...steps].sort((a, b) => riskRank(b.risk) - riskRank(a.risk)), which is stable
insert_step : PlanStep → List PlanStep → List PlanStep
insert_step s [] = s ∷ []
insert_step s (t ∷ rest) =
    let later = insert_step s rest in
    if leb (risk_rank t.risk) (risk_rank s.risk) then s ∷ t ∷ rest else t ∷ later

sort_steps : List PlanStep → List PlanStep
unfolding insert_step
sort_steps [] = []
sort_steps (s ∷ rest) = insert_step s (sort_steps rest)

first_risk : List PlanStep → Risk
first_risk [] = read_only
first_risk (s ∷ rest) = s.risk

unfoldable pub highest_risk : List PlanStep → Risk
unfolding sort_steps first_risk
highest_risk steps = first_risk (sort_steps steps)

status_place : ApprovalStatus → ℕ
status_place pending = 0
status_place granted = 1
status_place denied = 2
status_place lapsed = 3

unfoldable pub same_status : ApprovalStatus → ApprovalStatus → Bool
unfolding status_place
same_status a b = eqb (status_place a) (status_place b)

status_name : ApprovalStatus → String
status_name pending = "pending"
status_name granted = "approved"
status_name denied = "denied"
status_name lapsed = "expired"

unfoldable pub is_text : Option String → String → Bool
is_text none s = false
is_text (some t) s = t == s

-- A text that is there and not empty.
unfoldable pub present : Option String → Option String
present none = none
present (some s) = if s == "" then none else some s

abbrev pub window_ms : ℕ
window_ms = 60 * 60000

pub record Expansion : Type 0 where
  pub session_id : String
  pub capability : String
  pub reason : String
  pub risk : Risk
  pub target : Option String
  pub environment : Option Environment
  pub effects : List String
  pub reversal : Reversible

module _ (w : World) where
  text_field : String → Option String → Fields → Fields
  text_field key none rest = rest
  text_field key (some s) rest = field key (str s) rest

  event : Approval → String → String → String → M (Unit {0})
  unfolding text_field
  event a event_type summary actor = do
    id ← local_id w "evt"
    append_event w (record {
      event_id = id;
      timestamp = w.now;
      session_id = some a.session_id;
      actor = actor;
      operation_id = none;
      event_type = event_type;
      capability = a.capability;
      target = a.target;
      summary = summary;
      detail = some (
          obj (
            field "approvalId" (str a.id)
              (text_field "planId" a.plan_id (field "reason" (str a.reason) end))));
    })

  is_pending_for : String → Approval → Bool
  unfolding is_text
  is_pending_for plan_id a = same_status a.status pending && is_text a.plan_id plan_id

  plan_approval : Plan → String → String → Approval
  unfolding highest_risk present
  plan_approval plan reason id = record {
    id = id;
    session_id = plan.session_id;
    plan_id = some plan.id;
    capability = none;
    status = pending;
    reason = reason;
    risk = highest_risk plan.steps;
    target = present plan.target;
    environment = some plan.environment;
    expected_effects = plan.estimated_effects;
    reversal = if plan.rollback.available then conditional else irreversible;
    requested_at = w.now;
    decided_at = none;
    expires_at = w.now + window_ms;
    decision_reason = none;
  }

  request_new : Option Approval → Plan → String → M Approval
  unfolding plan_approval event
  request_new (some existing) plan reason = pure existing
  request_new none plan reason = do
    id ← local_id w "apr"
    let approval = plan_approval plan reason id
    save_approval w approval
    event approval "approval.requested" "Plan approval requested." "vops"
    pure approval

  unfoldable pub request_for_plan : Plan → String → M Approval
  unfolding request_new is_pending_for
  request_for_plan plan reason = do
    listed ← list_approvals w (λ a. same_status a.status pending)
    request_new (find (is_pending_for plan.id) listed) plan reason

  unfoldable pub request_scope_expansion : Expansion → M Approval
  unfolding event present
  request_scope_expansion input = do
    id ← local_id w "apr"
    let approval : Approval = record {
      id = id;
      session_id = input.session_id;
      plan_id = none;
      capability = some input.capability;
      status = pending;
      reason = input.reason;
      risk = input.risk;
      target = present input.target;
      environment = input.environment;
      expected_effects = input.effects;
      reversal = input.reversal;
      requested_at = w.now;
      decided_at = none;
      expires_at = w.now + window_ms;
      decision_reason = none;
    }
    save_approval w approval
    event approval "approval.scope_requested"
        ("Scope expansion requested for " ⋯ input.capability ⋯ ".") "vops"
    pure approval

  unfoldable pub decided : Approval → ApprovalStatus → String → Approval
  decided a status reason = record a {
    status = status;
    decided_at = some w.now;
    decision_reason = some reason;
  }

  -- Only a granted request for a capability, outside any plan, widens the session.
  grant_to : Option String → Option String → Approval → ApprovalStatus → M (Unit {0})
  grant_to (some capability) none a granted = do
    grant_scope w a.session_id
        (record { capability = capability; target = a.target; environment = a.environment })
    pure tt
  grant_to _ _ a status = pure tt

  settle : Approval → ApprovalStatus → String → String → M Approval
  unfolding decided grant_to event present status_name
  settle a status reason actor = do
    let updated = decided a status reason
    save_approval w updated
    grant_to (present updated.capability) (present updated.plan_id) updated status
    event updated ("approval." ⋯ status_name status) ("Approval " ⋯ status_name status ⋯ ".") actor
    pure updated

  -- A decision on an approval that has been read. One that comes too late is settled as expired.
  pub decide_on : Approval → ApprovalStatus → String → String → M Approval
  unfolding settle
  decide_on a status reason actor =
      if not (same_status a.status pending)
      then (if same_status a.status status then pure a else throw plan_invalid is_failed false)
      else if same_status status granted && leb a.expires_at w.now
      then settle a lapsed "Approval window expired." "vops"
      else settle a status reason actor

  or_not_found : Option Approval → M Approval
  or_not_found none = throw not_found is_failed false
  or_not_found (some a) = pure a

  unfoldable pub decide : String → ApprovalStatus → String → String → M Approval
  unfolding or_not_found decide_on
  decide id status reason actor = do
    found ← get_approval w id
    a ← or_not_found found
    decide_on a status reason actor

  unfoldable pub approve : String → String → String → M Approval
  approve id reason actor = decide id granted reason actor

  unfoldable pub deny : String → String → String → M Approval
  deny id reason actor = decide id denied reason actor

  is_overdue : Approval → Bool
  is_overdue a = same_status a.status pending && leb a.expires_at w.now

  expire_all : List Approval → M (Unit {0})
  expire_all [] = pure tt
  expire_all (a ∷ rest) = do decide a.id lapsed "Approval window expired." "vops"; expire_all rest

  relist : List Approval → List Approval → (Approval → Bool) → M (List Approval)
  unfolding expire_all
  relist [] approvals chosen = pure approvals
  relist (a ∷ rest) approvals chosen = do expire_all (a ∷ rest); list_approvals w chosen

  unfoldable pub list : (Approval → Bool) → M (List Approval)
  unfolding is_overdue relist
  list chosen = do
    approvals ← list_approvals w chosen
    relist (keep is_overdue approvals) approvals chosen

  unfoldable pub or_unapproved : Option Approval → M Approval
  or_unapproved none = throw approval_required needs_approval true
  or_unapproved (some a) =
      if same_status a.status granted then pure a else throw approval_required needs_approval true

  unfoldable pub require_approved_for_plan : String → M Approval
  unfolding is_text or_unapproved
  require_approved_for_plan plan_id = do
    approvals ← list_approvals w (λ a. true)
    or_unapproved (find (λ (a : Approval). is_text a.plan_id plan_id) approvals)
