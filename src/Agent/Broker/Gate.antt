-- ===== src/Agent/Broker/Gate.antt =====
-- What the broker refuses to execute.
use vops.Prelude.{
  String, ◌≡◌, ◌≢◌, ◌⊎◌, inl, inr, refl, true, false, Option, none, some, ◌==◌, find, keep, eq_iff,
  Bool-cases, is_empty,
}
use vops.Prelude.Result.{ok, err}
use vops.Agent.Model.{
  Session, Capability, Plan, PlanStep, Operation, Approval, granted, Failure, control, scope_denied,
  plan_stale, approval_required, is_denied, needs_approval,
}
use vops.Agent.Registry.{describe}
use vops.Agent.Policy.{Request, Decision, Effect, decide, evaluate}
use vops.Agent.Policy.Allowed.{IsAllowed}
use vops.Agent.Policy.Laws.{decide-allow}
use vops.Agent.Plans.Vetted.{Result-cases}
use vops.Agent.Safety.{current}
use vops.Agent.Plans.{get, validate, require_executable, check_executable, is_approved}
use vops.Agent.Approvals.{require_approved_for_plan, or_unapproved, is_text, same_status}
use vops.Agent.Store.{World, Db, get_plan, list_approvals}
use vops.Agent.Store.Tables
use vops.Agent.Store.Tables.{records}
use mathlib.Core.List.{reverse}
use vops.Agent.Broker.{
  Executor, require_step_allowed, refuse, step_request, run_step, settle_approval, execute_own,
  is_awaiting, execute_plan_for_session,
}

effect_cases : (e : Effect) → (e ≡ Effect.allow) ⊎ (e ≢ Effect.allow)
effect_cases Effect.allow = inl refl
effect_cases Effect.approval_required = inr (λ h. cc)
effect_cases Effect.deny = inr (λ h. cc)

module _ (w : World) (execute : Executor) where
  pub refusal : Effect → Failure
  refusal Effect.approval_required = control approval_required needs_approval true
  refusal _ = control scope_denied is_denied true

  refuse_lem :
      (d : Decision) (e : Effect) (db : Db)
      → d.effect ≡ e
      → e ≢ Effect.allow
      → refuse w execute d db ≡ (err (refusal e), db)
  unfolding refuse refusal
  refuse_lem d Effect.allow db h ne = absurd (ne refl)
  refuse_lem d Effect.approval_required db h ne = rw h
  refuse_lem d Effect.deny db h ne = rw h

  unknown_step :
      (session : Session) (plan : Plan) (o : Operation) (step : PlanStep) (db : Db) (f : Failure)
      → describe w.registry step.capability ≡ err f
      → run_step w execute session plan o step db ≡ (err f, db)
  unfolding run_step require_step_allowed evaluate
  unknown_step session plan o step db f e = rw (e, run_step, require_step_allowed, evaluate) refl

  known_step :
      (session : Session) (plan : Plan) (o : Operation) (step : PlanStep) (db : Db) (c : Capability)
      → describe w.registry step.capability ≡ ok c
      → (decide (current db).is_on (step_request w execute session plan step) c).effect
        ≢ Effect.allow
      → run_step w execute session plan o step db ≡ (
        err (
            refusal
              (decide (current db).is_on (step_request w execute session plan step) c).effect),
        db,
      )
  unfolding run_step require_step_allowed evaluate
  known_step session plan o step db c e ne =
      rw (e, run_step, require_step_allowed, evaluate)
        (rw (
          refuse_lem (decide (current db).is_on (step_request w execute session plan step) c) _ db
            refl ne))

  -- The latest approval for a plan is a granted one.
  abbrev pub HasApproval : String → Db → Type 0
  HasApproval plan_id db =
      (a : Approval) × (find (λ (x : Approval). is_text x.plan_id plan_id)
          (keep (λ (x : Approval). true) (reverse (records db.approvals)))
        ≡ some a)
      × (same_status a.status granted ≡ true)

  -- Why a stored plan may not run for a session.
  pub data IsBlocked (session : Session) (plan : Plan) (db : Db) : Type 0 where
    foreign : plan.session_id ≢ session.id → IsBlocked session plan db
    unapproved :
        is_awaiting plan.status ≡ true → ¬ HasApproval plan.id db → IsBlocked session plan db
    idle :
        is_awaiting plan.status ≡ false
        → is_approved w plan.status ≡ false
        → IsBlocked session plan db

  or_unapproved_lem :
      (o : Option Approval) (db : Db)
      → ¬ ((a : Approval) × (o ≡ some a) × (same_status a.status granted ≡ true))
      → or_unapproved w o db ≡ (err (control approval_required needs_approval true), db)
  unfolding or_unapproved
  or_unapproved_lem none db n = refl
  or_unapproved_lem (some a) db n = elim (Bool-cases (same_status a.status granted)) [
    | inl h ↦ absurd (n (a, refl, h))
    | inr h ↦ rw h
  ]

  unapproved_lem :
      (plan_id : String) (db : Db)
      → ¬ HasApproval plan_id db
      → require_approved_for_plan w plan_id db
        ≡ (err (control approval_required needs_approval true), db)
  unfolding require_approved_for_plan list_approvals
  unapproved_lem plan_id db n = or_unapproved_lem _ db n

  check_idle :
      (plan : Plan) (session_id : String) (db : Db)
      → is_approved w plan.status ≡ false
      → (e : Failure) × (check_executable w plan session_id db ≡ (err e, db))
  unfolding check_executable
  check_idle plan session_id db h = elim (Bool-cases (plan.session_id == session_id)) [
    | inr other ↦ (control scope_denied is_denied false, rw (other, check_executable))
    | inl own ↦ elim (Bool-cases (is_empty (validate w plan))) [
      | inr stale ↦ (control plan_stale is_denied true, rw (own, stale, check_executable))
      | inl valid ↦
          (control approval_required needs_approval true, rw (own, valid, h, check_executable))
    ]
  ]

  require_idle :
      (plan : Plan) (session_id : String) (db : Db)
      → Tables.get plan.id db.plans ≡ some plan
      → is_approved w plan.status ≡ false
      → (e : Failure) × (require_executable w plan.id session_id db ≡ (err e, db))
  unfolding require_executable get get_plan
  require_idle plan session_id db found h =
      let (e, same) = check_idle plan session_id db h in
      (e, rw (found, require_executable, get, get_plan) same)

  blocked_lem :
      (session : Session) (plan : Plan) (db : Db)
      → Tables.get plan.id db.plans ≡ some plan
      → IsBlocked session plan db
      → (e : Failure) × (execute_own w execute session plan db ≡ (err e, db))
  unfolding execute_own settle_approval
  blocked_lem session plan db found (foreign ne) =
      elim (Bool-cases (plan.session_id == session.id)) [
        | inl own ↦ absurd (ne ((eq_iff plan.session_id session.id).0 own))
        | inr other ↦ (control scope_denied is_denied false, rw (other, execute_own))
      ]
  blocked_lem session plan db found (unapproved waits n) =
      elim (Bool-cases (plan.session_id == session.id)) [
        | inr other ↦ (control scope_denied is_denied false, rw (other, execute_own))
        | inl own ↦ (
          control approval_required needs_approval true,
          rw (own, waits, execute_own, settle_approval) (rw (unapproved_lem plan.id db n)),
        )
      ]
  blocked_lem session plan db found (idle not_waiting not_ready) =
      elim (Bool-cases (plan.session_id == session.id)) [
        | inr other ↦ (control scope_denied is_denied false, rw (other, execute_own))
        | inl own ↦
            let (e, same) = require_idle plan session.id db found not_ready in
            (e, rw (own, not_waiting, execute_own, settle_approval) (rw same))
      ]

  -- A stored plan that is another session's, that awaits an approval which is not there, or that is in
  -- any state but approved and awaiting, is not executed: the request fails and changes nothing.
  pub execute-blocked :
      (session : Session) (plan : Plan) (db : Db)
      → Tables.get plan.id db.plans ≡ some plan
      → IsBlocked session plan db
      → (e : Failure) × (execute_plan_for_session w execute session plan.id db ≡ (err e, db))
  unfolding execute_plan_for_session get get_plan
  execute-blocked session plan db found b =
      let (e, same) = blocked_lem session plan db found b in
      (e, rw (found, execute_plan_for_session, get, get_plan) same)

module _ (w : World) where
  -- A step of a plan either throws and leaves everything as it was, whatever the executor is, or its
  -- capability is known and what the policy asks of an action holds of it: for the session that the
  -- step is given, which is not read anew, with the emergency stop as the process holds it when
  -- the step is due, and with the plan taken as approved.
  pub run_step-IsAllowed :
      (execute : Executor) (session : Session) (plan : Plan) (o : Operation) (step : PlanStep)
      (db : Db)
      → ((e : Failure) × ((any_executor : Executor)
            → run_step w any_executor session plan o step db ≡ (err e, db)))
        ⊎ ((c : Capability) × (describe w.registry step.capability ≡ ok c)
            × IsAllowed (current db).is_on (step_request w execute session plan step) c)
  unfolding refusal
  run_step-IsAllowed execute session plan o step db =
      elim (Result-cases (describe w.registry step.capability)) [
        | inr (f, failed) ↦ inl (f, λ x. unknown_step w x session plan o step db f failed)
        | inl (c, found) ↦
            let request : Request = step_request w execute session plan step in
            elim (effect_cases (decide (current db).is_on request c).effect) [
              | inl allowed ↦ inr (c, found, (decide-allow (current db).is_on request c).0 allowed)
              | inr ne ↦ inl (
                refusal w execute (decide (current db).is_on request c).effect,
                λ x. known_step w x session plan o step db c found ne,
              )
            ]
      ]
