-- ===== src/Tests/Operating.antt =====
-- A plan, its approval and its operation.
use vops.Prelude.{ℕ, ◌≡◌, ◌≢◌, ◌↔◌, ◌⊎◌, ◌≤◌, ◌+◌, refl, some, [], ◌∷◌, arith, inl, eq_iff}
use vops.Prelude.Result.{ok, err}
use vops.Agent.Model.{
  OperationState, queued, running, verifying, ApprovalStatus, Approval, Failure, Capability,
  Session, SessionStatus,
}
use vops.Agent.Registry.{describe}
use vops.Agent.Store.{Db}
use vops.Agent.Operations.{no_patch, request_cancel}
use vops.Agent.Operations.Lifecycle.{phase, Moves, IsIn, request_all, request_all-bounded}
use vops.Agent.Operations.Cancel.{HasAnswered, request_cancel_lem}
use vops.Agent.Approvals.{decide, decided, same_status}
use vops.Agent.Approvals.Decisions.{decide_keeps_sessions}
use vops.Agent.Plans.{require_executable}
use vops.Agent.Plans.Executable.{IsExecutable, require_executable_iff}
use vops.Agent.Safety.{current}
use vops.Agent.Policy.Allowed.{IsAllowed}
use vops.Agent.Broker.{Executor, step_request, run_step, execute_plan_for_session}
use vops.Agent.Broker.Gate.{run_step-IsAllowed, foreign, execute-blocked}
use vops.Agent.Store.Tables
use vops.Tests.Data.{session, plan, plan_step, operation, approval, world, db, executor}

operation-IsIn : IsIn world "o1" db running
unfolding Tables.get
operation-IsIn = record { operation = operation; found = refl; own_id = refl; in_state = refl }

request_all-bounded_example :
    (b : OperationState) × (n : ℕ) × Moves running b n
    × IsIn world "o1"
        (request_all world "o1" ((verifying, no_patch) ∷ (queued, no_patch) ∷ []) db)
        b
    × (phase running + n ≤ 10)
request_all-bounded_example =
    request_all-bounded world "o1" ((verifying, no_patch) ∷ (queued, no_patch) ∷ []) db running refl
      operation-IsIn

request_cancel_lem_example : HasAnswered world running operation db (request_cancel world "o1" db)
unfolding Tables.get
request_cancel_lem_example = request_cancel_lem world "o1" db operation refl

abbrev waiting : Db
waiting = record db { approvals = ("a1", record approval { status = ApprovalStatus.pending }) ∷ [] }

-- The approval after it has been denied
abbrev refused_approval : Approval
refused_approval =
    decided world (record approval { status = ApprovalStatus.pending }) ApprovalStatus.denied "no"

decide_keeps_sessions_example :
    (decide world "a1" ApprovalStatus.denied "no" "me" waiting).1.sessions ≡ waiting.sessions
unfolding Tables.get same_status
decide_keeps_sessions_example =
    decide_keeps_sessions world "a1" ApprovalStatus.denied "no" "me" waiting
      (record approval { status = ApprovalStatus.pending }) refl (inl refl)

require_executable_iff_example :
    (require_executable world "p1" "s1" db ≡ (ok plan, db))
    ↔ ((Tables.get "p1" db.plans ≡ some plan) × IsExecutable world plan "s1")
require_executable_iff_example = require_executable_iff world "p1" "s1" db plan

abbrev paused_session : Session
paused_session = record session { status = SessionStatus.paused }

run_step-IsAllowed_example :
    ((e : Failure) × ((any_executor : Executor)
        → run_step world any_executor paused_session plan operation plan_step db ≡ (err e, db)))
    ⊎ ((c : Capability) × (describe world.registry "application.restart" ≡ ok c)
        × IsAllowed
            (current db).is_on
            (step_request world executor paused_session plan plan_step)
            c)
run_step-IsAllowed_example =
    run_step-IsAllowed world executor paused_session plan operation plan_step db

abbrev other_session : Session
other_session = record session { id = "s2" }

not_own : plan.session_id ≢ other_session.id
not_own = ground (arith, eq_iff "s1" "s2")

execute-blocked_example :
    (e : Failure) × (execute_plan_for_session world executor other_session "p1" db ≡ (err e, db))
unfolding Tables.get
execute-blocked_example =
    execute-blocked world executor other_session plan db refl (foreign not_own)
