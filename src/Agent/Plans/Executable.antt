-- ===== src/Agent/Plans/Executable.antt =====
-- Which plans may run.
use mathlib.Core.Path.{subst, sym}
use vops.Prelude.{String, ◌≡◌, ◌↔◌, refl, ap, true, Option, none, some, [], arith, is_empty, eq_iff}
use vops.Prelude.Result.{ok}
use vops.Agent.Model.{Plan, PlanStatus, approved}
use vops.Agent.Store.{World, Db, get_plan}
use vops.Agent.Store.Tables
use vops.Agent.Plans.{
  get, or_not_found, validate, step_errors, is_approved, check_executable, require_executable,
}
use vops.Agent.Plans.Hash.{hash_plan}

module _ (w : World) where
  -- The plan is the session's, its content is what its hash was taken of, every step still passes its
  -- schema, and it is approved.
  pub record IsExecutable (plan : Plan) (session_id : String) : Type 0 where
    pub own : plan.session_id ≡ session_id
    pub untouched : hash_plan w.hasher plan.body ≡ plan.hash
    pub steps_valid : step_errors w plan.steps ≡ []
    pub ready : plan.status ≡ approved

  is_approved_iff : (s : PlanStatus) → (is_approved w s ≡ true) ↔ (s ≡ approved)
  unfolding is_approved
  is_approved_iff s = ((λ h. ground arith), (λ h. ground arith))

  validate_iff :
      (plan : Plan)
      → (is_empty (validate w plan) ≡ true)
        ↔ ((hash_plan w.hasher plan.body ≡ plan.hash) × (step_errors w plan.steps ≡ []))
  unfolding validate
  validate_iff plan = (
    λ h. (
      ground (arith, eq_iff (hash_plan w.hasher plan.body) plan.hash),
      ground (arith, eq_iff (hash_plan w.hasher plan.body) plan.hash),
    ),
    λ h. ground (arith, eq_iff (hash_plan w.hasher plan.body) plan.hash),
  )

  check_executable_iff :
      (plan p : Plan) (session_id : String) (db : Db)
      → (check_executable w plan session_id db ≡ (ok p, db))
        ↔ ((plan ≡ p) × IsExecutable plan session_id)
  unfolding check_executable
  check_executable_iff plan p session_id db = (
    λ h.
        ground (
          arith,
          eq_iff plan.session_id session_id,
          validate_iff plan,
          is_approved_iff plan.status,
        ),
    λ h.
        ground (
          arith,
          eq_iff plan.session_id session_id,
          validate_iff plan,
          is_approved_iff plan.status,
        ),
  )

  get_found_iff :
      (id session_id : String) (db : Db) (o : Option Plan) (p : Plan)
      → Tables.get id db.plans ≡ o
      → (require_executable w id session_id db ≡ (ok p, db))
        ↔ ((o ≡ some p) × IsExecutable p session_id)
  unfolding require_executable get get_plan or_not_found
  get_found_iff id session_id db none p e =
      (λ h. cc (rw (e, require_executable, get, get_plan) at h), λ h. cc (h.0))
  get_found_iff id session_id db (some plan) p e = (
    λ h.
        let (same, can) =
          (check_executable_iff plan p session_id db).0
            (rw (e, require_executable, get, get_plan) at h) in
        (ap some same, subst (λ x. IsExecutable x session_id) same can),
    λ h.
        rw (e, require_executable, get, get_plan)
          ((check_executable_iff plan p session_id db).1
            (ground arith, subst (λ x. IsExecutable x session_id) (sym (ground arith)) h.1)),
  )

  -- A plan may be executed for a session exactly if it is stored, belongs to the session, has not been
  -- changed since its hash was taken, has steps that all still pass their schemas, and is approved.
  pub require_executable_iff :
      (id session_id : String) (db : Db) (p : Plan)
      → (require_executable w id session_id db ≡ (ok p, db))
        ↔ ((Tables.get id db.plans ≡ some p) × IsExecutable p session_id)
  require_executable_iff id session_id db p =
      get_found_iff id session_id db (Tables.get id db.plans) p refl
