-- ===== src/Agent/Plans/Vetted.antt =====
-- What the steps of a new plan have passed.
use vops.Prelude.{
  ◌≡◌, ◌≢◌, ◌⊎◌, inl, inr, refl, Bool, false, none, List, [], ◌∷◌, map, any, if◌then◌else◌,
}
use vops.Prelude.Result.{Result, ok, err}
use vops.Agent.Json.{Fields}
use vops.Agent.Model.{
  Environment, Session, Capability, PlanStep, Plan, approved, awaiting_approval, Failure,
}
use vops.Agent.Redaction.{some_field}
use vops.Agent.Registry
use vops.Agent.Policy.{Request, Decision, Effect, evaluate}
use vops.Agent.Store.{World}
use vops.Agent.Plans.{StepInput, CreatePlanInput, Drafted, or_empty}
use vops.Agent.Plans.Hash.{hash_plan}

pub Result-cases :
    {A : Type 0} (r : Result Failure A) → ((a : A) × (r ≡ ok a)) ⊎ ((e : Failure) × (r ≡ err e))
Result-cases (ok a) = inl (a, refl)
Result-cases (err e) = inr (e, refl)

module _ (w : World) where
  -- The request that the policy sees for a step: no plan is approved yet.
  abbrev pub step_request : Session → Environment → StepInput → Fields → Request
  step_request session environment s input = record {
    session = session;
    capability = s.capability;
    input = input;
    environment = environment;
    approved_plan = none;
  }

  -- A step of the plan is of the capability that was asked for, and has its risk; it passes the schema with the input that the validator returns, holds no field
  -- that is named like a secret, and is not denied; and if no step waits for an approval, it is allowed.
  pub record IsVetted (session : Session) (environment : Environment) (stopped waits : Bool)
      (s : StepInput) (step : PlanStep) : Type 0 where
    pub definition : Capability
    pub described : Registry.describe w.registry s.capability ≡ ok definition
    pub same : step.capability ≡ s.capability
    pub risk : step.risk ≡ definition.risk
    pub decision : Decision
    pub validated : Registry.validate w.registry s.capability (or_empty s.input) ≡ ([], step.input)
    pub clean : some_field w.patterns step.input ≡ false
    pub decided :
        evaluate w.registry stopped (step_request session environment s step.input) ≡ ok decision
    pub not_denied : decision.effect ≢ Effect.deny
    pub allowed : waits ≡ false → decision.effect ≡ Effect.allow

  abbrev pub AreVetted :
      Session → Environment → Bool → Bool → List StepInput → List PlanStep → Type 0
  AreVetted session environment stopped waits [] [] = Unit
  AreVetted session environment stopped waits (s ∷ ss) (p ∷ ps) =
      IsVetted session environment stopped waits s p
      × AreVetted session environment stopped waits ss ps
  AreVetted session environment stopped waits _ _ = ⊥

  -- No step waits for an approval if none does.
  pub weaken :
      (session : Session) (environment : Environment) (stopped a b : Bool) (s : StepInput)
      (p : PlanStep)
      → (b ≡ false → a ≡ false)
      → IsVetted session environment stopped a s p
      → IsVetted session environment stopped b s p
  weaken session environment stopped a b s p f v = record {
    definition = v.definition;
    described = v.described;
    same = v.same;
    risk = v.risk;
    decision = v.decision;
    validated = v.validated;
    clean = v.clean;
    decided = v.decided;
    not_denied = v.not_denied;
    allowed = λ h. v.allowed (f h);
  }

  abbrev steps_of : List Drafted → List PlanStep
  steps_of ds = map (λ (d : Drafted). d.step) ds

  abbrev waiting : List Drafted → Bool
  waiting ds = any (λ (d : Drafted). d.needs_approval) ds

  -- What a new plan is: its hash is that of its content, it is the session's, and whether it waits
  -- for an approval or is approved at once depends on its steps.
  pub record IsNew (session : Session) (input : CreatePlanInput) (stopped : Bool) (p : Plan)
      : Type 0 where
    pub waits : Bool
    pub status : p.status ≡ (if waits then awaiting_approval else approved)
    pub hashed : p.hash ≡ hash_plan w.hasher p.body
    pub own : p.session_id ≡ session.id
    pub vetted : AreVetted session p.environment stopped waits input.steps p.steps
