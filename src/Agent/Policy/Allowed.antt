-- ===== src/Agent/Policy/Allowed.antt =====
-- What src/agent-control/policy-engine.ts is to ask of an action, said without its functions, and the
-- tests of the code as those conditions.
use vops.Prelude.{
  String, ◌≡◌, ◌≢◌, ◌↔◌, ◌⊎◌, refl, Bool, true, false, Option, none, some, List, [], ◌∷◌, arith,
  any, includes, eq_iff,
}
use vops.Agent.Json.{str, Fields, get}
use vops.Agent.Model.{
  SessionStatus, active, Environment, Session, Access, read, Capability, PlanStatus, approved, Plan,
}
use vops.Agent.Policy.{
  Request, is_read, is_active, is_approved, same_environment, matches, plan_covers,
}

abbrev pub IsIn : {A : Type 0} → A → List A → Type 0
IsIn x [] = ⊥
IsIn x (y ∷ ys) = (y ≡ x) ⊎ IsIn x ys

-- A list of patterns names the capability, or everything.
abbrev pub Names : List String → String → Type 0
Names patterns capability = IsIn "*" patterns ⊎ IsIn capability patterns

-- The input has a text under the key that is not empty, or has none.
abbrev pub HasText : Fields → String → String → Type 0
HasText input key t = (get input key ≡ some (str t)) × (t ≢ "")

abbrev pub HasNoText : Fields → String → Type 0
HasNoText input key = (t : String) → get input key ≡ some (str t) → t ≡ ""

-- What the action is aimed at: the first such text of target, host and id.
abbrev pub IsTarget : Fields → String → Type 0
IsTarget input t =
    HasText input "target" t
    ⊎ (HasNoText input "target" × HasText input "host" t)
    ⊎ (HasNoText input "target" × HasNoText input "host" × HasText input "id" t)

abbrev pub HasNoTarget : Fields → Type 0
HasNoTarget input = HasNoText input "target" × HasNoText input "host" × HasNoText input "id"

-- The environment is one of the session's; and the session has no limit on its targets, or the target is
-- one of its targets, or there is none and the capability does not need one.
abbrev pub InScope : Session → Capability → Environment → Fields → Type 0
InScope session capability environment input =
    IsIn environment session.scope.environments
    × ((session.scope.targets ≡ [])
        ⊎ ((t : String) × IsTarget input t × IsIn t session.scope.targets)
        ⊎ (HasNoTarget input × (capability.host_scoped ≡ false)))

-- An approved plan of this session, and the session takes the capability up into plans.
abbrev pub InPlan : Option Plan → Session → Capability → Type 0
InPlan plan session capability =
    (p : Plan) × (plan ≡ some p)
    × (p.status ≡ approved)
    × (p.session_id ≡ session.id)
    × (Names session.permissions.allow_within_approved_plan capability.id
        ⊎ Names session.permissions.require_approval capability.id)

-- What has to hold for an action to run.
pub record IsAllowed (stopped : Bool) (request : Request) (capability : Capability) : Type 0 where
  pub not_stopped : (stopped ≡ false) ⊎ (capability.access ≡ read)
  pub enabled : capability.enabled ≡ true
  pub active : request.session.status ≡ active
  pub in_scope : InScope request.session capability request.environment request.input
  pub not_denied : ¬ Names request.session.permissions.deny capability.id
  pub in_budget : capability.id ≡ "server.provision" → request.session.limits.max_provider_spend ≢ 0
  pub granted :
      Names request.session.permissions.allow capability.id
      ⊎ InPlan request.approved_plan request.session capability

pub matches_iff : (xs : List String) (c : String) → (matches xs c ≡ true) ↔ Names xs c
unfolding matches any
matches_iff [] c = (λ h. ground arith, λ h. ground arith)
matches_iff (x ∷ xs) c = (
  λ h. ground (arith, matches_iff xs c, eq_iff x "*", eq_iff x c),
  λ h. ground (arith, matches_iff xs c, eq_iff x "*", eq_iff x c),
)

pub includes_iff : (xs : List String) (c : String) → (includes xs c ≡ true) ↔ IsIn c xs
unfolding includes
includes_iff [] c = (λ h. ground arith, λ h. ground arith)
includes_iff (x ∷ xs) c = (
  λ h. ground (arith, includes_iff xs c, eq_iff x c),
  λ h. ground (arith, includes_iff xs c, eq_iff x c),
)

same_environment_iff : (a b : Environment) → (same_environment a b ≡ true) ↔ (b ≡ a)
unfolding same_environment
same_environment_iff a b = (λ h. ground arith, λ h. ground arith)

pub environment_iff :
    (e : Environment) (es : List Environment) → (any (same_environment e) es ≡ true) ↔ IsIn e es
unfolding any
environment_iff e [] = (λ h. ground arith, λ h. ground arith)
environment_iff e (x ∷ xs) = (
  λ h. ground (arith, environment_iff e xs, same_environment_iff e x),
  λ h. ground (arith, environment_iff e xs, same_environment_iff e x),
)

pub is_active_iff : (s : SessionStatus) → (is_active s ≡ true) ↔ (s ≡ SessionStatus.active)
unfolding is_active
is_active_iff s = (λ h. ground arith, λ h. ground arith)

is_approved_iff : (s : PlanStatus) → (is_approved s ≡ true) ↔ (s ≡ approved)
unfolding is_approved
is_approved_iff s = (λ h. ground arith, λ h. ground arith)

pub is_read_iff : (a : Access) → (is_read a ≡ true) ↔ (a ≡ read)
unfolding is_read
is_read_iff a = (λ h. ground arith, λ h. ground arith)

pub plan_iff :
    (plan : Option Plan) (session : Session) (capability : Capability)
    → (plan_covers plan session capability ≡ true) ↔ InPlan plan session capability
unfolding plan_covers
plan_iff none session capability = (λ h. ground arith, λ h. let e = h.1 in ground arith)
plan_iff (some plan) session capability = (
  λ h. (
    plan,
    refl,
    ground (arith, is_approved_iff plan.status),
    ground (arith, eq_iff plan.session_id session.id),
    ground (
      arith,
      matches_iff session.permissions.allow_within_approved_plan capability.id,
      matches_iff session.permissions.require_approval capability.id,
    ),
  ),
  λ (p, e, ready, own, taken).
      let same : plan ≡ p = ground arith in
      ground (
        arith,
        is_approved_iff plan.status,
        eq_iff plan.session_id session.id,
        matches_iff session.permissions.allow_within_approved_plan capability.id,
        matches_iff session.permissions.require_approval capability.id,
      ),
)
