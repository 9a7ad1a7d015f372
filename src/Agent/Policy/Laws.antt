-- ===== src/Agent/Policy/Laws.antt =====
-- When the policy lets an action run.
use vops.Prelude.{
  ◌≡◌, ◌↔◌, Bool, true, false, not, ◌&&◌, ◌||◌, Option, none, some, arith, ◌==◌, is_zero, refl, inl,
  inr, ◌≢◌, eq_iff, Bool-cases,
}
use vops.Agent.Model.{Capability}
use vops.Agent.Policy.Allowed.{IsAllowed, matches_iff, is_active_iff, is_read_iff, plan_iff}
use vops.Agent.Policy.Scope.{scope_iff}
use vops.Agent.Policy.{
  Request, Reason, allow, is_read, is_active, matches, scope_denial, plan_covers, grant, permit,
  decide,
}

-- The tests of the code, all passed
record Passes (stopped : Bool) (request : Request) (capability : Capability) : Type 0 where
  not_stopped : (stopped && not (is_read capability.access)) ≡ false
  enabled : capability.enabled ≡ true
  active : is_active request.session.status ≡ true
  in_scope : scope_denial request.session capability request.environment request.input ≡ none
  not_denied : matches request.session.permissions.deny capability.id ≡ false
  in_budget :
      (capability.id == "server.provision" && is_zero request.session.limits.max_provider_spend)
      ≡ false
  granted :
      (matches request.session.permissions.allow capability.id
        || plan_covers request.approved_plan request.session capability)
      ≡ true

grant-allow :
    (request : Request) (capability : Capability)
    → ((grant request capability).effect ≡ allow) ↔ (
        (matches request.session.permissions.allow capability.id
          || plan_covers request.approved_plan request.session capability)
        ≡ true)
unfolding grant
grant-allow request capability = (λ h. ground arith, λ h. ground arith)

permit-allow :
    (o : Option Reason) (request : Request) (capability : Capability)
    → ((permit o request capability).effect ≡ allow) ↔ (
        (o ≡ none)
        × (matches request.session.permissions.deny capability.id ≡ false)
        × ((capability.id == "server.provision"
              && is_zero request.session.limits.max_provider_spend)
            ≡ false)
        × ((grant request capability).effect ≡ allow))
unfolding permit
permit-allow none request capability = (λ h. ground arith, λ h. ground arith)
permit-allow (some o) request capability = (λ h. cc, λ h. cc)

decide-Passes :
    (stopped : Bool) (request : Request) (capability : Capability)
    → ((decide stopped request capability).effect ≡ allow) ↔ Passes stopped request capability
unfolding decide
decide-Passes stopped request capability = (
  λ h. ground (
    arith,
    permit-allow (scope_denial request.session capability request.environment request.input) request
        capability,
    grant-allow request capability,
  ),
  λ v. ground (
    arith,
    permit-allow (scope_denial request.session capability request.environment request.input) request
        capability,
    grant-allow request capability,
  ),
)

passed_checks :
    (stopped : Bool) (request : Request) (capability : Capability)
    → Passes stopped request capability ↔ IsAllowed stopped request capability
passed_checks stopped request capability = (
  λ v. record {
    not_stopped = let a = v.not_stopped in ground (arith, is_read_iff capability.access);
    enabled = v.enabled;
    active = (is_active_iff request.session.status).0 v.active;
    in_scope =
        (scope_iff request.session capability request.environment request.input).0 v.in_scope;
    not_denied = λ named.
        let a = v.not_denied in
        ground (arith, matches_iff request.session.permissions.deny capability.id);
    in_budget =
        λ same zero. let a = v.in_budget in ground (arith, eq_iff capability.id "server.provision");
    granted =
        let a = v.granted in
        ground (
          arith,
          matches_iff request.session.permissions.allow capability.id,
          plan_iff request.approved_plan request.session capability,
        );
  },
  λ v. record {
    not_stopped = let a = v.not_stopped in ground (arith, is_read_iff capability.access);
    enabled = v.enabled;
    active = (is_active_iff request.session.status).1 v.active;
    in_scope =
        (scope_iff request.session capability request.environment request.input).1 v.in_scope;
    not_denied = elim (Bool-cases (matches request.session.permissions.deny capability.id)) [
      | inl e ↦
          absurd (v.not_denied ((matches_iff request.session.permissions.deny capability.id).0 e))
      | inr e ↦ e
    ];
    in_budget = spends v.in_budget;
    granted =
        let a = v.granted in
        ground (
          arith,
          matches_iff request.session.permissions.allow capability.id,
          plan_iff request.approved_plan request.session capability,
        );
  },
)
  where
    spends :
        (capability.id ≡ "server.provision" → request.session.limits.max_provider_spend ≢ 0)
        → (capability.id == "server.provision" && is_zero request.session.limits.max_provider_spend)
          ≡ false
    spends h = elim (Bool-cases (capability.id == "server.provision")) [
      | inl e ↦ let n = h ((eq_iff capability.id "server.provision").0 e) in ground arith
      | inr e ↦ rw e refl
    ]

-- An action is allowed exactly if the emergency stop is off or the capability only reads; the capability
-- is available; the session is active; the environment is one of the session's, and so is the
-- target, if the session limits them, or none is named and the capability needs none; the session
-- does not deny the capability; a purchase of a server has some budget; and the session allows the
-- capability, or the plan is approved, is this session's, and the session takes the capability up into plans.
pub decide-allow :
    (stopped : Bool) (request : Request) (capability : Capability)
    → ((decide stopped request capability).effect ≡ allow) ↔ IsAllowed stopped request capability
decide-allow stopped request capability = (
  λ h.
      (passed_checks stopped request capability).0 ((decide-Passes stopped request capability).0 h),
  λ v.
      (decide-Passes stopped request capability).1 ((passed_checks stopped request capability).1 v),
)
