-- ===== src/Remote/Intents/Proposals.antt =====
-- The checks of src/remote/intent.service.ts on a proposal, with the messages that they throw. That a
-- field has its type in the JSON is taken for granted.
use vops.Prelude.{
  ℕ, ◌-◌, ◌*◌, String, ◌==◌, Bool, true, false, not, ◌&&◌, ◌||◌, Option, none, some, List, any,
  is_empty, includes, leb, ltb, eqb, if◌then◌else◌,
}
use vops.Prelude.Result.{Result, ok, err}
use vops.Prelude.Texts.{ℤ, pos}
use vops.Agent.Model.{Capability, Risk, destructive}
use vops.Agent.Policy.{is_read, same_environment}
use vops.Agent.Approvals.{risk_rank}
use vops.Remote.Model.{Device, Proposal}
use vops.Remote.Store.{RemoteWorld, now}

abbrev pub max_intent_lifetime_ms : ℕ
max_intent_lifetime_ms = 30 * 24 * 60 * 60000

module _ (w : RemoteWorld) where
  bounded : String → ℕ → Bool
  bounded s most = not (s == "") && leb (w.length_of s) most

  bounded_or_none : Option String → ℕ → Bool
  unfolding bounded
  bounded_or_none none most = true
  bounded_or_none (some s) most = bounded s most

  -- The expiry and the cap, where they are acceptable.
  limits : Option ℕ → ℕ → Option ℤ → Bool → Option (ℕ × ℕ)
  limits (some expires) executions (some (pos spend)) stops =
      if leb expires (now w)
        || (ltb max_intent_lifetime_ms (expires - now w) || (not (eqb executions 1) || not stops))
      then none
      else some (expires, spend)
  limits _ executions spend stops = none

  or_invalid : Option (ℕ × ℕ) → Result String (ℕ × ℕ)
  or_invalid none = err "Intent constraints are invalid."
  or_invalid (some l) = ok l

  unfoldable pub validate_proposal : Proposal → Result String (ℕ × ℕ)
  unfolding bounded bounded_or_none limits or_invalid
  validate_proposal p =
      if not (w.is_intent_id p.id)
      then err "Intent ID is invalid."
      else if w.agent_world.trim p.objective == "" || ltb 500 (w.length_of p.objective)
      then err "Intent objective is invalid."
      else if not (bounded p.trigger.provider 80)
          || (not (bounded p.trigger.server_type 120)
              || not (bounded_or_none p.trigger.location 120))
      then err "Intent availability trigger is invalid."
      else if not (bounded p.action.capability 120)
      then err "Intent action is invalid."
      else or_invalid (limits p.expires_at p.max_executions p.max_spend p.stops_on_failure)

  is_destructive : Risk → Bool
  is_destructive destructive = true
  is_destructive _ = false

  target_outside : Option String → List String → Bool
  target_outside none targets = false
  target_outside (some t) targets =
      not (t == "") && (not (is_empty targets) && not (includes targets t))

  -- What the device was not granted.
  unfoldable pub grant_denial : Device → Capability → Proposal → ℕ → Option String
  unfolding is_destructive target_outside
  grant_denial device capability p max_spend =
      let r = device.restrictions in
      if not capability.enabled
        || (not (w.supports_plan capability.id) || is_read capability.access)
      then some "Intent action must be an enabled planned mutation."
      else if is_destructive capability.risk
          || ltb (risk_rank r.max_risk) (risk_rank capability.risk)
      then some "Intent action risk exceeds the device grant."
      else if not (any (same_environment p.action.environment) r.environments)
      then some "Intent environment is outside the device grant."
      else if target_outside p.action.target r.targets
      then some "Intent target is outside the device grant."
      else if ltb r.max_provider_spend max_spend
      then some "Intent spending cap exceeds the device grant."
      else none
