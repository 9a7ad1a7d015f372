-- ===== src/Agent/Sessions/Inputs.antt =====
-- The inputs and the defaults of src/agent-control/agent-session-manager.ts.
use vops.Prelude.{
  ℕ, ◌*◌, String, Bool, true, false, Option, none, some, List, [], ◌∷◌, ◌==◌, any, unique, max_of,
  min_of, if◌then◌else◌,
}
use vops.Prelude.Texts.{ℤ, clamp}
use vops.Agent.Model.{
  AgentClient, claude_code, codex, opencode, antigravity, other, SessionMode, advisory, protected,
  SessionStatus, active, paused, revoked, expired, completed, Environment, Permissions,
}
use vops.Agent.Policy.{same_environment}

abbrev pub default_minutes : ℕ
default_minutes = 60

abbrev pub max_minutes : ℕ
max_minutes = 12 * 60

abbrev pub default_permissions : Permissions
default_permissions = record {
  allow =
      "repository.inspect" ∷ "flui_spec.read" ∷ "flui_spec.generate" ∷ "flui_spec.validate"
      ∷ "catalog.list" ∷ "catalog.describe" ∷ "provider.list" ∷ "provider.prices.compare"
      ∷ "target.list" ∷ "target.inspect" ∷ "server.list" ∷ "server.inspect"
      ∷ "application.plan_deploy" ∷ "application.status" ∷ "logs.read_recent" ∷ "healthcheck.run"
      ∷ "firewall.inspect" ∷ [];
  allow_within_approved_plan =
      "catalog.install" ∷ "application.deploy" ∷ "application.restart" ∷ "server.harden"
      ∷ "firewall.open_port" ∷ "firewall.close_port" ∷ [];
  require_approval = "server.provision" ∷ [];
  deny = "server.destroy" ∷ "application.rollback" ∷ [];
}

pub record GivenPermissions : Type 0 where
  pub allow : Option (List String)
  pub allow_within_approved_plan : Option (List String)
  pub require_approval : Option (List String)
  pub deny : Option (List String)

-- `repository` is what `resolveRepository` finds: the real path and its last name, or nothing if it
-- throws.
pub record CreateInput : Type 0 where
  pub client : AgentClient
  pub client_version : Option String
  pub display_name : Option String
  pub objective : String
  pub repository : Option (String × String)
  pub mode : Option SessionMode
  pub targets : Option (List String)
  pub environments : Option (List Environment)
  pub permissions : Option GivenPermissions
  pub expires_in_minutes : Option ℤ
  pub max_operations : Option ℤ
  pub max_provider_spend : Option ℤ

pub record Grant : Type 0 where
  pub capability : String
  pub target : Option String
  pub environment : Option Environment

pub record Narrow : Type 0 where
  pub capabilities : Option (List String)
  pub targets : Option (List String)
  pub expires_at : Option ℕ
  pub max_provider_spend : Option ℤ

abbrev pub or {ℓ} : {A : Type ℓ} → Option A → A → A
or none d = d
or (some a) d = a

unfoldable pub client_label : AgentClient → String
client_label claude_code = "Claude Code"
client_label codex = "Codex"
client_label opencode = "OpenCode"
client_label antigravity = "Antigravity"
client_label other = "Coding agent"

unfoldable pub client_name : AgentClient → String
client_name claude_code = "claude-code"
client_name codex = "codex"
client_name opencode = "opencode"
client_name antigravity = "antigravity"
client_name other = "other"

unfoldable pub status_name : SessionStatus → String
status_name active = "active"
status_name paused = "paused"
status_name revoked = "revoked"
status_name expired = "expired"
status_name completed = "completed"

unfoldable pub mode_name : SessionMode → String
mode_name advisory = "advisory"
mode_name protected = "protected"

unfoldable pub is_protected : Option SessionMode → Bool
is_protected (some protected) = true
is_protected _ = false

unfoldable pub is_status : SessionStatus → SessionStatus → Bool
unfolding status_name
is_status s t = status_name s == status_name t

-- [...new Set(environments)]
unique_environments_from : List Environment → List Environment → List Environment
unique_environments_from seen [] = []
unique_environments_from seen (e ∷ es) =
    let old = unique_environments_from seen es in
    let fresh = e ∷ unique_environments_from (e ∷ seen) es in
    if any (same_environment e) seen then old else fresh

unfoldable pub unique_environments : List Environment → List Environment
unfolding unique_environments_from
unique_environments = unique_environments_from []

given :
    (GivenPermissions → Option (List String)) → Option GivenPermissions → List String → List String
given part none d = unique d
given part (some g) d = unique (or (part g) d)

unfoldable pub merge_permissions : Option GivenPermissions → Permissions
unfolding given
merge_permissions input = record {
  allow = given (λ g. g.allow) input default_permissions.allow;
  allow_within_approved_plan =
      given (λ g. g.allow_within_approved_plan) input
        default_permissions.allow_within_approved_plan;
  require_approval = given (λ g. g.require_approval) input default_permissions.require_approval;
  deny = given (λ g. g.deny) input default_permissions.deny;
}

-- Math.max(lo, Math.min(x, hi))
unfoldable pub bounded : ℕ → ℕ → ℤ → ℕ
bounded lo hi x = max_of lo (min_of (clamp x) hi)
