-- ===== src/Tests/Scoping.antt =====
-- Sessions that are narrowed, granted a capability, charged and authenticated.
use vops.Prelude.{
  String, ◌≡◌, ◌≢◌, ◌↔◌, ◌≤◌, ◌+◌, refl, true, false, none, some, List, [], ◌∷◌, arith, eq_iff,
  includes, any,
}
use vops.Prelude.Result.{ok}
use vops.Prelude.Texts.{pos}
use vops.Agent.Json.{str, field, end, get}
use vops.Agent.Model.{staging}
use vops.Agent.Policy.{
  Request, decide, deny, matches, scope_denial, outside_target, target_from, same_environment,
}
use vops.Agent.Sessions.{granted_scope, narrowed_scope, authenticate}
use vops.Agent.Sessions.Inputs.{Grant, Narrow}
use vops.Agent.Sessions.Scoping.{
  Change, narrows, grants, rescoped, narrowed-deny, granted_permissions, narrowed_to_none,
  granted_limits,
}
use vops.Agent.Sessions.Budget.{Holds, commit_all, commit_all_in_budget}
use vops.Agent.Sessions.Access.{IsLive, session_of_token, authenticate_iff}
use vops.Agent.Store.{session_of}
use vops.Agent.Store.Tables
use vops.Tests.Data.{session, restart, plan, world, db}

abbrev narrowing : Narrow
narrowing = record {
  capabilities = some ("application.restart" ∷ []);
  targets = some [];
  expires_at = none;
  max_provider_spend = none;
}

abbrev granting : Grant
granting = record { capability = "application.restart"; target = some "web"; environment = none }

-- The session is granted another capability afterwards, and narrowed once more.
abbrev afterwards : List Change
afterwards = grants (record granting { capability = "application.status" }) ∷ narrows narrowing ∷ []

abbrev after_narrowing : Request
after_narrowing = record {
  session = rescoped world afterwards (narrowed_scope world session narrowing);
  capability = "application.restart";
  input = field "host" (str "db") end;
  environment = staging;
  approved_plan = some plan;
}

other_granted : ◌≢◌ {A = String} "application.status" "application.restart"
other_granted = ground (arith, eq_iff "application.status" "application.restart")

narrowed-deny_example : (decide false after_narrowing restart).effect ≡ deny
unfolding includes
narrowed-deny_example =
    narrowed-deny world session narrowing afterwards false after_narrowing restart refl refl
      (other_granted, tt)

granted_permissions_example :
    (matches (granted_scope world session granting).permissions.allow "application.restart" ≡ true)
    × (includes (granted_scope world session granting).permissions.deny "application.restart"
        ≡ false)
    × (includes
          (granted_scope world session granting).permissions.require_approval
          "application.restart"
        ≡ false)
granted_permissions_example = granted_permissions world session granting

narrowed_to_none_example :
    scope_denial
      (narrowed_scope world session narrowing)
      restart
      staging
      (field "host" (str "db") end)
    ≡ none
unfolding any same_environment
narrowed_to_none_example =
    narrowed_to_none world session narrowing restart staging (field "host" (str "db") end) refl refl

not_empty : ◌≢◌ {A = String} "web" ""
not_empty = ground (arith, eq_iff "web" "")

not_same : ◌≢◌ {A = String} "web" "db"
not_same = ground (arith, eq_iff "web" "db")

granted_limits_example :
    (scope_denial session restart staging (field "host" (str "db") end) ≡ none)
    × (scope_denial
          (granted_scope world session granting)
          restart
          staging
          (field "host" (str "db") end)
        ≡ some (outside_target "db"))
unfolding any same_environment target_from get
granted_limits_example =
    granted_limits world session granting restart staging (field "host" (str "db") end) "web" "db"
      refl refl not_empty not_same refl refl refl

session-Holds : Holds world "s1" db 0 900
unfolding session_of Tables.get
session-Holds = record {
  session = session;
  found = refl;
  own_id = refl;
  spent = refl;
  limit = refl;
}

commit_all_in_budget_example :
    Holds world "s1"
      (commit_all world "s1" (pos 500 ∷ pos 600 ∷ pos 400 ∷ []) db).1
      (0 + (commit_all world "s1" (pos 500 ∷ pos 600 ∷ pos 400 ∷ []) db).0)
      900
    × (0 + (commit_all world "s1" (pos 500 ∷ pos 600 ∷ pos 400 ∷ []) db).0 ≤ 900)
commit_all_in_budget_example =
    commit_all_in_budget world "s1" (pos 500 ∷ pos 600 ∷ pos 400 ∷ []) db 0 900 refl session-Holds
      (omega arith)

authenticate_iff_example : (authenticate world (some "token") db ≡ (ok session, db)) ↔ (
    (◌≢◌ {A = String} "token" "")
    × (session_of_token world "token" db ≡ some session)
    × IsLive world session)
authenticate_iff_example = authenticate_iff world "token" db session
