-- ===== src/Agent/Sessions/Scoping.antt =====
-- What narrowing a session takes away, and what granting it a capability gives.
use mathlib.Core.Path.{subst}
use vops.Prelude.{
  String, sym, ◌≡◌, ◌≢◌, Bool, true, false, not, Option, none, some, List, [], ◌∷◌, ◌++◌, ◌==◌,
  arith, any, includes, keep, unique, includes-append, includes-unique, includes-keep, eq_iff,
  eq_refl,
}
use vops.Agent.Json.{Fields}
use vops.Agent.Model.{Session, Permissions, Capability, Environment}
use vops.Agent.Policy.{
  Request, Reason, deny, matches, target_from, scope_denial, permit, decide, same_environment,
  outside_target,
}
use vops.Agent.Sessions.{granted_scope, narrowed_scope}
use vops.Agent.Sessions.Inputs.{Grant, Narrow, or}
use vops.Agent.Store.{World}

-- A list that includes a capability matches it.
pub matches-includes : (xs : List String) (c : String) → includes xs c ≡ true → matches xs c ≡ true
unfolding matches any includes
matches-includes [] c h = cc
matches-includes (x ∷ xs) c h = ground (arith, matches-includes xs c)

permit-denied :
    (o : Option Reason) (request : Request) (capability : Capability)
    → matches request.session.permissions.deny capability.id ≡ true
    → (permit o request capability).effect ≡ deny
unfolding permit
permit-denied o request capability h = ground arith

-- What the session denies is denied, whatever else holds.
pub decide-denied :
    (stopped : Bool) (request : Request) (capability : Capability)
    → matches request.session.permissions.deny capability.id ≡ true
    → (decide stopped request capability).effect ≡ deny
unfolding decide
decide-denied stopped request capability h = ground (
  arith,
  permit-denied (scope_denial request.session capability request.environment request.input) request
      capability,
)

includes_self : (c : String) → includes (c ∷ []) c ≡ true
unfolding includes
includes_self c = ground (arith, eq_refl c)

kept_out :
    (xs : List String) (c : String) → includes (keep (λ entry. not (entry == c)) xs) c ≡ false
kept_out xs c = ground (arith, includes-keep (λ entry. not (entry == c)) xs c, eq_refl c)

-- A change of the scope of a session.
pub data Change : Type 0 where
  narrows : Narrow → Change
  grants : Grant → Change

-- None of the changes grants the capability.
abbrev pub IsUngranted : String → List Change → Type 0
IsUngranted c [] = Unit
IsUngranted c (narrows narrow ∷ rest) = IsUngranted c rest
IsUngranted c (grants grant ∷ rest) = (grant.capability ≢ c) × IsUngranted c rest

module _ (w : World) where
  narrowed_denies :
      (s : Session) (narrow : Narrow) (c : String)
      → includes (or narrow.capabilities []) c ≡ true
      → includes (narrowed_scope w s narrow).permissions.deny c ≡ true
  unfolding narrowed_scope
  narrowed_denies s narrow c h =
      let removed = or narrow.capabilities [] in
      ground (
        arith,
        includes-unique (s.permissions.deny ++ removed) c,
        includes-append s.permissions.deny removed c,
      )

  narrowed_keeps :
      (s : Session) (narrow : Narrow) (c : String)
      → includes s.permissions.deny c ≡ true
      → includes (narrowed_scope w s narrow).permissions.deny c ≡ true
  unfolding narrowed_scope
  narrowed_keeps s narrow c h =
      let removed = or narrow.capabilities [] in
      ground (
        arith,
        includes-unique (s.permissions.deny ++ removed) c,
        includes-append s.permissions.deny removed c,
      )

  granted_keeps :
      (s : Session) (grant : Grant) (c : String)
      → grant.capability ≢ c
      → includes s.permissions.deny c ≡ true
      → includes (granted_scope w s grant).permissions.deny c ≡ true
  unfolding granted_scope
  granted_keeps s grant c other h = ground (
    arith,
    includes-keep (λ entry. not (entry == grant.capability)) s.permissions.deny c,
    eq_iff c grant.capability,
  )

  -- A session after further changes of its scope.
  abbrev pub rescoped : List Change → Session → Session
  rescoped [] s = s
  rescoped (narrows narrow ∷ rest) s = rescoped rest (narrowed_scope w s narrow)
  rescoped (grants grant ∷ rest) s = rescoped rest (granted_scope w s grant)

  still_denied :
      (changes : List Change) (s : Session) (c : String)
      → IsUngranted c changes
      → includes s.permissions.deny c ≡ true
      → includes (rescoped changes s).permissions.deny c ≡ true
  still_denied [] s c free h = h
  still_denied (narrows narrow ∷ rest) s c free h =
      still_denied rest (narrowed_scope w s narrow) c free (narrowed_keeps s narrow c h)
  still_denied (grants grant ∷ rest) s c (other, free) h =
      still_denied rest (granted_scope w s grant) c free (granted_keeps s grant c other h)

  -- Hypotheses: a session was narrowed, and its scope was then changed by any narrowings, and by any
  -- grants of capabilities other than one that the narrowing named; and the permissions of the
  -- session that asks are the ones it has then. That capability is denied, whatever the emergency
  -- stop, the environment, the input and the approved plan are.
  pub narrowed-deny :
      (s : Session) (narrow : Narrow) (changes : List Change) (stopped : Bool) (request : Request)
      (capability : Capability)
      → request.session.permissions ≡ (rescoped changes (narrowed_scope w s narrow)).permissions
      → includes (or narrow.capabilities []) capability.id ≡ true
      → IsUngranted capability.id changes
      → (decide stopped request capability).effect ≡ deny
  narrowed-deny s narrow changes stopped request capability same h free =
      decide-denied stopped request capability (
        subst (λ (x : Permissions). matches x.deny capability.id ≡ true) (sym same)
          (matches-includes _ capability.id (
            still_denied changes (narrowed_scope w s narrow) capability.id free
              (narrowed_denies s narrow capability.id h))))

  -- A grant puts the capability among the allowed ones and takes its name out of the denied ones and
  -- of those that need an approval.
  pub granted_permissions :
      (s : Session) (grant : Grant)
      → (matches (granted_scope w s grant).permissions.allow grant.capability ≡ true)
        × (includes (granted_scope w s grant).permissions.deny grant.capability ≡ false)
        × (includes (granted_scope w s grant).permissions.require_approval grant.capability ≡ false)
  unfolding granted_scope
  granted_permissions s grant = (
    matches-includes (unique (s.permissions.allow ++ grant.capability ∷ [])) grant.capability (
        ground (
          arith,
          includes-unique (s.permissions.allow ++ grant.capability ∷ []) grant.capability,
          includes-append s.permissions.allow (grant.capability ∷ []) grant.capability,
          includes_self grant.capability,
        )),
    kept_out s.permissions.deny grant.capability,
    kept_out s.permissions.require_approval grant.capability,
  )

  -- To limit the targets of a session to none lifts the limit: an empty list is no limit, and any
  -- target is in scope then, in each of the session's environments.
  pub narrowed_to_none :
      (s : Session) (narrow : Narrow) (capability : Capability) (environment : Environment)
      (input : Fields)
      → narrow.targets ≡ some []
      → any (same_environment environment) s.scope.environments ≡ true
      → scope_denial (narrowed_scope w s narrow) capability environment input ≡ none
  unfolding scope_denial narrowed_scope unique
  narrowed_to_none s narrow capability environment input none_left inside = ground arith

  -- To grant a target to a session that has no limit on its targets limits it to that target: every
  -- other target was in scope before, and is refused then.
  pub granted_limits :
      (s : Session) (grant : Grant) (capability : Capability) (environment : Environment)
      (input : Fields) (t u : String)
      → s.scope.targets ≡ []
      → grant.target ≡ some t
      → t ≢ ""
      → t ≢ u
      → target_from input ≡ some u
      → any (same_environment environment) s.scope.environments ≡ true
      → grant.environment ≡ none
      → (scope_denial s capability environment input ≡ none)
        × (scope_denial (granted_scope w s grant) capability environment input
            ≡ some (outside_target u))
  unfolding scope_denial granted_scope unique includes
  granted_limits s grant capability environment input t u unlimited given full other asked inside
        same_env =
      (ground arith, ground (arith, eq_iff t "", eq_iff t u))
