-- ===== src/Agent/Sessions.antt =====
-- src/agent-control/agent-session-manager.ts.
pub mod Inputs
pub mod Budget
pub mod Scoping
pub mod Access
pub mod Granting
use mathlib.Core.Option
use text.Mathlib.Text.{starts_with}
use vops.Prelude.{
  ℕ, suc, ◌+◌, ◌*◌, ◌-◌, String, Bool, true, false, not, ◌&&◌, ◌||◌, Option, none, some, List, [],
  ◌∷◌, ◌++◌, ◌==◌, keep, includes, unique, is_empty, leb, ltb, if◌then◌else◌,
}
use vops.Prelude.Texts.{ℤ, pos, clamp, ◌⋯◌, join}
use vops.Prelude.Result.{ok, err}
use vops.Agent.Json.{Json, str, obj, field, end}
use vops.Agent.Model.{
  SessionMode, advisory, SessionStatus, active, paused, revoked, expired, Environment, staging,
  Permissions, Scope, Limits, Session, ErrorCode, auth_required, token_invalid, session_expired,
  session_inactive, scope_denied, not_found, unsupported, ErrorStatus, is_denied, is_failed,
  Failure, plain,
}
use vops.Agent.Policy.{is_active}
use vops.Agent.Store.{
  World, Db, M, ◌>>=◌, ◌>>◌, pure, throw, lift, local_id, append_event, save_session, get_session,
  get_session_by_token_hash, list_sessions,
}
use Inputs.{
  default_minutes, max_minutes, CreateInput, Grant, Narrow, or, client_label, client_name,
  status_name, mode_name, is_protected, is_status, unique_environments, merge_permissions, bounded,
}

module _ (w : World) where
  event : Session → String → String → M (Unit {0})
  event session event_type summary = do
    id ← local_id w "evt"
    append_event w (record {
      event_id = id;
      timestamp = w.now;
      session_id = some session.id;
      actor = client_name session.actor.client;
      operation_id = none;
      event_type = event_type;
      capability = none;
      target = none;
      summary = summary;
      detail = some (
          obj (
            field "objective" (str session.objective)
              (field "mode" (str (mode_name session.mode)) end)));
    })

  or_not_found : Option Session → M Session
  or_not_found none = throw not_found is_failed false
  or_not_found (some s) = pure s

  -- show(id)
  unfoldable pub show : String → M Session
  unfolding or_not_found
  show id = do found ← get_session w id; or_not_found found

  -- A method that changes a session reads it, saves the new one, and logs the change.
  save : Session → String → String → M Session
  unfolding event
  save updated event_type summary = do
    save_session w updated none
    event updated event_type summary
    pure updated

  -- setStatus(id, status)
  unfoldable pub set_status : String → SessionStatus → M Session
  unfolding show save
  set_status id status = do
    session ← show id
    save (record session { status = status; updated_at = w.now }) ("session." ⋯ status_name status)
        ("Session " ⋯ status_name status ⋯ ".")

  -- `...(input.clientVersion ? { clientVersion } : {})`
  present : Option String → Option String
  present none = none
  present (some s) = if s == "" then none else some s

  -- sessionTokenValue()
  draw_token : M String
  draw_token db = (ok (w.new_token db.draws), record db { draws = suc db.draws })

  or_no_directory : Option (String × String) → M (String × String)
  or_no_directory none = lift (err (plain "not a directory"))
  or_no_directory (some r) = pure r

  new_session : CreateInput → String × String → String → Session
  unfolding present
  new_session input (path, name) id = record {
    id = id;
    actor = record {
      client = input.client;
      client_version = present input.client_version;
      display_name = or input.display_name (client_label input.client);
    };
    objective = w.trim input.objective;
    mode = advisory;
    status = active;
    repository_path = path;
    repository_name = name;
    scope = record {
      projects = name ∷ [];
      targets = unique (or input.targets []);
      environments = unique_environments (or input.environments (staging ∷ []));
    };
    permissions = merge_permissions input.permissions;
    limits = record {
      expires_at =
          w.now + bounded 1 max_minutes (or input.expires_in_minutes (pos default_minutes)) * 60000;
      max_operations = bounded 1 1000 (or input.max_operations (pos 50));
      max_provider_spend = clamp (or input.max_provider_spend (pos 0));
    };
    operation_count = 0;
    provider_spend = 0;
    created_at = w.now;
    updated_at = w.now;
  }

  -- create(input): the session, and its token in clear
  unfoldable pub create : CreateInput → M (Session × String)
  unfolding event or_no_directory draw_token new_session
  create input = if is_protected input.mode then throw unsupported is_failed true else do
    repository ← or_no_directory input.repository
    token ← draw_token
    id ← local_id w "ses"
    let session = new_session input repository id
    save_session w session (some (w.hasher.sha256 token))
    event session "session.created"
        ("Created advisory session for " ⋯ session.actor.display_name ⋯ ".")
    pure (session, token)

  -- The session that has run out is marked, unless it is marked already.
  mark_expired : Session → M Session
  unfolding set_status
  mark_expired session =
      if is_status session.status expired then pure session else set_status session.id expired

  refuse_expired : Session → M Session
  unfolding mark_expired
  refuse_expired session = do mark_expired session; throw session_expired is_denied true

  refuse_or_admit : Session → M Session
  unfolding refuse_expired
  refuse_or_admit session =
      if leb session.limits.expires_at w.now
      then refuse_expired session
      else if not (is_active session.status)
      then throw session_inactive is_denied (is_status session.status paused)
      else if leb session.limits.max_operations session.operation_count
      then throw scope_denied is_denied true
      else pure session

  or_invalid : Option Session → M Session
  unfolding refuse_or_admit
  or_invalid none = throw token_invalid is_denied false
  or_invalid (some session) = refuse_or_admit session

  unfoldable pub authenticate : Option String → M Session
  unfolding or_invalid
  authenticate none = throw auth_required is_denied true
  authenticate (some token) =
      if token == ""
      then throw auth_required is_denied true
      else do found ← get_session_by_token_hash w (w.hasher.sha256 token); or_invalid found

  -- `Promise.all` over the sessions, one after the other
  set_all : SessionStatus → List Session → M (List Session)
  set_all status [] = pure []
  set_all status (s ∷ rest) = do
    updated ← set_status s.id status
    others ← set_all status rest
    pure (updated ∷ others)

  is_overdue : Session → Bool
  is_overdue s = is_status s.status active && leb s.limits.expires_at w.now

  unfoldable pub list : M (List Session)
  unfolding set_all is_overdue
  list = do sessions ← list_sessions w; set_all expired (keep is_overdue sessions); list_sessions w

  unfoldable pub pause : String → M Session
  pause id = set_status id paused

  unfoldable pub resume : String → M Session
  resume id = do
    session ← show id
    if leb session.limits.expires_at w.now
        then throw session_expired is_failed false
        else set_status id active

  unfoldable pub revoke : String → M Session
  revoke id = set_status id revoked

  is_open : Session → Bool
  is_open s = is_status s.status active || is_status s.status paused

  unfoldable pub stop_all : M (List Session)
  unfolding set_all is_open list
  stop_all = do sessions ← list; set_all revoked (keep is_open sessions)

  unfoldable pub increment_operation : String → M Session
  unfolding show
  increment_operation id = do
    session ← show id
    let updated = record session {
      operation_count = session.operation_count + 1;
      updated_at = w.now;
    }
    save_session w updated none
    pure updated

  spend_summary : ℤ → ℕ → Session → String
  spend_summary monthly total s =
      "Committed "
      ⋯ w.to_fixed monthly
      ⋯ " EUR/month; "
      ⋯ w.to_fixed (pos total)
      ⋯ " of "
      ⋯ w.to_fixed (pos s.limits.max_provider_spend)
      ⋯ " used."

  unfoldable pub commit_provider_spend : String → ℤ → M Session
  unfolding show save spend_summary
  commit_provider_spend id monthly = do
    session ← show id
    let total = session.provider_spend + clamp monthly
    if ltb session.limits.max_provider_spend total
        then throw scope_denied is_denied true
        else save (record session { provider_spend = total; updated_at = w.now })
            "session.spend_committed" (spend_summary monthly total session)

  abbrev month_ms : ℕ
  month_ms = 30 * 24 * 60 * 60000

  -- `expires` is what `Date.parse` makes of the text, unless it is not a number.
  bind_expiry : Option ℕ → Session → M Session
  unfolding save
  bind_expiry none session = throw scope_denied is_denied false
  bind_expiry (some expires) session =
      if not (starts_with session.actor.display_name "Conditional intent ")
        || (leb expires w.now || ltb month_ms (expires - w.now))
      then throw scope_denied is_denied false
      else save
          (record session {
            limits = record session.limits { expires_at = expires };
            updated_at = w.now;
          })
          "session.intent_expiry_set" "Bound session expiry to its conditional intent."

  unfoldable pub extend_for_conditional_intent : String → Option ℕ → M Session
  unfolding show bind_expiry
  extend_for_conditional_intent id expires = do session ← show id; bind_expiry expires session

  -- `grant.target ? … : …`: an empty text is no target.
  with_target : List String → Option String → List String
  with_target targets none = targets
  with_target targets (some t) = if t == "" then targets else unique (targets ++ t ∷ [])

  with_environment : List Environment → Option Environment → List Environment
  with_environment environments none = environments
  with_environment environments (some e) = unique_environments (environments ++ e ∷ [])

  unfoldable pub granted_scope : Session → Grant → Session
  unfolding with_target with_environment
  granted_scope session grant = record session {
    scope = record session.scope {
      targets = with_target session.scope.targets grant.target;
      environments = with_environment session.scope.environments grant.environment;
    };
    permissions = record session.permissions {
      allow = unique (session.permissions.allow ++ grant.capability ∷ []);
      deny = keep (λ entry. not (entry == grant.capability)) session.permissions.deny;
      require_approval =
          keep (λ entry. not (entry == grant.capability)) session.permissions.require_approval;
    };
    updated_at = w.now;
  }

  unfoldable pub grant_scope : String → Grant → M Session
  unfolding show save granted_scope
  grant_scope id grant = do
    session ← show id
    save (granted_scope session grant) "session.scope_granted"
        ("Granted " ⋯ grant.capability ⋯ " to the session.")

  narrowed_targets : List String → Option (List String) → List String
  narrowed_targets targets none = targets
  narrowed_targets targets (some given) = unique given

  unfoldable pub narrowed_scope : Session → Narrow → Session
  unfolding narrowed_targets
  narrowed_scope session narrow =
      let removed = or narrow.capabilities [] in
      let keeps = keep (λ (entry : String). not (includes removed entry)) in
      record session {
        scope = record session.scope {
          targets = narrowed_targets session.scope.targets narrow.targets;
        };
        permissions = record {
          allow = keeps session.permissions.allow;
          allow_within_approved_plan = keeps session.permissions.allow_within_approved_plan;
          require_approval = keeps session.permissions.require_approval;
          deny = unique (session.permissions.deny ++ removed);
        };
        limits = record session.limits {
          expires_at = or narrow.expires_at session.limits.expires_at;
          max_provider_spend =
              or (Option.map clamp narrow.max_provider_spend) session.limits.max_provider_spend;
        };
        updated_at = w.now;
      }

  or_none : String → String
  or_none joined = if joined == "" then "none" else joined

  part_capabilities : Option (List String) → List String
  part_capabilities none = []
  part_capabilities (some []) = []
  part_capabilities (some (c ∷ cs)) = ("revoked " ⋯ join ", " (c ∷ cs)) ∷ []

  part_targets : Option (List String) → List String
  part_targets none = []
  part_targets (some ts) = ("targets limited to " ⋯ or_none (join ", " ts)) ∷ []

  part_expiry : Option ℕ → List String
  part_expiry none = []
  part_expiry (some e) = "expiry shortened" ∷ []

  part_spend : Option ℤ → List String
  part_spend none = []
  part_spend (some m) = ("spend limit set to " ⋯ w.to_text m) ∷ []

  narrow_parts : Narrow → List String
  unfolding part_capabilities part_targets part_expiry part_spend or_none
  narrow_parts narrow =
      part_capabilities narrow.capabilities
      ++ (part_targets narrow.targets
          ++ (part_expiry narrow.expires_at ++ part_spend narrow.max_provider_spend))

  narrow_summary : Narrow → String
  unfolding narrow_parts
  narrow_summary narrow =
      let parts = narrow_parts narrow in
      if is_empty parts
      then "Narrowed the session."
      else "Narrowed the session: " ⋯ join "; " parts ⋯ "."

  unfoldable pub narrow_scope : String → Narrow → M Session
  unfolding show save narrowed_scope narrow_summary
  narrow_scope id narrow = do
    session ← show id
    save (narrowed_scope session narrow) "session.scope_narrowed" (narrow_summary narrow)
