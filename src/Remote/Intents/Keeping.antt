-- ===== src/Remote/Intents/Keeping.antt =====
-- What src/remote/intent.service.ts leaves as it was, when a device asks for a change.
use vops.Prelude.{
  String, ◌≡◌, refl, ◌⊎◌, inl, inr, ℕ, Bool, not, ◌&&◌, ◌==◌, Option, none, some, List, [], ◌∷◌,
  keep, suc, if◌then◌else◌,
}
use vops.Prelude.Result.{Result, ok, err}
use vops.Prelude.Texts.{◌⋯◌}
use vops.Agent.Model.{Approval}
use vops.Agent.Store.Tables
use vops.Agent.Registry
use vops.Agent.Sessions
use vops.Agent.Broker
use vops.Agent.Approvals
use vops.Remote.Model.{Device, Intent, IntentStatus, paused, revoked, Proposal}
use vops.Remote.Store.{
  RemoteWorld, State, ◌>>=◌, ◌>>◌, pure, catch, agent, now, save_intent, get_intent, list_intents,
  set_secret, remove_secret,
}
use vops.Remote.Store.Keeps.{
  IsAside, Keeps, Keeps-bind, Keeps-then, Keeps-if, Keeps-catch, agent-Keeps, Keeps-agent,
  append_event-Keeps, save_intent-Keeps, set_secret-Keeps, remove_secret-Keeps,
}
use vops.Remote.Intents.{
  status_name, is_open, event, update, deactivate, secret_key, activate, session_input, plan_input,
  require_approval, new_intent, refuse, refuse_known, create, or_unavailable, change_to, transition,
  pause, revoke, disable_one, disable_all, disable_for_device,
}
use vops.Remote.Intents.Proposals.{validate_proposal, grant_denial}

Result-cases : {A B : Type 0} (r : Result A B) → ((b : B) × (r ≡ ok b)) ⊎ ((a : A) × (r ≡ err a))
Result-cases (ok b) = inl (b, refl)
Result-cases (err a) = inr (a, refl)

module _ {X : Type 0} (f : State → X) (aside : IsAside f) (w : RemoteWorld) where
  event-Keeps : (i : Intent) (type summary : String) → Keeps f (event w i type summary)
  unfolding event
  event-Keeps i type summary = append_event-Keeps f aside w _ type _ summary _

  update-Keeps : (i : Intent) → Keeps f (update w i)
  unfolding update save_intent
  update-Keeps i s =
      save_intent-Keeps f aside w (record i { version = suc i.version; updated_at = now w }) s

  deactivate-Keeps : (i : Intent) → Keeps f (deactivate w i)
  unfolding deactivate
  deactivate-Keeps i =
      Keeps-then f
        (catch (agent (Sessions.revoke w.agent_world i.agent_session_id) >> pure tt) (λ e. pure tt))
        (remove_secret w (secret_key w i.id))
        (Keeps-catch f (agent (Sessions.revoke w.agent_world i.agent_session_id) >> pure tt)
          (λ e. pure tt)
          (Keeps-then f (agent (Sessions.revoke w.agent_world i.agent_session_id)) (pure tt)
            (agent-Keeps f aside w (Sessions.revoke w.agent_world i.agent_session_id)) (λ s. refl))
          (λ e s. refl))
        (remove_secret-Keeps f aside w (secret_key w i.id))

  change_to-Keeps : (i : Intent) (t : IntentStatus) → Keeps f (change_to w i t)
  unfolding change_to
  change_to-Keeps i t =
      Keeps-if f (not (is_open i.status)) _ _
        (Keeps-if f (status_name i.status == status_name t) (pure i) _ (λ s. refl) (λ s. refl))
        (Keeps-bind f (update w (record i { status = t })) _
          (update-Keeps (record i { status = t }))
          (λ u.
            Keeps-then f
              (event w u ("remote.intent." ⋯ status_name t)
                ("Conditional intent " ⋯ status_name t ⋯ "."))
              (pure u) (event-Keeps u _ _) (λ s. refl)))

  or_unavailable-Keeps : (o : Option Intent) (id : String) → Keeps f (or_unavailable w o id)
  unfolding or_unavailable
  or_unavailable-Keeps none id = λ s. refl
  or_unavailable-Keeps (some i) id =
      Keeps-if f (i.device_id == id) (pure i) _ (λ s. refl) (λ s. refl)

  transition-Keeps :
      (id device_id : String) (t : IntentStatus) → Keeps f (transition w id device_id t)
  unfolding transition get_intent
  transition-Keeps id device_id t s =
      Keeps-bind f (or_unavailable w (Tables.get id s.intents) device_id) (λ i. change_to w i t)
        (or_unavailable-Keeps (Tables.get id s.intents) device_id) (λ i. change_to-Keeps i t) s

  pub pause-Keeps : (id device_id : String) → Keeps f (pause w id device_id)
  unfolding pause
  pause-Keeps id device_id = transition-Keeps id device_id paused

  pub revoke-Keeps : (id device_id : String) → Keeps f (revoke w id device_id)
  unfolding revoke
  revoke-Keeps id device_id =
      Keeps-bind f (transition w id device_id revoked) _ (transition-Keeps id device_id revoked)
        (λ i. Keeps-then f (deactivate w i) (pure i) (deactivate-Keeps i) (λ s. refl))

  disable_one-Keeps : (revoking : Bool) (i : Intent) → Keeps f (disable_one w revoking i)
  unfolding disable_one
  disable_one-Keeps revoking i =
      let t = if revoking then revoked else paused in
      Keeps-bind f (update w (record i { status = t })) _ (update-Keeps (record i { status = t }))
        (λ u.
          Keeps-then f (event w u ("remote.intent." ⋯ status_name t) _) _ (event-Keeps u _ _)
            (Keeps-if f revoking (deactivate w u) (pure tt) (deactivate-Keeps u) (λ s. refl)))

  disable_all-Keeps : (revoking : Bool) (l : List Intent) → Keeps f (disable_all w revoking l)
  unfolding disable_all
  disable_all-Keeps revoking [] = λ s. refl
  disable_all-Keeps revoking (i ∷ rest) =
      Keeps-then f (disable_one w revoking i) (disable_all w revoking rest)
        (disable_one-Keeps revoking i) (disable_all-Keeps revoking rest)

  pub disable_for_device-Keeps :
      (id : String) (revoking : Bool) → Keeps f (disable_for_device w id revoking)
  unfolding disable_for_device list_intents
  disable_for_device-Keeps id revoking s =
      disable_all-Keeps revoking
        (keep (λ (i : Intent). i.device_id == id && is_open i.status) (Tables.records s.intents)) s

  require_approval-Keeps : (o : Option Approval) → Keeps f (require_approval w o)
  unfolding require_approval
  require_approval-Keeps none = λ s. refl
  require_approval-Keeps (some a) = λ s. refl

  activated-Keeps :
      (i : Intent) (token : String)
      → Keeps f (do
        save_intent w i
        set_secret w (secret_key w i.id) token
        event w i "remote.intent.activated" "Activated a signed conditional intent."
        pure i)
  activated-Keeps i token = Keeps-then f (save_intent w i) _ (save_intent-Keeps f aside w i) (
      Keeps-then f (set_secret w (secret_key w i.id) token) _ (set_secret-Keeps f aside w _ token)
        (Keeps-then f (event w i "remote.intent.activated" _) _ (event-Keeps i _ _) (λ s. refl)))

  activate-Keeps :
      (d : Device) (p : Proposal) (expires max_spend : ℕ)
      → Keeps f (activate w d p expires max_spend)
  unfolding activate
  activate-Keeps d p expires max_spend =
      Keeps-agent f aside w (Sessions.create w.agent_world (session_input w d p max_spend)) _
        (λ created.
          Keeps-agent f aside w
            (Sessions.extend_for_conditional_intent w.agent_world created.0.id (some expires)) _
            (λ bound.
              Keeps-agent f aside w
                (Broker.create_plan w.agent_world w.execute (some created.1) (plan_input w p)) _
                (λ planned.
                  Keeps-bind f (require_approval w planned.1) _ (require_approval-Keeps planned.1)
                    (λ a.
                      Keeps-agent f aside w
                        (Approvals.approve w.agent_world a.id
                          ("Pre-authorized by signed admin intent " ⋯ p.id ⋯ ".")
                          ("remote_device:" ⋯ d.id))
                        _
                        (λ approved.
                          activated-Keeps (new_intent w d p expires max_spend created.0 planned.0 a)
                            created.1)))))

  refuse-Keeps : (o : Option String) → Keeps f (refuse w o)
  unfolding refuse
  refuse-Keeps none = λ s. refl
  refuse-Keeps (some m) = λ s. refl

  refuse_known-Keeps : (o : Option Intent) → Keeps f (refuse_known w o)
  unfolding refuse_known
  refuse_known-Keeps none = λ s. refl
  refuse_known-Keeps (some i) = λ s. refl

  pub get_intent-Keeps : (id : String) → Keeps f (get_intent w id)
  unfolding get_intent
  get_intent-Keeps id s = refl

  checked-Keeps :
      (d : Device) (p : Proposal) (expires max_spend : ℕ)
      → Keeps f (do
        known ← get_intent w p.id
        refuse_known w known
        capability ←
            agent (λ db. (Registry.describe w.agent_world.registry p.action.capability, db))
        refuse w (grant_denial w d capability p max_spend)
        activate w d p expires max_spend)
  checked-Keeps d p expires max_spend =
      Keeps-bind f (get_intent w p.id) _ (get_intent-Keeps p.id) (λ known.
        Keeps-then f (refuse_known w known) _ (refuse_known-Keeps known) (
          Keeps-agent f aside w
            (λ db. (Registry.describe w.agent_world.registry p.action.capability, db)) _
            (λ capability.
              Keeps-then f (refuse w (grant_denial w d capability p max_spend)) _ (refuse-Keeps _)
                (activate-Keeps d p expires max_spend))))

  pub create-Keeps : (d : Device) (p : Proposal) → Keeps f (create w d p)
  unfolding create
  create-Keeps d p s = elim (Result-cases (validate_proposal w p)) [
    | inl (l, e) ↦ rw (e, create) (checked-Keeps d p l.0 l.1 s)
    | inr (m, e) ↦ rw (e, create) refl
  ]
