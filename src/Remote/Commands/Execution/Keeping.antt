-- ===== src/Remote/Commands/Execution/Keeping.antt =====
-- What an accepted command of src/remote/remote-command.handler.ts leaves as it was.
use vops.Prelude.{String, refl, Option, none, some, map, ◌==◌}
use vops.Prelude.Texts.{◌⋯◌}
use vops.Prelude.Result.{ok}
use vops.Agent.Model.{Session, Approval, rollback_requested}
use vops.Agent.Store
use vops.Agent.Safety
use vops.Agent.Approvals
use vops.Agent.Approvals.{highest_risk}
use vops.Agent.Plans
use vops.Agent.Operations
use vops.Agent.Operations.{no_patch}
use vops.Agent.Sessions
use vops.Remote.Model.{
  Device, Intent, CommandCode, CommandPayload, Proposal, Outcome, an_approval, an_operation,
  a_session, all_stopped, an_intent, CommandType, approval_decision, cancel_request,
  rollback_request, agent_pause, agent_resume, agent_revoke, stop_all, intent_create, intent_pause,
  intent_revoke, SubjectKind,
}
use vops.Remote.Store.{RemoteWorld, State, M, ◌>>◌, pure, throw, agent, get_intent}
use vops.Remote.Store.Keeps.{IsAside, Keeps, Keeps-bind, Keeps-then, Keeps-if, Keeps-agent}
use vops.Remote.Intents
use vops.Remote.Intents.Keeping.{pause-Keeps, revoke-Keeps, create-Keeps, get_intent-Keeps}
use vops.Remote.Commands.Checks.{
  require_subject, require_version, require_device_scope, require_project_scope,
}
use vops.Remote.Commands.Execution.{
  refuse, outcome, actor, command_reason, text_of, or_default, require_plan_scope, or_not_found,
  or_no_hash, approval_denial, plan_denial, kind_denial, decide, decide_approval, cancel_operation,
  rollback_denial, roll_back_operation, with_session, stop_everything, or_mismatched, create_intent,
  or_unavailable, with_intent, execute_type, execute,
}

module _ {X : Type 0} (f : State → X) (aside : IsAside f) (w : RemoteWorld) where
  Keeps-refuse :
      {A : Type 0} (c : Option CommandCode) (k : M A) → Keeps f k → Keeps f (refuse c >> k)
  unfolding refuse
  Keeps-refuse none k h = h
  Keeps-refuse (some c) k h = λ s. refl

  refuse-Keeps : (c : Option CommandCode) → Keeps f (refuse c)
  unfolding refuse
  refuse-Keeps none = λ s. refl
  refuse-Keeps (some c) = λ s. refl

  Keeps-outcome : {A : Type 0} (g : A → Outcome) (m : M A) → Keeps f m → Keeps f (outcome g m)
  Keeps-outcome g m h = Keeps-bind f m _ h (λ a s. refl)

  Keeps-agent_outcome :
      {A : Type 0} (g : A → Outcome) (m : Store.M A) → Keeps f (outcome g (agent m))
  Keeps-agent_outcome g m = Keeps-agent f aside w m _ (λ a s. refl)

  require_plan_scope-Keeps : (d : Device) (id : String) → Keeps f (require_plan_scope w d id)
  unfolding require_plan_scope
  require_plan_scope-Keeps d id = Keeps-agent f aside w (Plans.get w.agent_world id) _ (λ plan.
      refuse-Keeps (require_device_scope d plan.target plan.environment (highest_risk plan.steps)))

  or_not_found-Keeps : (o : Option Approval) → Keeps f (or_not_found w o)
  unfolding or_not_found
  or_not_found-Keeps none = λ s. refl
  or_not_found-Keeps (some a) = λ s. refl

  or_no_hash-Keeps : (o : Option String) → Keeps f (or_no_hash w o)
  unfolding or_no_hash
  or_no_hash-Keeps none = λ s. refl
  or_no_hash-Keeps (some h) = Keeps-if f (h == "") (throw _) (pure h) (λ s. refl) (λ s. refl)

  decide-Keeps : (d : Device) (p : CommandPayload) (a : Approval) → Keeps f (decide w d p a)
  unfolding decide
  decide-Keeps d p a =
      Keeps-if f (text_of p.parameters.decision == "approve") _ _
        (Keeps-agent_outcome an_approval (
          Approvals.approve w.agent_world a.id
            (or_default (command_reason w p) ("Approved by remote device " ⋯ d.label ⋯ "."))
            (actor d)))
        (Keeps-if f (text_of p.parameters.decision == "deny") _ _
          (Keeps-agent_outcome an_approval (
            Approvals.deny w.agent_world a.id
              (or_default (command_reason w p) ("Denied by remote device " ⋯ d.label ⋯ "."))
              (actor d)))
          (λ s. refl))

  decide_approval-Keeps : (d : Device) (p : CommandPayload) → Keeps f (decide_approval w d p)
  unfolding decide_approval
  decide_approval-Keeps d p = Keeps-refuse (require_subject p SubjectKind.approval) _ (
      Keeps-agent f aside w (Store.get_approval w.agent_world p.subject_id) _ (λ found.
        Keeps-bind f (or_not_found w found) _ (or_not_found-Keeps found) (λ a.
          Keeps-refuse (require_version p a.requested_at) _ (
            Keeps-refuse (approval_denial w p a) _ (
              Keeps-bind f (or_no_hash w a.plan_id) _ (or_no_hash-Keeps a.plan_id) (λ plan_id.
                Keeps-bind f (or_no_hash w p.plan_hash) _ (or_no_hash-Keeps p.plan_hash) (λ hash.
                  Keeps-agent f aside w (Plans.get w.agent_world plan_id) _ (λ plan.
                    Keeps-refuse (plan_denial w plan hash) _ (
                      Keeps-refuse (require_device_scope d plan.target plan.environment a.risk) _
                        (Keeps-refuse (kind_denial w d) _ (decide-Keeps d p a)))))))))))

  cancel_operation-Keeps : (d : Device) (p : CommandPayload) → Keeps f (cancel_operation w d p)
  unfolding cancel_operation
  cancel_operation-Keeps d p = Keeps-refuse (require_subject p SubjectKind.operation) _ (
      Keeps-agent f aside w (Operations.get w.agent_world p.subject_id) _ (λ o.
        Keeps-refuse (require_version p o.updated_at) _ (
          Keeps-then f (require_plan_scope w d o.plan_id) _ (require_plan_scope-Keeps d o.plan_id)
            (Keeps-agent_outcome an_operation (Operations.request_cancel w.agent_world o.id)))))

  roll_back_operation-Keeps :
      (d : Device) (p : CommandPayload) → Keeps f (roll_back_operation w d p)
  unfolding roll_back_operation
  roll_back_operation-Keeps d p = Keeps-refuse (require_subject p SubjectKind.operation) _ (
      Keeps-agent f aside w (Operations.get w.agent_world p.subject_id) _ (λ o.
        Keeps-refuse (require_version p o.updated_at) _ (
          Keeps-then f (require_plan_scope w d o.plan_id) _ (require_plan_scope-Keeps d o.plan_id) (
            Keeps-refuse (rollback_denial w o) _ (
              Keeps-agent_outcome an_operation
                (Operations.transition w.agent_world o.id rollback_requested no_patch))))))

  with_session-Keeps :
      (change : String → Store.M Session) (d : Device) (p : CommandPayload)
      → Keeps f (with_session w change d p)
  unfolding with_session
  with_session-Keeps change d p = Keeps-refuse (require_subject p SubjectKind.agent_session) _ (
      Keeps-agent f aside w (Sessions.show w.agent_world p.subject_id) _ (λ session.
        Keeps-refuse (require_version p session.updated_at) _ (
          Keeps-refuse (require_project_scope d session.repository_name) _
            (Keeps-agent_outcome a_session (change session.id)))))

  stop_everything-Keeps : (d : Device) (p : CommandPayload) → Keeps f (stop_everything w d p)
  unfolding stop_everything
  stop_everything-Keeps d p = Keeps-refuse (require_subject p SubjectKind.control_node) _ (
      Keeps-agent f aside w (Safety.activate w.agent_world (actor d) (command_reason w p)) _ (λ on.
        Keeps-agent f aside w (Sessions.stop_all w.agent_world) _ (λ sessions.
          Keeps-agent f aside w (λ db. (ok (Safety.current db), db))
            (λ stop. pure (all_stopped stop (map (λ (s : Session). s.id) sessions)))
            (λ stop s. refl))))

  or_mismatched-Keeps : (o : Option Proposal) (id : String) → Keeps f (or_mismatched w o id)
  unfolding or_mismatched
  or_mismatched-Keeps none id = λ s. refl
  or_mismatched-Keeps (some p) id =
      Keeps-if f (p.id == id) (pure p) (throw _) (λ s. refl) (λ s. refl)

  create_intent-Keeps : (d : Device) (p : CommandPayload) → Keeps f (create_intent w d p)
  unfolding create_intent
  create_intent-Keeps d p = Keeps-refuse (require_subject p SubjectKind.intent) _ (
      Keeps-refuse (require_version p 0) _ (
        Keeps-bind f (or_mismatched w p.parameters.proposal p.subject_id) _
          (or_mismatched-Keeps p.parameters.proposal p.subject_id)
          (λ proposal.
            Keeps-outcome an_intent (Intents.create w d proposal)
              (create-Keeps f aside w d proposal))))

  or_unavailable-Keeps : (o : Option Intent) (id : String) → Keeps f (or_unavailable w o id)
  unfolding or_unavailable
  or_unavailable-Keeps none id = λ s. refl
  or_unavailable-Keeps (some i) id =
      Keeps-if f (i.device_id == id) (pure i) (throw _) (λ s. refl) (λ s. refl)

  with_intent-Keeps :
      (change : String → String → M Intent)
      → ((id device_id : String) → Keeps f (change id device_id))
      → (d : Device) (p : CommandPayload) → Keeps f (with_intent w change d p)
  unfolding with_intent
  with_intent-Keeps change h d p = Keeps-refuse (require_subject p SubjectKind.intent) _ (
      Keeps-bind f (get_intent w p.subject_id) _ (get_intent-Keeps f aside w p.subject_id) (λ found.
        Keeps-bind f (or_unavailable w found d.id) _ (or_unavailable-Keeps found d.id) (λ i.
          Keeps-refuse (require_version p i.version) _
            (Keeps-outcome an_intent (change i.id d.id) (h i.id d.id)))))

  by_type :
      (t : Option CommandType) (d : Device) (p : CommandPayload) → Keeps f (execute_type w t d p)
  unfolding execute_type
  by_type (some approval_decision) d p = decide_approval-Keeps d p
  by_type (some cancel_request) d p = cancel_operation-Keeps d p
  by_type (some rollback_request) d p = roll_back_operation-Keeps d p
  by_type (some agent_pause) d p = with_session-Keeps (Sessions.pause w.agent_world) d p
  by_type (some agent_resume) d p = with_session-Keeps (Sessions.resume w.agent_world) d p
  by_type (some agent_revoke) d p = with_session-Keeps (Sessions.revoke w.agent_world) d p
  by_type (some stop_all) d p = stop_everything-Keeps d p
  by_type (some intent_create) d p = create_intent-Keeps d p
  by_type (some intent_pause) d p = with_intent-Keeps (Intents.pause w) (pause-Keeps f aside w) d p
  by_type (some intent_revoke) d p =
      with_intent-Keeps (Intents.revoke w) (revoke-Keeps f aside w) d p
  by_type _ d p = λ s. refl

  pub execute-Keeps : (d : Device) (p : CommandPayload) → Keeps f (execute w d p)
  unfolding execute
  execute-Keeps d p = by_type p.type_of d p
