-- ===== src/Agent/Plans/Hash.antt =====
-- `hashPlan` of src/agent-control/plan-engine.ts: the SHA-256 of the plan's body as stable JSON.
use vops.Prelude.{String, Option, none, some, List, [], ◌∷◌}
use vops.Agent.Json.{Json, bool, str, arr, obj, Items, nil, cons, texts, Fields, field, end}
use vops.Agent.Model.{
  Environment, development, staging, production, Risk, read_only, low, medium, high, destructive,
  PlanStep, PlanBody,
}
use vops.Agent.Audit.{Hasher}
use vops.Agent.Audit.Text.{stable_stringify}

environment_name : Environment → String
environment_name development = "development"
environment_name staging = "staging"
environment_name production = "production"

risk_name : Risk → String
risk_name read_only = "read_only"
risk_name low = "low"
risk_name medium = "medium"
risk_name high = "high"
risk_name destructive = "destructive"

steps_json : List PlanStep → Items
unfolding risk_name
steps_json [] = nil
steps_json (s ∷ rest) =
    cons
      (obj (
        field "id" (str s.id) (
          field "capability" (str s.capability)
            (field "input" (obj s.input) (field "risk" (str (risk_name s.risk)) end)))))
      (steps_json rest)

target_field : Option String → Fields → Fields
target_field none rest = rest
target_field (some t) rest = field "target" (str t) rest

body_json : PlanBody → Json
unfolding steps_json target_field environment_name
body_json b = obj (
    field "sessionId" (str b.session_id) (
      field "objective" (str b.objective) (
        field "environment" (str (environment_name b.environment)) (
          target_field b.target (
            field "steps" (arr (steps_json b.steps)) (
              field "successCriteria" (arr (texts b.success_criteria)) (
                field "estimatedEffects" (arr (texts b.estimated_effects)) (
                  field "excludedEffects" (arr (texts b.excluded_effects)) (
                    field "rollback"
                      (obj (
                        field "available" (bool b.rollback.available)
                          (field "limitations" (arr (texts b.rollback.limitations)) end)))
                      end)))))))))

unfoldable pub hash_plan : Hasher → PlanBody → String
unfolding body_json
hash_plan h body = h.sha256 (stable_stringify h.writer (body_json body))
