-- ===== src/Agent/Registry.antt =====
-- src/agent-control/capability-registry.ts. The document of capabilities is a parameter (it is a
-- JSON file), and so is the schema validator of the `ajv` package.
use vops.Prelude.{
  String, ◌≡◌, Bool, false, Option, none, some, List, [], ◌∷◌, ◌==◌, find, find-holds, keep,
  if◌then◌else◌, ◌||◌, arith, eq_iff,
}
use vops.Prelude.Result.{Result, ok, err}
use vops.Agent.Json.{Fields}
use vops.Agent.Model.{Capability, Failure, plain}

pub record SchemaError : Type 0 where
  pub path : String
  pub message : String

-- `check` runs the compiled schema of a capability on an input: the errors, and the input, into
-- which the validator has written the defaults of the schema (`useDefaults`).
pub record Registry : Type 0 where
  pub definitions : List Capability
  pub check : Capability → Fields → List SchemaError × Fields

module _ (r : Registry) where
  unfoldable pub lookup : String → Option Capability
  lookup id = find (λ (c : Capability). c.id == id) r.definitions

  -- list({ includeUnavailable })
  unfoldable pub list : Bool → List Capability
  list include_unavailable =
      keep (λ (c : Capability). include_unavailable || c.enabled) r.definitions

  unfoldable pub describe : String → Result Failure Capability
  unfolding lookup
  describe id = elim (lookup id) [ none ↦ err (plain "Unknown capability") | some c ↦ ok c ]

  unfoldable pub has : String → Bool
  unfolding lookup
  has id = elim (lookup id) [ none ↦ false | some c ↦ c.enabled ]

  or_unavailable : Option String → String
  or_unavailable none = "is unavailable."
  or_unavailable (some m) = m

  failing : String → Fields → List SchemaError × Fields
  failing message input = (record { path = "/"; message = message } ∷ [], input)

  -- The second component is the input as the validator leaves it.
  unfoldable pub validate : String → Fields → List SchemaError × Fields
  unfolding lookup failing or_unavailable
  validate id input = elim (lookup id) [
    | none ↦ failing "Unknown capability" input
    | some c ↦
        if c.enabled then r.check c input else failing (or_unavailable c.unavailable_reason) input
  ]

  -- A capability that is described is the one that was asked for.
  pub describe-id : (id : String) (c : Capability) → describe id ≡ ok c → c.id ≡ id
  unfolding describe lookup find
  describe-id id c h =
      ground (arith, find-holds (λ (x : Capability). x.id == id) r.definitions c, eq_iff c.id id)
