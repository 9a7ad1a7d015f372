-- ===== src/Agent/Verification.antt =====
-- src/agent-control/verification.ts: what an operation's health checks say of its outcome.
pub mod Passed
use vops.Prelude.{
  String, ◌≡◌, ◌≢◌, ◌↔◌, Bool, true, false, not, ◌&&◌, ◌||◌, Option, none, some, List, [], ◌∷◌,
  ◌==◌, any, every, keep, map, includes, is_empty, arith, if◌then◌else◌,
}
use vops.Agent.Json.{Json, null, bool, num, str, arr, obj, Items, nil, cons, Fields, get}
use vops.Agent.Model.{
  VerificationStatus, passed, degraded, broken, not_verified, Check, Verification,
}

pub record StepResult : Type 0 where
  pub step : String
  pub capability : String
  pub output : Json

-- record(value)?.[key]: nothing unless the value is an object
abbrev member : Json → String → Option Json
member (obj fs) key = get fs key
member _ key = none

text_or : Option Json → String → String
text_or (some (str s)) d = s
text_or _ d = d

report_status : Json → String
unfolding text_or
report_status output = text_or (member output "status") "unknown"

-- record(check)?.status === 'fail'
is_fail : Option Json → Bool
is_fail (some (str s)) = s == "fail"
is_fail _ = false

failed_names : Items → List String
unfolding is_fail text_or
failed_names nil = []
failed_names (cons c rest) =
    let others = failed_names rest in
    if is_fail (member c "status") then text_or (member c "name") "check" ∷ others else others

items_of : Option Json → Items
items_of (some (arr xs)) = xs
items_of _ = nil

failed_check_names : Json → List String
unfolding failed_names items_of
failed_check_names output = failed_names (items_of (member output "checks"))

-- VERIFYING_CAPABILITIES
is_verifying : StepResult → Bool
is_verifying r = r.capability == "healthcheck.run"

-- The names that every object inherits from `Object.prototype`.
abbrev pub inherited_names : List String
inherited_names =
    "constructor" ∷ "__defineGetter__" ∷ "__defineSetter__" ∷ "hasOwnProperty" ∷ "__lookupGetter__"
    ∷ "__lookupSetter__" ∷ "isPrototypeOf" ∷ "propertyIsEnumerable" ∷ "toString" ∷ "valueOf"
    ∷ "__proto__" ∷ "toLocaleString" ∷ []

-- VERDICT[status] ?? 'not_verified'. Under an inherited name there is a function or an object, which
-- is no status at all: nothing.
unfoldable pub verdict : String → Option VerificationStatus
verdict status =
    if status == "healthy"
    then some passed
    else if status == "degraded"
    then some degraded
    else if status == "unknown"
    then some not_verified
    else if includes inherited_names status
    then none
    else some not_verified

check_of : StepResult → Check
unfolding report_status failed_check_names
check_of r = record {
  capability = r.capability;
  step = r.step;
  status = report_status r.output;
  failing = failed_check_names r.output;
}

unfoldable pub checks_of : List StepResult → List Check
unfolding is_verifying check_of
checks_of results = map check_of (keep is_verifying results)

is_degraded : Option VerificationStatus → Bool
is_degraded (some degraded) = true
is_degraded _ = false

is_not_verified : Option VerificationStatus → Bool
is_not_verified (some not_verified) = true
is_not_verified _ = false

unfoldable pub has_failing : Check → Bool
has_failing c = not (is_empty c.failing)

unfoldable pub overall : List Check → VerificationStatus
unfolding has_failing is_degraded is_not_verified verdict
overall checks =
    if is_empty checks
    then not_verified
    else if any has_failing checks
    then degraded
    else if any (λ c. is_degraded (verdict c.status)) checks
    then degraded
    else if any (λ c. is_not_verified (verdict c.status)) checks
    then not_verified
    else passed

unfoldable pub summarise_verification : List StepResult → Verification
unfolding checks_of overall
summarise_verification results =
    let checks = checks_of results in record { status = overall checks; checks = checks }
