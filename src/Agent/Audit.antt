-- ===== src/Agent/Audit.antt =====
-- The audit log of src/agent-control/agent-store.ts (`appendEvent`, `listEvents`, `listEventPage`,
-- `verifyEventChain`) and `stableStringify` of src/agent-api/plan-store.ts.
pub mod Text
pub mod Chain
pub mod Tamper
pub mod Pages
use mathlib.Core.List.{reverse}
use mathlib.Core.Option
use vops.Prelude.{
  ℕ, suc, ◌+◌, String, ◌≡◌, Bool, true, false, not, ◌&&◌, ◌||◌, Option, none, some, List, [], ◌∷◌,
  ◌++◌, ◌==◌, if◌then◌else◌, length, keep, map, ltb, leb, min, max_of, take,
}
use vops.Agent.Json.{Json, str, bool, num, obj, Fields, end, field}
use vops.Agent.Redaction.{Patterns, visit, redact_secrets}
use vops.Agent.Audit.Text.{Writer, stable_stringify}

-- An event as it is handed to `appendEvent`.
pub record Event : Type 0 where
  pub event_id : String
  pub timestamp : ℕ
  pub session_id : Option String
  pub actor : String
  pub operation_id : Option String
  pub event_type : String
  pub capability : Option String
  pub target : Option String
  pub summary : String
  pub detail : Option Json

-- What the hash covers.
pub record Payload : Type 0 where
  pub event : Event
  pub previous_hash : Option String

pub record StoredEvent : Type 0 where
  pub payload : Payload
  pub redactions_applied : Bool
  pub hash : String

-- A row of `agent_events`: the column `hash`, and the record. The rows stand in the order of
-- `sequence`, which counts from 1.
pub record Row : Type 0 where
  pub hash_column : String
  pub stored : StoredEvent

-- A field that is undefined is left out.
unfoldable pub text_field : String → Option String → Fields → Fields
text_field key none rest = rest
text_field key (some s) rest = field key (str s) rest

unfoldable pub json_field : String → Option Json → Fields → Fields
json_field key none rest = rest
json_field key (some v) rest = field key v rest

pub record Hasher : Type 0 where
  pub writer : Writer
  pub sha256 : String → String
  pub iso : ℕ → String

module _ (h : Hasher) where
  unfoldable pub payload_json : Payload → Json
  unfolding text_field json_field
  payload_json p =
      let e = p.event in
      obj (
        field "eventId" (str e.event_id) (
          field "timestamp" (str (h.iso e.timestamp)) (
            text_field "sessionId" e.session_id (
              field "actor" (str e.actor) (
                text_field "operationId" e.operation_id (
                  field "eventType" (str e.event_type) (
                    text_field "capability" e.capability (
                      text_field "target" e.target (
                        field "summary" (str e.summary) (
                          json_field "detail" e.detail
                            (text_field "previousHash" p.previous_hash end)))))))))))

  unfoldable pub digest : Payload → String
  unfolding payload_json
  digest p = h.sha256 (stable_stringify h.writer (payload_json p))

  module _ (p : Patterns) where
    -- `safeJson` of a stored event. No key of the record itself is sensitive.
    unfoldable pub redact_stored : StoredEvent → StoredEvent
    redact_stored s =
        let e = s.payload.event in
        record {
          payload = record {
            event = record e {
              event_id = p.scrub e.event_id;
              session_id = Option.map p.scrub e.session_id;
              actor = p.scrub e.actor;
              operation_id = Option.map p.scrub e.operation_id;
              event_type = p.scrub e.event_type;
              capability = Option.map p.scrub e.capability;
              target = Option.map p.scrub e.target;
              summary = p.scrub e.summary;
              detail = Option.map (λ d. (visit p d false).0) e.detail;
            };
            previous_hash = Option.map p.scrub s.payload.previous_hash;
          };
          redactions_applied = s.redactions_applied;
          hash = p.scrub s.hash;
        }

    -- SELECT hash FROM agent_events ORDER BY sequence DESC LIMIT 1
    unfoldable pub last_hash : Option String → List Row → Option String
    last_hash found [] = found
    last_hash found (r ∷ rows) = last_hash (some r.hash_column) rows

    unfoldable pub redact_detail : Option Json → Option Json × Bool
    redact_detail none = (none, false)
    redact_detail (some d) = let (value, applied) = redact_secrets p d in (some value, applied)

    unfoldable pub make_stored : Event → Option String → StoredEvent
    unfolding redact_detail
    make_stored event previous =
        let (value, applied) = redact_detail event.detail in
        let payload : Payload = record {
          event = record event { detail = value };
          previous_hash = previous;
        } in
        record { payload = payload; redactions_applied = applied; hash = digest payload }

    unfoldable pub append_event : Event → List Row → List Row
    append_event event rows =
        let stored = make_stored event (last_hash none rows) in
        rows ++ record { hash_column = stored.hash; stored = redact_stored stored } ∷ []

    unfoldable pub same_hash : Option String → Option String → Bool
    same_hash none none = true
    same_hash (some a) (some b) = a == b
    same_hash _ _ = false

    unfoldable pub links : Option String → StoredEvent → Bool
    unfolding same_hash
    links previous e = same_hash e.payload.previous_hash previous && e.hash == digest e.payload

    -- The event at which the chain is broken, if it is.
    unfoldable pub broken_at : Option String → List Row → Option String
    broken_at previous [] = none
    broken_at previous (r ∷ rows) =
        let rest = broken_at (some r.stored.hash) rows in
        if links previous r.stored then rest else some r.stored.payload.event.event_id

    -- verifyEventChain()
    pub record Verdict : Type 0 where
      pub valid : Bool
      pub events : ℕ
      pub broken : Option String

    unfoldable pub verify_event_chain : List Row → Verdict
    verify_event_chain rows = elim (broken_at none rows) [
      | none ↦ record { valid = true; events = length rows; broken = none }
      | some id ↦ record { valid = false; events = length rows; broken = some id }
    ]
