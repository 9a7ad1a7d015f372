-- ===== src/Agent/Safety.antt =====
-- src/agent-control/agent-safety-state.ts: the emergency stop. `in_memory` is the value that this process
-- holds, which the policy reads, and `stop` the stored setting, which a process reads as it starts.
pub mod Stopping
use vops.Prelude.{ℕ, String, Bool, true, false, Option, none, some, ◌≡◌, if◌then◌else◌}
use vops.Prelude.Result.{ok}
use vops.Prelude.Texts.{◌⋯◌}
use vops.Agent.Json.{Json, bool, str, obj, Fields, field, end}
use mathlib.Core.Option
use vops.Agent.Store.{World, Db, EmergencyStop, M, ◌>>=◌, ◌>>◌, pure, local_id, append_event}

abbrev pub clear_state : EmergencyStop
clear_state = record {
  is_on = false;
  activated_at = none;
  activated_by = none;
  stop_reason = none;
  cleared_at = none;
  cleared_by = none;
}

or_clear : Option EmergencyStop → EmergencyStop
or_clear none = clear_state
or_clear (some e) = e

unfoldable pub current : Db → EmergencyStop
current db = db.in_memory

-- A process starts on the store: what it holds is what is stored then.
unfoldable pub on_module_init : Db → Db
unfolding or_clear
on_module_init db = record db { in_memory = or_clear db.stop }

text_field : String → Option String → Fields → Fields
text_field key none rest = rest
text_field key (some s) rest = field key (str s) rest

module _ (w : World) where
  stop_json : EmergencyStop → Json
  unfolding text_field
  stop_json e =
      let time : Option ℕ → Option String = Option.map w.hasher.iso in
      obj (
        field "active" (bool e.is_on) (
          text_field "activatedAt" (time e.activated_at) (
            text_field "activatedBy" e.activated_by (
              text_field "reason" e.stop_reason (
                text_field "clearedAt" (time e.cleared_at)
                  (text_field "clearedBy" e.cleared_by end))))))

  event : String → String → String → M (Unit {0})
  unfolding stop_json
  event event_type actor summary = do
    id ← local_id w "evt"
    stop ← (λ db. (ok (current db), db))
    append_event w (record {
      event_id = id;
      timestamp = w.now;
      session_id = none;
      actor = actor;
      operation_id = none;
      event_type = event_type;
      capability = none;
      target = none;
      summary = summary;
      detail = some (stop_json stop);
    })

  -- this.value is set, and then stored.
  set_stop : EmergencyStop → M (Unit {0})
  set_stop e db = (ok tt, record db { stop = some e; in_memory = e })

  get_stop : M EmergencyStop
  get_stop db = (ok (current db), db)

  switch_on : EmergencyStop → String → String → M EmergencyStop
  unfolding event set_stop get_stop
  switch_on old actor reason = if old.is_on then pure old else do
    set_stop (record {
      is_on = true;
      activated_at = some w.now;
      activated_by = some actor;
      stop_reason = some (w.slice reason 500);
      cleared_at = none;
      cleared_by = none;
    })
    event "agent.emergency_stop.activated" actor "Agent emergency stop activated."
    get_stop

  unfoldable pub activate : String → String → M EmergencyStop
  unfolding switch_on get_stop current
  activate actor reason = do old ← get_stop; switch_on old actor reason

  unfoldable pub clear : String → String → M EmergencyStop
  unfolding event set_stop get_stop current
  clear actor reason = do
    old ← get_stop
    set_stop (record old { is_on = false; cleared_at = some w.now; cleared_by = some actor })
    event "agent.emergency_stop.cleared" actor
        ("Agent emergency stop cleared: " ⋯ w.slice reason 240)
    get_stop
