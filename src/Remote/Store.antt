-- ===== src/Remote/Store.antt =====
-- src/remote/remote-store.ts: the tables, and the actions on them; the local secrets of
-- src/lib/config/local-config-store.ts are one table more. What the modules of src/remote use of the
-- outside world is a `RemoteWorld`.
pub mod Keeps
pub mod Quiet
use mathlib.Core.List.{reverse}
use vops.Prelude.{
  ℕ, suc, ◌+◌, String, ◌≡◌, Bool, true, false, not, ◌&&◌, ◌||◌, Option, none, some, List, [], ◌∷◌,
  ◌++◌, ◌==◌, any, keep, ltb, max_of, if◌then◌else◌,
}
use vops.Prelude.Result.{Result, ok, err}
use vops.Agent.Json.{Json}
use vops.Agent.Model.{Failure}
use vops.Agent.Audit.{Event}
use vops.Agent.Store
use vops.Agent.Store.{World, Db}
use vops.Agent.Store.Tables.{Table, get, upsert, records}
use vops.Agent.Broker.{Executor}
use vops.Remote.Model.{
  Device, PairingSession, Challenge, Intent, CommandRecord, Message, Fault, of_agent, other,
  CommandPayload,
}

pub record Counter : Type 0 where
  pub outbound : ℕ
  pub inbound : ℕ

pub record Replay : Type 0 where
  pub device_id : String
  pub sequence : ℕ
  pub expires_at : ℕ

pub record Sent : Type 0 where
  pub device_id : String
  pub sequence : ℕ
  pub message : Message

-- `agent` is the store of the agent control. `nonces` are the keys of remote_command_nonces, and
-- `sent` is what the relay has been given.
pub record State : Type 0 where
  pub agent : Db
  pub devices : Table Device
  pub pairings : Table PairingSession
  pub counters : Table Counter
  pub replay : Table Replay
  pub commands : Table CommandRecord
  pub nonces : List String
  pub intents : Table Intent
  pub secrets : Table String
  pub sent : List Sent

abbrev pub M : Type 0 → Type 0
M A = State → Result Fault A × State

abbrev pub bind_result : {A B : Type 0} → Result Fault A → (A → M B) → M B
bind_result (ok a) f s = f a s
bind_result (err e) f s = (err e, s)

infixl 5 ◌>>=◌ ◌>>◌
abbrev pub ◌>>=◌ : {A B : Type 0} → M A → (A → M B) → M B
◌>>=◌ m f s = let (r, s') = m s in bind_result r f s'

abbrev pub ◌>>◌ : {A B : Type 0} → M A → M B → M B
m >> k = m >>= λ _. k

abbrev pub pure : {A : Type 0} → A → M A
pure a s = (ok a, s)

abbrev pub throw : {A : Type 0} → Fault → M A
throw e s = (err e, s)

abbrev pub catch_result : {A : Type 0} → Result Fault A → (Fault → M A) → M A
catch_result (ok a) handler s = (ok a, s)
catch_result (err e) handler s = handler e s

abbrev pub catch : {A : Type 0} → M A → (Fault → M A) → M A
catch body handler s = let (r, s') = body s in catch_result r handler s'

abbrev pub of_result : {A : Type 0} → Result Failure A → Result Fault A
of_result (ok a) = ok a
of_result (err e) = err (of_agent e)

-- A call of the agent control.
abbrev pub agent : {A : Type 0} → Store.M A → M A
agent m s = let (r, db) = m s.agent in (of_result r, record s { agent = db })

-- What the catalogue says of a plan: where it can be ordered.
pub record Offer : Type 0 where
  pub id : String
  pub name : String
  pub everywhere : Bool
  pub locations : List (String × Bool)

-- `cleaned` is `trim` and the removal of control characters, `length_of` the length in UTF-16 units;
-- `availability` is asked over the network, and other requests may run meanwhile; `is_connected`
-- says whether the socket to the relay is open when it is given the message of a number;
-- `message_of` is the message of an exception, and `tells_secret` a pattern that messages are
-- matched with; `supports_plan` is a field of a capability.
pub record RemoteWorld : Type 0 where
  pub agent_world : World
  pub execute : Executor
  pub node_id : String
  pub enabled : Bool
  pub online : Bool
  pub random : String → ℕ → String
  pub cleaned : String → String
  pub lower : String → String
  pub length_of : String → ℕ
  pub is_command_id : String → Bool
  pub is_well_encoded : String → String → CommandPayload → Bool
  pub is_intent_id : String → Bool
  pub is_plan_hash : String → Bool
  pub verify_signature : CommandPayload → String → String → Bool
  pub verify_challenge : Challenge → String → String → Bool
  pub device_key_id : String → String → String
  pub register_pairing : String → ℕ → Option String
  pub availability : String → String → M (List Offer)
  pub is_connected : String → ℕ → Bool
  pub supports_plan : String → Bool
  pub message_of : Fault → String
  pub tells_secret : String → Bool
  pub workspace : String × String

unfoldable pub is_known {ℓ} : {A : Type ℓ} → Option A → Bool
is_known none = false
is_known (some a) = true

module _ (w : RemoteWorld) where
  abbrev pub now : ℕ
  now = w.agent_world.now

  -- randomBytes; the counter is the agent store's
  unfoldable pub random_id : String → M String
  random_id prefix s = (
    ok (w.random prefix s.agent.draws),
    record s { agent = record s.agent { draws = suc s.agent.draws } },
  )

  unfoldable pub append_event : String → String → Option String → String → Json → M (Unit {0})
  append_event actor event_type session_id summary detail = do
    id ← agent (Store.local_id w.agent_world "evt")
    agent (
        Store.append_event w.agent_world (record {
          event_id = id;
          timestamp = now;
          session_id = session_id;
          actor = actor;
          operation_id = none;
          event_type = event_type;
          capability = none;
          target = none;
          summary = summary;
          detail = some detail;
        }))

  -- route_id TEXT UNIQUE
  unfoldable pub route_taken : Device → List Device → Bool
  route_taken d rows =
      any (λ (row : Device). row.route_id == d.route_id && not (row.id == d.id)) rows

  unfoldable pub save_device : Device → M (Unit {0})
  unfolding route_taken
  save_device d s =
      if route_taken d (records s.devices)
      then (err (other "UNIQUE constraint failed: remote_devices.route_id"), s)
      else (ok tt, record s { devices = upsert d.id d s.devices })

  unfoldable pub get_device : String → M (Option Device)
  get_device id s = (ok (get id s.devices), s)

  unfoldable pub by_route : String → List Device → Option Device
  by_route route_id [] = none
  by_route route_id (d ∷ rest) =
      let found = by_route route_id rest in if d.route_id == route_id then some d else found

  unfoldable pub get_device_by_route : String → M (Option Device)
  unfolding by_route
  get_device_by_route route_id s = (ok (by_route route_id (records s.devices)), s)

  -- ORDER BY pairedAt DESC
  unfoldable pub list_devices : M (List Device)
  list_devices s = (ok (reverse (records s.devices)), s)

  unfoldable pub save_pairing : PairingSession → M (Unit {0})
  save_pairing p s = (ok tt, record s { pairings = upsert p.id p s.pairings })

  unfoldable pub get_pairing : String → M (Option PairingSession)
  get_pairing id s = (ok (get id s.pairings), s)

  unfoldable pub list_pairings : M (List PairingSession)
  list_pairings s = (ok (reverse (records s.pairings)), s)

  abbrev counter_of : Option Counter → Counter
  counter_of none = record { outbound = 0; inbound = 0 }
  counter_of (some c) = c

  unfoldable pub next_outbound_sequence : String → M ℕ
  next_outbound_sequence device_id s =
      let c = counter_of (get device_id s.counters) in
      let n : ℕ = suc c.outbound in
      (ok n, record s { counters = upsert device_id (record c { outbound = n }) s.counters })

  -- The batch is one transaction: where the message is known, nothing is written.
  unfoldable pub accept_inbound_message : String → String → ℕ → ℕ → M Bool
  unfolding is_known
  accept_inbound_message device_id message_id sequence expires_at s =
      let c = counter_of (get device_id s.counters) in
      let row : Replay = record {
        device_id = device_id;
        sequence = sequence;
        expires_at = expires_at;
      } in
      if is_known (get message_id s.replay) then (ok false, s) else (
        ok true,
        record s {
          replay = upsert message_id row s.replay;
          counters = upsert device_id (record c { inbound = max_of c.inbound sequence }) s.counters;
        },
      )

  unfoldable pub prune_replay : ℕ → M (Unit {0})
  prune_replay time s = (
    ok tt,
    record s { replay = keep (λ (r : String × Replay). not (ltb r.1.expires_at time)) s.replay },
  )

  -- The batch of the two rows, whose keys are the command and the nonce; where one is known, nothing is
  -- written.
  unfoldable pub remember_command : String → String → CommandRecord → M Bool
  unfolding is_known
  remember_command command_id nonce row s =
      if is_known (get command_id s.commands) || any (λ n. n == nonce) s.nonces
      then (ok false, s)
      else (
        ok true,
        record s { commands = upsert command_id row s.commands; nonces = s.nonces ++ nonce ∷ [] },
      )

  -- UPDATE … WHERE command_id = ?
  unfoldable pub save_command_result : String → CommandRecord → M (Unit {0})
  unfolding is_known
  save_command_result command_id row s =
      if is_known (get command_id s.commands)
      then (ok tt, record s { commands = upsert command_id row s.commands })
      else (ok tt, s)

  unfoldable pub get_command : String → M (Option CommandRecord)
  get_command id s = (ok (get id s.commands), s)

  unfoldable pub save_intent : Intent → M (Unit {0})
  save_intent i s = (ok tt, record s { intents = upsert i.id i s.intents })

  unfoldable pub get_intent : String → M (Option Intent)
  get_intent id s = (ok (get id s.intents), s)

  -- ORDER BY updated_at DESC; the rows of one instant in the order of insertion
  unfoldable pub list_intents : M (List Intent)
  list_intents s = (ok (records s.intents), s)

  unfoldable pub set_secret : String → String → M (Unit {0})
  set_secret key value s = (ok tt, record s { secrets = upsert key value s.secrets })

  unfoldable pub get_secret : String → M (Option String)
  get_secret key s = (ok (get key s.secrets), s)

  unfoldable pub remove_secret : String → M (Unit {0})
  remove_secret key s =
      (ok tt, record s { secrets = keep (λ (r : String × String). not (r.0 == key)) s.secrets })
