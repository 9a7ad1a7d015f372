-- ===== src/Remote/Store/Quiet.antt =====
-- What the audit log and the messages to the devices leave as it was.
use vops.Prelude.{String, ℕ, ◌≡◌, refl, Option, List, Bool-cases, inl, inr}
use vops.Agent.Json.{Json}
use vops.Agent.Audit.{Row}
use vops.Agent.Store
use vops.Agent.Store.Tables.{Table}
use vops.Remote.Model.{Device, active, Message}
use vops.Remote.Messenger
use vops.Remote.Messenger.{is_active, transmit}
use vops.Remote.Store.{
  RemoteWorld, State, Counter, Sent, append_event, random_id, next_outbound_sequence,
}
use vops.Remote.Store.Keeps.{Keeps}

-- A view that does not show the audit log, the draws of identifiers, and the messages.
abbrev pub IsQuiet : {X : Type 0} → (State → X) → Type 0
IsQuiet f =
    (s : State) (l : List Row) (n : ℕ) (c : Table Counter) (t : List Sent)
    → f (record s { agent = record s.agent { events = l; draws = n }; counters = c; sent = t })
      ≡ f s

module _ {X : Type 0} (f : State → X) (quiet : IsQuiet f) (w : RemoteWorld) where
  pub log-Keeps :
      (actor type : String) (session : Option String) (summary : String) (detail : Json)
      → Keeps f (append_event w actor type session summary detail)
  unfolding append_event Store.local_id Store.append_event
  log-Keeps actor type session summary detail s =
      let t = (append_event w actor type session summary detail s).1 in
      quiet s t.agent.events t.agent.draws s.counters s.sent

  pub message-Keeps : (d : Device) (m : Message) → Keeps f (Messenger.send w d m)
  unfolding Messenger.send is_active transmit random_id next_outbound_sequence
  message-Keeps d m s = elim (Bool-cases (is_active d.status)) [
    | inr e ↦ rw e refl
    | inl e ↦
        let t = (Messenger.send w (record d { status = active }) m s).1 in
        rw e (quiet s s.agent.events t.agent.draws t.counters t.sent)
  ]
