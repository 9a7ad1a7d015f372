-- ===== src/Agent/Store.antt =====
-- src/agent-control/agent-store.ts: the tables, and the actions on them. SQLite is not modelled: a
-- table is the list of its rows in the order of insertion. `localId`, the clock, and JavaScript's
-- `trim`, `slice`, `toFixed` and `String` come from the `World`; the clock stands still during one call.
pub mod Tables
pub mod Redact
use mathlib.Core.List.{reverse}
use vops.Prelude.{
  ℕ, suc, ◌+◌, String, ◌≡◌, Bool, true, false, Option, none, some, List, [], ◌∷◌, ◌==◌, map, keep,
  find, if◌then◌else◌,
}
use vops.Prelude.Result.{Result, ok, err}
use vops.Prelude.Texts.{ℤ}
use vops.Agent.Json.{Json}
use vops.Agent.Redaction.{Patterns}
use vops.Agent.Model.{
  Session, Plan, Approval, ApprovalStatus, Failure, control, ErrorCode, ErrorStatus, Operation,
}
use vops.Agent.Registry.{Registry}
use vops.Agent.Audit
use vops.Agent.Audit.{Event, Row, Hasher}
use Tables.{Table, get, upsert, records}
use Redact.{redact_session, redact_plan, redact_approval, redact_operation}

pub record World : Type 0 where
  pub now : ℕ
  pub local_id : String → ℕ → String
  pub new_token : ℕ → String
  pub trim : String → String
  pub slice : String → ℕ → String
  pub to_fixed : ℤ → String
  pub to_text : ℤ → String
  pub show_number : ℕ → String
  pub hasher : Hasher
  pub patterns : Patterns
  pub registry : Registry

pub record EmergencyStop : Type 0 where
  pub is_on : Bool
  pub activated_at : Option ℕ
  pub activated_by : Option String
  pub stop_reason : Option String
  pub cleared_at : Option ℕ
  pub cleared_by : Option String

pub record SessionRow : Type 0 where
  pub token_hash : Option String
  pub session : Session

-- `draws` counts the random ids that have been made.
pub record Db : Type 0 where
  pub draws : ℕ
  pub sessions : Table SessionRow
  pub plans : Table Plan
  pub approvals : Table Approval
  pub operations : Table Operation
  pub events : List Row
  pub stop : Option EmergencyStop
  pub in_memory : EmergencyStop

-- An action may throw; what it has written by then stays written.
abbrev pub M : Type 0 → Type 0
M A = Db → Result Failure A × Db

abbrev bind_result : {A B : Type 0} → Result Failure A → (A → M B) → M B
bind_result (ok a) f db = f a db
bind_result (err e) f db = (err e, db)

infixl 5 ◌>>=◌ ◌>>◌
abbrev pub ◌>>=◌ : {A B : Type 0} → M A → (A → M B) → M B
◌>>=◌ m f db = let (r, db') = m db in bind_result r f db'

abbrev pub ◌>>◌ : {A B : Type 0} → M A → M B → M B
m >> k = m >>= λ _. k

abbrev pub pure : {A : Type 0} → A → M A
pure a db = (ok a, db)

abbrev pub throw : {A : Type 0} → ErrorCode → ErrorStatus → Bool → M A
throw code status recoverable db = (err (control code status recoverable), db)

abbrev pub lift : {A : Type 0} → Result Failure A → M A
lift r db = (r, db)

-- token_hash=COALESCE(excluded.token_hash, agent_sessions.token_hash)
unfoldable pub coalesce : Option String → Option SessionRow → Option String
coalesce (some t) old = some t
coalesce none none = none
coalesce none (some row) = row.token_hash

unfoldable pub session_of : Option SessionRow → Option Session
session_of none = none
session_of (some row) = some row.session

unfoldable pub has_token : String → SessionRow → Bool
has_token t row = elim row.token_hash [ none ↦ false | some u ↦ u == t ]

-- The session that the store holds under an id.
abbrev pub session_at : String → Db → Option Session
session_at id db = session_of (get id db.sessions)

module _ (w : World) where
  unfoldable pub local_id : String → M String
  local_id prefix db = (ok (w.local_id prefix db.draws), record db { draws = suc db.draws })

  unfoldable pub append_event : Event → M (Unit {0})
  append_event e db =
      (ok tt, record db { events = Audit.append_event w.hasher w.patterns e db.events })

  unfoldable pub save_session : Session → Option String → M (Unit {0})
  unfolding coalesce
  save_session s token_hash db =
      let row : SessionRow = record {
        token_hash = coalesce token_hash (get s.id db.sessions);
        session = redact_session w.patterns s;
      } in
      (ok tt, record db { sessions = upsert s.id row db.sessions })

  unfoldable pub get_session : String → M (Option Session)
  get_session id db = (ok (session_at id db), db)

  unfoldable pub get_session_by_token_hash : String → M (Option Session)
  unfolding session_of has_token
  get_session_by_token_hash t db = (ok (session_of (find (has_token t) (records db.sessions))), db)

  -- ORDER BY createdAt DESC
  unfoldable pub list_sessions : M (List Session)
  list_sessions db =
      (ok (reverse (map (λ (row : SessionRow). row.session) (records db.sessions))), db)

  unfoldable pub save_plan : Plan → M (Unit {0})
  save_plan p db = (ok tt, record db { plans = upsert p.id (redact_plan w.patterns p) db.plans })

  unfoldable pub get_plan : String → M (Option Plan)
  get_plan id db = (ok (get id db.plans), db)

  unfoldable pub save_approval : Approval → M (Unit {0})
  save_approval a db =
      (ok tt, record db { approvals = upsert a.id (redact_approval w.patterns a) db.approvals })

  unfoldable pub get_approval : String → M (Option Approval)
  get_approval id db = (ok (get id db.approvals), db)

  -- ORDER BY requested_at DESC; the rows of one second in the order of insertion, reversed
  unfoldable pub list_approvals : (Approval → Bool) → M (List Approval)
  list_approvals chosen db = (ok (keep chosen (reverse (records db.approvals))), db)

  unfoldable pub save_operation : Operation → M (Unit {0})
  save_operation o db =
      (ok tt, record db { operations = upsert o.id (redact_operation w.patterns o) db.operations })

  unfoldable pub get_operation : String → M (Option Operation)
  get_operation id db = (ok (get id db.operations), db)
