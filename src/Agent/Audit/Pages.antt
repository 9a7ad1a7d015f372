-- ===== src/Agent/Audit/Pages.antt =====
-- `listEvents` and `listEventPage` of src/agent-control/agent-store.ts.
pub mod Falling
pub mod Follow
use vops.Prelude.{
  ℕ, zero, suc, ◌+◌, String, ◌==◌, Bool, true, false, Option, none, some, List, [], ◌∷◌, keep, take,
  length, ltb, max_of, min_of, map, if◌then◌else◌,
}
use vops.Prelude.Texts.{ℤ, pos, clamp}
use vops.Agent.Audit.{Row, StoredEvent}

-- A row with its `sequence`.
pub record Entry : Type 0 where
  pub sequence : ℕ
  pub row : Row

-- The rows after the first `n`, newest first, on top of what is given.
unfoldable pub entries_from : ℕ → List Row → List Entry → List Entry
entries_from n [] below = below
entries_from n (r ∷ rows) below =
    entries_from (suc n) rows (record { sequence = suc n; row = r } ∷ below)

-- ORDER BY sequence DESC
unfoldable pub newest_first : List Row → List Entry
newest_first rows = entries_from 0 rows []

-- An empty id is none. The column `session_id` is read from the record: the patterns replace
-- nothing in an id.
unfoldable pub in_session : Option String → Entry → Bool
in_session none e = true
in_session (some id) e =
    if id == ""
    then true
    else elim e.row.stored.payload.event.session_id [ none ↦ false | some other ↦ other == id ]

unfoldable pub is_before : Option ℕ → Entry → Bool
is_before none e = true
is_before (some n) e = ltb e.sequence n

unfoldable pub page_limit : Option ℤ → ℕ → ℕ → ℕ
page_limit none default most = max_of 1 (min_of default most)
page_limit (some n) default most = max_of 1 (min_of (clamp n) most)

unfoldable pub list_events : Option String → Option ℤ → List Row → List StoredEvent
list_events session_id limit rows =
    map (λ (e : Entry). e.row.stored)
      (take (page_limit limit 200 1000) (keep (in_session session_id) (newest_first rows)))

pub record Page : Type 0 where
  pub events : List Entry
  pub next_cursor : Option ℕ

unfoldable pub last_sequence : List Entry → Option ℕ
last_sequence [] = none
last_sequence (e ∷ []) = some e.sequence
last_sequence (e ∷ x ∷ rest) = last_sequence (x ∷ rest)

-- The page of the rows that the query returns, which asks for one more than the page holds.
unfoldable pub page_of : ℕ → List Entry → Page
page_of bounded found =
    let rows = take (suc bounded) found in
    let events = take bounded rows in
    record {
      events = events;
      next_cursor = if ltb bounded (length rows) then last_sequence events else none;
    }

unfoldable pub list_event_page : Option String → Option ℕ → Option ℤ → List Row → Page
list_event_page session_id before limit rows =
    page_of (page_limit limit 30 200)
      (keep (is_before before) (keep (in_session session_id) (newest_first rows)))
