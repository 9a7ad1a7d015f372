-- ===== src/Tests/Logging.antt =====
-- An audit log of two events, one that is altered, and one whose summary holds a secret.
use vops.Prelude.{
  List, keep, ◌<◌, String, ◌≡◌, ◌≢◌, refl, ap, true, false, none, some, [], ◌∷◌, ◌++◌, ◌==◌,
  if◌then◌else◌, length, arith, eq_iff, Bool-cases, inl, inr,
}
use vops.Agent.Audit.{
  Event, Payload, Row, Hasher, digest, append_event, make_stored, redact_stored, verify_event_chain,
  broken_at, links, last_hash, same_hash, payload_json, text_field, json_field, redact_detail,
}
use vops.Agent.Audit.Text.{stable_stringify, stringify, insert, entry}
use vops.Prelude.Texts.{join, pos}
use vops.Agent.Audit.Chain.{IsStable, IsClean, append_all, verify-append_all, IsIntact, last_stored}
use vops.Agent.Audit.Tamper.{HasNoCollision, appended, verify_detects, append_event_breaks}
use vops.Agent.Audit.Pages.{entries_from, newest_first, in_session}
use vops.Agent.Audit.Pages.Follow.{follow, follow_complete}
use vops.Tests.Data.{patterns, hasher}

abbrev started : Event
started = record {
  event_id = "e1";
  timestamp = 5;
  session_id = some "s1";
  actor = "codex";
  operation_id = none;
  event_type = "operation.created";
  capability = none;
  target = none;
  summary = "Started.";
  detail = none;
}

abbrev leaking : Event
leaking = record started { event_id = "e2"; summary = "Bearer abc" }

hasher-IsStable : IsStable hasher patterns
hasher-IsStable = record {
  again = λ s. ground (arith, eq_iff s "Bearer abc");
  mark = refl;
  hex = λ s. elim (Bool-cases (s == "token")) [ inl h ↦ rw h refl | inr h ↦ rw h refl ];
}

started-IsClean : IsClean patterns started
started-IsClean = record {
  event_id = refl;
  session_id = refl;
  actor = refl;
  operation_id = refl;
  event_type = refl;
  capability = refl;
  target = refl;
  summary = refl;
}

verify-append_all_example :
    verify_event_chain hasher patterns (append_all hasher patterns (started ∷ started ∷ []) [])
    ≡ record {
      valid = true;
      events = length (append_all hasher patterns (started ∷ started ∷ []) []);
      broken = none;
    }
verify-append_all_example =
    verify-append_all hasher patterns (started ∷ started ∷ []) hasher-IsStable
      (started-IsClean, (started-IsClean, tt))

-- A hash that tells the records below apart.
abbrev marking : Hasher
marking = record {
  writer = record {
    quote = λ s. if s == "Started." then "S" else if s == "Bearer abc" then "S" else "";
    show = λ n. "n";
    before = λ a b. true;
  };
  sha256 = λ s. if s == "{:,:,:,:,:,:S}" then "h1" else "h0";
  iso = λ n. "t";
}

marking-IsStable : IsStable marking patterns
marking-IsStable = record {
  again = λ s. ground (arith, eq_iff s "Bearer abc");
  mark = refl;
  hex = λ s. elim (Bool-cases (s == "{:,:,:,:,:,:S}")) [ inl h ↦ rw h refl | inr h ↦ rw h refl ];
}

abbrev first_row : Row
first_row = record {
  hash_column = "h1";
  stored = record {
    payload = record { event = started; previous_hash = none };
    redactions_applied = false;
    hash = "h1";
  };
}

abbrev forged_row : Row
forged_row = record {
  hash_column = "h1";
  stored = record {
    payload = record { event = record started { summary = "Stopped." }; previous_hash = none };
    redactions_applied = false;
    hash = "h1";
  };
}

hashes_differ : ◌≢◌ {A = String} "h0" "h1"
hashes_differ = ground (arith, eq_iff "h0" "h1")

forged-HasNoCollision : HasNoCollision marking forged_row.stored.payload first_row.stored.payload
unfolding digest payload_json text_field json_field stable_stringify stringify insert entry join
forged-HasNoCollision = λ e. absurd (hashes_differ e)

forged_summary : ◌≢◌ {A = String} "Stopped." "Started."
forged_summary = ground (arith, eq_iff "Stopped." "Started.")

first_row_whole : broken_at marking patterns none ([] ++ first_row ∷ []) ≡ none
unfolding broken_at links same_hash digest payload_json text_field json_field stable_stringify
    stringify insert entry join
first_row_whole = refl

verify_detects_example : (verify_event_chain marking patterns ([] ++ forged_row ∷ [])).valid ≡ false
verify_detects_example =
    verify_detects marking patterns [] [] first_row forged_row forged-HasNoCollision first_row_whole
      refl (λ e. forged_summary (ap (λ (q : Payload). q.event.summary) e))

leaking-HasNoCollision :
    HasNoCollision marking
      (redact_stored marking patterns (appended marking patterns leaking [])).payload
      (appended marking patterns leaking []).payload
unfolding digest payload_json text_field json_field stable_stringify stringify insert entry join
    redact_stored make_stored redact_detail last_hash
leaking-HasNoCollision = λ e. absurd (hashes_differ e)

empty-IsIntact : IsIntact marking patterns []
unfolding broken_at last_stored last_hash
empty-IsIntact = record { unbroken = refl; last_agrees = refl; last_clean = refl }

leak_scrubbed : patterns.scrub leaking.summary ≢ leaking.summary
leak_scrubbed = ground (arith, eq_iff "[REDACTED]" "Bearer abc")

append_event_breaks_example :
    (verify_event_chain marking patterns (append_event marking patterns leaking [])).valid ≡ false
append_event_breaks_example =
    append_event_breaks marking patterns leaking [] marking-IsStable leaking-HasNoCollision
      empty-IsIntact leak_scrubbed

abbrev two_rows : List Row
two_rows = first_row ∷ forged_row ∷ []

abbrev meanwhile : List (List Row)
meanwhile = (first_row ∷ []) ∷ [] ∷ [] ∷ []

three_pages : length (keep (in_session (some "s1")) (newest_first two_rows)) < length meanwhile
unfolding keep in_session newest_first entries_from
three_pages = omega arith

follow_complete_example :
    follow (some "s1") (some (pos 1)) none meanwhile two_rows
    ≡ keep (in_session (some "s1")) (newest_first two_rows)
follow_complete_example = follow_complete (some "s1") (some (pos 1)) meanwhile two_rows three_pages
