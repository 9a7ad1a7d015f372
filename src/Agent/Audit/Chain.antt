-- ===== src/Agent/Audit/Chain.antt =====
-- The hash chain of the audit log.
use mathlib.Core.Option
use vops.Prelude.{
  String, ◌≡◌, refl, sym, ap, ◌∙◌, Bool, true, false, Option, none, some, List, [], ◌∷◌, ◌++◌,
  arith, eq_refl, length, if◌then◌else◌,
}
use vops.Agent.Json.{Json}
use vops.Agent.Redaction.{Patterns, visit, redact_secrets}
use vops.Agent.Redaction.Laws.{redact_secrets_idem}
use vops.Agent.Audit.{
  Event, Payload, StoredEvent, Row, Hasher, digest, redact_stored, last_hash, make_stored,
  append_event, redact_detail, links, broken_at, verify_event_chain,
}

-- What the log relies on: the patterns are stable, and match no hash in hexadecimal.
pub record IsStable (h : Hasher) (p : Patterns) : Type 0 where
  pub again : (s : String) → p.scrub (p.scrub s) ≡ p.scrub s
  pub mark : p.scrub "[REDACTED]" ≡ "[REDACTED]"
  pub hex : (s : String) → p.scrub (h.sha256 s) ≡ h.sha256 s

-- No text of the event, the detail apart, holds anything that the patterns replace.
pub record IsClean (p : Patterns) (e : Event) : Type 0 where
  pub event_id : p.scrub e.event_id ≡ e.event_id
  pub session_id : Option.map p.scrub e.session_id ≡ e.session_id
  pub actor : p.scrub e.actor ≡ e.actor
  pub operation_id : Option.map p.scrub e.operation_id ≡ e.operation_id
  pub event_type : p.scrub e.event_type ≡ e.event_type
  pub capability : Option.map p.scrub e.capability ≡ e.capability
  pub target : Option.map p.scrub e.target ≡ e.target
  pub summary : p.scrub e.summary ≡ e.summary

module _ (h : Hasher) (p : Patterns) where
  unfoldable pub last_stored : Option String → List Row → Option String
  last_stored previous [] = previous
  last_stored previous (r ∷ rows) = last_stored (some r.stored.hash) rows

  last_stored-append :
      (o : Option String) (rows : List Row) (r : Row)
      → last_stored o (rows ++ r ∷ []) ≡ some r.stored.hash
  unfolding last_stored
  last_stored-append o [] r = refl
  last_stored-append o (x ∷ rows) r = last_stored-append (some x.stored.hash) rows r

  last_hash-append :
      (o : Option String) (rows : List Row) (r : Row)
      → last_hash h p o (rows ++ r ∷ []) ≡ some r.hash_column
  unfolding last_hash
  last_hash-append o [] r = refl
  last_hash-append o (x ∷ rows) r = last_hash-append (some x.hash_column) rows r

  -- An intact chain, with a row more: the row must link to the last hash.
  pub broken_at-append :
      (o : Option String) (rows : List Row) (r : Row)
      → broken_at h p o rows ≡ none
      → broken_at h p o (rows ++ r ∷ []) ≡ (
          if links h p (last_stored o rows) r.stored
          then none
          else some r.stored.payload.event.event_id)
  unfolding broken_at last_stored
  broken_at-append o [] r e = refl
  broken_at-append o (x ∷ rows) r e = ground (arith, broken_at-append (some x.stored.hash) rows r)

  make_stored-links : (e : Event) (o : Option String) → links h p o (make_stored h p e o) ≡ true
  unfolding links make_stored
  make_stored-links e none = rw (eq_refl (make_stored h p e none).hash)
  make_stored-links e (some s) =
      ground (arith, eq_refl s, eq_refl (digest h (make_stored h p e (some s)).payload))

  pub digest-clean : (q : Payload) → IsStable h p → p.scrub (digest h q) ≡ digest h q
  unfolding digest
  digest-clean q s = s.hex _

  redact_detail-clean :
      (o : Option Json)
      → IsStable h p
      → Option.map (λ (d : Json). (visit p d false).0) (redact_detail h p o).0
        ≡ (redact_detail h p o).0
  unfolding redact_detail redact_secrets
  redact_detail-clean none s = refl
  redact_detail-clean (some d) s =
      ap some (unfold redact_secrets in redact_secrets_idem p s.again s.mark d)

  redact_stored-clean :
      (e : Event) (o : Option String)
      → IsStable h p
      → IsClean p e
      → Option.map p.scrub o ≡ o
      → redact_stored h p (make_stored h p e o) ≡ make_stored h p e o
  unfolding redact_stored make_stored
  redact_stored-clean e o s c prev =
      let q : Payload = (make_stored h p e o).payload in
      λ i. record {
        payload = record {
          event = record {
            event_id = c.event_id i;
            timestamp = e.timestamp;
            session_id = c.session_id i;
            actor = c.actor i;
            operation_id = c.operation_id i;
            event_type = c.event_type i;
            capability = c.capability i;
            target = c.target i;
            summary = c.summary i;
            detail = redact_detail-clean e.detail s i;
          };
          previous_hash = prev i;
        };
        redactions_applied = (redact_detail h p e.detail).1;
        hash = digest-clean q s i;
      }

  -- An intact log whose last record carries the hash of its row.
  pub record IsIntact (rows : List Row) : Type 0 where
    pub unbroken : broken_at h p none rows ≡ none
    pub last_agrees : last_stored none rows ≡ last_hash h p none rows
    pub last_clean : Option.map p.scrub (last_hash h p none rows) ≡ last_hash h p none rows

  append_event-IsIntact :
      (e : Event) (rows : List Row)
      → IsStable h p
      → IsClean p e
      → IsIntact rows
      → IsIntact (append_event h p e rows)
  unfolding append_event
  append_event-IsIntact e rows s c v =
      let o = last_hash h p none rows in
      let m = make_stored h p e o in
      let r : Row = record { hash_column = m.hash; stored = redact_stored h p m } in
      let same = redact_stored-clean e o s c v.last_clean in
      record {
        unbroken =
            broken_at-append none rows r v.unbroken
            ∙ ap (λ (b : Bool). if b then none else some r.stored.payload.event.event_id)
                (ap (λ (x : Option String). links h p x r.stored) v.last_agrees
                  ∙ ap (links h p o) same
                  ∙ make_stored-links e o);
        last_agrees =
            last_stored-append none rows r
            ∙ ap (λ (x : StoredEvent). some x.hash) same
            ∙ sym (last_hash-append none rows r);
        last_clean =
            rw (last_hash-append none rows r)
              (ap some (unfold make_stored in digest-clean m.payload s));
      }

  -- `appendEvent` for each event in turn.
  unfoldable pub append_all : List Event → List Row → List Row
  append_all [] rows = rows
  append_all (e ∷ rest) rows = append_all rest (append_event h p e rows)

  abbrev pub AreClean : List Event → Type 0
  AreClean [] = Unit
  AreClean (e ∷ rest) = IsClean p e × AreClean rest

  append_all-IsIntact :
      (l : List Event) (rows : List Row)
      → IsStable h p
      → AreClean l
      → IsIntact rows
      → IsIntact (append_all l rows)
  unfolding append_all
  append_all-IsIntact [] rows s c v = v
  append_all-IsIntact (e ∷ rest) rows s c v =
      append_all-IsIntact rest (append_event h p e rows) s c.1
        (append_event-IsIntact e rows s c.0 v)

  nothing-IsIntact : IsIntact []
  unfolding broken_at last_stored last_hash
  nothing-IsIntact = record { unbroken = refl; last_agrees = refl; last_clean = refl }

  -- However many events are appended to an empty log, whatever their details hold, the chain
  -- verifies, if the patterns are stable and replace nothing in the other texts of the events.
  pub verify-append_all :
      (l : List Event)
      → IsStable h p
      → AreClean l
      → verify_event_chain h p (append_all l [])
        ≡ record { valid = true; events = length (append_all l []); broken = none }
  unfolding verify_event_chain
  verify-append_all l s c =
      rw ((append_all-IsIntact l [] s c nothing-IsIntact).unbroken, verify_event_chain)
