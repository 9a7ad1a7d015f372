-- ===== src/Agent/Audit/Tamper.antt =====
-- What the check of the audit log detects, and what it reports of an honest log.
use vops.Prelude.{
  String, ◌≡◌, ◌≢◌, sym, ap, ◌∙◌, true, false, Option, none, some, List, [], ◌∷◌, ◌++◌, arith,
  eq_iff,
}
use vops.Agent.Redaction.{Patterns}
use vops.Agent.Audit.{
  Event, Payload, StoredEvent, Row, Hasher, digest, redact_stored, last_hash, make_stored,
  append_event, links, broken_at, verify_event_chain,
}
use vops.Agent.Audit.Chain.{IsStable, IsIntact, last_stored, broken_at-append, digest-clean}

-- The hash tells two payloads apart.
abbrev pub HasNoCollision : Hasher → Payload → Payload → Type 0
HasNoCollision h a b = digest h a ≡ digest h b → a ≡ b

module _ (h : Hasher) (p : Patterns) where
  links_hash :
      (o : Option String) (s : StoredEvent) → links h p o s ≡ true → s.hash ≡ digest h s.payload
  unfolding links
  links_hash o s e = ground (arith, eq_iff s.hash (digest h s.payload))

  not_links :
      (o : Option String) (s : StoredEvent) → s.hash ≢ digest h s.payload → links h p o s ≡ false
  unfolding links
  not_links o s ne = ground (arith, eq_iff s.hash (digest h s.payload))

  valid_iff :
      (rows : List Row)
      → broken_at h p none rows ≢ none
      → (verify_event_chain h p rows).valid ≡ false
  unfolding verify_event_chain
  valid_iff rows ne = ground arith

  broken_row :
      (o : Option String) (before after : List Row) (r r' : Row)
      → HasNoCollision h r'.stored.payload r.stored.payload
      → broken_at h p o (before ++ r ∷ after) ≡ none
      → r'.stored.hash ≡ r.stored.hash
      → r'.stored.payload ≢ r.stored.payload
      → broken_at h p o (before ++ r' ∷ after) ≢ none
  unfolding broken_at
  broken_row o [] after r r' free whole same changed =
      let good : links h p o r.stored ≡ true = ground arith in
      let kept = links_hash o r.stored good in
      let bad = not_links o r'.stored (λ e. changed (free (sym e ∙ same ∙ kept))) in
      ground (arith, bad)
  broken_row o (x ∷ before) after r r' free whole same changed =
      ground (arith, broken_row (some x.stored.hash) before after r r' free)

  -- Whoever changes a record of a log that verifies, and keeps its hash, is found out: the log no
  -- longer verifies, if the hash tells the two payloads apart.
  pub verify_detects :
      (before after : List Row) (r r' : Row)
      → HasNoCollision h r'.stored.payload r.stored.payload
      → broken_at h p none (before ++ r ∷ after) ≡ none
      → r'.stored.hash ≡ r.stored.hash
      → r'.stored.payload ≢ r.stored.payload
      → (verify_event_chain h p (before ++ r' ∷ after)).valid ≡ false
  verify_detects before after r r' free whole same changed =
      valid_iff (before ++ r' ∷ after) (broken_row none before after r r' free whole same changed)

  redacted_hash :
      (e : Event) (o : Option String)
      → IsStable h p
      → (redact_stored h p (make_stored h p e o)).hash ≡ digest h (make_stored h p e o).payload
  unfolding redact_stored make_stored
  redacted_hash e o s = digest-clean h p (make_stored h p e o).payload s

  redacted_summary :
      (e : Event) (o : Option String)
      → (redact_stored h p (make_stored h p e o)).payload ≡ (make_stored h p e o).payload
      → p.scrub e.summary ≡ e.summary
  unfolding redact_stored make_stored
  redacted_summary e o same = ap (λ (q : Payload). q.event.summary) same

  -- The record that is made of an event at the end of a log, before it is redacted.
  abbrev pub appended : Event → List Row → StoredEvent
  appended e rows = make_stored h p e (last_hash h p none rows)

  -- An honest event breaks the log too, if its summary holds what the patterns replace: the hash is
  -- taken of the summary as it came, and the record keeps the summary as the patterns leave it. The hash must
  -- tell the two payloads apart.
  pub append_event_breaks :
      (e : Event) (rows : List Row)
      → IsStable h p
      → HasNoCollision h (redact_stored h p (appended e rows)).payload (appended e rows).payload
      → IsIntact h p rows
      → p.scrub e.summary ≢ e.summary
      → (verify_event_chain h p (append_event h p e rows)).valid ≡ false
  unfolding append_event
  append_event_breaks e rows s free v dirty =
      let o = last_hash h p none rows in
      let m = make_stored h p e o in
      let r : Row = record { hash_column = m.hash; stored = redact_stored h p m } in
      let bad =
        not_links (last_stored h p none rows) r.stored
          (λ q. dirty (redacted_summary e o (free (sym q ∙ redacted_hash e o s)))) in
      valid_iff (rows ++ r ∷ []) (rw (broken_at-append h p none rows r v.unbroken) (rw bad (cc)))
