-- ===== src/Agent/Sessions/Budget.antt =====
-- The provider budget of a session over any number of commitments.
use mathlib.Core.Path.{subst, subst₂}
use native.Mathlib.Nat.{add-zero, zero-add, add_assoc}
use vops.Prelude.{
  ℕ, ◌+◌, ◌≤◌, String, ◌≡◌, refl, true, false, Option, none, some, List, [], ◌∷◌, arith, ltb,
  if◌then◌else◌, sym, ap, ◌∙◌, not_ltb, eq_refl, Bool-cases, inl, inr, tests,
}
use vops.Prelude.Result.{Result, ok, err}
use vops.Prelude.Texts.{ℤ, clamp}
use vops.Agent.Model.{Session, Failure, control, scope_denied, is_denied}
use vops.Agent.Store.{
  World, Db, session_of, session_at, save_session, get_session, local_id, append_event,
}
use vops.Agent.Store.Tables.{get-upsert}
use vops.Agent.Store.Redact.{redact_session}
use vops.Agent.Sessions.{show, save, event, commit_provider_spend, spend_summary}

module _ (w : World) where
  show_found :
      (id : String) (db : Db) (s : Session) → session_at id db ≡ some s → show w id db ≡ (ok s, db)
  unfolding show get_session
  show_found id db s e = rw (e, show, get_session)

  save_session_at :
      (s : Session) (t : Option String) (db : Db)
      → session_at s.id (save_session w s t db).1 ≡ some (redact_session w.patterns s)
  unfolding save_session session_of
  save_session_at s t db = simp (get-upsert, eq_refl)

  save_ok :
      (s : Session) (t u : String) (db : Db)
      → ((save w s t u db).0 ≡ ok s)
        × (session_at s.id (save w s t u db).1 ≡ some (redact_session w.patterns s))
  unfolding save event local_id append_event save_session
  save_ok s t u db = (refl, save_session_at s none db)

  abbrev booked : Session → ℤ → Session
  booked s monthly = record s {
    provider_spend = s.provider_spend + clamp monthly;
    updated_at = w.now;
  }

  -- A commitment above the budget throws and changes nothing; any other is booked.
  commit_step :
      (id : String) (m : ℤ) (db : Db) (s : Session)
      → session_at id db ≡ some s
      → s.id ≡ id
      → commit_provider_spend w id m db ≡ (
          if ltb s.limits.max_provider_spend (s.provider_spend + clamp m)
          then (err (control scope_denied is_denied true), db)
          else save w
              (booked s m)
              "session.spend_committed"
              (spend_summary w m (s.provider_spend + clamp m) s)
              db)
  unfolding commit_provider_spend
  commit_step id m db s e same = rw (show_found id db s e, commit_provider_spend) (ground arith)

  accepted : Result Failure Session → ℤ → ℕ
  accepted (ok s) m = clamp m
  accepted (err e) m = 0

  -- A run of commitments on one session: what was accepted in all, and the state at the end.
  unfoldable pub commit_all : String → List ℤ → Db → ℕ × Db
  unfolding accepted
  commit_all id [] db = (0, db)
  commit_all id (m ∷ ms) db =
      let (r, db') = commit_provider_spend w id m db in
      let (total, db'') = commit_all id ms db' in (accepted r m + total, db'')

  -- The session is held under its own id, and its spend and its budget are the numbers given.
  pub record Holds (id : String) (db : Db) (spend budget : ℕ) : Type 0 where
    pub session : Session
    pub found : session_at id db ≡ some session
    pub own_id : session.id ≡ id
    pub spent : session.provider_spend ≡ spend
    pub limit : session.limits.max_provider_spend ≡ budget

  commit-accepted :
      (id : String) (m : ℤ) (db : Db) (s : Session)
      → w.patterns.scrub id ≡ id
      → session_at id db ≡ some s
      → s.id ≡ id
      → ltb s.limits.max_provider_spend (s.provider_spend + clamp m) ≡ false
      → (accepted (commit_provider_spend w id m db).0 m ≡ clamp m)
        × Holds id
            (commit_provider_spend w id m db).1
            (s.provider_spend + clamp m)
            s.limits.max_provider_spend
  unfolding accepted redact_session
  commit-accepted id m db s clean e same fits =
      let step = commit_step id m db s e same in
      let text = spend_summary w m (s.provider_spend + clamp m) s in
      let (done, held) = save_ok (booked s m) "session.spend_committed" text db in
      rw (step, fits)
        (
          rw done refl,
          record {
            session = redact_session w.patterns (booked s m);
            found =
                subst
                  (λ (i : String).
                    session_at i (save w (booked s m) "session.spend_committed" text db).1
                    ≡ some (redact_session w.patterns (booked s m)))
                  same held;
            own_id = ap w.patterns.scrub same ∙ clean;
            spent = refl;
            limit = refl;
          },
        )

  -- Whatever is committed, in whatever order, and however many commitments are refused: what has been
  -- accepted is what the session has on record, and with what it had spent before it stays within the
  -- budget, if the session is stored, within its budget at the start, under an id that the patterns
  -- leave alone.
  pub commit_all_in_budget :
      (id : String) (ms : List ℤ) (db : Db) (spend budget : ℕ)
      → w.patterns.scrub id ≡ id
      → Holds id db spend budget
      → spend ≤ budget
      → Holds id (commit_all id ms db).1 (spend + (commit_all id ms db).0) budget
        × (spend + (commit_all id ms db).0 ≤ budget)
  unfolding commit_all
  commit_all_in_budget id [] db spend budget clean v h =
      subst (λ n. Holds id db n budget × (n ≤ budget)) (sym (add-zero spend)) (v, h)
  commit_all_in_budget id (m ∷ ms) db spend budget clean v h =
      let s = v.session in
      let total = s.provider_spend + clamp m in
      elim (Bool-cases (ltb s.limits.max_provider_spend total)) [
        | inl over ↦
            let refused : commit_provider_spend w id m db
                ≡ (err (control scope_denied is_denied true), db) =
              commit_step id m db s v.found v.own_id ∙ rw over in
            rw refused (rw zero-add (commit_all_in_budget id ms db spend budget clean v h))
        | inr fits ↦
            let (taken, held) = commit-accepted id m db s clean v.found v.own_id fits in
            let fitting : spend + clamp m ≤ budget =
              omega (tests, not_ltb s.limits.max_provider_spend total fits, v.spent, v.limit) in
            rw taken (
              rw (← add_assoc) (
                commit_all_in_budget id ms (commit_provider_spend w id m db).1 (spend + clamp m)
                  budget clean
                  (subst₂ (Holds id (commit_provider_spend w id m db).1)
                    (ap (λ n. n + clamp m) v.spent) v.limit held)
                  fitting))
      ]
