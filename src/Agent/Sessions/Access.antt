-- ===== src/Agent/Sessions/Access.antt =====
-- Which tokens open a session, and what a session that has run out becomes.
use mathlib.Core.Path.{subst}
use vops.Prelude.{
  ◌<◌, String, ◌≡◌, ◌≢◌, ◌↔◌, true, Option, none, some, arith, leb, ◌==◌, eq_iff, Bool-cases, inl,
  inr, find, sym, ap, ◌∙◌,
}
use vops.Prelude.Result.{ok}
use vops.Agent.Model.{Session}
use vops.Agent.Policy.{is_active}
use vops.Agent.Store.{World, Db, get_session_by_token_hash, session_of, has_token}
use vops.Agent.Store.Tables.{records}
use vops.Agent.Sessions.{authenticate, or_invalid, refuse_expired, refuse_or_admit}

module _ (w : World) where
  -- A session that may act now.
  pub record IsLive (s : Session) : Type 0 where
    pub in_time : w.now < s.limits.expires_at
    pub active : is_active s.status ≡ true
    pub operations_left : s.operation_count < s.limits.max_operations

  refuse_expired-fails : (x s : Session) (db : Db) → (refuse_expired w x db).0 ≢ ok s
  unfolding refuse_expired
  refuse_expired-fails x s db = ground arith

  refuse_or_admit-ok :
      (x s : Session) (db : Db)
      → (refuse_or_admit w x db).0 ≡ ok s
      → (x ≡ s) × ((refuse_or_admit w x db).1 ≡ db) × IsLive s
  unfolding refuse_or_admit
  refuse_or_admit-ok x s db e = elim (Bool-cases (leb x.limits.expires_at w.now)) [
    | inl late ↦ absurd (refuse_expired-fails x s db (rw (late, refuse_or_admit) at e))
    | inr in_time ↦
        let same : x ≡ s = ground arith in
        (same, ground arith, subst (λ y. IsLive y) same (ground arith))
  ]

  refuse_or_admit-live : (s : Session) (db : Db) → IsLive s → refuse_or_admit w s db ≡ (ok s, db)
  unfolding refuse_or_admit
  refuse_or_admit-live s db v = ground arith

  or_invalid-ok :
      (o : Option Session) (db : Db) (s : Session)
      → (or_invalid w o db).0 ≡ ok s
      → (o ≡ some s) × ((or_invalid w o db).1 ≡ db) × IsLive s
  unfolding or_invalid
  or_invalid-ok none db s e = cc
  or_invalid-ok (some x) db s e =
      let (same, kept, live) = refuse_or_admit-ok x s db e in (ap some same, kept, live)

  -- The session that a token stands for.
  abbrev pub session_of_token : String → Db → Option Session
  session_of_token token db =
      session_of (find (has_token (w.hasher.sha256 token)) (records db.sessions))

  authenticate_lem :
      (token : String) (db : Db)
      → token ≢ ""
      → authenticate w (some token) db ≡ or_invalid w (session_of_token token db) db
  unfolding authenticate get_session_by_token_hash
  authenticate_lem token db full = elim (Bool-cases (token == "")) [
    | inl empty ↦ absurd (full ((eq_iff token "").0 empty))
    | inr h ↦ rw (h, authenticate, get_session_by_token_hash)
  ]

  empty_fails :
      (token : String) (db : Db) (s : Session)
      → token ≡ ""
      → (authenticate w (some token) db).0 ≢ ok s
  unfolding authenticate
  empty_fails token db s e = rw ((eq_iff token "").1 e, authenticate) (cc)

  -- A token opens a session exactly if it is not empty, its hash is that of a stored session, and
  -- that session has not run out, is active, and has operations left; the store is then unchanged.
  pub authenticate_iff :
      (token : String) (db : Db) (s : Session)
      → (authenticate w (some token) db ≡ (ok s, db))
        ↔ ((token ≢ "") × (session_of_token token db ≡ some s) × IsLive s)
  authenticate_iff token db s = (
    λ e.
        let full : token ≢ "" = λ empty. empty_fails token db s empty (ap (λ x. x.0) e) in
        let found : or_invalid w (session_of_token token db) db ≡ (ok s, db) =
          sym (authenticate_lem token db full) ∙ e in
        let (same, kept, live) =
          or_invalid-ok (session_of_token token db) db s (ap (λ x. x.0) found) in
        (full, same, live),
    λ v.
        authenticate_lem token db v.0
        ∙ ap (λ (o : Option Session). or_invalid w o db) v.1
        ∙ (unfold or_invalid in refuse_or_admit-live s db v.2),
  )
