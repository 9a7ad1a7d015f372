-- ===== src/Agent/Approvals/Decisions.antt =====
-- What a decision on an approval does.
use vops.Prelude.{
  ◌≤◌, String, ◌≡◌, ◌≢◌, ◌⊎◌, inl, inr, refl, false, ◌&&◌, Option, none, some, arith, leb,
  Bool-cases, le→leb,
}
use vops.Prelude.Result.{ok}
use vops.Agent.Model.{ApprovalStatus, pending, granted, lapsed, Approval}
use vops.Agent.Store.{World, Db, local_id, append_event, save_approval, get_approval}
use vops.Agent.Store.Tables
use vops.Agent.Store.Tables.{Table, get-upsert}
use vops.Agent.Approvals.{same_status, present, event, grant_to, settle, decided, decide_on, decide}

not_granted : same_status lapsed granted ≡ false
unfolding same_status
not_granted = refl

module _ (w : World) where
  -- Why a decision widens no session: it is no approval, it comes too late, or the approval is for a
  -- plan or for nothing.
  abbrev pub GrantsNothing : Approval → ApprovalStatus → Type 0
  GrantsNothing a status =
      (same_status status granted ≡ false)
      ⊎ (a.expires_at ≤ w.now)
      ⊎ (present a.capability ≡ none)
      ⊎ (present a.plan_id ≢ none)

  pub decide_found :
      (id : String) (s : ApprovalStatus) (r actor : String) (db : Db) (a : Approval)
      → Tables.get id db.approvals ≡ some a
      → decide w id s r actor db ≡ decide_on w a s r actor db
  unfolding decide get_approval
  decide_found id s r actor db a e = rw (e, decide, get_approval)

  grant_to-keeps :
      (c p : Option String) (a : Approval) (s : ApprovalStatus) (db : Db)
      → (same_status s granted ≡ false) ⊎ (c ≡ none) ⊎ (p ≢ none)
      → (grant_to w c p a s db) ≡ (ok tt, db)
  unfolding grant_to same_status
  grant_to-keeps (some c) none a granted db h = ground arith
  grant_to-keeps _ _ a s db h = refl

  settle-sessions :
      (a : Approval) (s : ApprovalStatus) (r actor : String) (db : Db)
      → (same_status s granted ≡ false) ⊎ (present a.capability ≡ none) ⊎ (present a.plan_id ≢ none)
      → (settle w a s r actor db).1.sessions ≡ db.sessions
  unfolding settle decided save_approval event local_id append_event
  settle-sessions a s r actor db h =
      rw
        (grant_to-keeps (present a.capability) (present a.plan_id) (decided w a s r) s
          (save_approval w (decided w a s r) db).1 h)
        refl

  in_time :
      (a : Approval) (s : ApprovalStatus)
      → GrantsNothing a s
      → (same_status s granted && leb a.expires_at w.now) ≡ false
      → (same_status s granted ≡ false) ⊎ (present a.capability ≡ none) ⊎ (present a.plan_id ≢ none)
  in_time a s (inl h) e = inl h
  in_time a s (inr (inl h)) e = inl (ground (arith, le→leb a.expires_at w.now h))
  in_time a s (inr (inr h)) e = inr h

  decide_on-sessions :
      (a : Approval) (s : ApprovalStatus) (r actor : String) (db : Db)
      → GrantsNothing a s
      → (decide_on w a s r actor db).1.sessions ≡ db.sessions
  unfolding decide_on
  decide_on-sessions a s r actor db h = elim (Bool-cases (same_status a.status pending)) [
    | inl open_ ↦ elim (Bool-cases (same_status s granted && leb a.expires_at w.now)) [
      | inl late ↦
          rw (open_, late, decide_on)
            (settle-sessions a lapsed "Approval window expired." "vops" db (inl not_granted))
      | inr soon ↦ rw (open_, soon, decide_on) (settle-sessions a s r actor db (in_time a s h soon))
    ]
    | inr over ↦ elim (Bool-cases (same_status a.status s)) [
      | inl same ↦ rw (over, same, decide_on)
      | inr other ↦ rw (over, other, decide_on)
    ]
  ]

  -- A decision that is no approval, that comes after the window, or that is about a plan leaves
  -- every session as it is.
  pub decide_keeps_sessions :
      (id : String) (s : ApprovalStatus) (r actor : String) (db : Db) (a : Approval)
      → Tables.get id db.approvals ≡ some a
      → GrantsNothing a s
      → (decide w id s r actor db).1.sessions ≡ db.sessions
  decide_keeps_sessions id s r actor db a e h =
      rw (decide_found id s r actor db a e) (decide_on-sessions a s r actor db h)
