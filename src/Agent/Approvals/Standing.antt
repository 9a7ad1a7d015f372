-- ===== src/Agent/Approvals/Standing.antt =====
-- A first decision on an approval of src/agent-control/approval-manager.ts stands.
use vops.Prelude.{if◌then◌else◌, ◌≤◌, String, ◌≡◌, ◌⊎◌, false, some}
use vops.Prelude.Result.{Result, ok, err}
use vops.Agent.Model.{ApprovalStatus, granted, lapsed, Approval, control, plan_invalid, is_failed}
use vops.Agent.Store.{World, Db}
use vops.Agent.Store.Redact.{redact_approval}
use vops.Agent.Store.Tables
use vops.Agent.Store.Tables.{Table}
use vops.Agent.Approvals.{same_status, decided, decide}

module _ (w : World) where
  -- A decision that has been made: what is returned, and what the store keeps then.
  IsKept : Approval → ApprovalStatus → String → Approval → Db → Type 0
  IsKept a s r first after =
      (first ≡ decided w a s r)
      × (Tables.get a.id after.approvals ≡ some (redact_approval w.patterns (decided w a s r)))

  -- What a first decision leaves, and what any later one does.
  abbrev pub HasStood : String → Approval → ApprovalStatus → Approval → Db → Type 0
  HasStood id a s first after =
      (kept : Approval) × (Tables.get id after.approvals ≡ some kept)
      × (kept.status ≡ first.status)
      × ((first.status ≡ s) ⊎ ((first.status ≡ lapsed) × (s ≡ granted) × (a.expires_at ≤ w.now)))
      × ((s2 : ApprovalStatus) (r2 actor2 : String)
          → decide w id s2 r2 actor2 after ≡ (
            if same_status first.status s2
                then ok kept
                else err (control plan_invalid is_failed false),
            after,
          ))
