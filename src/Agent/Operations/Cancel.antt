-- ===== src/Agent/Operations/Cancel.antt =====
-- Cancelling an operation.
use mathlib.Core.Path.{subst}
use vops.Prelude.{
  String, ◌≡◌, refl, sym, true, false, some, if◌then◌else◌, ap, ◌∙◌, any, Bool-cases, inl, inr,
}
use vops.Prelude.Result.{Result, ok, err}
use vops.Agent.Store.Redact.{redact_operation}
use vops.Agent.Model.{
  proposed, awaiting_approval, approved, rollback_requested, rolling_back, OperationState, queued,
  running, verifying, succeeded, failed, cancelling, cancelled, rolled_back, rollback_failed,
  Operation, Failure, control, operation_failed, is_failed,
}
use vops.Agent.Store.{World, Db, pure, local_id, append_event, save_operation}
use vops.Agent.Store.Tables
use vops.Agent.Operations.{
  event, transitions, same_state, no_patch, patched, Patch, store, move, move_from, transition,
  is_final, cancel_target, cancel_from, request_cancel,
}
use vops.Agent.Operations.Lifecycle.{get_found, store_ok}

module _ (w : World) where
  abbrev cancelling_patch : Patch
  cancelling_patch = record no_patch { cancel_requested = some true }

  -- What a request to cancel does to an operation in a state.
  abbrev outcome : OperationState → Operation → Db → Result Failure Operation × Db
  outcome queued o db = store w (patched w o cancelling_patch cancelled) db
  outcome running o db = store w (patched w o cancelling_patch cancelling) db
  outcome verifying o db = store w (patched w o cancelling_patch cancelling) db
  outcome cancelling o db = (ok o, db)
  outcome succeeded o db = (ok o, db)
  outcome failed o db = (ok o, db)
  outcome cancelled o db = (ok o, db)
  outcome rolled_back o db = (ok o, db)
  outcome rollback_failed o db = (ok o, db)
  outcome _ o db = (err (control operation_failed is_failed false), db)

  by_state :
      (s : OperationState) (o : Operation) (db : Db)
      → (if is_final w s then pure o else move_from w s o (cancel_target w s) cancelling_patch) db
        ≡ outcome s o db
  unfolding is_final cancel_target move_from same_state transitions any
  by_state queued o db = refl
  by_state _ o db = refl

  transition_eq :
      (id : String) (db : Db) (o : Operation) (t : OperationState) (p : Patch)
      → Tables.get id db.operations ≡ some o
      → transition w id t p db ≡ move_from w o.state o t p db
  unfolding transition move
  transition_eq id db o t p e = rw (get_found w id db o e, transition)

  cancel_from_eq :
      (s : OperationState) (id : String) (db : Db) (o : Operation)
      → Tables.get id db.operations ≡ some o
      → o.state ≡ s
      → cancel_from w s id o db
        ≡ (if is_final w s then pure o else move_from w s o (cancel_target w s) cancelling_patch) db
  unfolding cancel_from
  cancel_from_eq s id db o e same = elim (Bool-cases (is_final w s)) [
    | inl over ↦ rw over
    | inr going ↦ rw going (
        transition_eq id db o (cancel_target w s) cancelling_patch e
        ∙ ap (λ x. move_from w x o (cancel_target w s) cancelling_patch db) same)
  ]

  cancel_eq :
      (id : String) (db : Db) (o : Operation)
      → Tables.get id db.operations ≡ some o
      → request_cancel w id db ≡ outcome o.state o db
  unfolding request_cancel
  cancel_eq id db o e =
      rw (get_found w id db o e, request_cancel)
        (cancel_from_eq o.state id db o e refl ∙ by_state o.state o db)

  -- The operation that is returned, and the one that the store holds then, are in the state and carry the
  -- request.
  abbrev pub IsMarked : OperationState → Operation → Result Failure Operation × Db → Type 0
  IsMarked s o after =
      (returned : Operation) × (kept : Operation) × (after.0 ≡ ok returned)
      × (Tables.get o.id after.1.operations ≡ some kept)
      × (returned.state ≡ s)
      × (returned.cancel_requested ≡ true)
      × (kept.state ≡ s)
      × (kept.cancel_requested ≡ true)

  -- What a request to cancel leads to, by the state of the operation.
  abbrev pub HasAnswered : OperationState → Operation → Db → Result Failure Operation × Db → Type 0
  HasAnswered queued o db after = IsMarked cancelled o after
  HasAnswered running o db after = IsMarked cancelling o after
  HasAnswered verifying o db after = IsMarked cancelling o after
  HasAnswered cancelling o db after = after ≡ (ok o, db)
  HasAnswered succeeded o db after = after ≡ (ok o, db)
  HasAnswered failed o db after = after ≡ (ok o, db)
  HasAnswered cancelled o db after = after ≡ (ok o, db)
  HasAnswered rolled_back o db after = after ≡ (ok o, db)
  HasAnswered rollback_failed o db after = after ≡ (ok o, db)
  HasAnswered _ o db after = after ≡ (err (control operation_failed is_failed false), db)

  marked :
      (s : OperationState) (o : Operation) (db : Db)
      → IsMarked s o (store w (patched w o cancelling_patch s) db)
  unfolding patched store event local_id append_event save_operation redact_operation
  marked s o db = (
    patched w o cancelling_patch s,
    redact_operation w.patterns (patched w o cancelling_patch s),
    refl,
    store_ok w (patched w o cancelling_patch s) db,
    refl,
    refl,
    refl,
    refl,
  )

  answered : (s : OperationState) (o : Operation) (db : Db) → HasAnswered s o db (outcome s o db)
  answered queued o db = marked cancelled o db
  answered running o db = marked cancelling o db
  answered verifying o db = marked cancelling o db
  answered cancelling o db = refl
  answered succeeded o db = refl
  answered failed o db = refl
  answered cancelled o db = refl
  answered rolled_back o db = refl
  answered rollback_failed o db = refl
  answered proposed o db = refl
  answered awaiting_approval o db = refl
  answered approved o db = refl
  answered rollback_requested o db = refl
  answered rolling_back o db = refl

  -- Hypothesis: the store holds the operation. A request to cancel moves a queued operation to cancelled, and
  -- a running or verifying one to cancelling: the operation that is returned and the one that is
  -- stored then are in that state and carry the request. One that is being cancelled or is over is
  -- returned as it is, and in every other state the request fails; both change nothing.
  pub request_cancel_lem :
      (id : String) (db : Db) (o : Operation)
      → Tables.get id db.operations ≡ some o
      → HasAnswered o.state o db (request_cancel w id db)
  request_cancel_lem id db o e =
      subst (λ x. HasAnswered o.state o db x) (sym (cancel_eq id db o e)) (answered o.state o db)
