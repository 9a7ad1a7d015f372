-- ===== src/Agent/Operations/Lifecycle.antt =====
-- The states that an operation goes through.
use mathlib.Core.Path.{subst}
use vops.Prelude.{
  ap, ◌∙◌, ℕ, suc, ◌+◌, ◌≤◌, ◌<◌, String, ◌≡◌, ◌⊎◌, inl, inr, refl, true, some, List, [], ◌∷◌, any,
  arith, eq_refl, Bool-cases,
}
use vops.Prelude.Result.{ok}
use vops.Agent.Model.{
  OperationState, proposed, awaiting_approval, approved, queued, running, verifying, succeeded,
  failed, cancelling, cancelled, rollback_requested, rolling_back, rolled_back, rollback_failed,
  Operation,
}
use vops.Agent.Store.{World, Db, save_operation, get_operation, local_id, append_event}
use vops.Agent.Store.Tables
use vops.Agent.Store.Tables.{get-upsert}
use vops.Agent.Store.Redact.{redact_operation}
use vops.Agent.Operations.{
  transitions, same_state, Patch, patched, get, store, move, move_from, transition, event,
}

-- How far a state is along: the table never leads back.
pub phase : OperationState → ℕ
phase proposed = 0
phase awaiting_approval = 1
phase approved = 2
phase queued = 3
phase running = 4
phase verifying = 5
phase cancelling = 6
phase succeeded = 7
phase failed = 7
phase cancelled = 7
phase rollback_requested = 8
phase rolling_back = 9
phase rolled_back = 10
phase rollback_failed = 10

-- A state that the table lets follow is further along.
transitions-forward :
    (a b : OperationState) → any (same_state b) (transitions a) ≡ true → phase a < phase b
unfolding transitions phase any same_state
transitions-forward a b h = ground arith

phase_bound : (a : OperationState) → phase a ≤ 10
unfolding phase
phase_bound a = ground arith

abbrev pub Allows : OperationState → OperationState → Type 0
Allows a b = any (same_state b) (transitions a) ≡ true

-- `Moves a b n`: the table leads from `a` to `b` in `n` moves.
pub data Moves (a : OperationState) : OperationState → ℕ → Type 0 where
  stay : Moves a a 0
  step : {b c : OperationState} {n : ℕ} → Moves a b n → Allows b c → Moves a c (suc n)

Moves-forward : {a b : OperationState} {n : ℕ} → Moves a b n → phase a + n ≤ phase b
Moves-forward stay = omega arith
Moves-forward (step {b = b} {c = c} m h) = omega (arith, Moves-forward m, transitions-forward b c h)

Moves-cons : {a b c : OperationState} {n : ℕ} → Allows a b → Moves b c n → Moves a c (suc n)
Moves-cons h stay = step stay h
Moves-cons h (step m k) = step (Moves-cons h m) k

module _ (w : World) where
  -- The operation is held under its own id, in this state.
  pub record IsIn (id : String) (db : Db) (state : OperationState) : Type 0 where
    pub operation : Operation
    pub found : Tables.get id db.operations ≡ some operation
    pub own_id : operation.id ≡ id
    pub in_state : operation.state ≡ state

  pub get_found :
      (id : String) (db : Db) (o : Operation)
      → Tables.get id db.operations ≡ some o
      → get w id db ≡ (ok o, db)
  unfolding get get_operation
  get_found id db o e = rw (e, get, get_operation)

  pub store_ok :
      (o : Operation) (db : Db)
      → Tables.get o.id (store w o db).1.operations ≡ some (redact_operation w.patterns o)
  unfolding store event local_id append_event save_operation
  store_ok o db = simp (get-upsert, eq_refl)

  -- What a request for a transition does to the state: it stays, or it moves as the table allows.
  move_lem :
      (id : String) (db : Db) (o : Operation) (target : OperationState) (p : Patch)
      → w.patterns.scrub id ≡ id
      → Tables.get id db.operations ≡ some o
      → o.id ≡ id
      → IsIn id (move w o target p db).1 o.state
        ⊎ (Allows o.state target × IsIn id (move w o target p db).1 target)
  unfolding move move_from patched redact_operation
  move_lem id db o target p clean e same = elim (Bool-cases (same_state o.state target)) [
    | inl held ↦
        rw (held, move_from)
          (inl (record { operation = o; found = e; own_id = same; in_state = refl }))
    | inr other ↦ elim (Bool-cases (any (same_state target) (transitions o.state))) [
      | inl allowed ↦
          rw (other, allowed, move_from)
            (inr (
              refl,
              record {
                operation = redact_operation w.patterns (patched w o p target);
                found =
                    subst
                      (λ (i : String).
                        Tables.get i (store w (patched w o p target) db).1.operations
                        ≡ some (redact_operation w.patterns (patched w o p target)))
                      same (store_ok (patched w o p target) db);
                own_id = ap w.patterns.scrub same ∙ clean;
                in_state = refl;
              },
            ))
      | inr refused ↦
          rw (other, refused, move_from)
            (inl (record { operation = o; found = e; own_id = same; in_state = refl }))
    ]
  ]

  transition_lem :
      (id : String) (db : Db) (a target : OperationState) (p : Patch)
      → w.patterns.scrub id ≡ id
      → IsIn id db a
      → IsIn id (transition w id target p db).1 a
        ⊎ (Allows a target × IsIn id (transition w id target p db).1 target)
  unfolding transition
  transition_lem id db a target p clean v =
      rw (get_found id db v.operation v.found, transition)
        (subst
          (λ s.
            IsIn id (move w v.operation target p db).1 s
            ⊎ (Allows s target × IsIn id (move w v.operation target p db).1 target))
          v.in_state (move_lem id db v.operation target p clean v.found v.own_id))

  -- Requests for transitions, one after the other; one that is refused leaves the next to be tried.
  unfoldable pub request_all : String → List (OperationState × Patch) → Db → Db
  request_all id [] db = db
  request_all id ((target, p) ∷ rest) db = request_all id rest (transition w id target p db).1

  -- From a state to another in at most as many moves as there were requests.
  pub record Travels (id : String) (db : Db) (a : OperationState) : Type 0 where
    pub final : OperationState
    pub count : ℕ
    pub moves : Moves a final count
    pub at_final : IsIn id db final

  travel :
      (id : String) (l : List (OperationState × Patch)) (db : Db) (a : OperationState)
      → w.patterns.scrub id ≡ id
      → IsIn id db a
      → Travels id (request_all id l db) a
  unfolding request_all
  travel id [] db a clean v = record { final = a; count = 0; moves = stay; at_final = v }
  travel id ((target, p) ∷ rest) db a clean v = elim (transition_lem id db a target p clean v) [
    | inl stayed ↦ travel id rest (transition w id target p db).1 a clean stayed
    | inr (allowed, moved) ↦
        let t = travel id rest (transition w id target p db).1 target clean moved in
        record {
          final = t.final;
          count = suc t.count;
          moves = Moves-cons allowed t.moves;
          at_final = t.at_final;
        }
  ]

  -- Whatever transitions are requested of a stored operation, allowed or not, and however many: it is
  -- still stored, in a state that the table reaches, and it has moved ten times at most, less
  -- what it had gone before. The patterns must leave its id alone.
  pub request_all-bounded :
      (id : String) (l : List (OperationState × Patch)) (db : Db) (a : OperationState)
      → w.patterns.scrub id ≡ id
      → IsIn id db a
      → (b : OperationState) × (n : ℕ) × Moves a b n
        × IsIn id (request_all id l db) b
        × (phase a + n ≤ 10)
  request_all-bounded id l db a clean v =
      let t = travel id l db a clean v in
      (
        t.final,
        t.count,
        t.moves,
        t.at_final,
        omega (arith, Moves-forward t.moves, phase_bound t.final),
      )
