-- ===== src/Agent/Safety/Stopping.antt =====
-- What the emergency stop stops.
use vops.Prelude.{String, ◌≡◌, refl, Bool, true, false, arith}
use vops.Agent.Model.{Capability}
use vops.Agent.Policy.{Request, deny, is_read, decide}
use vops.Agent.Store.{World, Db, local_id, append_event}
use vops.Agent.Safety.{current, on_module_init, event, set_stop, get_stop, switch_on, activate}

module _ (w : World) where
  switch_on-on :
      (b : Bool) (actor reason : String) (db : Db)
      → (current db).is_on ≡ b
      → (current (switch_on w (current db) actor reason db).1).is_on ≡ true
  unfolding switch_on set_stop get_stop event local_id append_event
  switch_on-on true actor reason db e = rw e e
  switch_on-on false actor reason db e = rw e (unfold current in refl)

  -- What is held is stored.
  switch_on-stored :
      (b : Bool) (actor reason : String) (db : Db)
      → (current db).is_on ≡ b
      → b ≡ false
      → (current (on_module_init (switch_on w (current db) actor reason db).1)).is_on ≡ true
  unfolding switch_on set_stop get_stop event local_id append_event on_module_init
  switch_on-stored true actor reason db e off = ground arith
  switch_on-stored false actor reason db e off = rw e (unfold current in refl)

  -- Hypothesis: the capability does more than read. Once the stop is activated in a process, by whomever
  -- and for whatever reason, and whether or not it was on there before, that process denies the action, whatever
  -- the session and the plan. Where it was not on there before, every process that starts on the
  -- store as it is then denies the action too. Nothing is said of a process that has started before.
  pub activate-stops :
      (actor reason : String) (db : Db) (request : Request) (capability : Capability)
      → is_read capability.access ≡ false
      → ((decide (current (activate w actor reason db).1).is_on request capability).effect ≡ deny)
        × ((current db).is_on ≡ false
            → (decide
                (current (on_module_init (activate w actor reason db).1)).is_on
                request
                capability).effect
              ≡ deny)
  unfolding activate decide
  activate-stops actor reason db request capability writes = (
    rw (switch_on-on (current db).is_on actor reason db refl) (ground arith),
    λ off. rw (switch_on-stored (current db).is_on actor reason db refl off) (ground arith),
  )
