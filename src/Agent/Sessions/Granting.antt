-- ===== src/Agent/Sessions/Granting.antt =====
-- What a grant to a session leaves alone.
use vops.Prelude.{String, ◌≡◌, refl, Option, none, some}
use vops.Agent.Model.{Session}
use vops.Agent.Store.{
  World, Db, ◌>>=◌, session_at, get_session, save_session, local_id, append_event,
}
use vops.Agent.Sessions.{or_not_found, save, event, granted_scope, show, grant_scope}
use vops.Agent.Sessions.Inputs.{Grant}

module _ (w : World) where
  found_approvals :
      (found : Option Session) (make : Session → Session) (t u : String) (db : Db)
      → ((or_not_found w found >>= λ s. save w (make s) t u) db).1.approvals ≡ db.approvals
  unfolding or_not_found save event save_session local_id append_event
  found_approvals none make t u db = refl
  found_approvals (some s) make t u db = refl

  pub grant_scope-approvals :
      (id : String) (grant : Grant) (db : Db)
      → (grant_scope w id grant db).1.approvals ≡ db.approvals
  unfolding grant_scope show get_session
  grant_scope-approvals id grant db =
      found_approvals (session_at id db) (λ s. granted_scope w s grant) _ _ db
