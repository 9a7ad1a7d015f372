-- ===== src/Remote/Commands/Overwritten.antt =====
-- What src/remote/remote-command.handler.ts does to the record of a command that was carried out.
use vops.Prelude.{
  String, ◌≡◌, refl, sym, ap, ◌∙◌, eq_refl, arith, true, false, Option, some, inl, inr,
}
use vops.Prelude.Result.{ok, err}
use vops.Agent.Store.Tables.{get, upsert, get-upsert}
use vops.Remote.Model.{Device, CommandRecord, rejected, SignedCommand, Fault}
use vops.Remote.Store.{
  RemoteWorld, State, M, ◌>>◌, pure, catch, get_command, save_command_result, is_known,
}
use vops.Remote.Store.Keeps.{Keeps}
use vops.Remote.Commands.{
  verify, accept, send, event, handle, reject, save_rejection, save_existing, safe_command_id,
}
use vops.Remote.Commands.Kept.{told-Keeps}
use vops.Remote.Commands.Verified.{verify_cases}

module _ (w : RemoteWorld) where
  refused_by :
      (d : Device) (c : SignedCommand) (s : State) (e : Fault)
      → (verify w d c s).0 ≡ err e
      → verify w d c s ≡ (err e, s)
  refused_by d c s e h = elim (verify_cases w d c s) [
    | inl (e', v) ↦ v ∙ ap (λ x. (x, s)) (sym (ap (λ t. t.0) v) ∙ h)
    | inr (device, v, allowed) ↦ ground (arith, ap (λ t. t.0) v)
  ]

  recorded :
      (c : SignedCommand) (new : CommandRecord) (s : State) (row : CommandRecord)
      → get c.payload.command_id s.commands ≡ some row
      → save_rejection w (some c.payload.command_id) new s
        ≡ (ok tt, record s { commands = upsert c.payload.command_id new s.commands })
  unfolding save_rejection save_existing save_command_result get_command is_known
  recorded c new s row old = rw old (rw old refl)

  recorded_before :
      (c : SignedCommand) (o : Option String) (new : CommandRecord) (k : M (Unit {0})) (s : State)
      (row : CommandRecord)
      → o ≡ some c.payload.command_id
      → get c.payload.command_id s.commands ≡ some row
      → Keeps (λ t. get c.payload.command_id t.commands) k
      → get c.payload.command_id ((save_rejection w o new >> k) s).1.commands ≡ some new
  recorded_before c o new k s row valid old keeps =
      rw (valid, recorded c new s row old)
        (keeps (record s { commands = upsert c.payload.command_id new s.commands })
          ∙ simp (get-upsert, eq_refl))

  -- A command that fails verification is recorded as rejected over the result that the store holds under
  -- its id, whatever that result is.
  pub handle-overwrites :
      (d : Device) (r : String) (c : SignedCommand) (s : State) (e : Fault) (row : CommandRecord)
      → (verify w d c s).0 ≡ err e
      → w.is_command_id c.payload.command_id ≡ true
      → get c.payload.command_id s.commands ≡ some row
      → get c.payload.command_id (handle w d r c s).1.commands
        ≡ some (rejected r (some c.payload.command_id) false e)
  unfolding handle accept reject
  handle-overwrites d r c s e row refused valid old =
      rw (refused_by d c s e refused, handle, accept)
        (recorded_before c (safe_command_id w c.payload) new (told) s row id_is old (
            told-Keeps (λ t. get c.payload.command_id t.commands) (λ t l n k m. refl) w d new
              c.payload)
          ∙ ap (λ i. some (rejected r i false e)) id_is)
    where
      new : CommandRecord
      new = rejected r (safe_command_id w c.payload) false e

      told : M (Unit {0})
      told = do
        catch (send w d new) (λ f. pure tt)
        event w d c.payload "remote.command.rejected" "Rejected a signed remote command."

      id_is : safe_command_id w c.payload ≡ some c.payload.command_id
      id_is = rw (valid, safe_command_id) refl
