-- ===== src/Remote/Commands/Kept.antt =====
-- What src/remote/remote-command.handler.ts leaves as it was when it handles a command.
use vops.Prelude.{String, ◌≡◌, refl, ap, ◌∙◌, ◌⊎◌, inl, inr, false, Option, none, some}
use vops.Prelude.Result.{Result, ok, err}
use vops.Agent.Store.Tables.{get}
use vops.Remote.Model.{
  Device, CommandRecord, received, completed, rejected, command_message, CommandPayload,
  SignedCommand, Fault,
}
use vops.Remote.Store.{RemoteWorld, State, ◌>>◌, pure, catch, save_command_result, get_command}
use vops.Remote.Store.Keeps.{Keeps, IsAside, Keeps-bind, Keeps-then, Keeps-catch}
use vops.Remote.Commands.{
  send, event, run_reserved, accept, save_existing, save_rejection, reject, handle, safe_command_id,
}
use vops.Remote.Commands.Execution
use vops.Remote.Commands.Execution.Keeping.{execute-Keeps}
use vops.Remote.Commands.Verified.{Authorized}
use vops.Remote.Commands.Accepted.{IsFresh, reserved, accept_cases}
use vops.Remote.Store.Quiet.{IsQuiet, log-Keeps, message-Keeps}

module _ {X : Type 0} (f : State → X) (quiet : IsQuiet f) (w : RemoteWorld) where
  pub send-Keeps : (d : Device) (row : CommandRecord) → Keeps f (send w d row)
  unfolding send
  send-Keeps d row = message-Keeps f quiet w d (command_message row)

  pub event-Keeps :
      (d : Device) (p : CommandPayload) (type summary : String) → Keeps f (event w d p type summary)
  unfolding event
  event-Keeps d p type summary = log-Keeps f quiet w _ type none summary _

  -- The end of `reject`.
  pub told-Keeps :
      (d : Device) (row : CommandRecord) (p : CommandPayload)
      → Keeps f (do
        catch (send w d row) (λ g. pure tt)
        event w d p "remote.command.rejected" "Rejected a signed remote command.")
  told-Keeps d row p =
      Keeps-then f (catch (send w d row) (λ g. pure tt)) _
        (Keeps-catch f (send w d row) (λ g. pure tt) (send-Keeps d row) (λ g s. refl))
        (event-Keeps d p "remote.command.rejected" "Rejected a signed remote command.")

module _ {X : Type 0} (f : State → X) (quiet : IsQuiet f) (w : RemoteWorld)
    (saved : (id : String) (row : CommandRecord) → Keeps f (save_command_result w id row)) where
  existing-Keeps :
      (o : Option CommandRecord) (id : String) (row : CommandRecord)
      → Keeps f (save_existing w o id row)
  unfolding save_existing
  existing-Keeps none id row = λ s. refl
  existing-Keeps (some old) id row = saved id row

  rejection-Keeps : (o : Option String) (row : CommandRecord) → Keeps f (save_rejection w o row)
  unfolding save_rejection get_command
  rejection-Keeps none row = λ s. refl
  rejection-Keeps (some id) row = λ s. existing-Keeps (get id s.commands) id row s

  reject-Keeps :
      (d : Device) (r : String) (c : SignedCommand) (e : Fault) → Keeps f (reject w d r c e)
  unfolding reject
  reject-Keeps d r c e =
      let row = rejected r (safe_command_id w c.payload) false e in
      Keeps-then f (save_rejection w (safe_command_id w c.payload) row) _
        (rejection-Keeps (safe_command_id w c.payload) row) (told-Keeps f quiet w d row c.payload)

  -- What `handle` does, after `accept`.
  abbrev concluded : Device → String → SignedCommand → Result Fault (Unit {0}) × State → State
  concluded d r c t = (catch (λ s. t) (reject w d r c) t.1).1

  handled :
      (d : Device) (r : String) (c : SignedCommand) (t : Result Fault (Unit {0}) × State)
      → f (concluded d r c t) ≡ f t.1
  handled d r c (ok a, s) = refl
  handled d r c (err e, s) = reject-Keeps d r c e s

  pub handle_keeps :
      (d : Device) (r : String) (c : SignedCommand) (s : State)
      → f (handle w d r c s).1 ≡ f (accept w d r c s).1
  unfolding handle
  handle_keeps d r c s = handled d r c (accept w d r c s)

  pub run_reserved-Keeps :
      IsAside f → (d : Device) (r : String) (p : CommandPayload) → Keeps f (run_reserved w d r p)
  unfolding run_reserved
  run_reserved-Keeps aside d r p =
      Keeps-then f (send w d (received r p.command_id false)) _ (send-Keeps f quiet w d _) (
        Keeps-then f (event w d p "remote.command.received" _) _ (event-Keeps f quiet w d p _ _) (
          Keeps-bind f (Execution.execute w d p) _ (execute-Keeps f aside w d p) (λ result.
            Keeps-then f
              (save_command_result w p.command_id (completed r p.command_id false result)) _
              (saved p.command_id _)
              (Keeps-then f (send w d (completed r p.command_id false result)) _
                (send-Keeps f quiet w d _) (event-Keeps f quiet w d p _ _)))))

  pub handle_or :
      (d : Device) (r : String) (c : SignedCommand) (s : State)
      → (f (handle w d r c s).1 ≡ f s)
        ⊎ ((device : Device) × Authorized w s d.route_id device c × IsFresh c.payload s)
  handle_or d r c s = elim (accept_cases w d r c s) [
    | inl (e, eq) ↦ inl (handle_keeps d r c s ∙ ap (λ t. f t.1) eq)
    | inr (inl (device, row, eq)) ↦
        inl (handle_keeps d r c s ∙ ap (λ t. f t.1) eq ∙ send-Keeps f quiet w device row s)
    | inr (inr (device, allowed, fresh, eq)) ↦ inr (device, allowed, fresh)
  ]

  -- A view of what is remembered of the commands is that of before, or that of the reservation.
  pub handle_marks :
      IsAside f
      → (d : Device) (r : String) (c : SignedCommand) (s : State)
      → (f (handle w d r c s).1 ≡ f s) ⊎ (f (handle w d r c s).1 ≡ f (reserved r c.payload s))
  handle_marks aside d r c s = elim (accept_cases w d r c s) [
    | inl (e, eq) ↦ inl (handle_keeps d r c s ∙ ap (λ t. f t.1) eq)
    | inr (inl (device, row, eq)) ↦
        inl (handle_keeps d r c s ∙ ap (λ t. f t.1) eq ∙ send-Keeps f quiet w device row s)
    | inr (inr (device, allowed, fresh, eq)) ↦ inr (
        handle_keeps d r c s
        ∙ ap (λ t. f t.1) eq
        ∙ run_reserved-Keeps aside device r c.payload (reserved r c.payload s))
  ]
