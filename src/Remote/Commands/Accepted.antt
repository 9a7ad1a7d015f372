-- ===== src/Remote/Commands/Accepted.antt =====
-- What src/remote/remote-command.handler.ts carries out: signed commands, once.
use vops.Prelude.{
  String, ◌≡◌, refl, ◌⊎◌, inl, inr, ◌==◌, false, none, ◌∷◌, [], ◌++◌, Bool-cases, Option-cases, any,
}
use vops.Prelude.Result.{err}
use vops.Agent.Store.Tables.{get, upsert}
use vops.Remote.Model.{
  Device, CommandRecord, received, CommandPayload, SignedCommand, Fault, command, replayed,
}
use vops.Remote.Store.{RemoteWorld, State, remember_command, get_command, is_known}
use vops.Remote.Commands.{again, send, run_reserved, run_unknown, or_replayed, answer, accept}
use vops.Remote.Commands.Verified.{Authorized, verify_cases}

-- No command of this id, and none with this nonce, has been accepted.
abbrev pub IsFresh : CommandPayload → State → Type 0
IsFresh p s = (get p.command_id s.commands ≡ none) × (any (λ n. n == p.nonce) s.nonces ≡ false)

-- The state in which an accepted command is remembered.
abbrev pub reserved : String → CommandPayload → State → State
reserved request_id p s = record s {
  commands = upsert p.command_id (received request_id p.command_id false) s.commands;
  nonces = s.nonces ++ p.nonce ∷ [];
}

module _ (w : RemoteWorld) where
  abbrev pub Accepted : Device → String → SignedCommand → State → Type 0
  Accepted envelope request_id c s =
      ((e : Fault) × (accept w envelope request_id c s ≡ (err e, s)))
      ⊎ ((d : Device) × (row : CommandRecord) × (accept w envelope request_id c s ≡ send w d row s))
      ⊎ ((d : Device) × Authorized w s envelope.route_id d c
          × IsFresh c.payload s
          × (accept w envelope request_id c s
              ≡ run_reserved w d request_id c.payload (reserved request_id c.payload s)))

  run_unknown_cases :
      (d : Device) (request_id : String) (p : CommandPayload) (s : State)
      → get p.command_id s.commands ≡ none
      → (run_unknown w d request_id p s ≡ (err (command replayed), s))
        ⊎ (IsFresh p s
            × (run_unknown w d request_id p s
                ≡ run_reserved w d request_id p (reserved request_id p s)))
  unfolding run_unknown remember_command or_replayed is_known get_command
  run_unknown_cases d request_id p s new = elim (Bool-cases (any (λ n. n == p.nonce) s.nonces)) [
    | inl used ↦ inl (rw (new, used) (rw new refl))
    | inr free ↦ inr ((new, free), rw (new, free) refl)
  ]

  pub accept_cases :
      (envelope : Device) (request_id : String) (c : SignedCommand) (s : State)
      → Accepted envelope request_id c s
  unfolding accept answer get_command
  accept_cases envelope request_id c s = elim (verify_cases w envelope c s) [
    | inl (e, v) ↦ inl (e, rw (v, accept) refl)
    | inr (d, v, allowed) ↦ elim (Option-cases (get c.payload.command_id s.commands)) [
      | inr (row, old) ↦ inr (inl (d, again request_id row, rw (v, accept, old) refl))
      | inl new ↦ elim (run_unknown_cases d request_id c.payload s new) [
        | inl e ↦ inl (command replayed, rw (v, accept, new) e)
        | inr (fresh, e) ↦ inr (inr (d, allowed, fresh, rw (v, accept, new) e))
      ]
    ]
  ]
