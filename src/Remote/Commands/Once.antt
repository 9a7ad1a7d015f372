-- ===== src/Remote/Commands/Once.antt =====
-- What src/remote/remote-command.handler.ts changes: nothing, unless a command is authorized and new.
use vops.Prelude.{
  String, ◌≡◌, ◌≢◌, refl, sym, ap, ◌∙◌, ◌⊎◌, inl, inr, ◌==◌, eq_iff, eq_refl, arith, Bool, true,
  false, Option, List, ◌∷◌, [], Bool-cases, any, any-append,
}
use vops.Agent.Model.{Plan, Approval, Operation}
use vops.Agent.Store.{SessionRow, EmergencyStop}
use vops.Agent.Store.Tables.{Table, get, upsert, get-upsert}
use vops.Remote.Model.{
  Device, PairingSession, Intent, CommandRecord, received, CommandPayload, SignedCommand,
}
use vops.Remote.Store.{RemoteWorld, State, save_command_result, is_known}
use vops.Remote.Store.Keeps.{Keeps}
use vops.Remote.Commands.{accept, handle}
use vops.Remote.Commands.Verified.{Authorized}
use vops.Remote.Commands.Accepted.{IsFresh, reserved, accept_cases}
use vops.Remote.Commands.Kept.{
  send-Keeps, handle_keeps, run_reserved-Keeps, handle_or, handle_marks,
}

-- What the commands are there to change: the sessions, plans, approvals, operations and the emergency stop
-- of the agent control, the devices, their pairings, and the intents with their secrets.
pub record Control : Type 0 where
  pub sessions : Table SessionRow
  pub plans : Table Plan
  pub approvals : Table Approval
  pub operations : Table Operation
  pub stop : Option EmergencyStop
  pub in_memory : EmergencyStop
  pub devices : Table Device
  pub pairings : Table PairingSession
  pub intents : Table Intent
  pub secrets : Table String

abbrev pub control : State → Control
control s = record {
  sessions = s.agent.sessions;
  plans = s.agent.plans;
  approvals = s.agent.approvals;
  operations = s.agent.operations;
  stop = s.agent.stop;
  in_memory = s.agent.in_memory;
  devices = s.devices;
  pairings = s.pairings;
  intents = s.intents;
  secrets = s.secrets;
}

abbrev pub is_reserved : String → State → Bool
is_reserved id s = is_known (get id s.commands)

abbrev pub is_used : String → State → Bool
is_used nonce s = any (λ n. n == nonce) s.nonces

-- A command whose id or nonce has been accepted.
abbrev IsSpent : CommandPayload → State → Type 0
IsSpent p s = (is_reserved p.command_id s ≡ true) ⊎ (is_used p.nonce s ≡ true)

module _ (w : RemoteWorld) where
  saved_control : (id : String) (row : CommandRecord) → Keeps control (save_command_result w id row)
  unfolding save_command_result
  saved_control id row s = elim (Bool-cases (is_known (get id s.commands))) [
    | inl e ↦ rw e refl
    | inr e ↦ rw e refl
  ]

  saved_used :
      (nonce id : String) (row : CommandRecord)
      → Keeps (is_used nonce) (save_command_result w id row)
  unfolding save_command_result
  saved_used nonce id row s = elim (Bool-cases (is_known (get id s.commands))) [
    | inl e ↦ rw e refl
    | inr e ↦ rw e refl
  ]

  still_known :
      (x id : String) (row : CommandRecord) (t : Table CommandRecord)
      → is_known (get id t) ≡ true
      → is_known (get x (upsert id row t)) ≡ is_known (get x t)
  unfolding is_known
  still_known x id row t h = ground (arith, get-upsert id x row t, eq_iff id x)

  saved_reserved :
      (x id : String) (row : CommandRecord) → Keeps (is_reserved x) (save_command_result w id row)
  unfolding save_command_result
  saved_reserved x id row s = elim (Bool-cases (is_known (get id s.commands))) [
    | inl e ↦ rw e (still_known x id row s.commands e)
    | inr e ↦ rw e refl
  ]

  -- Whatever becomes of a command, the sessions, plans, approvals, operations, the emergency stop, the
  -- devices, their pairings, the intents and their tokens stay as they were, unless an active device that the store
  -- holds under the route has signed the command for this node with its current key, its grant has not
  -- lapsed, the command is issued and expires within the bounds, the role of the device allows it, and
  -- neither its id nor its nonce has been accepted before.
  pub handle-IsAuthorized :
      (d : Device) (r : String) (c : SignedCommand) (s : State)
      → (control (handle w d r c s).1 ≡ control s)
        ⊎ ((device : Device) × Authorized w s d.route_id device c × IsFresh c.payload s)
  handle-IsAuthorized d r c s = handle_or control (λ s l n c t. refl) w saved_control d r c s

  reserved_grows :
      (x r : String) (p : CommandPayload) (s : State)
      → is_reserved x s ≡ true
      → is_reserved x (reserved r p s) ≡ true
  unfolding is_known
  reserved_grows x r p s h = ground (
    arith,
    get-upsert p.command_id x (received r p.command_id false) s.commands,
    eq_iff p.command_id x,
  )

  used_grows :
      (n r : String) (p : CommandPayload) (s : State)
      → is_used n s ≡ true
      → is_used n (reserved r p s) ≡ true
  used_grows n r p s h = ground (arith, any-append (λ m. m == n) s.nonces (p.nonce ∷ []))

  reserves_id :
      (r : String) (p : CommandPayload) (s : State)
      → is_reserved p.command_id (reserved r p s) ≡ true
  unfolding is_known
  reserves_id r p s = simp (get-upsert, eq_refl)

  uses_nonce :
      (r : String) (p : CommandPayload) (s : State) → is_used p.nonce (reserved r p s) ≡ true
  unfolding any
  uses_nonce r p s =
      ground (arith, any-append (λ m. m == p.nonce) s.nonces (p.nonce ∷ []), eq_refl p.nonce)

  IsSpent-stays :
      (p : CommandPayload) (d : Device) (r : String) (c : SignedCommand) (s : State)
      → IsSpent p s
      → IsSpent p (handle w d r c s).1
  IsSpent-stays p d r c s (inl h) =
      elim (handle_marks (is_reserved p.command_id) (λ t l n k m. refl) w
        (saved_reserved p.command_id) (λ t a i x k m. refl) d r c s) [
          | inl e ↦ inl (e ∙ h)
          | inr e ↦ inl (e ∙ reserved_grows p.command_id r c.payload s h)
        ]
  IsSpent-stays p d r c s (inr h) =
      elim (handle_marks (is_used p.nonce) (λ t l n k m. refl) w (saved_used p.nonce)
        (λ t a i x k m. refl) d r c s) [
          | inl e ↦ inr (e ∙ h)
          | inr e ↦ inr (e ∙ used_grows p.nonce r c.payload s h)
        ]

  -- What is changed is remembered.
  spends :
      (d : Device) (r : String) (c : SignedCommand) (s : State)
      → (control (handle w d r c s).1 ≡ control s)
        ⊎ ((is_reserved c.payload.command_id (handle w d r c s).1 ≡ true)
            × (is_used c.payload.nonce (handle w d r c s).1 ≡ true))
  spends d r c s = elim (accept_cases w d r c s) [
    | inl (e, eq) ↦ inl (keeps ∙ ap (λ t. control t.1) eq)
    | inr (inl (device, row, eq)) ↦
        inl
          (keeps ∙ ap (λ t. control t.1) eq ∙ send-Keeps control (λ t l n k m. refl) w device row s)
    | inr (inr (device, allowed, fresh, eq)) ↦ inr (
      handle_keeps (is_reserved id) (λ t l n k m. refl) w (saved_reserved id) d r c s
          ∙ ap (λ t. is_reserved id t.1) eq
          ∙ run_reserved-Keeps (is_reserved id) (λ t l n k m. refl) w (saved_reserved id)
              (λ t a i x k m. refl) device r c.payload (reserved r c.payload s)
          ∙ reserves_id r c.payload s,
      handle_keeps (is_used nonce) (λ t l n k m. refl) w (saved_used nonce) d r c s
          ∙ ap (λ t. is_used nonce t.1) eq
          ∙ run_reserved-Keeps (is_used nonce) (λ t l n k m. refl) w (saved_used nonce)
              (λ t a i x k m. refl) device r c.payload (reserved r c.payload s)
          ∙ uses_nonce r c.payload s,
    )
  ]
    where
      id : String
      id = c.payload.command_id

      nonce : String
      nonce = c.payload.nonce

      keeps : control (handle w d r c s).1 ≡ control (accept w d r c s).1
      keeps = handle_keeps control (λ t l n k m. refl) w saved_control d r c s

  not-IsFresh : (p : CommandPayload) (s : State) → IsSpent p s → ¬ IsFresh p s
  unfolding is_known
  not-IsFresh p s h (new, free) = ground arith

  spent_is_idle :
      (d : Device) (r : String) (c : SignedCommand) (s : State)
      → IsSpent c.payload s
      → control (handle w d r c s).1 ≡ control s
  spent_is_idle d r c s spent = elim (handle-IsAuthorized d r c s) [
    | inl e ↦ e
    | inr (device, allowed, fresh) ↦ elim (not-IsFresh c.payload s spent fresh) [ ]
  ]

-- A command as it arrives: the world at that time, the device of the envelope, and the request.
pub record Arrival : Type 0 where
  pub world : RemoteWorld
  pub device : Device
  pub request_id : String
  pub signed : SignedCommand

unfoldable pub arrive : Arrival → State → State
arrive a s = (handle a.world a.device a.request_id a.signed s).1

unfoldable pub run : List Arrival → State → State
unfolding arrive
run [] s = s
run (a ∷ rest) s = run rest (arrive a s)

run-IsSpent :
    (p : CommandPayload) (l : List Arrival) (s : State) → IsSpent p s → IsSpent p (run l s)
unfolding run arrive
run-IsSpent p [] s h = h
run-IsSpent p (a ∷ rest) s h =
    run-IsSpent p rest (arrive a s) (IsSpent-stays a.world p a.device a.request_id a.signed s h)

-- Once a command has changed anything that commands are there to change, no command with the same id,
-- and none with the same nonce, changes anything of that again, whatever commands arrive in between.
pub arrive_once :
    (a b : Arrival) (between : List Arrival) (s : State)
    → control (arrive a s) ≢ control s
    → (a.signed.payload.command_id ≡ b.signed.payload.command_id)
      ⊎ (a.signed.payload.nonce ≡ b.signed.payload.nonce)
    → control (arrive b (run between (arrive a s))) ≡ control (run between (arrive a s))
unfolding arrive
arrive_once a b between s changed same =
    spent_is_idle b.world b.device b.request_id b.signed (run between (arrive a s))
      (run-IsSpent b.signed.payload between (arrive a s) spent)
  where
    spent : IsSpent b.signed.payload (arrive a s)
    spent = elim (spends a.world a.device a.request_id a.signed s) [
      | inl e ↦ elim (changed e) [ ]
      | inr (known, used) ↦ elim same [
        | inl e ↦ inl (ap (λ x. is_reserved x (arrive a s)) (sym e) ∙ known)
        | inr e ↦ inr (ap (λ x. is_used x (arrive a s)) (sym e) ∙ used)
      ]
    ]
