-- ===== src/Remote/Devices/Registering.antt =====
-- The registration of a device by src/remote/device-registry.ts.
use vops.Prelude.{
  ℕ, suc, String, ◌≡◌, ◌≢◌, refl, ap, ◌∙◌, ◌==◌, eq_iff, arith, true, ◌||◌, Option, none, some,
  List, [], ◌∷◌, ◌⊎◌, inl, inr, Bool-cases, any, ltb,
}
use vops.Prelude.Result.{Result, ok, err}
use vops.Prelude.Texts.{◌⋯◌}
use vops.Agent.Store
use vops.Agent.Store.Tables.{records}
use vops.Remote.Model.{Device, Fault, other, active}
use vops.Remote.Store.{
  RemoteWorld, State, ◌>>◌, pure, now, save_device, get_device_by_route, by_route, route_taken,
}
use vops.Remote.Devices.{
  Registration, register, event, refuse_paired, clean_label, is_revoked, given, no_restrictions,
  normalize_restrictions,
}

module _ (w : RemoteWorld) where
  refuse_paired_cases :
      (o : Option Device) (s : State)
      → ((e : Fault) × (refuse_paired w o s ≡ (err e, s))) ⊎ (refuse_paired w o s ≡ (ok tt, s))
  unfolding refuse_paired
  refuse_paired_cases none s = inr refl
  refuse_paired_cases (some d) s = elim (Bool-cases (is_revoked d.status)) [
    | inl e ↦ inr (rw e refl)
    | inr e ↦ inl (other "This device route is already paired.", rw e refl)
  ]

  clean_label_cases :
      (l : String) (s : State)
      → ((e : Fault) × (clean_label w l s ≡ (err e, s)))
        ⊎ ((v : String) × (clean_label w l s ≡ (ok v, s)))
  unfolding clean_label
  clean_label_cases l s =
      elim (Bool-cases (w.cleaned l == "" || ltb 80 (w.length_of (w.cleaned l)))) [
        | inl e ↦ inl (other "Device label must be between 1 and 80 characters.", rw e refl)
        | inr e ↦ inr (w.cleaned l, rw e refl)
      ]

  -- The device that a registration stores, under a label that has been cleaned.
  abbrev pub registered : Registration → String → State → Device
  registered input label s = record {
    id = w.agent_world.local_id "device" s.agent.draws;
    route_id = input.route_id;
    label = label;
    role = input.role;
    status = active;
    signing_public_key = input.signing_public_key;
    exchange_public_key = input.exchange_public_key;
    key_id = input.key_id;
    restrictions = normalize_restrictions input.role (given input.restrictions no_restrictions);
    paired_at = now w;
    updated_at = now w;
    last_seen_at = none;
    revoked_at = none;
    suspended_at = none;
  }

  -- The state with another count of the identifiers that have been drawn.
  abbrev pub at_draw : State → ℕ → State
  at_draw s n = record s { agent = record s.agent { draws = n } }

  abbrev pub drawn : State → State
  drawn s = at_draw s (suc s.agent.draws)

  abbrev pub saved : Registration → String → State → Result Fault Device × State
  saved input label s =
      (save_device w (registered input label s)
          >> (event w (registered input label s) "remote.device.paired"
                ("Paired remote device '" ⋯ label ⋯ "'.")
              >> pure (registered input label s)))
        (drawn s)

  pub register_cases :
      (input : Registration) (s : State)
      → ((e : Fault) × (n : ℕ) × (register w input s ≡ (err e, at_draw s n)))
        ⊎ ((label : String) × (register w input s ≡ saved input label s))
  unfolding register get_device_by_route Store.local_id
  register_cases input s =
      elim (refuse_paired_cases (by_route w input.route_id (records s.devices)) s) [
        | inl (e, a) ↦ inl (e, s.agent.draws, rw (a, register) refl)
        | inr a ↦ elim (clean_label_cases input.label (drawn s)) [
          | inl (e, b) ↦ inl (e, suc s.agent.draws, rw (a, b, register) refl)
          | inr (v, b) ↦ inr (v, rw (a, b, register) refl)
        ]
      ]

  route_taken_by :
      (d row : Device) (rows : List Device)
      → by_route w d.route_id rows ≡ some row
      → d.id ≢ row.id
      → route_taken w d rows ≡ true
  unfolding by_route route_taken any
  route_taken_by d row [] h differs = ground arith
  route_taken_by d row (x ∷ rest) h differs =
      ground (arith, eq_iff x.route_id d.route_id, eq_iff x.id d.id, route_taken_by d row rest)

  -- A route that the store holds for a device, whatever its status, cannot be registered again: where
  -- the device has been revoked, and so is no reason to refuse it, the row is not unique.
  pub register-fails :
      (input : Registration) (s : State) (d : Device)
      → by_route w input.route_id (records s.devices) ≡ some d
      → w.agent_world.local_id "device" s.agent.draws ≢ d.id
      → (e : Fault) × ((register w input s).0 ≡ err e)
  unfolding save_device
  register-fails input s d held new = elim (register_cases input s) [
    | inl (e, n, eq) ↦ (e, ap (λ x. x.0) eq)
    | inr (label, eq) ↦ (
      other "UNIQUE constraint failed: remote_devices.route_id",
      ap (λ x. x.0) eq
          ∙ rw (route_taken_by (registered input label s) d (records s.devices) held new) refl,
    )
  ]
