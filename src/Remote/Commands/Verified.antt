-- ===== src/Remote/Commands/Verified.antt =====
-- What src/remote/remote-command.handler.ts has checked of a command that it accepts.
use vops.Prelude.{
  ℕ, ◌+◌, ◌≤◌, ◌<◌, String, ◌≡◌, ◌≢◌, refl, arith, ◌⊎◌, inl, inr, eq_iff, true, false, Option, none,
  some, Bool-cases, Option-cases,
}
use vops.Prelude.Result.{Result, ok, err}
use vops.Agent.Store.Tables.{records}
use vops.Remote.Model.{
  viewer, admin, Device, active, DeviceStatus, CommandPayload, SignedCommand, Fault, command, other,
}
use vops.Remote.Store.{RemoteWorld, State, ◌>>◌, pure, now, by_route, get_device_by_route}
use vops.Remote.Messenger.{is_active}
use vops.Remote.Devices.{get_active_by_route, or_inactive, has_lapsed}
use vops.Remote.Commands.Checks.{
  clock_skew_ms, max_command_lifetime_ms, admin_only, authorize_role, is_viewer, is_admin,
  validate_command_time, times_denial, binding_denial, validate_signed_command_shape,
}
use vops.Remote.Commands.Execution.{refuse}
use vops.Remote.Commands.{verify}

-- The command is signed by a device that the store holds, and that may have it carried out now.
pub record Authorized (w : RemoteWorld) (s : State) (route_id : String) (device : Device)
    (signed : SignedCommand) : Type 0 where
  pub is_registered : by_route w route_id (records s.devices) ≡ some device
  pub is_active_device : device.status ≡ active
  pub grant_holds : has_lapsed w device.restrictions.valid_until ≡ false
  pub device_is_named : device.id ≡ signed.payload.device_id
  pub node_is_named : signed.payload.node_id ≡ w.node_id
  pub key_is_current : signed.key_id ≡ device.key_id
  pub is_signed :
      w.verify_signature signed.payload signed.signature device.signing_public_key ≡ true
  pub is_timely :
      (issued : ℕ) × (expires : ℕ) × (signed.payload.issued_at ≡ some issued)
      × (signed.payload.expires_at ≡ some expires)
      × (issued ≤ now w + clock_skew_ms)
      × (now w ≤ expires + clock_skew_ms)
      × (issued < expires)
      × (expires ≤ issued + max_command_lifetime_ms)
  pub is_no_viewer : device.role ≢ viewer
  pub admin_where_needed : admin_only signed.payload.type_of ≡ true → device.role ≡ admin

module _ (w : RemoteWorld) where
  by_binding :
      (d : Device) (c : SignedCommand)
      → binding_denial w d c ≡ none
      → (d.id ≡ c.payload.device_id)
        × (c.payload.node_id ≡ w.node_id)
        × (c.key_id ≡ d.key_id)
        × (w.verify_signature c.payload c.signature d.signing_public_key ≡ true)
  unfolding binding_denial
  by_binding d c h = ground (
    arith,
    eq_iff d.id c.payload.device_id,
    eq_iff c.payload.node_id w.node_id,
    eq_iff c.key_id d.key_id,
  )

  by_times :
      (from until : Option ℕ)
      → times_denial w from until ≡ none
      → (issued : ℕ) × (expires : ℕ) × (from ≡ some issued)
        × (until ≡ some expires)
        × (issued ≤ now w + clock_skew_ms)
        × (now w ≤ expires + clock_skew_ms)
        × (issued < expires)
        × (expires ≤ issued + max_command_lifetime_ms)
  unfolding times_denial
  by_times (some issued) (some expires) h =
      (issued, expires, refl, refl, ground arith, ground arith, ground arith, ground arith)
  by_times none until h = ground arith
  by_times (some issued) none h = ground arith

  by_role :
      (d : Device) (p : CommandPayload)
      → authorize_role d p ≡ none
      → (d.role ≢ viewer) × (admin_only p.type_of ≡ true → d.role ≡ admin)
  unfolding authorize_role is_viewer is_admin
  by_role d p h = ground arith

  by_status : (t : DeviceStatus) → is_active t ≡ true → t ≡ active
  unfolding is_active
  by_status t h = ground arith

  by_activity :
      (o : Option Device) (s : State)
      → ((e : Fault) × (or_inactive w o s ≡ (err e, s)))
        ⊎ ((d : Device) × (o ≡ some d)
            × (or_inactive w o s ≡ (ok d, s))
            × (d.status ≡ active)
            × (has_lapsed w d.restrictions.valid_until ≡ false))
  unfolding or_inactive
  by_activity none s = inl (other "Remote device is not active.", refl)
  by_activity (some d) s = elim (Bool-cases (is_active d.status)) [
    | inr e ↦ inl (other "Remote device is not active.", rw e refl)
    | inl e ↦ elim (Bool-cases (has_lapsed w d.restrictions.valid_until)) [
      | inl f ↦ inl (other "Remote device grant expired.", rw (e, f) refl)
      | inr f ↦ inr (d, refl, rw (e, f) refl, by_status d.status e, f)
    ]
  ]

  -- What is known of a command once its device is known to be active.
  by_checks :
      (route : String) (d : Device) (c : SignedCommand) (s : State)
      → by_route w route (records s.devices) ≡ some d
      → d.status ≡ active
      → has_lapsed w d.restrictions.valid_until ≡ false
      → binding_denial w d c ≡ none
      → validate_command_time w c.payload ≡ none
      → authorize_role d c.payload ≡ none
      → Authorized w s route d c
  unfolding validate_command_time
  by_checks route d c s found up holds b t r =
      let (named, here, key, signed) = by_binding d c b in
      let (no_viewer, needed) = by_role d c.payload r in
      record {
        is_registered = found;
        is_active_device = up;
        grant_holds = holds;
        device_is_named = named;
        node_is_named = here;
        key_is_current = key;
        is_signed = signed;
        is_timely = by_times c.payload.issued_at c.payload.expires_at t;
        is_no_viewer = no_viewer;
        admin_where_needed = needed;
      }

  abbrev Verdict : String → SignedCommand → State → Result Fault Device × State → Type 0
  Verdict route c s r =
      ((e : Fault) × (r ≡ (err e, s))) ⊎ ((d : Device) × (r ≡ (ok d, s)) × Authorized w s route d c)

  checked :
      (route : String) (d : Device) (c : SignedCommand) (s : State)
      → by_route w route (records s.devices) ≡ some d
      → d.status ≡ active
      → has_lapsed w d.restrictions.valid_until ≡ false
      → Verdict route c s (
          (refuse (binding_denial w d c)
              >> (refuse (validate_command_time w c.payload)
                  >> (refuse (authorize_role d c.payload) >> pure d)))
            s)
  unfolding refuse
  checked route d c s found up holds = elim (Option-cases (binding_denial w d c)) [
    | inr (e, b) ↦ inl (command e, rw b refl)
    | inl b ↦ elim (Option-cases (validate_command_time w c.payload)) [
      | inr (e, t) ↦ inl (command e, rw (b, t) refl)
      | inl t ↦ elim (Option-cases (authorize_role d c.payload)) [
        | inr (e, r) ↦ inl (command e, rw (b, t, r) refl)
        | inl r ↦ inr (d, rw (b, t, r) refl, by_checks route d c s found up holds b t r)
      ]
    ]
  ]

  pub verify_cases :
      (envelope : Device) (c : SignedCommand) (s : State)
      → Verdict envelope.route_id c s (verify w envelope c s)
  unfolding verify refuse get_active_by_route get_device_by_route
  verify_cases envelope c s = elim (Option-cases (validate_signed_command_shape w c)) [
    | inr (e, a) ↦ inl (command e, rw (a, verify) refl)
    | inl a ↦ elim (by_activity (by_route w envelope.route_id (records s.devices)) s) [
      | inl (e, b) ↦ inl (e, rw (a, verify, b) refl)
      | inr (d, found, b, up, holds) ↦
          rw (a, verify, b) (checked envelope.route_id d c s found up holds)
    ]
  ]
