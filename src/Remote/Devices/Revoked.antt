-- ===== src/Remote/Devices/Revoked.antt =====
-- What src/remote/device-registry.ts does with a device that has been revoked.
use vops.Prelude.{
  ℕ, String, ◌≡◌, ◌≢◌, refl, sym, ap, ◌∙◌, ◌==◌, eq_iff, arith, false, not, ◌&&◌, ◌||◌, none, some,
  List, [], ◌∷◌, inl, inr, Bool-cases, Option-cases, if◌then◌else◌,
}
use vops.Prelude.Texts.{◌⋯◌}
use mathlib.Core.Path.{subst}
use vops.Agent.Store.Tables
use vops.Agent.Store.Tables.{Table, records, upsert, get-upsert}
use vops.Remote.Model.{Role, Device, DeviceStatus, active, suspended, revoked}
use vops.Remote.Store.{RemoteWorld, State, M, ◌>>◌, pure, now, save_device, get_device, route_taken}
use vops.Remote.Store.Keeps.{Keeps, Keeps-then, Keeps-if, after_bind, append_event-Keeps}
use vops.Remote.Intents
use vops.Remote.Intents.Keeping.{disable_for_device-Keeps}
use vops.Remote.Devices.Registering.{register_cases, registered, drawn}
use vops.Remote.Devices.{
  Registration, register, touch, set_status, suspend, resume, revoke, set_role, get, or_not_found,
  event, status_name, is_revoked, is_suspended, with_status, change_status, change_role,
  normalize_restrictions, as_given,
}

abbrev devices_of : State → Table Device
devices_of s = s.devices

abbrev pub IsKeyed : Table Device → Type 0
IsKeyed t = (key : String) (d : Device) → Tables.get key t ≡ some d → d.id ≡ key

-- The device `id` is revoked; every device is stored under its id.
pub record HasRevoked (id : String) (t : Table Device) : Type 0 where
  pub keyed : IsKeyed t
  pub device : Device
  pub held : Tables.get id t ≡ some device
  pub stopped : device.status ≡ revoked

upsert-IsKeyed : (d : Device) (t : Table Device) → IsKeyed t → IsKeyed (upsert d.id d t)
upsert-IsKeyed d t keyed key e h =
    ground (arith, get-upsert d.id key d t, eq_iff d.id key, keyed key e)

upsert-HasRevoked :
    (id : String) (d : Device) (t : Table Device)
    → HasRevoked id t
    → (d.id ≡ id → d.status ≡ revoked)
    → HasRevoked id (upsert d.id d t)
upsert-HasRevoked id d t h same = elim (Bool-cases (d.id == id)) [
  | inl e ↦ record {
    keyed = upsert-IsKeyed d t h.keyed;
    device = d;
    held = get-upsert d.id id d t ∙ rw e refl;
    stopped = same (ground (arith, eq_iff d.id id));
  }
  | inr e ↦ record {
    keyed = upsert-IsKeyed d t h.keyed;
    device = h.device;
    held = get-upsert d.id id d t ∙ rw e h.held;
    stopped = h.stopped;
  }
]

module _ (w : RemoteWorld) (id : String) where
  save_device-HasRevoked :
      (d : Device) (s : State)
      → HasRevoked id s.devices
      → (d.id ≡ id → d.status ≡ revoked)
      → HasRevoked id (save_device w d s).1.devices
  unfolding save_device
  save_device-HasRevoked d s h same = elim (Bool-cases (route_taken w d (records s.devices))) [
    | inl e ↦ rw e h
    | inr e ↦ rw e (upsert-HasRevoked id d s.devices h same)
  ]

  event-Keeps : (d : Device) (type summary : String) → Keeps devices_of (event w d type summary)
  unfolding event
  event-Keeps d type summary =
      append_event-Keeps devices_of (λ s a i x c t. refl) w _ type none summary _

  saved_then :
      {A : Type 0} (d : Device) (k : M A) (s : State)
      → HasRevoked id s.devices
      → (d.id ≡ id → d.status ≡ revoked)
      → Keeps devices_of k
      → HasRevoked id ((save_device w d >> k) s).1.devices
  saved_then d k s h same keeps =
      subst (HasRevoked id) (sym (after_bind devices_of (save_device w d) (λ u. k) s (λ u. keeps)))
        (save_device-HasRevoked d s h same)

  -- The device that is found under the id is the revoked one.
  found_revoked :
      (t : Table Device) (key : String) (d : Device)
      → HasRevoked id t
      → Tables.get key t ≡ some d
      → d.id ≡ id
      → d.status ≡ revoked
  found_revoked t key d h found same = ground (arith, h.keyed key d found, h.held, h.stopped)

  disabling-Keeps :
      (d : Device) (t : DeviceStatus)
      → Keeps devices_of (
          if is_suspended t || is_revoked t
          then Intents.disable_for_device w d.id (is_revoked t)
          else pure tt)
  disabling-Keeps d t =
      Keeps-if devices_of (is_suspended t || is_revoked t) _ (pure tt)
        (disable_for_device-Keeps devices_of (λ s a i x c m. refl) w d.id (is_revoked t))
        (λ s. refl)

  stays :
      (a b : DeviceStatus)
      → (is_revoked a && not (is_revoked b)) ≡ false
      → a ≡ revoked
      → b ≡ revoked
  unfolding is_revoked
  stays a b e h = ground arith

  change_status-HasRevoked :
      (d : Device) (t : DeviceStatus) (s : State)
      → HasRevoked id s.devices
      → (d.id ≡ id → d.status ≡ revoked)
      → HasRevoked id (change_status w d t s).1.devices
  unfolding change_status with_status
  change_status-HasRevoked d t s h same =
      elim (Bool-cases (is_revoked d.status && not (is_revoked t))) [
        | inl e ↦ rw (e, change_status) h
        | inr e ↦
            rw (e, change_status)
              (saved_then (with_status w d t) _ s h (λ i. stays d.status t e (same i))
                (Keeps-then devices_of _ _ (disabling-Keeps (with_status w d t) t) (
                  Keeps-then devices_of
                    (event w (with_status w d t) ("remote.device." ⋯ status_name t) _)
                    (pure (with_status w d t)) (event-Keeps (with_status w d t) _ _) (λ u. refl))))
      ]

  set_status-HasRevoked :
      (key : String) (t : DeviceStatus) (s : State)
      → HasRevoked id s.devices
      → HasRevoked id (set_status w key t s).1.devices
  unfolding set_status get or_not_found get_device
  set_status-HasRevoked key t s h = elim (Option-cases (Tables.get key s.devices)) [
    | inl e ↦ rw (e, set_status) h
    | inr (d, e) ↦
        rw (e, set_status) (change_status-HasRevoked d t s h (found_revoked s.devices key d h e))
  ]

  touch-HasRevoked :
      (key : String) (s : State) → HasRevoked id s.devices → HasRevoked id (touch w key s).1.devices
  unfolding touch get or_not_found get_device
  touch-HasRevoked key s h = elim (Option-cases (Tables.get key s.devices)) [
    | inl e ↦ rw (e, touch) h
    | inr (d, e) ↦
        rw (e, touch)
          (saved_then (record d { last_seen_at = some (now w); updated_at = now w }) (pure _) s h
            (found_revoked s.devices key d h e) (λ u. refl))
  ]

  change_role-HasRevoked :
      (d : Device) (r : Role) (s : State)
      → HasRevoked id s.devices
      → (d.id ≡ id → d.status ≡ revoked)
      → HasRevoked id (change_role w d r s).1.devices
  unfolding change_role
  change_role-HasRevoked d r s h same = elim (Bool-cases (is_revoked d.status)) [
    | inl e ↦ rw (e, change_role) h
    | inr e ↦
        rw (e, change_role)
          (saved_then (changed) _ s h same (
            Keeps-then devices_of (event w changed "remote.device.role_changed" _) (pure changed)
              (event-Keeps changed _ _) (λ u. refl)))
  ]
    where
      changed : Device
      changed = record d {
        role = r;
        restrictions = normalize_restrictions r (as_given d.restrictions);
        updated_at = now w;
      }

  set_role-HasRevoked :
      (key : String) (r : Role) (s : State)
      → HasRevoked id s.devices
      → HasRevoked id (set_role w key r s).1.devices
  unfolding set_role get or_not_found get_device
  set_role-HasRevoked key r s h = elim (Option-cases (Tables.get key s.devices)) [
    | inl e ↦ rw (e, set_role) h
    | inr (d, e) ↦
        rw (e, set_role) (change_role-HasRevoked d r s h (found_revoked s.devices key d h e))
  ]

  register-HasRevoked :
      (input : Registration) (s : State)
      → ((n : ℕ) → w.agent_world.local_id "device" n ≢ id)
      → HasRevoked id s.devices
      → HasRevoked id (register w input s).1.devices
  register-HasRevoked input s new h = elim (register_cases w input s) [
    | inl (e, n, eq) ↦ subst (HasRevoked id) (sym (ap (λ x. x.1.devices) eq)) h
    | inr (label, eq) ↦ subst (HasRevoked id) (sym (ap (λ x. x.1.devices) eq)) (
        saved_then (registered w input label s) _ (drawn w s) h
          (λ i. elim (new s.agent.draws i) [ ])
          (Keeps-then devices_of (event w (registered w input label s) "remote.device.paired" _)
            (pure (registered w input label s)) (event-Keeps (registered w input label s) _ _)
            (λ u. refl)))
  ]

-- What is asked of the registry.
pub data Request : Type 0 where
  registers : Registration → Request
  touches suspends resumes revokes : String → Request
  gives_role : String → Role → Request

unfoldable pub request : RemoteWorld → Request → State → State
request w (registers input) s = (register w input s).1
request w (touches key) s = (touch w key s).1
request w (suspends key) s = (suspend w key s).1
request w (resumes key) s = (resume w key s).1
request w (revokes key) s = (revoke w key s).1
request w (gives_role key r) s = (set_role w key r s).1

unfoldable pub requests : List (RemoteWorld × Request) → State → State
unfolding request
requests [] s = s
requests ((w, q) ∷ rest) s = requests rest (request w q s)

abbrev pub IsNewTo : String → RemoteWorld → Type 0
IsNewTo id w = (n : ℕ) → w.agent_world.local_id "device" n ≢ id

abbrev pub AreNewTo : String → List (RemoteWorld × Request) → Type 0
AreNewTo id [] = Unit
AreNewTo id ((w, q) ∷ rest) = IsNewTo id w × AreNewTo id rest

request-HasRevoked :
    (w : RemoteWorld) (q : Request) (id : String) (s : State)
    → IsNewTo id w
    → HasRevoked id s.devices
    → HasRevoked id (request w q s).devices
unfolding request suspend resume revoke
request-HasRevoked w (registers input) id s new h = register-HasRevoked w id input s new h
request-HasRevoked w (touches key) id s new h = touch-HasRevoked w id key s h
request-HasRevoked w (suspends key) id s new h = set_status-HasRevoked w id key suspended s h
request-HasRevoked w (resumes key) id s new h = set_status-HasRevoked w id key active s h
request-HasRevoked w (revokes key) id s new h = set_status-HasRevoked w id key revoked s h
request-HasRevoked w (gives_role key r) id s new h = set_role-HasRevoked w id key r s h

-- A device that is revoked stays so, under any sequence of requests to the registry, if its id is not
-- drawn again.
pub requests-HasRevoked :
    (l : List (RemoteWorld × Request)) (id : String) (s : State)
    → AreNewTo id l
    → HasRevoked id s.devices
    → HasRevoked id (requests l s).devices
unfolding requests
requests-HasRevoked [] id s new h = h
requests-HasRevoked ((w, q) ∷ rest) id s (new, others) h =
    requests-HasRevoked rest id (request w q s) others (request-HasRevoked w q id s new h)
