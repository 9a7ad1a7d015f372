-- ===== src/Remote/Pairing/Proven.antt =====
-- What src/remote/pairing.service.ts knows of a device that it registers.
use vops.Prelude.{
  ℕ, String, ◌≢◌, ◌≡◌, refl, sym, ap, ◌∙◌, ◌==◌, arith, Bool, true, false, not, ◌⊎◌, inl, inr,
  Option, none, some, List, [], ◌∷◌, ◌<◌, ◌+◌, leb, Bool-cases, if◌then◌else◌, not_leb, keep,
}
use mathlib.Core.Path.{subst}
use vops.Prelude.Result.{Result, ok, err}
use vops.Agent.Json.{Json, str, obj, field, end}
use vops.Prelude.Texts.{◌⋯◌}
use vops.Agent.Store.Tables
use vops.Agent.Store.Tables.{Table, upsert, get-upsert, records}
use vops.Remote.Model.{
  Device, Fault, other, Message, node_confirmation, PairingSession, PairingStatus, pending,
  hello_received, confirmed, expired, Challenge,
}
use vops.Remote.Store.{
  RemoteWorld, State, M, ◌>>=◌, ◌>>◌, pure, throw, bind_result, now, save_device, route_taken,
  save_pairing, list_pairings, get_pairing, random_id, next_outbound_sequence,
}
use vops.Remote.Store.Keeps.{Keeps, Keeps-then, append_event-Keeps}
use vops.Remote.Messenger.{transmit}
use vops.Remote.Devices
use vops.Remote.Devices.{Registration, role_name}
use vops.Remote.Devices.Registering.{register_cases, registered, drawn}
use vops.Remote.Pairing.{
  pairing_ttl_ms, HelloFrame, Confirmation, challenge_of, same_status, present, event, refuse,
  create, live_or_throw, require_live, proves, receive, handle_hello, register_with,
  register_device, confirm, is_waiting, expire_all, list,
}

-- The device has been heard of.
unfoldable pub is_heard : PairingStatus → Bool
is_heard hello_received = true
is_heard confirmed = true
is_heard _ = false

truth_differs : false ≢ true
truth_differs = cc

pub heard_then : (t : PairingStatus) → same_status t hello_received ≡ true → is_heard t ≡ true
unfolding same_status is_heard
heard_then t h = ground arith

-- The end of `confirm`, once the device is registered.
module _ (w : RemoteWorld) where
  abbrev pub confirmed_as : PairingSession → Device → PairingSession
  confirmed_as p device = record p { status = confirmed; confirmed_device_id = some device.id }

  abbrev pub finished : PairingSession → Device → String → M (PairingSession × Device)
  finished p device id = do
    sequence ← next_outbound_sequence w device.id
    random_id w "msg"
    transmit w device.id sequence node_confirmation
    save_pairing w (confirmed_as p device)
    event w "remote.pairing.confirmed" ("Confirmed remote device '" ⋯ device.label ⋯ "'.") (
        obj (
          field "pairingId" (str id)
            (field "deviceId" (str device.id) (field "role" (str (role_name device.role)) end))))
    pure (confirmed_as p device, device)

  abbrev new_pairing : String → String → PairingSession
  new_pairing id challenge = record {
    id = id;
    node_id = w.node_id;
    challenge = challenge;
    status = pending;
    created_at = now w;
    expires_at = now w + pairing_ttl_ms;
    device_route_id = none;
    device_signing_public_key = none;
    device_exchange_public_key = none;
    challenge_signature = none;
    confirmed_device_id = none;
  }

  save_device-Keeps : (d : Device) → Keeps (λ s. s.pairings) (save_device w d)
  unfolding save_device
  save_device-Keeps d s = elim (Bool-cases (route_taken w d (records s.devices))) [
    | inl e ↦ rw e refl
    | inr e ↦ rw e refl
  ]

  register-Keeps : (input : Registration) → Keeps (λ s. s.pairings) (Devices.register w input)
  unfolding Devices.event
  register-Keeps input s = elim (register_cases w input s) [
    | inl (e, n, eq) ↦ ap (λ x. x.1.pairings) eq
    | inr (label, eq) ↦
        ap (λ x. x.1.pairings) eq
        ∙ Keeps-then (λ t. t.pairings) (save_device w (registered w input label s)) _
            (save_device-Keeps (registered w input label s))
            (Keeps-then (λ t. t.pairings) (Devices.event w (registered w input label s) _ _)
              (pure _) (append_event-Keeps (λ t. t.pairings) (λ t a i x c m. refl) w _ _ none _ _)
              (λ t. refl))
            (drawn w s)
  ]

  next_outbound-Keeps : (id : String) → Keeps (λ s. s.pairings) (next_outbound_sequence w id)
  unfolding next_outbound_sequence
  next_outbound-Keeps id s = refl

  transmit-Keeps : (id : String) (n : ℕ) (m : Message) → Keeps (λ s. s.pairings) (transmit w id n m)
  unfolding transmit
  transmit-Keeps id n m s = refl

module _ (genuine : Challenge → String → String → Bool) where
  -- The pairing holds the route and the keys of a frame whose signature is genuine.
  abbrev pub Proves : PairingSession → Type 0
  Proves p =
      (f : HelloFrame) × (p.device_route_id ≡ some f.device_route_id)
      × (p.device_signing_public_key ≡ some f.signing_public_key)
      × (p.device_exchange_public_key ≡ some f.exchange_public_key)
      × (genuine (challenge_of p f) f.challenge_signature f.signing_public_key ≡ true)

  abbrev pub Stands : PairingSession → Type 0
  Stands p = is_heard p.status ≡ true → Proves p

  abbrev pub AllStand : State → Type 0
  AllStand s = (key : String) (p : PairingSession) → Tables.get key s.pairings ≡ some p → Stands p

  unfoldable pub Preserves : {A : Type 0} → M A → Type 0
  Preserves m = (s : State) → AllStand s → AllStand (m s).1

  of_pairings : (s t : State) → t.pairings ≡ s.pairings → AllStand s → AllStand t
  of_pairings s t e h key p found = h key p (ap (Tables.get key) (sym e) ∙ found)

  of_Keeps : {A : Type 0} (m : M A) → Keeps (λ s. s.pairings) m → Preserves m
  unfolding Preserves
  of_Keeps m k s h = of_pairings s (m s).1 (k s) h

  bound :
      {A B : Type 0} (r : Result Fault A) (k : A → M B) (s : State)
      → AllStand s
      → ((a : A) → Preserves (k a))
      → AllStand (bind_result r k s).1
  unfolding Preserves
  bound (ok a) k s h hk = hk a s h
  bound (err e) k s h hk = h

  Preserves-bind :
      {A B : Type 0} (m : M A) (k : A → M B)
      → Preserves m
      → ((a : A) → Preserves (k a))
      → Preserves (m >>= k)
  unfolding Preserves
  Preserves-bind m k hm hk s h = bound (m s).0 k (m s).1 (hm s h) hk

  Preserves-then :
      {A B : Type 0} (m : M A) (k : M B) → Preserves m → Preserves k → Preserves (m >> k)
  Preserves-then m k hm hk = Preserves-bind m (λ a. k) hm (λ a. hk)

  upsert-Stands :
      (key j : String) (p q : PairingSession) (t : Table PairingSession)
      → Stands p
      → (Tables.get j t ≡ some q → Stands q)
      → Tables.get j (upsert key p t) ≡ some q
      → Stands q
  upsert-Stands key j p q t new old found = elim (Bool-cases (key == j)) [
    | inl e ↦
        let same : some p ≡ some q =
          ap (λ b. if b then some p else Tables.get j t) (sym e)
          ∙ sym (get-upsert key j p t)
          ∙ found in
        let alike : p ≡ q = cc (same) in subst Stands alike new
    | inr e ↦ old (
        ap (λ b. if b then some p else Tables.get j t) (sym e) ∙ sym (get-upsert key j p t) ∙ found)
  ]

  Preserves-if :
      {A : Type 0} (b : Bool) (m k : M A)
      → Preserves m
      → Preserves k
      → Preserves (if b then m else k)
  Preserves-if true m k hm hk = hm
  Preserves-if false m k hm hk = hk

  module _ (w : RemoteWorld) where
    save_pairing-Preserves : (p : PairingSession) → Stands p → Preserves (save_pairing w p)
    unfolding Preserves save_pairing
    save_pairing-Preserves p new s h key q found =
        upsert-Stands p.id key p q s.pairings new (h key q) found

    event-Keeps :
        (type summary : String) (detail : Json)
        → Keeps (λ s. s.pairings) (event w type summary detail)
    unfolding event
    event-Keeps type summary detail =
        append_event-Keeps (λ s. s.pairings) (λ s a i x c t. refl) w _ type none summary detail

    event-Preserves :
        (type summary : String) (detail : Json) → Preserves (event w type summary detail)
    event-Preserves type summary detail =
        of_Keeps (event w type summary detail) (event-Keeps type summary detail)

    -- What `live_or_throw` finds, or how it fails.
    pub live_cases :
        (o : Option PairingSession) (expected : PairingStatus) (s : State)
        → AllStand s
        → ((e : Fault) × (t : State) × (live_or_throw w o expected s ≡ (err e, t)) × AllStand t)
          ⊎ ((p : PairingSession) × (o ≡ some p)
              × (live_or_throw w o expected s ≡ (ok p, s))
              × (same_status p.status expected ≡ true)
              × (now w < p.expires_at))
    unfolding live_or_throw save_pairing is_heard
    live_cases none expected s h = inl (other "Pairing was not found.", s, refl, h)
    live_cases (some p) expected s h = elim (Bool-cases (leb p.expires_at (now w))) [
      | inl late ↦ inl (
        other "Pairing session expired.",
        (save_pairing w (record p { status = expired }) s).1,
        rw late refl,
        λ key q found.
            upsert-Stands p.id key (record p { status = expired }) q s.pairings (λ e. cc (e))
              (h key q) found,
      )
      | inr live ↦ elim (Bool-cases (same_status p.status expected)) [
        | inr differs ↦ inl (other "Pairing is in another state.", s, rw (live, differs) refl, h)
        | inl same ↦ inr (p, refl, rw (live, same) refl, same, not_leb p.expires_at (now w) live)
      ]
    ]

    abbrev heard : PairingSession → HelloFrame → PairingSession
    heard p f = record p {
      status = hello_received;
      device_route_id = some f.device_route_id;
      device_signing_public_key = some f.signing_public_key;
      device_exchange_public_key = some f.exchange_public_key;
      challenge_signature = some f.challenge_signature;
    }

    pure-Preserves : {A : Type 0} (a : A) → Preserves (pure a)
    unfolding Preserves
    pure-Preserves a s h = h

    throw-Preserves : (A : Type 0) (e : Fault) → Preserves (throw {A = A} e)
    unfolding Preserves
    throw-Preserves A e s h = h

    refuse-Preserves : (o : Option String) → Preserves (refuse w o)
    unfolding refuse
    refuse-Preserves none = pure-Preserves tt
    refuse-Preserves (some m) = throw-Preserves (Unit {0}) (other m)

    random_id-Preserves : (prefix : String) → Preserves (random_id w prefix)
    unfolding random_id
    random_id-Preserves prefix = of_Keeps (random_id w prefix) (λ s. refl)

    list_pairings-Preserves : Preserves (list_pairings w)
    unfolding list_pairings
    list_pairings-Preserves = of_Keeps (list_pairings w) (λ s. refl)

    -- A pairing whose device has not been heard of.
    fresh-Stands : (p : PairingSession) → is_heard p.status ≡ false → Stands p
    fresh-Stands p e h = elim (truth_differs (sym e ∙ h)) [ ]

    module _ (honest : w.verify_challenge ≡ genuine) where
      receive-Preserves : (p : PairingSession) (f : HelloFrame) → Preserves (receive w p f)
      unfolding Preserves receive proves
      receive-Preserves p f s h =
          elim (Bool-cases
            (w.verify_challenge (challenge_of p f) f.challenge_signature f.signing_public_key)) [
              | inr bad ↦ rw bad (
                  Preserves-then (event w "remote.pairing.rejected" _ _) (throw _)
                    (event-Preserves _ _ _) (λ t k. k) s h)
              | inl good ↦ rw good (
                  Preserves-then (save_pairing w (heard p f)) _
                    (save_pairing-Preserves (heard p f) (λ e. (
                      f,
                      refl,
                      refl,
                      refl,
                      ap (λ v. v (challenge_of p f) f.challenge_signature f.signing_public_key)
                            (sym honest)
                          ∙ good,
                    )))
                    (event-Preserves _ _ _) s h)
            ]

      -- What comes after `require_live` may rely on the pairing.
      require_live-Preserves :
          {A : Type 0} (id : String) (expected : PairingStatus) (k : PairingSession → M A)
          → ((p : PairingSession)
              → same_status p.status expected ≡ true
              → Stands p
              → Preserves (k p))
          → Preserves (require_live w id expected >>= k)
      unfolding Preserves require_live get_pairing
      require_live-Preserves id expected k rest s h =
          elim (live_cases (Tables.get id s.pairings) expected s h) [
            | inl (e, t, eq, stands) ↦ rw eq stands
            | inr (p, found, eq, same, live) ↦ rw eq (rest p same (h id p found) s h)
          ]

      pub handle_hello-Preserves : (f : HelloFrame) → Preserves (handle_hello w f)
      unfolding handle_hello
      handle_hello-Preserves f =
          require_live-Preserves f.pairing_id pending (λ p. receive w p f)
            (λ p same stands. receive-Preserves p f)

      pub create-Preserves : Preserves (create w)
      unfolding create is_heard
      create-Preserves = Preserves-if (not w.enabled) (throw _) _ (throw-Preserves _ _) (
          Preserves-bind (random_id w "pair") _ (random_id-Preserves "pair") (λ id.
            Preserves-bind (random_id w "challenge") _ (random_id-Preserves "challenge")
              (λ challenge.
                Preserves-then (refuse w (w.register_pairing id (now w + pairing_ttl_ms))) _
                  (refuse-Preserves _)
                  (Preserves-then (save_pairing w (new_pairing w id challenge)) _
                    (save_pairing-Preserves (new_pairing w id challenge)
                      (fresh-Stands (new_pairing w id challenge) refl))
                    (Preserves-then (event w "remote.pairing.created" _ _)
                      (pure (new_pairing w id challenge)) (event-Preserves _ _ _)
                      (pure-Preserves (new_pairing w id challenge)))))))

      expire_all-Preserves : (l : List PairingSession) → Preserves (expire_all w l)
      unfolding expire_all is_heard
      expire_all-Preserves [] = pure-Preserves tt
      expire_all-Preserves (p ∷ rest) =
          Preserves-then (save_pairing w (record p { status = expired })) (expire_all w rest)
            (save_pairing-Preserves (record p { status = expired })
              (fresh-Stands (record p { status = expired }) refl))
            (expire_all-Preserves rest)

      pub list-Preserves : Preserves (list w)
      unfolding list
      list-Preserves = Preserves-bind (list_pairings w) _ (list_pairings-Preserves) (λ rows.
          Preserves-then (expire_all w (keep (is_waiting w) rows)) (list_pairings w)
            (expire_all-Preserves (keep (is_waiting w) rows)) list_pairings-Preserves)

      register_device-Preserves :
          (route signing exchange : Option String) (input : Confirmation)
          → Preserves (register_device w route signing exchange input)
      unfolding register_device register_with
      register_device-Preserves (some route) (some signing) (some exchange) input =
          of_Keeps _ (register-Keeps w _)
      register_device-Preserves (some route) (some signing) none input = throw-Preserves Device _
      register_device-Preserves (some route) none exchange input = throw-Preserves Device _
      register_device-Preserves none signing exchange input = throw-Preserves Device _

      finished-Preserves :
          (p : PairingSession) (device : Device) (id : String)
          → Proves p
          → Preserves (finished w p device id)
      unfolding is_heard
      finished-Preserves p device id proof =
          Preserves-bind (next_outbound_sequence w device.id) _
            (of_Keeps _ (next_outbound-Keeps w device.id))
            (λ n. Preserves-then (random_id w "msg") _ (random_id-Preserves "msg") (
              Preserves-then (transmit w device.id n node_confirmation) _
                (of_Keeps _ (transmit-Keeps w device.id n node_confirmation))
                (Preserves-then (save_pairing w (confirmed_as w p device)) _
                  (save_pairing-Preserves (confirmed_as w p device) (λ e. proof))
                  (Preserves-then (event w "remote.pairing.confirmed" _ _) _ (event-Preserves _ _ _)
                    (pure-Preserves (confirmed_as w p device, device))))))

      pub confirm-Preserves : (id : String) (input : Confirmation) → Preserves (confirm w id input)
      unfolding confirm is_heard same_status
      confirm-Preserves id input = Preserves-if (not w.online) (throw _) _ (throw-Preserves _ _) (
          require_live-Preserves id hello_received _ (λ p same stands.
            Preserves-bind
              (register_device w (present p.device_route_id) (present p.device_signing_public_key)
                (present p.device_exchange_public_key) input)
              _ (register_device-Preserves _ _ _ input)
              (λ device. finished-Preserves p device id (stands (heard_then p.status same)))))
