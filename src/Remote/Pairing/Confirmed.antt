-- ===== src/Remote/Pairing/Confirmed.antt =====
-- What src/remote/pairing.service.ts has checked of a device that it confirms.
use vops.Prelude.{
  String, ◌≡◌, refl, sym, ap, ◌∙◌, arith, Bool, true, false, not, inl, inr, Option, none, some,
  List, [], ◌∷◌, ◌<◌, if◌then◌else◌,
}
use mathlib.Core.Path.{subst}
use vops.Prelude.Result.{Result, ok, err}
use vops.Agent.Store.Tables
use vops.Remote.Model.{
  Device, Fault, PairingSession, PairingStatus, hello_received, Challenge, node_confirmation,
}
use vops.Remote.Store.{
  RemoteWorld, State, M, ◌>>=◌, pure, throw, bind_result, now, save_device, save_pairing,
  get_pairing, random_id, next_outbound_sequence,
}
use vops.Remote.Messenger.{transmit}
use vops.Remote.Devices
use vops.Remote.Devices.{Registration}
use vops.Remote.Devices.Registering.{register_cases, registered, drawn}
use vops.Remote.Pairing.{
  HelloFrame, Confirmation, challenge_of, same_status, present, event, create, require_live,
  handle_hello, register_with, register_device, confirm, list,
}
use vops.Remote.Pairing.Proven.{
  AllStand, Preserves, is_heard, heard_then, live_cases, finished, confirmed_as, create-Preserves,
  handle_hello-Preserves, list-Preserves, confirm-Preserves,
}

bound_ok :
    {A B : Type 0} (r : Result Fault A) (k : A → M B) (s : State) {b : B}
    → (bind_result r k s).0 ≡ ok b
    → (a : A) × (r ≡ ok a) × ((k a s).0 ≡ ok b)
bound_ok (ok a) k s h = (a, refl, h)
bound_ok (err e) k s h = ground (arith, h)

-- A chain that succeeds, taken apart at its first step.
bind_ok :
    {A B : Type 0} (m : M A) (k : A → M B) (s : State) {b : B}
    → ((m >>= k) s).0 ≡ ok b
    → (a : A) × ((m s).0 ≡ ok a) × ((k a (m s).1).0 ≡ ok b)
bind_ok m k s h = bound_ok (m s).0 k (m s).1 h

unless_ok :
    {A : Type 0} (b : Bool) (e : Fault) (m : M A) (s : State) {a : A}
    → ((if b then throw e else m) s).0 ≡ ok a
    → (m s).0 ≡ ok a
unless_ok true e m s h = ground (arith, h)
unless_ok false e m s h = h

-- The device has the route and the keys of the registration.
abbrev Carries : Device → String → String → String → Type 0
Carries d route signing exchange =
    (d.route_id ≡ route) × (d.signing_public_key ≡ signing) × (d.exchange_public_key ≡ exchange)

module _ (w : RemoteWorld) where
  register_ok :
      (input : Registration) (s : State) (d : Device)
      → (Devices.register w input s).0 ≡ ok d
      → Carries d input.route_id input.signing_public_key input.exchange_public_key
  register_ok input s d h = elim (register_cases w input s) [
    | inl (e, n, eq) ↦ ground (arith, sym (ap (λ x. x.0) eq) ∙ h)
    | inr (label, eq) ↦
        let stored = registered w input label s in
        let (u, first, after) =
          bind_ok (save_device w stored) _ (drawn w s) (sym (ap (λ x. x.0) eq) ∙ h) in
        let (v, second, last) =
          bind_ok (Devices.event w stored "remote.device.paired" _) (λ x. pure stored)
            (save_device w stored (drawn w s)).1 after in
        let same : stored ≡ d = cc (last) in
        (
          sym (ap (λ (x : Device). x.route_id) same),
          sym (ap (λ (x : Device). x.signing_public_key) same),
          sym (ap (λ (x : Device). x.exchange_public_key) same),
        )
  ]

  register_device_ok :
      (route signing exchange : Option String) (input : Confirmation) (s : State) (d : Device)
      → (register_device w route signing exchange input s).0 ≡ ok d
      → (route ≡ some d.route_id)
        × (signing ≡ some d.signing_public_key)
        × (exchange ≡ some d.exchange_public_key)
  unfolding register_device register_with
  register_device_ok (some route) (some signing) (some exchange) input s d h =
      let (a, b, c) = register_ok _ s d h in (ap some (sym a), ap some (sym b), ap some (sym c))
  register_device_ok (some route) (some signing) none input s d h = ground (arith, h)
  register_device_ok (some route) none exchange input s d h = ground (arith, h)
  register_device_ok none signing exchange input s d h = ground (arith, h)

  present_ok : (o : Option String) (x : String) → present o ≡ some x → o ≡ some x
  unfolding present
  present_ok none x h = h
  present_ok (some a) x h = ground arith

  finished_ok :
      (p : PairingSession) (device : Device) (id : String) (s : State) (r : PairingSession × Device)
      → (finished w p device id s).0 ≡ ok r
      → (confirmed_as w p device, device) ≡ r
  finished_ok p device id s r h =
      let (n, a, h1) = bind_ok (next_outbound_sequence w device.id) _ s h in
      let (u, b, h2) = bind_ok (random_id w "msg") _ _ h1 in
      let (v, c, h3) = bind_ok (transmit w device.id n node_confirmation) _ _ h2 in
      let (x, d, h4) = bind_ok (save_pairing w (confirmed_as w p device)) _ _ h3 in
      let (y, e, h5) = bind_ok (event w "remote.pairing.confirmed" _ _) _ _ h4 in cc (h5)

  require_live_ok :
      (id : String) (expected : PairingStatus) (s : State) (p : PairingSession)
      (genuine : Challenge → String → String → Bool)
      → AllStand genuine s
      → (require_live w id expected s).0 ≡ ok p
      → (Tables.get id s.pairings ≡ some p)
        × (same_status p.status expected ≡ true)
        × (now w < p.expires_at)
  unfolding require_live get_pairing
  require_live_ok id expected s p genuine stands h =
      elim (live_cases genuine w (Tables.get id s.pairings) expected s stands) [
        | inl (e, t, eq, after) ↦ ground (arith, sym (ap (λ x. x.0) eq) ∙ h)
        | inr (q, found, eq, same, live) ↦
            let alike : q ≡ p = cc (sym (ap (λ x. x.0) eq) ∙ h) in
            subst
              (λ r.
                (Tables.get id s.pairings ≡ some r)
                × (same_status r.status expected ≡ true)
                × (now w < r.expires_at))
              alike (found, same, live)
      ]

-- A device that was confirmed for the pairing `id`, which the store held unexpired: it has the route and the
-- keys of a frame that a device has sent, and the frame signs the challenge of this pairing with these keys.
pub record IsConfirmed (genuine : Challenge → String → String → Bool) (w : RemoteWorld)
    (id : String) (s : State) (device : Device) : Type 0 where
  pub pairing : PairingSession
  pub was_held : Tables.get id s.pairings ≡ some pairing
  pub is_live : now w < pairing.expires_at
  pub frame : HelloFrame
  pub carries :
      Carries device frame.device_route_id frame.signing_public_key frame.exchange_public_key
  pub is_genuine :
      genuine (challenge_of pairing frame) frame.challenge_signature frame.signing_public_key ≡ true

module _ (genuine : Challenge → String → String → Bool) where
  confirm_ok :
      (w : RemoteWorld) (id : String) (input : Confirmation) (s : State)
      (r : PairingSession × Device)
      → AllStand genuine s
      → (confirm w id input s).0 ≡ ok r
      → IsConfirmed genuine w id s r.1
  unfolding confirm is_heard
  confirm_ok w id input s r stands h =
      let (p, first, h1) =
        bind_ok (require_live w id hello_received) _ s (unless_ok (not w.online) _ _ s h) in
      let (found, same, live) = require_live_ok w id hello_received s p genuine stands first in
      let (frame, route, signing, exchange, good) = stands id p found (heard_then p.status same) in
      let (device, second, h2) =
        bind_ok
          (register_device w (present p.device_route_id) (present p.device_signing_public_key)
            (present p.device_exchange_public_key) input)
          (λ d. finished w p d id) _ h1 in
      let (a, b, c) =
        register_device_ok w (present p.device_route_id) (present p.device_signing_public_key)
          (present p.device_exchange_public_key) input _ device second in
      let last = finished_ok w p device id _ r h2 in
      let carries : Carries device frame.device_route_id frame.signing_public_key
          frame.exchange_public_key =
        (
          cc (present_ok w p.device_route_id device.route_id a, route),
          cc (present_ok w p.device_signing_public_key device.signing_public_key b, signing),
          cc (present_ok w p.device_exchange_public_key device.exchange_public_key c, exchange),
        ) in
      record {
        pairing = p;
        was_held = found;
        is_live = live;
        frame = frame;
        carries =
            subst
              (λ d.
                Carries d frame.device_route_id frame.signing_public_key frame.exchange_public_key)
              (ap (λ x. x.1) last) carries;
        is_genuine = good;
      }

-- What is asked of the pairings.
pub data Request : Type 0 where
  creates lists : Request
  greets : HelloFrame → Request
  confirms : String → Confirmation → Request

unfoldable pub request : RemoteWorld → Request → State → State
request w creates s = (create w s).1
request w lists s = (list w s).1
request w (greets f) s = (handle_hello w f s).1
request w (confirms id input) s = (confirm w id input s).1

unfoldable pub requests : List (RemoteWorld × Request) → State → State
unfolding request
requests [] s = s
requests ((w, q) ∷ rest) s = requests rest (request w q s)

-- All these worlds verify signatures in the same way.
abbrev pub AllVerify : (Challenge → String → String → Bool) → List (RemoteWorld × Request) → Type 0
AllVerify genuine [] = Unit
AllVerify genuine ((w, q) ∷ rest) = (w.verify_challenge ≡ genuine) × AllVerify genuine rest

module _ (genuine : Challenge → String → String → Bool) where
  request-AllStand :
      (w : RemoteWorld) (q : Request) (s : State)
      → w.verify_challenge ≡ genuine
      → AllStand genuine s
      → AllStand genuine (request w q s)
  unfolding request Preserves
  request-AllStand w creates s honest h = create-Preserves genuine w honest s h
  request-AllStand w lists s honest h = list-Preserves genuine w honest s h
  request-AllStand w (greets f) s honest h = handle_hello-Preserves genuine w honest f s h
  request-AllStand w (confirms id input) s honest h =
      confirm-Preserves genuine w honest id input s h

  requests-AllStand :
      (l : List (RemoteWorld × Request)) (s : State)
      → AllVerify genuine l
      → AllStand genuine s
      → AllStand genuine (requests l s)
  unfolding requests
  requests-AllStand [] s honest h = h
  requests-AllStand ((w, q) ∷ rest) s (honest, others) h =
      requests-AllStand rest (request w q s) others (request-AllStand w q s honest h)

  -- Where there was no pairing at first, and whatever has been asked since of the pairings, a device is
  -- confirmed only for a pairing that the store holds and that has not expired, and only with the route and
  -- the keys of a frame whose signature proves, for the challenge of that pairing, that the device has the
  -- keys.
  pub confirm-IsConfirmed :
      (l : List (RemoteWorld × Request)) (s : State) (w : RemoteWorld) (id : String)
      (input : Confirmation) (r : PairingSession × Device)
      → AllVerify genuine l
      → s.pairings ≡ []
      → (confirm w id input (requests l s)).0 ≡ ok r
      → IsConfirmed genuine w id (requests l s) r.1
  unfolding Tables.get
  confirm-IsConfirmed l s w id input r honest empty h =
      confirm_ok genuine w id input (requests l s) r (requests-AllStand l s honest none_yet) h
    where
      none_yet : AllStand genuine s
      none_yet key p found = ground (arith, empty, found)
