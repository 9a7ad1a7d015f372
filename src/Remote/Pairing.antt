-- ===== src/Remote/Pairing.antt =====
-- src/remote/pairing.service.ts. The bootstrap that the code returns, its QR code and its address are not
-- modelled; the keys, the proof of a device and the cipher are parameters.
pub mod Proven
pub mod Confirmed
use vops.Prelude.{
  ℕ, ◌+◌, ◌*◌, String, ◌==◌, Bool, true, false, not, ◌&&◌, ◌||◌, Option, none, some, List, [], ◌∷◌,
  keep, leb, if◌then◌else◌,
}
use vops.Prelude.Texts.{◌⋯◌}
use vops.Agent.Json.{Json, str, obj, field, end}
use vops.Remote.Model.{
  Role, GivenRestrictions, Device, PairingSession, Challenge, PairingStatus, pending,
  hello_received, confirmed, expired, cancelled, other, node_confirmation,
}
use vops.Remote.Store.{
  RemoteWorld, M, ◌>>=◌, ◌>>◌, pure, throw, now, random_id, append_event, save_pairing, get_pairing,
  list_pairings, next_outbound_sequence,
}
use vops.Remote.Messenger.{transmit}
use vops.Remote.Devices
use vops.Remote.Devices.{Registration, role_name}

abbrev pub pairing_ttl_ms : ℕ
pairing_ttl_ms = 10 * 60000

-- PairingHelloFrame
pub record HelloFrame : Type 0 where
  pub pairing_id : String
  pub device_route_id : String
  pub signing_public_key : String
  pub exchange_public_key : String
  pub challenge_signature : String

pub record Confirmation : Type 0 where
  pub label : String
  pub role : Role
  pub restrictions : Option GivenRestrictions

unfoldable pub same_status : PairingStatus → PairingStatus → Bool
same_status pending pending = true
same_status hello_received hello_received = true
same_status confirmed confirmed = true
same_status expired expired = true
same_status cancelled cancelled = true
same_status _ _ = false

present : Option String → Option String
present none = none
present (some s) = if s == "" then none else some s

abbrev pub challenge_of : PairingSession → HelloFrame → Challenge
challenge_of p f = record {
  pairing_id = p.id;
  challenge = p.challenge;
  device_route_id = f.device_route_id;
  signing_public_key = f.signing_public_key;
  exchange_public_key = f.exchange_public_key;
  expires_at = p.expires_at;
}

module _ (w : RemoteWorld) where
  unfoldable pub event : String → String → Json → M (Unit {0})
  event event_type summary detail = append_event w "vops" event_type none summary detail

  refuse : Option String → M (Unit {0})
  refuse none = pure tt
  refuse (some message) = throw (other message)

  unfoldable pub create : M PairingSession
  unfolding event refuse
  create =
      if not w.enabled then throw (other "Enable remote transport before pairing a device.") else do
        id ← random_id w "pair"
        challenge ← random_id w "challenge"
        let pairing : PairingSession = record {
          id = id;
          node_id = w.node_id;
          challenge = challenge;
          status = pending;
          created_at = now w;
          expires_at = now w + pairing_ttl_ms;
          device_route_id = none;
          device_signing_public_key = none;
          device_exchange_public_key = none;
          challenge_signature = none;
          confirmed_device_id = none;
        }
        refuse (w.register_pairing pairing.id pairing.expires_at)
        save_pairing w pairing
        event "remote.pairing.created" "Created a short-lived remote pairing session." (
            obj (
              field "pairingId" (str pairing.id)
                (field "expiresAt" (str (w.agent_world.hasher.iso pairing.expires_at)) end)))
        pure pairing

  unfoldable pub live_or_throw : Option PairingSession → PairingStatus → M PairingSession
  unfolding same_status
  live_or_throw none expected = throw (other "Pairing was not found.")
  live_or_throw (some p) expected =
      if leb p.expires_at (now w)
      then (do
        save_pairing w (record p { status = expired })
        throw (other "Pairing session expired."))
      else if not (same_status p.status expected)
      then throw (other "Pairing is in another state.")
      else pure p

  unfoldable pub require_live : String → PairingStatus → M PairingSession
  unfolding live_or_throw
  require_live id expected = do found ← get_pairing w id; live_or_throw found expected

  proves : PairingSession → HelloFrame → Bool
  proves p f = w.verify_challenge (challenge_of p f) f.challenge_signature f.signing_public_key

  receive : PairingSession → HelloFrame → M (Unit {0})
  unfolding event proves
  receive p f =
      if not (proves p f)
      then (do
        event "remote.pairing.rejected" "Rejected invalid device proof during pairing."
            (obj (field "pairingId" (str p.id) end))
        throw (other "Device proof did not match the pairing challenge."))
      else do
        save_pairing w (record p {
          status = hello_received;
          device_route_id = some f.device_route_id;
          device_signing_public_key = some f.signing_public_key;
          device_exchange_public_key = some f.exchange_public_key;
          challenge_signature = some f.challenge_signature;
        })
        event "remote.pairing.hello_received" "A remote device is waiting for local confirmation."
            (obj (field "pairingId" (str p.id) (field "deviceRouteId" (str f.device_route_id) end)))

  unfoldable pub handle_hello : HelloFrame → M (Unit {0})
  unfolding require_live receive
  handle_hello f = do p ← require_live f.pairing_id pending; receive p f

  register_with : String → String → String → Confirmation → M Device
  register_with route signing exchange input = Devices.register w (record {
    route_id = route;
    label = input.label;
    role = input.role;
    signing_public_key = signing;
    exchange_public_key = exchange;
    key_id = w.device_key_id signing exchange;
    restrictions = input.restrictions;
  })

  register_device : Option String → Option String → Option String → Confirmation → M Device
  unfolding register_with
  register_device (some route) (some signing) (some exchange) input =
      register_with route signing exchange input
  register_device _ _ _ input = throw (other "Pairing has no verified device identity.")

  -- The envelope is sent by the relay itself, whatever the status of the device.
  unfoldable pub confirm : String → Confirmation → M (PairingSession × Device)
  unfolding require_live present register_device transmit event role_name
  confirm id input =
      if not w.online then throw (other "The relay must be connected to confirm a device.") else do
        p ← require_live id hello_received
        device ←
            register_device (present p.device_route_id) (present p.device_signing_public_key)
              (present p.device_exchange_public_key) input
        sequence ← next_outbound_sequence w device.id
        random_id w "msg"
        transmit w device.id sequence node_confirmation
        let done : PairingSession = record p {
          status = confirmed;
          confirmed_device_id = some device.id;
        }
        save_pairing w done
        event "remote.pairing.confirmed" ("Confirmed remote device '" ⋯ device.label ⋯ "'.") (
            obj (
              field "pairingId" (str id) (
                field "deviceId" (str device.id) (field "role" (str (role_name device.role)) end))))
        pure (done, device)

  is_waiting : PairingSession → Bool
  unfolding same_status
  is_waiting p =
      (same_status p.status pending || same_status p.status hello_received)
      && leb p.expires_at (now w)

  expire_all : List PairingSession → M (Unit {0})
  expire_all [] = pure tt
  expire_all (p ∷ rest) = do save_pairing w (record p { status = expired }); expire_all rest

  unfoldable pub list : M (List PairingSession)
  unfolding is_waiting expire_all
  list = do rows ← list_pairings w; expire_all (keep is_waiting rows); list_pairings w
