-- ===== src/Tests/Pairing.antt =====
-- A device that is paired.
use vops.Prelude.{◌≡◌, refl, some, none, [], ◌∷◌, List}
use vops.Prelude.Result.{ok}
use vops.Remote.Model.{Role, Device, PairingSession, PairingStatus}
use vops.Remote.Store.{RemoteWorld, State}
use vops.Remote.Pairing.{HelloFrame, Confirmation, confirm}
use vops.Remote.Pairing.Confirmed.{
  Request, creates, greets, requests, IsConfirmed, confirm-IsConfirmed,
}
use vops.Tests.Phones.{remote, phone_state, device}

abbrev unpaired : State
unpaired = record phone_state { devices = [] }

abbrev hello : HelloFrame
hello = record {
  pairing_id = "pair";
  device_route_id = "r1";
  signing_public_key = "sk";
  exchange_public_key = "ek";
  challenge_signature = "good";
}

abbrev asked : List (RemoteWorld × Request)
asked = (remote, creates) ∷ (remote, greets hello) ∷ []

abbrev phone : Confirmation
phone = record { label = "phone"; role = Role.approver; restrictions = none }

abbrev pairing : PairingSession
pairing = record {
  id = "pair";
  node_id = "n1";
  challenge = "challenge";
  status = PairingStatus.confirmed;
  created_at = 1000;
  expires_at = 601000;
  device_route_id = some "r1";
  device_signing_public_key = some "sk";
  device_exchange_public_key = some "ek";
  challenge_signature = some "good";
  confirmed_device_id = some "device";
}

abbrev paired : Device
paired = record device { id = "device"; role = Role.approver; paired_at = 1000; updated_at = 1000 }

succeeds : (confirm remote "pair" phone (requests asked unpaired)).0 ≡ ok (pairing, paired)
unfolding confirm vops.Remote.Store.get_pairing vops.Agent.Store.Tables.get requests
    vops.Remote.Pairing.handle_hello vops.Remote.Pairing.create vops.Remote.Store.random_id
    vops.Remote.Store.save_pairing vops.Remote.Store.append_event vops.Agent.Store.local_id
    vops.Agent.Store.append_event vops.Agent.Store.Tables.upsert vops.Remote.Devices.register
    vops.Remote.Store.get_device_by_route vops.Agent.Store.Tables.records
    vops.Remote.Store.save_device vops.Prelude.any vops.Agent.Audit.Text.entry
    vops.Agent.Audit.Text.insert vops.Agent.Audit.Text.stable_stringify
    vops.Agent.Audit.Text.stringify vops.Agent.Audit.append_event vops.Agent.Audit.digest
    vops.Agent.Audit.json_field vops.Agent.Audit.last_hash vops.Agent.Audit.make_stored
    vops.Agent.Audit.payload_json vops.Agent.Audit.redact_detail vops.Agent.Audit.redact_stored
    vops.Agent.Audit.text_field vops.Agent.Redaction.hides vops.Agent.Redaction.redact_secrets
    vops.Agent.Redaction.visit vops.Prelude.keep vops.Prelude.Texts.join vops.Remote.Devices.event
    vops.Remote.Devices.is_revoked vops.Remote.Devices.is_viewer
    vops.Remote.Devices.normalize_restrictions vops.Remote.Devices.role_name
    vops.Remote.Devices.status_name vops.Remote.Messenger.transmit
    vops.Remote.Pairing.Confirmed.request vops.Remote.Pairing.event vops.Remote.Pairing.list
    vops.Remote.Pairing.live_or_throw vops.Remote.Pairing.require_live
    vops.Remote.Pairing.same_status vops.Remote.Store.by_route vops.Remote.Store.list_pairings
    vops.Remote.Store.next_outbound_sequence vops.Remote.Store.route_taken
succeeds = refl

confirm-IsConfirmed_example :
    IsConfirmed remote.verify_challenge remote "pair" (requests asked unpaired) paired
confirm-IsConfirmed_example =
    confirm-IsConfirmed remote.verify_challenge asked unpaired remote "pair" phone (pairing, paired)
      (refl, (refl, tt)) refl succeeds
