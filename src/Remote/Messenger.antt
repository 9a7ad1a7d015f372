-- ===== src/Remote/Messenger.antt =====
-- src/remote/remote-messenger.ts. The cipher and the relay are not modelled: what they are given is,
-- and that the socket may be closed then.
use vops.Prelude.{ℕ, String, Bool, true, false, not, [], ◌∷◌, ◌++◌, if◌then◌else◌}
use vops.Prelude.Result.{ok, err}
use vops.Remote.Model.{Device, DeviceStatus, active, Message, other}
use vops.Remote.Store.{RemoteWorld, Sent, M, ◌>>=◌, ◌>>◌, throw, random_id, next_outbound_sequence}

unfoldable pub is_active : DeviceStatus → Bool
is_active active = true
is_active _ = false

module _ (w : RemoteWorld) where
  -- relay.sendEnvelope, which throws where the socket is not open
  unfoldable pub transmit : String → ℕ → Message → M (Unit {0})
  transmit device_id sequence message s =
      let open_ = w.is_connected device_id sequence in
      let item : Sent = record { device_id = device_id; sequence = sequence; message = message } in
      (
        if open_ then ok tt else err (other "The remote relay is not connected."),
        record s { sent = if open_ then s.sent ++ item ∷ [] else s.sent },
      )

  unfoldable pub send : Device → Message → M (Unit {0})
  unfolding is_active transmit
  send device message =
      if not (is_active device.status)
      then throw (other "Cannot send to an inactive remote device.")
      else do
        random_id w "msg"
        sequence ← next_outbound_sequence w device.id
        transmit device.id sequence message
