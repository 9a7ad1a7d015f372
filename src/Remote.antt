-- ===== src/Remote.antt =====
-- src/remote: the phones and watches that supervise the agents from afar.
pub mod Model
pub mod Store
pub mod Messenger
pub mod Intents
pub mod Devices
pub mod Pairing
pub mod Commands
