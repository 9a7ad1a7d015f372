-- ===== src/Keyring.antt =====
-- src/lib/keyring: the throttle on passphrase attempts and the keyring server.
pub mod Throttle
pub mod Server
