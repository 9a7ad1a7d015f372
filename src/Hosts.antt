-- ===== src/Hosts.antt =====
-- src/host-ops: what vops does on a host over SSH, with the file of authorized keys, the configuration of
-- sshd and the crontab.
pub mod Lines
pub mod AuthorizedKeys
pub mod Ssh
pub mod Triples
pub mod Rotation
pub mod OpsKeys
pub mod Crontab
pub mod Lockdown
