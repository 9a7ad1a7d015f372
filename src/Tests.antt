-- ===== src/Tests.antt =====
-- Runs of the theorems at concrete values.
mod Data
mod Throttling
mod Serving
mod Deciding
mod Logging
mod Scoping
mod Operating
mod Planning
mod Phones
mod Pairing
mod Rotating
