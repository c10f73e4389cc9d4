-- ===== src/Tests.antt =====
-- A driver and a registry that answer, and the theorems at inputs that meet their hypotheses.
mod Platforms
mod Commands
mod Batches
mod Responses
mod Sessions
mod Queries
mod Version
mod Uris
mod Exchanges
mod Provisioning
mod Messages
