-- ===== src/Redis.antt =====
-- services/redis_gatekeeper.py: read-only Redis commands, within the key prefixes of a datasource.
pub mod Types
pub mod Arguments
pub mod Keys
pub mod Refusals
pub mod Routing
pub mod Check
pub mod Execute
