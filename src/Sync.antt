-- ===== src/Sync.antt =====
-- tools/spy_table_config_sync.py: the rows of a remote table configuration become metadata rows.
pub mod Library
pub mod Identifiers
pub mod Records
pub mod Routes
pub mod Group
pub mod Bundle
pub mod Store
pub mod Write
