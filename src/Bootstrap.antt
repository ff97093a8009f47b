-- ===== src/Bootstrap.antt =====
-- bootstrap/meta.py: the seed rows of the metadata. `create_metadata_schema` only creates missing tables.
pub mod Rows
pub mod Upserts
pub mod Seed
pub mod Names
pub mod Idempotent
