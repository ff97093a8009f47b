-- ===== src/Tests.antt =====
-- Runs on concrete inputs, and each theorem applied at one.
mod World
mod Runs
mod Parsing
mod Sql
mod Redis
mod Api
mod Sync
mod Import
mod Seed
