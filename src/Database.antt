-- ===== src/Database.antt =====
-- The database of the service: src/db. Tables are reached through the repository interface of the
-- mapping library (Repository); the rows are in Entities, the queries in Actions, and the
-- insertion rules of approved transactions in Handler.
pub mod Repository
pub mod Entities
pub mod Actions
pub mod Lookups
pub mod Sweep
pub mod Handler
pub mod OneValid
pub mod Evolution
