-- ===== src/Store.antt =====
-- The in-memory store (memory_store.go): its state and its operations, one module for each table.
pub mod Defs
pub mod Definitions
pub mod Instances
pub mod Steps
pub mod Queue
pub mod Events
pub mod Joins
pub mod Requests
pub mod DeadLetters
pub mod Cleanup
pub mod Listings
pub mod Stats
pub mod Reports
pub mod Operations
pub mod Valid
pub mod Claims
