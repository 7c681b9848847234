-- ===== src/Engine.antt =====
-- engine.go over the in-memory store.
pub mod Monad
pub mod Names
pub mod Env
pub mod Traced
pub mod Walks
pub mod Forks
pub mod Calls
pub mod Steps
pub mod Joins
pub mod Rollback
pub mod Handlers
pub mod Human
pub mod Branches
pub mod Outcome
pub mod Cancel
pub mod Contexts
pub mod Throttle
pub mod Compensation
pub mod Execute
pub mod Next
pub mod Start
pub mod Exclusive
pub mod Ends
pub mod Leaves
pub mod Returned
