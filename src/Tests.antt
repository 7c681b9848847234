-- ===== src/Tests.antt =====
-- Runs of the modelled operations on small inputs, and the theorems at inputs that meet their
-- hypotheses.
pub mod Engine
pub mod EngineRuns
mod EngineOutcome
mod EngineNext
mod EngineContexts
pub mod Queue
pub mod Joins
mod Graph
mod Steps
mod Builder
mod Cleanup
