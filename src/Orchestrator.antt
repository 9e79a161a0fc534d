-- ===== src/Orchestrator.antt =====
-- apps/orchestrator/orchestrator_runtime, with what it calls of project_router, llm_adapter and
-- workflow_engine_adapter
mod Examples
mod Samples
pub mod Records
pub mod ProjectName
pub mod Store
pub mod Policy
pub mod Candidates
pub mod World
pub mod Messages
pub mod Handler
pub mod Turn
pub mod Orchestrated
pub mod Direct
pub mod Soundness
pub mod Replay
pub mod Heuristic
