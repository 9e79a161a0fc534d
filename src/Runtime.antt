-- ===== src/Runtime.antt =====
-- apps/orchestrator/runtime
pub mod Models
pub mod Graph
pub mod Env
pub mod Config
pub mod Template
pub mod Writes
pub mod Branching
pub mod SetState
pub mod Interaction
pub mod AgentMode
pub mod Calls
pub mod Execute
pub mod Schedule
pub mod Engine
pub mod Projection
mod Samples
mod Examples
pub mod Frame
pub mod Work
