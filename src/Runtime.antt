-- ===== src/Runtime.antt =====
-- internal/runtime/runtime.go: the agent's process.
pub mod Persist
pub mod Start
pub mod ClusterWait
mod Tests
