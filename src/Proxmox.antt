-- ===== src/Proxmox.antt =====
-- The Proxmox side of the agent (internal/proxmox).
pub mod Cluster
pub mod Settings
pub mod Action
pub mod SnapshotName
pub mod Client
pub mod Requests
pub mod Tasks
mod Tests
