-- ===== src/Commands.antt =====
-- internal/commands: from rows of the backend to calls of Proxmox.
pub mod Payload
pub mod Calls
pub mod Route
pub mod Dispatcher
pub mod Whitelist
pub mod BuildPath
pub mod ReadDispatcher
mod Tests
mod ReadTests
