-- ===== src/CommandLine.antt =====
-- cmd/proxmoxvue-agent: the commands of the binary.
pub mod Register
mod Tests
