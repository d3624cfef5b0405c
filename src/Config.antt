-- ===== src/Config.antt =====
-- internal/config/config.go: the settings in config.yml.
pub mod Agent
pub mod Level
pub mod Redaction
pub mod Storage
mod Tests
