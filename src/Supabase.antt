-- ===== src/Supabase.antt =====
-- The backend's side of the agent (internal/supabase).
pub mod Client
pub mod Token
pub mod Session
pub mod Rest
pub mod Commands
pub mod Realtime
pub mod Broadcast
mod Tests
