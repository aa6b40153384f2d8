-- ===== src/Server.antt =====
-- The package server: what happens to one game server.
pub mod Platform
pub mod Power
pub mod Crash
pub mod Console
pub mod Listeners
pub mod Mounts
