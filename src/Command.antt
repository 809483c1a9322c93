-- ===== src/Command.antt =====
-- internal/cmd/server.go: how the parts are put together, and the life of the server.
pub mod Assembly
pub mod Running
pub mod Cleanup
