-- ===== src/Auth.antt =====
-- internal/app/auth: magic links and sessions.
pub mod Ports
pub mod Service
pub mod Spec
pub mod Reading
pub mod Links
pub mod Logins
pub mod History
pub mod Sessions
