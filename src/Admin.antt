-- ===== src/Admin.antt =====
-- internal/app/admin: the administration of users.
pub mod Ports
pub mod Service
pub mod History
