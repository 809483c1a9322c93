-- ===== src/Sqlite.antt =====
-- internal/adapters/outbound/sqlite: the repository over the tables.
pub mod Tables
pub mod Driver
pub mod Queries
pub mod SubRequestRepository
pub mod AuthRepository
pub mod AdminRepository
