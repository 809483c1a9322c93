-- ===== src/Examples.antt =====
-- The properties at concrete inputs.
pub mod Casbin
pub mod SubRequests
pub mod Auth
pub mod Notifier
pub mod Admin
pub mod Recipients
pub mod Guards
pub mod Requests
pub mod Spinitron
pub mod Pages
pub mod Emails
pub mod Command
