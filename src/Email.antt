-- ===== src/Email.antt =====
-- internal/adapters/outbound/email/email.go: the texts of the emails and the senders. The sender that
-- only writes to the log is a sender that does nothing.
pub mod Rendering
pub mod Messages
pub mod Senders
pub mod Escaping
