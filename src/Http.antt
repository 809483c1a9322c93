-- ===== src/Http.antt =====
-- internal/adapters/inbound/api: the HTTP server in front of the services.
pub mod Message
pub mod Ports
pub mod Errors
pub mod Origin
pub mod AuthHandler
pub mod SubRequestHandlers
pub mod AdminHandlers
pub mod Router
pub mod Proxies
pub mod Access
pub mod Denials
pub mod Admins
pub mod Services
pub mod Outcomes
pub mod SignIn
pub mod Forms
