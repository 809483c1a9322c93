-- ===== src/SubRequests/Refinement.antt =====
-- The service implements its abstract use cases.
pub mod Frame
pub mod Returns
pub mod Rules
pub mod Rights
pub mod Changes
pub mod UseCases
pub mod Capabilities
pub mod Creation
