-- ===== src/SubRequests.antt =====
-- internal/app/subrequests: the use cases on sub requests.
pub mod Ports
pub mod Shows
pub mod Service
pub mod Actions
pub mod Dashboard
pub mod Listing
pub mod Spec
pub mod Refinement
pub mod History
pub use Ports.*
