-- ===== src/Crd.antt =====
-- The custom resource of api/v1/types.go.
mod Peers
mod Policies
mod Config
pub use Peers.*
pub use Policies.*
pub use Config.*
