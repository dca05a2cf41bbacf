-- ===== src/Convert.antt =====
-- controllers/bgpconfiguration_controller.go, the conversion helpers: what is sent to gobgpd for the
-- blocks of the resource.
mod Peers
mod Families
pub mod Policies
pub mod Vrfs
pub mod RoundTrip
unfoldable pub use Families.*
unfoldable pub use Peers.*
