-- ===== src/Api.antt =====
-- The messages of the gobgp API, vendored from github.com/osrg/gobgp/v4/api.
mod Peers
mod Zero
pub mod Netlink
pub mod Global
pub mod Policies
pub use Peers.*
pub use Zero.*
