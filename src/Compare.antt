-- ===== src/Compare.antt =====
-- controllers/bgpconfiguration_controller.go: the comparison of the peer that the resource asks for
-- with the peer that gobgpd reports, which decides whether an UpdatePeer is sent.
mod Blocks
mod Peers
pub mod Agreement
pub mod InSync
pub mod ReadBack
unfoldable pub use Blocks.{
  afi_safis_config_equal, timers_config_equal, transport_config_equal, policy_assignment_equal,
  apply_policy_equal, graceful_restart_equal, route_reflector_equal, ebgp_multihop_equal,
  send_community_equal, bfd_with_defaults, bfd_equal,
}
unfoldable pub use Peers.{
  conf_mismatches, block_mismatches, peer_config_equal, peer_group_config_equal,
}
