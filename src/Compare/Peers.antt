-- ===== src/Compare/Peers.antt =====
-- peerConfigEqual and peerGroupConfigEqual. Each `if … { return false }` of the source is a test of
-- a list, and the function is true if none of them passes.
use k8gobgp.Prelude.{
  Bool, true, false, not, ◌&&◌, Option, none, some, List, [], ◌∷◌, ◌==◌, ◌!=◌, nat_eq, bool_eq,
  string_eq, none_of, is_some, is_none, value_or,
}
use k8gobgp.Api.{
  PeerConf, Peer, PeerGroupConf, PeerGroup, remove_private_unspecified, remove_private_eq,
}
use k8gobgp.Compare.Blocks.{
  afi_safis_config_equal, timers_config_equal, transport_config_equal, apply_policy_equal,
  graceful_restart_equal, route_reflector_equal, ebgp_multihop_equal, send_community_equal,
  bfd_equal,
}

-- The tests on `Conf`, in their order.
unfoldable pub conf_mismatches : PeerConf → PeerConf → List Bool
conf_mismatches dc rc =
    (dc.neighbor_interface == "" && dc.neighbor_address != rc.neighbor_address)
    ∷ (value_or 0 dc.local_asn != 0 && value_or 0 dc.local_asn != value_or 0 rc.local_asn)
    ∷ (dc.peer_group == "" && dc.peer_asn != rc.peer_asn)
    ∷ (is_some dc.description && value_or "" dc.description != value_or "" rc.description)
    ∷ (dc.peer_group != rc.peer_group)
    ∷ (dc.admin_down != rc.admin_down)
    ∷ (dc.neighbor_interface != rc.neighbor_interface)
    ∷ (dc.vrf != rc.vrf)
    ∷ (is_some dc.allow_own_asn && value_or 0 dc.allow_own_asn != value_or 0 rc.allow_own_asn)
    ∷ (is_some dc.replace_peer_asn
        && value_or false dc.replace_peer_asn != value_or false rc.replace_peer_asn)
    ∷ (is_some dc.allow_aspath_loop_local
        && value_or false dc.allow_aspath_loop_local != value_or false rc.allow_aspath_loop_local)
    ∷ (is_some dc.send_software_version
        && value_or false dc.send_software_version != value_or false rc.send_software_version)
    ∷ (is_some dc.remove_private
        && value_or remove_private_unspecified dc.remove_private
          != value_or remove_private_unspecified rc.remove_private)
    ∷ not (send_community_equal dc.send_community rc.send_community)
    ∷ []

-- The tests on the blocks: one that a group can supply is skipped for a grouped peer that omits it.
unfoldable pub block_mismatches : Bool → Peer → Peer → List Bool
block_mismatches grouped desired current =
    not (afi_safis_config_equal desired.afi_safis current.afi_safis)
    ∷ (not (grouped && is_none desired.apply_policy)
        && not (apply_policy_equal desired.apply_policy current.apply_policy))
    ∷ not (timers_config_equal desired.timers current.timers)
    ∷ (not (grouped && is_none desired.transport)
        && not (transport_config_equal desired.transport current.transport))
    ∷ (not (grouped && is_none desired.graceful_restart)
        && not (graceful_restart_equal desired.graceful_restart current.graceful_restart))
    ∷ (not (grouped && is_none desired.route_reflector)
        && not (route_reflector_equal desired.route_reflector current.route_reflector))
    ∷ (not (grouped && is_none desired.ebgp_multihop)
        && not (ebgp_multihop_equal desired.ebgp_multihop current.ebgp_multihop))
    ∷ (not (grouped && is_none desired.bfd) && not (bfd_equal desired.bfd current.bfd true))
    ∷ []

unfoldable pub confs_equal : Option PeerConf → Option PeerConf → Peer → Peer → Bool
unfolding conf_mismatches block_mismatches
confs_equal (some dc) (some rc) desired current =
    none_of (conf_mismatches dc rc)
    && none_of (block_mismatches (dc.peer_group != "") desired current)
confs_equal none none desired current = true
confs_equal _ _ desired current = false

unfoldable pub peer_config_equal : Peer → Peer → Bool
unfolding confs_equal
peer_config_equal desired current = confs_equal desired.conf current.conf desired current

group_mismatches : PeerGroupConf → PeerGroupConf → PeerGroup → PeerGroup → List Bool
group_mismatches dc rc desired current =
    (dc.local_asn != 0 && dc.local_asn != rc.local_asn)
    ∷ (dc.peer_group_name != rc.peer_group_name)
    ∷ (dc.peer_asn != rc.peer_asn)
    ∷ (dc.description != rc.description)
    ∷ (dc.allow_own_asn != rc.allow_own_asn)
    ∷ (dc.replace_peer_asn != rc.replace_peer_asn)
    ∷ (dc.allow_aspath_loop_local != rc.allow_aspath_loop_local)
    ∷ (dc.send_software_version != rc.send_software_version)
    ∷ (dc.remove_private != rc.remove_private)
    ∷ not (send_community_equal dc.send_community rc.send_community)
    ∷ not (afi_safis_config_equal desired.afi_safis current.afi_safis)
    ∷ not (apply_policy_equal desired.apply_policy current.apply_policy)
    ∷ not (timers_config_equal desired.timers current.timers)
    ∷ not (transport_config_equal desired.transport current.transport)
    ∷ not (graceful_restart_equal desired.graceful_restart current.graceful_restart)
    ∷ not (bfd_equal desired.bfd current.bfd false)
    ∷ []

groups_equal : Option PeerGroupConf → Option PeerGroupConf → PeerGroup → PeerGroup → Bool
unfolding group_mismatches
groups_equal (some dc) (some rc) desired current = none_of (group_mismatches dc rc desired current)
groups_equal none none desired current = true
groups_equal _ _ desired current = false

unfoldable pub peer_group_config_equal : PeerGroup → PeerGroup → Bool
unfolding groups_equal
peer_group_config_equal desired current = groups_equal desired.conf current.conf desired current
