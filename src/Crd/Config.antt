-- ===== src/Crd/Config.antt =====
-- api/v1/types.go: the resource itself, with its dynamic neighbors, VRFs, netlink settings, global
-- settings and status. Of Kubernetes' object metadata it has what the controller reads; a time is a
-- number of seconds. GlobalSpec leaves out nodeStatus.
use k8gobgp.Prelude.{ℕ, String, Bool, Option, List}
use k8gobgp.Crd.Peers.{ApplyPolicy, GracefulRestart, Neighbor, PeerGroup}
use k8gobgp.Crd.Policies.{PolicyDefinition, DefinedSet}

pub data ConditionStatus : Type 0 where
  condition_true condition_false : ConditionStatus

pub record DynamicNeighbor : Type 0 where
  pub prefix : String
  pub peer_group : String

pub record VrfNetlinkImport : Type 0 where
  pub enabled : Bool
  pub interface_list : List String

pub record VrfNetlinkExport : Type 0 where
  pub enabled : Bool
  pub linux_vrf : String
  pub linux_table_id : ℕ
  pub metric : ℕ
  pub validate_nexthop : Option Bool
  pub community_list : List String
  pub large_community_list : List String

pub record Vrf : Type 0 where
  pub name : String
  pub rd : String
  pub import_rt : List String
  pub export_rt : List String
  pub netlink_import : Option VrfNetlinkImport
  pub netlink_export : Option VrfNetlinkExport

pub record NetlinkImport : Type 0 where
  pub enabled : Bool
  pub vrf : String
  pub interface_list : List String

pub record NetlinkExportRule : Type 0 where
  pub name : String
  pub community_list : List String
  pub large_community_list : List String
  pub vrf : String
  pub table_id : ℕ
  pub metric : ℕ
  pub validate_nexthop : Option Bool

pub record NetlinkExport : Type 0 where
  pub enabled : Bool
  pub dampening_interval : ℕ
  pub route_protocol : ℕ
  pub rules : List NetlinkExportRule

pub record RouteSelectionOptions : Type 0 where
  pub always_compare_med : Bool
  pub ignore_as_path_length : Bool
  pub external_compare_router_id : Bool
  pub advertise_inactive_routes : Bool
  pub enable_aigp : Bool
  pub ignore_next_hop_igp_metric : Bool
  pub disable_best_path_selection : Bool

pub record DefaultRouteDistance : Type 0 where
  pub external_route_distance : ℕ
  pub internal_route_distance : ℕ

pub record Confederation : Type 0 where
  pub enabled : Bool
  pub identifier : ℕ
  pub member_as_list : List ℕ

-- `listen_port` is an int32, by its bit pattern.
pub record GlobalSpec : Type 0 where
  pub asn : ℕ
  pub router_id : String
  pub router_id_pool : String
  pub listen_port : ℕ
  pub use_multiple_paths : Bool
  pub ebgp_maximum_paths : ℕ
  pub ibgp_maximum_paths : ℕ
  pub listen_addresses : List String
  pub families : List String
  pub route_selection_options : Option RouteSelectionOptions
  pub default_route_distance : Option DefaultRouteDistance
  pub confederation : Option Confederation
  pub graceful_restart : Option GracefulRestart
  pub apply_policy : Option ApplyPolicy
  pub bind_to_device : String

pub record BgpConfigurationSpec : Type 0 where
  pub global : GlobalSpec
  pub neighbors : List Neighbor
  pub peer_groups : List PeerGroup
  pub dynamic_neighbors : List DynamicNeighbor
  pub vrfs : List Vrf
  pub policy_definitions : List PolicyDefinition
  pub defined_sets : List DefinedSet
  pub netlink_import : Option NetlinkImport
  pub netlink_export : Option NetlinkExport

pub record Condition : Type 0 where
  pub condition_type : String
  pub status : ConditionStatus
  pub observed_generation : ℕ
  pub last_transition_time : ℕ
  pub reason : String
  pub message : String

pub record BgpConfigurationStatus : Type 0 where
  pub observed_generation : ℕ
  pub conditions : List Condition
  pub last_reconcile_time : Option ℕ
  pub neighbor_count : ℕ
  pub message : String
  pub router_id_source : String
  pub router_id_resolution_time : Option ℕ

pub record BgpConfiguration : Type 0 where
  pub namespace : String
  pub name : String
  pub creation_timestamp : ℕ
  pub deletion_timestamp : Option ℕ
  pub generation : ℕ
  pub finalizers : List String
  pub spec : BgpConfigurationSpec
  pub status : BgpConfigurationStatus
