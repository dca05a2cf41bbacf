-- ===== src/NodeStatus.antt =====
-- api/v1/bgpnodestatus_types.go: the status that the reporter writes for its node; and the parts of
-- controllers/bgpnodestatus_reporter.go: the texts of states (Texts), the walk over the peers
-- (Neighbors), health and conditions (Health), the comparison of two statuses (Equal), the collection
-- (Collect), the write and the shutdown (Write).
use k8gobgp.Prelude.{ℕ, String, Bool, false, Option, none, List, []}
use k8gobgp.Crd.{ConditionStatus}
pub mod Texts
pub mod Neighbors
pub mod Health
pub mod Equal
pub mod Collect
pub mod Write
pub mod Caps
pub mod Healthy
pub mod Latest

pub record BfdStatus : Type 0 where
  pub session_state : String
  pub remote_session_state : String
  pub local_diagnostic_code : String
  pub remote_diagnostic_code : String
  pub failure_transitions : ℕ

pub record BfdServerStatus : Type 0 where
  pub listening : Bool

pub record NeighborStatus : Type 0 where
  pub address : String
  pub peer_asn : ℕ
  pub local_asn : ℕ
  pub state : String
  pub session_up_since : Option ℕ
  pub prefixes_sent : ℕ
  pub prefixes_received : ℕ
  pub description : String
  pub last_error : String
  pub inherited_blocks : List String
  pub bfd : Option BfdStatus

pub record ImportInterfaceStatus : Type 0 where
  pub name : String
  pub exists : Bool
  pub oper_state : String

pub record ImportedAddress : Type 0 where
  pub address : String
  pub interface : String
  pub in_rib : Bool

pub record NetlinkImportStatus : Type 0 where
  pub enabled : Bool
  pub vrf : String
  pub interfaces : List ImportInterfaceStatus
  pub imported_addresses : List ImportedAddress
  pub total_imported : ℕ
  pub truncated : Bool

pub record RibRoute : Type 0 where
  pub prefix : String
  pub next_hop : String
  pub from_peer : String
  pub advertised_to : List String
  pub advertised_to_count : ℕ
  pub communities : List String

pub record RibStatus : Type 0 where
  pub local_routes : List RibRoute
  pub local_route_count : ℕ
  pub received_routes : List RibRoute
  pub received_route_count : ℕ
  pub truncated : Bool

pub record ExportRuleStatus : Type 0 where
  pub name : String
  pub metric : ℕ
  pub table_id : ℕ

pub record ExportedRoute : Type 0 where
  pub prefix : String
  pub table : String
  pub metric : ℕ
  pub installed : Bool
  pub reason : String

pub record NetlinkExportStatus : Type 0 where
  pub enabled : Bool
  pub protocol : ℕ
  pub rules : List ExportRuleStatus
  pub exported_routes : List ExportedRoute
  pub total_exported : ℕ
  pub truncated : Bool

pub record VrfStatus : Type 0 where
  pub name : String
  pub rd : String
  pub imported_route_count : ℕ
  pub exported_route_count : ℕ

-- A condition as setCondition writes it: it leaves ObservedGeneration at 0.
pub record NodeCondition : Type 0 where
  pub condition_type : String
  pub status : ConditionStatus
  pub reason : String
  pub message : String
  pub last_transition_time : ℕ

pub record NodeStatusData : Type 0 where
  pub node_name : String
  pub router_id : String
  pub router_id_source : String
  pub asn : ℕ
  pub last_updated : Option ℕ
  pub heartbeat_seconds : ℕ
  pub neighbors : List NeighborStatus
  pub neighbor_count : ℕ
  pub netlink_import : Option NetlinkImportStatus
  pub rib : Option RibStatus
  pub netlink_export : Option NetlinkExportStatus
  pub vrfs : List VrfStatus
  pub truncated : Bool
  pub bfd_server : Option BfdServerStatus
  pub healthy : Bool
  pub conditions : List NodeCondition

-- The status of an object that was just created.
abbrev pub empty_status : NodeStatusData
empty_status = record {
  node_name = "";
  router_id = "";
  router_id_source = "";
  asn = 0;
  last_updated = none;
  heartbeat_seconds = 0;
  neighbors = [];
  neighbor_count = 0;
  netlink_import = none;
  rib = none;
  netlink_export = none;
  vrfs = [];
  truncated = false;
  bfd_server = none;
  healthy = false;
  conditions = [];
}
