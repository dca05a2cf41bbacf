-- ===== src/NodeStatus/Collect.antt =====
-- controllers/bgpnodestatus_reporter.go: collectStatus. What collectNetlinkImportStatus, collectRIBStatus,
-- collectNetlinkExportStatus and collectVRFStatus return is given.
use k8gobgp.Prelude.{
  ℕ, zero, suc, String, Bool, false, ◌||◌, Option, none, some, List, [], ◌∷◌, length, ltb,
  if◌then◌else◌, value_or,
}
use k8gobgp.Prelude.GoMap.{GoMap}
use k8gobgp.NodeStatus.{
  BfdServerStatus, NetlinkImportStatus, RibStatus, NetlinkExportStatus, VrfStatus, NodeStatusData,
}
use k8gobgp.NodeStatus.Neighbors.{PeerListing, collect_neighbor_status}
use k8gobgp.NodeStatus.Health.{Messages, derive_health, set_ready_condition}

abbrev pub max_neighbors : ℕ
max_neighbors = 128

abbrev pub max_vrfs : ℕ
max_vrfs = 64

-- What the reconciler tells the reporter, by UpdateConfig and UpdateInheritedBlocks. A pointer is none
-- until the first call.
pub record ReporterConfig : Type 0 where
  pub enabled : Bool
  pub heartbeat_seconds : ℕ
  pub router_id : Option String
  pub router_id_source : Option String
  pub asn : ℕ
  pub inherited_blocks : Option (GoMap (List String))

unfoldable pub update_config : Bool → ℕ → String → String → ℕ → ReporterConfig → ReporterConfig
update_config enabled heartbeat router_id source asn config = record config {
  enabled = enabled;
  heartbeat_seconds = heartbeat;
  router_id = some router_id;
  router_id_source = some source;
  asn = asn;
}

unfoldable pub update_inherited_blocks : GoMap (List String) → ReporterConfig → ReporterConfig
update_inherited_blocks m config = record config { inherited_blocks = some m }

-- The answers of one collection, none for an error. A part that is reported may be nil.
pub record Answers : Type 0 where
  pub peers : PeerListing
  pub netlink_import : Option (Option NetlinkImportStatus)
  pub rib : Option (Option RibStatus)
  pub netlink_export : Option (Option NetlinkExportStatus)
  pub vrfs : Option (List VrfStatus)
  pub bfd_server : Option (Option BfdServerStatus)
  pub now : ℕ

-- `list[:n]`
unfoldable pub take : {A : Type 0} → ℕ → List A → List A
take zero as' = []
take (suc n) [] = []
take (suc n) (a ∷ as') = a ∷ take n as'

unfoldable pub capped : {A : Type 0} → ℕ → List A → List A
unfolding take
capped cap as' = if ltb cap (length as') then take cap as' else as'

-- The snapshot before health is derived.
unfoldable pub snapshot : String → ReporterConfig → Answers → NodeStatusData
unfolding capped collect_neighbor_status
snapshot node_name config answers =
    let neighbors = value_or [] (collect_neighbor_status config.inherited_blocks answers.peers) in
    let vrfs = value_or [] answers.vrfs in
    record {
      node_name = node_name;
      router_id = value_or "" config.router_id;
      router_id_source = value_or "" config.router_id_source;
      asn = config.asn;
      last_updated = none;
      heartbeat_seconds = 0;
      neighbors = capped max_neighbors neighbors;
      neighbor_count = length neighbors;
      netlink_import = value_or none answers.netlink_import;
      rib = value_or none answers.rib;
      netlink_export = value_or none answers.netlink_export;
      vrfs = capped max_vrfs vrfs;
      truncated = ltb max_neighbors (length neighbors) || ltb max_vrfs (length vrfs);
      bfd_server = value_or none answers.bfd_server;
      healthy = false;
      conditions = [];
    }

-- collectStatus, once the client is made.
unfoldable pub collect_status : Messages → String → ReporterConfig → Answers → NodeStatusData
unfolding snapshot derive_health set_ready_condition
collect_status texts node_name config answers =
    let status = snapshot node_name config answers in
    set_ready_condition texts answers.now (record status { healthy = derive_health status })
