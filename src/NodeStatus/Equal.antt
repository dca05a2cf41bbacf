-- ===== src/NodeStatus/Equal.antt =====
-- controllers/bgpnodestatus_reporter.go: statusEqual and the comparisons of its parts.
use k8gobgp.Prelude.{
  ℕ, String, Bool, true, false, not, ◌&&◌, ◌||◌, Option, none, some, List, [], ◌∷◌, ◌==◌, ◌!=◌,
  nat_eq, bool_eq, string_eq, list_eq, option_eq, if◌then◌else◌, length, none_of,
}
use k8gobgp.Prelude.Text.{text_ltb}
use k8gobgp.NodeStatus.{
  BfdStatus, NeighborStatus, ImportInterfaceStatus, ImportedAddress, NetlinkImportStatus, RibRoute,
  RibStatus, ExportRuleStatus, ExportedRoute, NetlinkExportStatus, VrfStatus, NodeStatusData,
}
use k8gobgp.Global.{sort}
pub mod Itself

-- sort.Slice by a text. Go leaves the order of elements of one key open; here they keep theirs.
put_in_place : {A : Type 0} → (A → String) → A → List A → List A
put_in_place key a [] = a ∷ []
put_in_place key a (b ∷ rest) =
    let later = put_in_place key a rest in
    if text_ltb (key b) (key a) then b ∷ later else a ∷ b ∷ rest

unfoldable pub sort_slice : {A : Type 0} → (A → String) → List A → List A
unfolding put_in_place
sort_slice key [] = []
sort_slice key (a ∷ rest) = put_in_place key a (sort_slice key rest)

-- The loops that compare index by index, over lists of one length.
unfoldable pub same_at_each : {A : Type 0} → (A → A → Bool) → List A → List A → Bool
same_at_each same [] bs = true
same_at_each same (a ∷ as') [] = true
same_at_each same (a ∷ as') (b ∷ bs) =
    let rest = same_at_each same as' bs in if not (same a b) then false else rest

unfoldable pub same_slices : {A : Type 0} → (A → A → Bool) → List A → List A → Bool
unfolding same_at_each
same_slices same as' bs = if length as' != length bs then false else same_at_each same as' bs

-- Two pointers, nil only if both are.
unfoldable pub same_pointers : {A : Type 0} → (A → A → Bool) → Option A → Option A → Bool
same_pointers same none none = true
same_pointers same none (some b) = false
same_pointers same (some a) none = false
same_pointers same (some a) (some b) = same a b

unfoldable pub same_bfd : BfdStatus → BfdStatus → Bool
same_bfd a b =
    a.session_state == b.session_state
    && a.remote_session_state == b.remote_session_state
    && a.local_diagnostic_code == b.local_diagnostic_code
    && a.remote_diagnostic_code == b.remote_diagnostic_code
    && a.failure_transitions == b.failure_transitions

unfoldable pub same_neighbor : NeighborStatus → NeighborStatus → Bool
unfolding same_pointers same_bfd
same_neighbor a b = none_of (
    (a.address != b.address)
    ∷ (a.peer_asn != b.peer_asn)
    ∷ (a.local_asn != b.local_asn)
    ∷ (a.state != b.state)
    ∷ (a.prefixes_sent != b.prefixes_sent)
    ∷ (a.prefixes_received != b.prefixes_received)
    ∷ (a.description != b.description)
    ∷ (a.last_error != b.last_error)
    ∷ (a.session_up_since != b.session_up_since)
    ∷ not (same_pointers same_bfd a.bfd b.bfd)
    ∷ [])

unfoldable pub neighbors_equal : List NeighborStatus → List NeighborStatus → Bool
unfolding same_neighbor same_at_each sort_slice
neighbors_equal as' bs =
    if length as' == 0 && length bs == 0
    then true
    else if length as' != length bs
    then false
    else same_at_each same_neighbor (sort_slice (λ n. n.address) as')
        (sort_slice (λ n. n.address) bs)

same_interface : ImportInterfaceStatus → ImportInterfaceStatus → Bool
same_interface a b = a.name == b.name && a.exists == b.exists && a.oper_state == b.oper_state

same_address : ImportedAddress → ImportedAddress → Bool
same_address a b = a.address == b.address && a.interface == b.interface && a.in_rib == b.in_rib

same_import : NetlinkImportStatus → NetlinkImportStatus → Bool
unfolding same_slices same_interface same_address
same_import a b = none_of (
    (a.enabled != b.enabled)
    ∷ (a.vrf != b.vrf)
    ∷ (a.total_imported != b.total_imported)
    ∷ (a.truncated != b.truncated)
    ∷ not (same_slices same_interface a.interfaces b.interfaces)
    ∷ not (same_slices same_address a.imported_addresses b.imported_addresses)
    ∷ [])

unfoldable pub import_status_equal : Option NetlinkImportStatus → Option NetlinkImportStatus → Bool
unfolding same_pointers same_import
import_status_equal a b = same_pointers same_import a b

unfoldable pub string_slices_equal : List String → List String → Bool
unfolding sort
string_slices_equal as' bs =
    if length as' == 0 && length bs == 0
    then true
    else if length as' != length bs
    then false
    else sort as' == sort bs

same_route : RibRoute → RibRoute → Bool
unfolding string_slices_equal
same_route a b = none_of (
    (a.prefix != b.prefix)
    ∷ (a.next_hop != b.next_hop)
    ∷ (a.from_peer != b.from_peer)
    ∷ (a.advertised_to_count != b.advertised_to_count)
    ∷ not (string_slices_equal a.advertised_to b.advertised_to)
    ∷ not (string_slices_equal a.communities b.communities)
    ∷ [])

unfoldable pub rib_routes_equal : List RibRoute → List RibRoute → Bool
unfolding same_route same_at_each sort_slice
rib_routes_equal as' bs =
    if length as' == 0 && length bs == 0
    then true
    else if length as' != length bs
    then false
    else same_at_each same_route (sort_slice (λ r. r.prefix) as') (sort_slice (λ r. r.prefix) bs)

same_rib : RibStatus → RibStatus → Bool
unfolding rib_routes_equal
same_rib a b = none_of (
    (a.local_route_count != b.local_route_count)
    ∷ (a.received_route_count != b.received_route_count)
    ∷ (a.truncated != b.truncated)
    ∷ not (rib_routes_equal a.local_routes b.local_routes)
    ∷ not (rib_routes_equal a.received_routes b.received_routes)
    ∷ [])

unfoldable pub rib_status_equal : Option RibStatus → Option RibStatus → Bool
unfolding same_pointers same_rib
rib_status_equal a b = same_pointers same_rib a b

same_rule : ExportRuleStatus → ExportRuleStatus → Bool
same_rule a b = a.name == b.name && a.metric == b.metric && a.table_id == b.table_id

same_exported : ExportedRoute → ExportedRoute → Bool
same_exported a b =
    a.prefix == b.prefix
    && a.table == b.table
    && a.metric == b.metric
    && a.installed == b.installed
    && a.reason == b.reason

same_export : NetlinkExportStatus → NetlinkExportStatus → Bool
unfolding same_slices same_rule same_exported
same_export a b = none_of (
    (a.enabled != b.enabled)
    ∷ (a.protocol != b.protocol)
    ∷ (a.total_exported != b.total_exported)
    ∷ (a.truncated != b.truncated)
    ∷ not (same_slices same_rule a.rules b.rules)
    ∷ not (same_slices same_exported a.exported_routes b.exported_routes)
    ∷ [])

unfoldable pub export_status_equal : Option NetlinkExportStatus → Option NetlinkExportStatus → Bool
unfolding same_pointers same_export
export_status_equal a b = same_pointers same_export a b

same_vrf : VrfStatus → VrfStatus → Bool
same_vrf a b =
    a.name == b.name
    && a.rd == b.rd
    && a.imported_route_count == b.imported_route_count
    && a.exported_route_count == b.exported_route_count

unfoldable pub vrfs_equal : List VrfStatus → List VrfStatus → Bool
unfolding same_slices same_vrf
vrfs_equal as' bs = if length as' == 0 && length bs == 0 then true else same_slices same_vrf as' bs

unfoldable pub same_data : NodeStatusData → NodeStatusData → Bool
unfolding neighbors_equal import_status_equal rib_status_equal export_status_equal vrfs_equal
same_data a b = none_of (
    (a.node_name != b.node_name)
    ∷ (a.router_id != b.router_id)
    ∷ (a.router_id_source != b.router_id_source)
    ∷ (a.asn != b.asn)
    ∷ (a.neighbor_count != b.neighbor_count)
    ∷ (a.healthy != b.healthy)
    ∷ not (neighbors_equal a.neighbors b.neighbors)
    ∷ not (import_status_equal a.netlink_import b.netlink_import)
    ∷ not (rib_status_equal a.rib b.rib)
    ∷ not (export_status_equal a.netlink_export b.netlink_export)
    ∷ not (vrfs_equal a.vrfs b.vrfs)
    ∷ [])

unfoldable pub status_equal : Option NodeStatusData → Option NodeStatusData → Bool
unfolding same_pointers same_data
status_equal a b = same_pointers same_data a b
