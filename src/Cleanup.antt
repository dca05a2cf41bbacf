-- ===== src/Cleanup.antt =====
-- controllers/bgpconfiguration_controller.go: reconcileDelete, which takes the resource's objects out of
-- gobgpd before the finalizer goes. gobgpd's answers are a parameter, a test for the calls that fail,
-- given the calls before them.
pub mod Finalizer
pub mod Outcome
pub mod Made
use k8gobgp.Prelude.{
  ℕ, String, Bool, true, false, ◌&&◌, not, Option, none, some, List, [], ◌∷◌, ◌++◌, map, ◌==◌, ◌!=◌,
  string_eq, if◌then◌else◌, leb,
}
use k8gobgp.Crd
use k8gobgp.Sync.{listed}
use k8gobgp.Sync.Key.{neighbor_key_from_crd}
use k8gobgp.Sync.Neighbors.{PeerCall, delete_peer_interface, delete_peer_address}

abbrev pub finalizer_name : String
finalizer_name = "bgp.purelb.io/finalizer"

pub data CleanupCall : Type 0 where
  clean_peer : PeerCall → CleanupCall
  clean_dynamic_neighbor : String → CleanupCall
  clean_peer_group : String → CleanupCall
  clean_vrf : String → CleanupCall
  clean_policy : String → CleanupCall
  clean_defined_set : String → CleanupCall
  disable_netlink_export : Bool → CleanupCall
  disable_netlink_import : Bool → CleanupCall

-- deletePeerByKey
unfoldable pub delete_peer_by_key : Crd.NeighborConfig → PeerCall
delete_peer_by_key cfg =
    if cfg.neighbor_interface != ""
    then delete_peer_interface cfg.neighbor_interface
    else delete_peer_address cfg.neighbor_address

-- The loop over the neighbors. `present` are the keys of listPeerKeys, or none where it failed.
skip_neighbor : Option (List String) → Crd.Neighbor → Bool
skip_neighbor none n = false
skip_neighbor (some present) n = not (listed (neighbor_key_from_crd n.config) present)

unfoldable pub clean_neighbors : Option (List String) → List Crd.Neighbor → List CleanupCall
unfolding skip_neighbor delete_peer_by_key
clean_neighbors present [] = []
clean_neighbors present (n ∷ rest) =
    let later = clean_neighbors present rest in
    if skip_neighbor present n then later else clean_peer (delete_peer_by_key n.config) ∷ later

-- The loops over the other objects, which are deleted without a look at what gobgpd has.
unfoldable pub other_calls : Crd.BgpConfigurationSpec → List CleanupCall
other_calls spec =
    map (λ (dn : Crd.DynamicNeighbor). clean_dynamic_neighbor dn.prefix) spec.dynamic_neighbors
    ++ map (λ (pg : Crd.PeerGroup). clean_peer_group pg.config.peer_group_name) spec.peer_groups
    ++ map (λ (vrf : Crd.Vrf). clean_vrf vrf.name) spec.vrfs
    ++ map (λ (policy : Crd.PolicyDefinition). clean_policy policy.name) spec.policy_definitions
    ++ map (λ (set : Crd.DefinedSet). clean_defined_set set.name) spec.defined_sets

-- The calls whose failure is a cleanup error, in their order.
unfoldable pub counted_calls : Option (List String) → Crd.BgpConfigurationSpec → List CleanupCall
unfolding clean_neighbors other_calls
counted_calls present spec = clean_neighbors present spec.neighbors ++ other_calls spec

-- The calls whose failure is only logged. Neither keeps the routes.
export_disabled : Option Crd.NetlinkExport → List CleanupCall
export_disabled none = []
export_disabled (some n) = if n.enabled then disable_netlink_export false ∷ [] else []

import_disabled : Option Crd.NetlinkImport → List CleanupCall
import_disabled none = []
import_disabled (some n) = if n.enabled then disable_netlink_import false ∷ [] else []

unfoldable pub cleanup_calls : Option (List String) → Crd.BgpConfigurationSpec → List CleanupCall
unfolding counted_calls export_disabled import_disabled
cleanup_calls present spec =
    counted_calls present spec
    ++ export_disabled spec.netlink_export
    ++ import_disabled spec.netlink_import

-- `len(cleanupErrors) > 0`. Whether a call fails may depend on the calls before it, latest first.
unfoldable pub some_fails :
    (List CleanupCall → CleanupCall → Bool) → List CleanupCall → List CleanupCall → Bool
some_fails fails before [] = false
some_fails fails before (c ∷ cs) =
    let later = some_fails fails (c ∷ before) cs in if fails before c then true else later

-- controllerutil.ContainsFinalizer and RemoveFinalizer
unfoldable pub contains_finalizer : List String → Bool
contains_finalizer fs = listed finalizer_name fs

unfoldable pub remove_finalizer : List String → List String
remove_finalizer [] = []
remove_finalizer (f ∷ fs) =
    let rest = remove_finalizer fs in if f == finalizer_name then rest else f ∷ rest
