-- ===== src/Netlink.antt =====
-- controllers/bgpconfiguration_controller.go: reconcileNetlink, reconcileVrfNetlink and what they compare
-- and convert. The calls that only read are given by their answers.
use k8gobgp.Prelude.{
  ℕ, String, Bool, true, false, not, ◌&&◌, ◌||◌, Option, none, some, List, [], ◌∷◌, ◌++◌, ◌==◌,
  ◌!=◌, nat_eq, bool_eq, string_eq, list_eq, if◌then◌else◌, length, none_of, value_or, map,
}
use k8gobgp.Prelude.GoMap.{GoMap, lookup, insert}
use k8gobgp.Crd
use k8gobgp.Api.Netlink.{
  NetlinkState, ExportRule, NetlinkExportRuleConfig, VrfExportRule, VrfNetlinkExportConfig,
  VrfState, ExportRules, NetlinkCall, enable_import, disable_import, enable_export, disable_export,
  enable_vrf_import, disable_vrf_import, enable_vrf_export, disable_vrf_export,
}
mod Rules
pub mod ReadBack
pub mod Idle
unfoldable pub use Rules.*

-- The calls made so far, with whether the function goes on.
pub record Progress : Type 0 where
  pub calls : List NetlinkCall
  pub ok : Bool

abbrev pub nothing : Progress
nothing = record { calls = []; ok = true }

-- An error returns at once.
unfoldable pub and_then : Progress → Progress → Progress
and_then first second =
    if first.ok then record { calls = first.calls ++ second.calls; ok = second.ok } else first

unfoldable pub wanted_import : Option Crd.NetlinkImport → Crd.NetlinkImport
wanted_import none = record { enabled = false; vrf = ""; interface_list = [] }
wanted_import (some i) = i

unfoldable pub wanted_export : Option Crd.NetlinkExport → Crd.NetlinkExport
wanted_export none = record {
  enabled = false;
  dampening_interval = 0;
  route_protocol = 0;
  rules = [];
}
wanted_export (some e) = e

-- Whether the export is updated, none where the rules cannot be listed.
unfoldable pub needs_export_update :
    Crd.NetlinkExport → NetlinkState → Option ExportRules → Option Bool
unfolding netlink_export_rules_match
needs_export_update e current listing =
    let needs_update =
      e.enabled != current.export_enabled
      || (e.enabled
          && e.dampening_interval != 0
          && e.dampening_interval != current.dampening_interval)
      || (e.enabled && e.route_protocol != 0 && e.route_protocol != current.route_protocol) in
    if e.enabled && current.export_enabled && not needs_update
    then elim listing [
      | none ↦ none
      | some listed ↦ some (not (netlink_export_rules_match listed.rules e.rules))
    ]
    else some needs_update

export_matches : Crd.VrfNetlinkExport → Option VrfExportRule → Bool
unfolding vrf_netlink_export_equal
export_matches e none = false
export_matches e (some rule) = vrf_netlink_export_equal e rule

-- The maps of what gobgpd has, by VRF; they are filled in the order of the listings.
unfoldable pub current_vrfs : GoMap VrfState → List VrfState → GoMap VrfState
current_vrfs m [] = m
current_vrfs m (v ∷ vs) = current_vrfs (insert v.name v m) vs

unfoldable pub current_vrf_exports : GoMap VrfExportRule → List VrfExportRule → GoMap VrfExportRule
current_vrf_exports m [] = m
current_vrf_exports m (v ∷ vs) = current_vrf_exports (insert v.gobgp_vrf v m) vs

vrf_rules : Option ExportRules → List VrfExportRule
vrf_rules none = []
vrf_rules (some listed) = listed.vrf_rules

-- What the daemon answers to a call, as a test.
module _ (works : NetlinkCall → Bool) where
  unfoldable pub make : NetlinkCall → Progress
  make call = record { calls = call ∷ []; ok = works call }

  unfoldable pub reconcile_import : Option Crd.NetlinkImport → NetlinkState → Progress
  unfolding make wanted_import
  reconcile_import spec current =
      let i = wanted_import spec in
      let needs_update =
        i.enabled != current.import_enabled
        || (i.enabled && i.interface_list != current.interfaces)
        || (i.enabled && i.vrf != current.vrf) in
      if needs_update
      then (if i.enabled
          then make (enable_import i.vrf i.interface_list)
          else if current.import_enabled
          then make disable_import
          else nothing)
      else nothing

  unfoldable pub apply_export : Crd.NetlinkExport → NetlinkState → Option Bool → Progress
  unfolding make crd_to_api_netlink_export_rules
  apply_export e current none = record { calls = []; ok = false }
  apply_export e current (some false) = nothing
  apply_export e current (some true) =
      if e.enabled
      then make (
          enable_export e.dampening_interval e.route_protocol
            (crd_to_api_netlink_export_rules e.rules))
      else if current.export_enabled
      then make disable_export
      else nothing

  unfoldable pub reconcile_export :
      Option Crd.NetlinkExport → NetlinkState → Option ExportRules → Progress
  unfolding needs_export_update apply_export wanted_export
  reconcile_export spec current listing =
      let e = wanted_export spec in apply_export e current (needs_export_update e current listing)

  unfoldable pub reconcile_vrf_import : String → Option Crd.VrfNetlinkImport → VrfState → Progress
  unfolding make and_then
  reconcile_vrf_import name none current = nothing
  reconcile_vrf_import name (some i) current =
      if i.enabled != current.import_enabled
      then make
          (if i.enabled then enable_vrf_import name i.interface_list else disable_vrf_import name)
      else if i.enabled && i.interface_list != current.import_interfaces
      then and_then (make (disable_vrf_import name))
          (make (enable_vrf_import name i.interface_list))
      else nothing

  -- An error of the disabling call is ignored.
  unfoldable pub reconcile_vrf_export :
      String → Option Crd.VrfNetlinkExport → Option VrfExportRule → Progress
  unfolding make export_matches crd_to_api_vrf_netlink_export_config
  reconcile_vrf_export name none present = nothing
  reconcile_vrf_export name (some e) present =
      if e.enabled
      then (if export_matches e present
          then nothing
          else make (enable_vrf_export name (crd_to_api_vrf_netlink_export_config e)))
      else elim present [
        | none ↦ nothing
        | some rule ↦ record { calls = disable_vrf_export name ∷ []; ok = true }
      ]

  unfoldable pub reconcile_one_vrf : Crd.Vrf → Option VrfState → Option VrfExportRule → Progress
  unfolding and_then reconcile_vrf_import reconcile_vrf_export
  reconcile_one_vrf vrf none exported = nothing
  reconcile_one_vrf vrf (some current) exported =
      and_then (reconcile_vrf_import vrf.name vrf.netlink_import current)
        (reconcile_vrf_export vrf.name vrf.netlink_export exported)

  unfoldable pub each_vrf : GoMap VrfState → GoMap VrfExportRule → List Crd.Vrf → Progress
  unfolding and_then reconcile_one_vrf
  each_vrf current exports [] = nothing
  each_vrf current exports (vrf ∷ vrfs) =
      and_then (reconcile_one_vrf vrf (lookup vrf.name current) (lookup vrf.name exports))
        (each_vrf current exports vrfs)

  -- The VRFs received before the stream ends or breaks, none where there is no stream; and the rules, none
  -- where the listing fails.
  unfoldable pub reconcile_vrf_netlink :
      List Crd.Vrf → Option (List VrfState) → Option ExportRules → Progress
  unfolding each_vrf current_vrfs current_vrf_exports vrf_rules
  reconcile_vrf_netlink vrfs none listing = record { calls = []; ok = false }
  reconcile_vrf_netlink vrfs (some received) listing =
      each_vrf (current_vrfs [] received) (current_vrf_exports [] (vrf_rules listing)) vrfs

  -- The answers, in the order of the calls: GetNetlink, the listing of the rules for the export, the VRFs
  -- and the listing for their exports.
  unfoldable pub reconcile_netlink :
      Crd.BgpConfigurationSpec
      → Option NetlinkState
      → Option ExportRules
      → Option (List VrfState)
      → Option ExportRules
      → Progress
  unfolding and_then reconcile_import reconcile_export reconcile_vrf_netlink
  reconcile_netlink spec none listing received vrf_listing = record { calls = []; ok = false }
  reconcile_netlink spec (some current) listing received vrf_listing =
      and_then (reconcile_import spec.netlink_import current) (
        and_then (reconcile_export spec.netlink_export current listing)
          (reconcile_vrf_netlink spec.vrfs received vrf_listing))
