-- ===== src/Examples/Netlink.antt =====
-- reconcileNetlink where gobgpd imports one interface, exports by one rule and has one VRF, as it is asked.
use k8gobgp.Prelude.{◌≡◌, refl, Bool, true, false, none, some, List, [], ◌∷◌, arith}
use k8gobgp.Crd
use k8gobgp.Api.Netlink.{NetlinkState, ExportRules, VrfExportRule, VrfState, NetlinkCall}
use k8gobgp.Netlink.{
  wanted_import, wanted_export, nothing, reconcile_netlink, current_vrfs, current_vrf_exports,
}
use k8gobgp.Prelude.GoMap.{lookup, insert}
use k8gobgp.Netlink.ReadBack.{read_back}
use k8gobgp.Netlink.Idle.{ImportInSync, ExportInSync, VrfInSync, reconcile_netlink_idle}
use k8gobgp.Examples.Samples.{config}

abbrev works : NetlinkCall → Bool
works call = true

abbrev rule : Crd.NetlinkExportRule
rule = record {
  name = "all";
  community_list = [];
  large_community_list = [];
  vrf = "";
  table_id = 0;
  metric = 20;
  validate_nexthop = none;
}

abbrev vrf_export : Crd.VrfNetlinkExport
vrf_export = record {
  enabled = true;
  linux_vrf = "";
  linux_table_id = 0;
  metric = 20;
  validate_nexthop = none;
  community_list = [];
  large_community_list = [];
}

abbrev red : Crd.Vrf
red = record {
  name = "red";
  rd = "65000:1";
  import_rt = [];
  export_rt = [];
  netlink_import = none;
  netlink_export = some vrf_export;
}

abbrev spec : Crd.BgpConfigurationSpec
spec = record config.spec {
  netlink_import = some (record { enabled = true; vrf = ""; interface_list = "kube-lb0" ∷ [] });
  netlink_export =
      some
        (record { enabled = true; dampening_interval = 0; route_protocol = 0; rules = rule ∷ [] });
  vrfs = red ∷ [];
}

abbrev current : NetlinkState
current = record {
  import_enabled = true;
  vrf = "";
  interfaces = "kube-lb0" ∷ [];
  export_enabled = true;
  dampening_interval = 100;
  route_protocol = 186;
}

abbrev exported : VrfExportRule
exported = record {
  gobgp_vrf = "red";
  linux_vrf = "red";
  linux_table_id = 1001;
  metric = 20;
  validate_nexthop = true;
  community_list = [];
  large_community_list = [];
}

abbrev rules : ExportRules
rules = record { rules = read_back rule ∷ []; vrf_rules = exported ∷ [] }

abbrev vrfs : List VrfState
vrfs = record { name = "red"; import_enabled = false; import_interfaces = [] } ∷ []

import_in_sync : ImportInSync (wanted_import spec.netlink_import) current
unfolding wanted_import
import_in_sync = record { switched = refl; interfaces = λ on. refl; vrf = λ on. refl }

export_in_sync : ExportInSync (wanted_export spec.netlink_export) current (some rules)
unfolding wanted_export
export_in_sync = record {
  switched = refl;
  dampening = λ set. absurd (set refl);
  protocol = λ set. absurd (set refl);
  vrf_rules = exported ∷ [];
  listed = λ on. refl;
  distinct = (tt, tt);
  stated = (λ e. absurd (omega arith), tt);
}

vrf_in_sync :
    VrfInSync red
      (lookup "red" (current_vrfs [] vrfs))
      (lookup "red" (current_vrf_exports [] (exported ∷ [])))
unfolding lookup insert current_vrfs current_vrf_exports
vrf_in_sync = (
  tt,
  (
    refl,
    record {
      linux_vrf = λ set. absurd (set refl);
      linux_table_id = λ set. absurd (set refl);
      metric = refl;
      validate_nexthop = refl;
      community_list = refl;
      large_community_list = refl;
    },
  ),
)

reconcile_netlink_idle_example :
    reconcile_netlink works spec (some current) (some rules) (some vrfs) (some rules) ≡ nothing
reconcile_netlink_idle_example =
    reconcile_netlink_idle works spec current (some rules) vrfs rules import_in_sync export_in_sync
      (vrf_in_sync, tt)
