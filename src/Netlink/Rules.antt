-- ===== src/Netlink/Rules.antt =====
-- controllers/bgpconfiguration_controller.go: the conversions and comparisons of
-- netlink settings.
use k8gobgp.Prelude.{
  Bool, true, false, not, ◌&&◌, Option, none, some, List, [], ◌∷◌, ◌!=◌, nat_eq, bool_eq, string_eq,
  list_eq, if◌then◌else◌, length, none_of, value_or,
}
use k8gobgp.Prelude.GoMap.{GoMap, lookup, insert}
use k8gobgp.Crd
use k8gobgp.Api.Netlink.{ExportRule, NetlinkExportRuleConfig, VrfExportRule, VrfNetlinkExportConfig}

unfoldable pub vrf_netlink_export_equal : Crd.VrfNetlinkExport → VrfExportRule → Bool
vrf_netlink_export_equal desired current = none_of (
    (desired.linux_vrf != "" && desired.linux_vrf != current.linux_vrf)
    ∷ (desired.linux_table_id != 0 && desired.linux_table_id != current.linux_table_id)
    ∷ (desired.metric != current.metric)
    ∷ (value_or true desired.validate_nexthop != current.validate_nexthop)
    ∷ (desired.community_list != current.community_list)
    ∷ (desired.large_community_list != current.large_community_list)
    ∷ [])

unfoldable pub crd_to_api_vrf_netlink_export_config : Crd.VrfNetlinkExport → VrfNetlinkExportConfig
crd_to_api_vrf_netlink_export_config crd = record {
  linux_vrf = crd.linux_vrf;
  linux_table_id = crd.linux_table_id;
  metric = crd.metric;
  skip_nexthop_validation = not (value_or true crd.validate_nexthop);
  community_list = crd.community_list;
  large_community_list = crd.large_community_list;
}

unfoldable pub rule_config : Crd.NetlinkExportRule → NetlinkExportRuleConfig
rule_config rule = record {
  name = rule.name;
  community_list = rule.community_list;
  large_community_list = rule.large_community_list;
  vrf = rule.vrf;
  table_id = rule.table_id;
  metric = rule.metric;
  validate_nexthop = rule.validate_nexthop;
}

unfoldable pub crd_to_api_netlink_export_rules :
    List Crd.NetlinkExportRule → List NetlinkExportRuleConfig
unfolding rule_config
crd_to_api_netlink_export_rules [] = []
crd_to_api_netlink_export_rules (rule ∷ rules) =
    rule_config rule ∷ crd_to_api_netlink_export_rules rules

-- The map of the current rules by name, filled in their order.
unfoldable pub by_name : GoMap ExportRule → List ExportRule → GoMap ExportRule
by_name m [] = m
by_name m (rule ∷ rules) = by_name (insert rule.name rule m) rules

unfoldable pub rule_matches : Option ExportRule → Crd.NetlinkExportRule → Bool
rule_matches none desired = false
rule_matches (some current) desired = none_of (
    (current.community_list != desired.community_list)
    ∷ (current.large_community_list != desired.large_community_list)
    ∷ (current.vrf != desired.vrf)
    ∷ (current.table_id != desired.table_id)
    ∷ (current.metric != desired.metric)
    ∷ (current.validate_nexthop != value_or true desired.validate_nexthop)
    ∷ [])

unfoldable pub rules_match : GoMap ExportRule → List Crd.NetlinkExportRule → Bool
unfolding rule_matches
rules_match m [] = true
rules_match m (desired ∷ rest) =
    let later = rules_match m rest in
    if not (rule_matches (lookup desired.name m) desired) then false else later

unfoldable pub netlink_export_rules_match : List ExportRule → List Crd.NetlinkExportRule → Bool
unfolding by_name rules_match
netlink_export_rules_match current desired =
    if length current != length desired then false else rules_match (by_name [] current) desired
