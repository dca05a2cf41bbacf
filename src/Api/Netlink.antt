-- ===== src/Api/Netlink.antt =====
-- The messages of gobgp's API for netlink, with the fields that the controller reads and sets.
use k8gobgp.Prelude.{ℕ, String, Bool, Option, List}

pub record NetlinkState : Type 0 where
  pub import_enabled : Bool
  pub vrf : String
  pub interfaces : List String
  pub export_enabled : Bool
  pub dampening_interval : ℕ
  pub route_protocol : ℕ

pub record ExportRule : Type 0 where
  pub name : String
  pub community_list : List String
  pub large_community_list : List String
  pub vrf : String
  pub table_id : ℕ
  pub metric : ℕ
  pub validate_nexthop : Bool

pub record NetlinkExportRuleConfig : Type 0 where
  pub name : String
  pub community_list : List String
  pub large_community_list : List String
  pub vrf : String
  pub table_id : ℕ
  pub metric : ℕ
  pub validate_nexthop : Option Bool

pub record VrfExportRule : Type 0 where
  pub gobgp_vrf : String
  pub linux_vrf : String
  pub linux_table_id : ℕ
  pub metric : ℕ
  pub validate_nexthop : Bool
  pub community_list : List String
  pub large_community_list : List String

pub record VrfNetlinkExportConfig : Type 0 where
  pub linux_vrf : String
  pub linux_table_id : ℕ
  pub metric : ℕ
  pub skip_nexthop_validation : Bool
  pub community_list : List String
  pub large_community_list : List String

-- A VRF of ListVrf, with its netlink state; a nil state reads as one that is off.
pub record VrfState : Type 0 where
  pub name : String
  pub import_enabled : Bool
  pub import_interfaces : List String

pub record ExportRules : Type 0 where
  pub rules : List ExportRule
  pub vrf_rules : List VrfExportRule

pub data NetlinkCall : Type 0 where
  enable_import : String → List String → NetlinkCall
  disable_import : NetlinkCall
  enable_export : ℕ → ℕ → List NetlinkExportRuleConfig → NetlinkCall
  disable_export : NetlinkCall
  enable_vrf_import : String → List String → NetlinkCall
  disable_vrf_import : String → NetlinkCall
  enable_vrf_export : String → VrfNetlinkExportConfig → NetlinkCall
  disable_vrf_export : String → NetlinkCall
