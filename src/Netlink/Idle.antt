-- ===== src/Netlink/Idle.antt =====
-- controllers/bgpconfiguration_controller.go: reconcileNetlink where gobgpd is as the resource asks.
use k8gobgp.Prelude.{
  All, pass_test, and_split, String, ◌≡◌, ◌≢◌, refl, Bool, true, false, ◌&&◌, Option, none, some,
  List, [], ◌∷◌, ◌!=◌, nat_eq, bool_eq, string_eq, list_eq, Eq, map, value_or, Bool-cases, inl, inr,
  arith, !=_of_eq, guarded_of_eq, ne_of_==,
}
use k8gobgp.Prelude.GoMap.{GoMap, lookup}
use k8gobgp.Crd
use k8gobgp.Api.Netlink.{NetlinkState, VrfExportRule, VrfState, ExportRules, NetlinkCall}
use k8gobgp.Netlink.{
  vrf_netlink_export_equal, nothing, and_then, wanted_import, wanted_export, reconcile_import,
  needs_export_update, apply_export, reconcile_export, reconcile_vrf_import, reconcile_vrf_export,
  reconcile_one_vrf, each_vrf, current_vrfs, current_vrf_exports, reconcile_vrf_netlink,
  reconcile_netlink,
}
use k8gobgp.Netlink.ReadBack.{read_back, Distinct, HasMetric, netlink_export_rules_match-read_back}

-- A field that is compared only where the resource sets it.
guarded_by : {A : Type 0} ⦃e : Eq A⦄ (a z b : A) → (a ≢ z → a ≡ b) → (a != z && a != b) ≡ false
guarded_by a z b same = guarded_of_eq {g = a != z} (λ set. same (ne_of_== (ground arith)))

guarded_twice :
    {A : Type 0} ⦃e : Eq A⦄ (g : Bool) (a z b : A)
    → (a ≢ z → a ≡ b)
    → (g && a != z && a != b) ≡ false
guarded_twice g a z b same = guarded_of_eq {g = g && a != z} (λ set. same (ne_of_== (ground arith)))

pub record ImportInSync (i : Crd.NetlinkImport) (current : NetlinkState) : Type 0 where
  pub switched : i.enabled ≡ current.import_enabled
  pub interfaces : i.enabled ≡ true → i.interface_list ≡ current.interfaces
  pub vrf : i.enabled ≡ true → i.vrf ≡ current.vrf

pub record ExportInSync (e : Crd.NetlinkExport) (current : NetlinkState)
    (listing : Option ExportRules) : Type 0 where
  pub switched : e.enabled ≡ current.export_enabled
  pub dampening : e.dampening_interval ≢ 0 → e.dampening_interval ≡ current.dampening_interval
  pub protocol : e.route_protocol ≢ 0 → e.route_protocol ≡ current.route_protocol
  pub vrf_rules : List VrfExportRule
  pub listed :
      e.enabled ≡ true
      → listing ≡ some (record { rules = map read_back e.rules; vrf_rules = vrf_rules })
  pub distinct : Distinct e.rules
  pub stated : All HasMetric e.rules

-- The export of a VRF as gobgpd reports it, which fills in the Linux VRF and its table.
pub record VrfExportReadBack (e : Crd.VrfNetlinkExport) (rule : VrfExportRule) : Type 0 where
  pub linux_vrf : e.linux_vrf ≢ "" → e.linux_vrf ≡ rule.linux_vrf
  pub linux_table_id : e.linux_table_id ≢ 0 → e.linux_table_id ≡ rule.linux_table_id
  pub metric : e.metric ≡ rule.metric
  pub validate_nexthop : value_or true e.validate_nexthop ≡ rule.validate_nexthop
  pub community_list : e.community_list ≡ rule.community_list
  pub large_community_list : e.large_community_list ≡ rule.large_community_list

abbrev pub VrfImportInSync : Option Crd.VrfNetlinkImport → VrfState → Type 0
VrfImportInSync none current = Unit
VrfImportInSync (some i) current =
    (i.enabled ≡ current.import_enabled)
    × (i.enabled ≡ true → i.interface_list ≡ current.import_interfaces)

abbrev pub VrfExportInSync : Option Crd.VrfNetlinkExport → Option VrfExportRule → Type 0
VrfExportInSync none exported = Unit
VrfExportInSync (some e) none = e.enabled ≡ false
VrfExportInSync (some e) (some rule) = (e.enabled ≡ true) × VrfExportReadBack e rule

-- A VRF that gobgpd does not have is passed over.
abbrev pub VrfInSync : Crd.Vrf → Option VrfState → Option VrfExportRule → Type 0
VrfInSync vrf none exported = Unit
VrfInSync vrf (some current) exported =
    VrfImportInSync vrf.netlink_import current × VrfExportInSync vrf.netlink_export exported

module _ (works : NetlinkCall → Bool) where
  reconcile_import_idle :
      (spec : Option Crd.NetlinkImport) (current : NetlinkState)
      → ImportInSync (wanted_import spec) current
      → reconcile_import works spec current ≡ nothing
  unfolding reconcile_import
  reconcile_import_idle spec current same =
      rw
        (
          !=_of_eq same.switched,
          guarded_of_eq {g = (wanted_import spec).enabled} same.interfaces,
          guarded_of_eq {g = (wanted_import spec).enabled} same.vrf,
        )
        refl

  needs_export_update_idle :
      (e : Crd.NetlinkExport) (current : NetlinkState) (listing : Option ExportRules)
      → ExportInSync e current listing
      → needs_export_update e current listing ≡ some false
  unfolding needs_export_update
  needs_export_update_idle e current listing same =
      rw
        (
          !=_of_eq same.switched,
          guarded_twice e.enabled e.dampening_interval 0 current.dampening_interval same.dampening,
          guarded_twice e.enabled e.route_protocol 0 current.route_protocol same.protocol,
        )
        (elim (Bool-cases (e.enabled && current.export_enabled)) [
          | inr off ↦ rw off refl
          | inl on ↦
              rw
                (
                  on,
                  same.listed (and_split e.enabled current.export_enabled on).0,
                  netlink_export_rules_match-read_back e.rules same.distinct same.stated,
                )
                refl
        ])

  reconcile_vrf_import_idle :
      (name : String) (i : Option Crd.VrfNetlinkImport) (current : VrfState)
      → VrfImportInSync i current
      → reconcile_vrf_import works name i current ≡ nothing
  unfolding reconcile_vrf_import
  reconcile_vrf_import_idle name none current same = refl
  reconcile_vrf_import_idle name (some i) current same =
      rw (!=_of_eq same.0, guarded_of_eq {g = i.enabled} same.1) refl

  vrf_netlink_export_equal-ReadBack :
      (e : Crd.VrfNetlinkExport) (rule : VrfExportRule)
      → VrfExportReadBack e rule
      → vrf_netlink_export_equal e rule ≡ true
  unfolding vrf_netlink_export_equal
  vrf_netlink_export_equal-ReadBack e rule same =
      pass_test (guarded_by e.linux_vrf "" rule.linux_vrf same.linux_vrf) (
        pass_test (guarded_by e.linux_table_id 0 rule.linux_table_id same.linux_table_id) (
          pass_test (!=_of_eq same.metric) (
            pass_test (!=_of_eq same.validate_nexthop) (
              pass_test (!=_of_eq same.community_list)
                (pass_test (!=_of_eq same.large_community_list) refl)))))

  reconcile_vrf_export_idle :
      (name : String) (e : Option Crd.VrfNetlinkExport) (exported : Option VrfExportRule)
      → VrfExportInSync e exported
      → reconcile_vrf_export works name e exported ≡ nothing
  unfolding reconcile_vrf_export
  reconcile_vrf_export_idle name none exported same = refl
  reconcile_vrf_export_idle name (some e) none same = rw same refl
  reconcile_vrf_export_idle name (some e) (some rule) same =
      rw (same.0, vrf_netlink_export_equal-ReadBack e rule same.1) refl

  reconcile_one_vrf_idle :
      (vrf : Crd.Vrf) (current : Option VrfState) (exported : Option VrfExportRule)
      → VrfInSync vrf current exported
      → reconcile_one_vrf works vrf current exported ≡ nothing
  unfolding reconcile_one_vrf and_then
  reconcile_one_vrf_idle vrf none exported same = refl
  reconcile_one_vrf_idle vrf (some current) exported same =
      rw
        (
          reconcile_vrf_import_idle vrf.name vrf.netlink_import current same.0,
          reconcile_vrf_export_idle vrf.name vrf.netlink_export exported same.1,
        )
        refl

  each_vrf_idle :
      (current : GoMap VrfState) (exports : GoMap VrfExportRule) (vrfs : List Crd.Vrf)
      → All (λ vrf. VrfInSync vrf (lookup vrf.name current) (lookup vrf.name exports)) vrfs
      → each_vrf works current exports vrfs ≡ nothing
  unfolding each_vrf and_then
  each_vrf_idle current exports [] same = refl
  each_vrf_idle current exports (vrf ∷ vrfs) same =
      rw
        (
          reconcile_one_vrf_idle vrf (lookup vrf.name current) (lookup vrf.name exports) same.0,
          each_vrf_idle current exports vrfs same.1,
        )
        refl

  -- Where gobgpd's import, its export with its rules, of distinct names and each with its metric stated,
  -- and the import and export of each VRF that it has are as the resource asks, the rules and exports
  -- reported with the defaults that the types document, reconcileNetlink makes no call but those that
  -- read, and ends without an error.
  pub reconcile_netlink_idle :
      (spec : Crd.BgpConfigurationSpec) (current : NetlinkState) (listing : Option ExportRules)
      (received : List VrfState) (rules : ExportRules)
      → ImportInSync (wanted_import spec.netlink_import) current
      → ExportInSync (wanted_export spec.netlink_export) current listing
      → All
          (λ vrf.
            VrfInSync vrf
              (lookup vrf.name (current_vrfs [] received))
              (lookup vrf.name (current_vrf_exports [] rules.vrf_rules)))
          spec.vrfs
      → reconcile_netlink works spec (some current) listing (some received) (some rules) ≡ nothing
  unfolding reconcile_netlink reconcile_export reconcile_vrf_netlink apply_export and_then
  reconcile_netlink_idle spec current listing received rules imports exports vrfs =
      rw
        (
          reconcile_import_idle spec.netlink_import current imports,
          needs_export_update_idle (wanted_export spec.netlink_export) current listing exports,
          each_vrf_idle (current_vrfs [] received) (current_vrf_exports [] rules.vrf_rules)
              spec.vrfs vrfs,
        )
        refl
