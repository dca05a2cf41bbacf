-- ===== src/Validation/Accepts.antt =====
-- controllers/bgpconfiguration_controller.go: which resources validateConfiguration accepts.
use k8gobgp.Prelude.{String, ◌≡◌, ◌↔◌, Option, List, [], ◌++◌, string_eq}
use k8gobgp.Crd
use k8gobgp.RouterId.{IpNet}
use k8gobgp.Validation.Config.{
  collect, pool_errors, rules_of, rule_errors, export_errors, action_errors, policy_errors,
  set_errors, validate_configuration,
}
use k8gobgp.Validation.Findings.{
  AllOf, OfSome, IsCommunityText, ListsAreValid, SetIsValid, PoolIsValid, append-nil_iff,
  collect-nil_iff, lists_nil_iff, export_errors-nil_iff, action_errors-nil_iff, set_errors-nil_iff,
  pool_errors-nil_iff,
}

-- What a resource is held to: the pool, and every community of its netlink exports, its defined sets
-- of communities, and the `community` action of its policies; the large and extended community actions
-- are not checked.
pub record IsValidSpec (parse_cidr : String → Option IpNet) (spec : Crd.BgpConfigurationSpec)
    : Type 0 where
  pub pool : PoolIsValid parse_cidr spec.global.router_id_pool
  pub rules :
      AllOf
        (λ (r : Crd.NetlinkExportRule). ListsAreValid r.community_list r.large_community_list)
        (rules_of spec.netlink_export)
  pub vrfs :
      AllOf
        (λ (vrf : Crd.Vrf).
          OfSome
            (λ (x : Crd.VrfNetlinkExport). ListsAreValid x.community_list x.large_community_list)
            vrf.netlink_export)
        spec.vrfs
  pub policies :
      AllOf
        (λ (policy : Crd.PolicyDefinition).
          AllOf
            (λ (stmt : Crd.Statement).
              OfSome
                (λ (a : Crd.CommunityAction). AllOf IsCommunityText a.communities)
                stmt.actions.community)
            policy.statements)
        spec.policy_definitions
  pub sets : AllOf SetIsValid spec.defined_sets

five_nil_iff :
    {A : Type 0}
    → (a b c d e : List A)
    → ((a ++ b ++ c ++ d ++ e) ≡ []) ↔ ((a ≡ []) × (b ≡ []) × (c ≡ []) × (d ≡ []) × (e ≡ []))
five_nil_iff a b c d e = (
  λ h.
      let (t1, h5) = (append-nil_iff (a ++ b ++ c ++ d) e).0 h in
      let (t2, h4) = (append-nil_iff (a ++ b ++ c) d).0 t1 in
      let (t3, h3) = (append-nil_iff (a ++ b) c).0 t2 in
      let (h1, h2) = (append-nil_iff a b).0 t3 in (h1, h2, h3, h4, h5),
  λ (h1, h2, h3, h4, h5). (append-nil_iff (a ++ b ++ c ++ d) e).1 (
    (append-nil_iff (a ++ b ++ c) d).1
        ((append-nil_iff (a ++ b) c).1 ((append-nil_iff a b).1 (h1, h2), h3), h4),
    h5,
  ),
)

-- validateConfiguration finds no error exactly if the pool, where one is given, is accepted by
-- ValidateRouterIDPool, and every community that the netlink export rules, the exports of the VRFs, the
-- `community` actions of the policies and the defined sets of type `community` list is well formed: a
-- community as two numbers up to 65535, a large community of the export rules and of the exports of VRFs
-- as ValidateLargeCommunity accepts it. A policy's large and extended community actions are not checked.
pub validate_configuration-nil_iff :
    (parse_cidr : String → Option IpNet) (spec : Crd.BgpConfigurationSpec)
    → (validate_configuration parse_cidr spec ≡ []) ↔ IsValidSpec parse_cidr spec
unfolding validate_configuration
validate_configuration-nil_iff parse_cidr spec =
    let pool = pool_errors-nil_iff parse_cidr spec.global.router_id_pool in
    let rules =
      collect-nil_iff rule_errors _
        (λ r. unfold rule_errors in lists_nil_iff r.community_list r.large_community_list)
        (rules_of spec.netlink_export) in
    let vrfs =
      collect-nil_iff (λ (vrf : Crd.Vrf). export_errors vrf.netlink_export) _
        (λ vrf. export_errors-nil_iff vrf.netlink_export) spec.vrfs in
    let policies =
      collect-nil_iff policy_errors _
        (λ policy.
          unfold policy_errors in
          collect-nil_iff (λ (stmt : Crd.Statement). action_errors stmt.actions.community) _
            (λ stmt. action_errors-nil_iff stmt.actions.community) policy.statements)
        spec.policy_definitions in
    let sets = collect-nil_iff set_errors SetIsValid set_errors-nil_iff spec.defined_sets in
    let all =
      five_nil_iff (pool_errors parse_cidr spec.global.router_id_pool)
        (collect rule_errors (rules_of spec.netlink_export))
        (collect (λ (vrf : Crd.Vrf). export_errors vrf.netlink_export) spec.vrfs)
        (collect policy_errors spec.policy_definitions) (collect set_errors spec.defined_sets) in
    (
      λ h.
          let (h1, h2, h3, h4, h5) = all.0 h in
          record {
            pool = pool.0 h1;
            rules = rules.0 h2;
            vrfs = vrfs.0 h3;
            policies = policies.0 h4;
            sets = sets.0 h5;
          },
      λ v.
          all.1
            (pool.1 v.pool, rules.1 v.rules, vrfs.1 v.vrfs, policies.1 v.policies, sets.1 v.sets),
    )
