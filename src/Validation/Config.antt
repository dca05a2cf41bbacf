-- ===== src/Validation/Config.antt =====
-- controllers/bgpconfiguration_controller.go: validateConfiguration, as the list of the errors that it adds
-- to its result, which is valid while the list is empty. An error has the offending value and the reason;
-- the path of the field and the text are left out. Texts are read by their code points: those that pass
-- are ASCII. net.ParseCIDR is a parameter.
use k8gobgp.Prelude.{
  String, Option, none, some, List, [], ◌∷◌, ◌++◌, ◌==◌, ◌!=◌, string_eq, if◌then◌else◌,
}
use k8gobgp.Prelude.Text.{codes}
use k8gobgp.Crd
use k8gobgp.RouterId.{RouterIdError, IpNet, validate_router_id_pool}
use k8gobgp.Validation.{
  CommunityError, Verdict, accepted, rejected, index_panic, validate_community,
  validate_large_community,
}

pub data Reason : Type 0 where
  bad_community : CommunityError → Reason
  bad_pool : RouterIdError → Reason
  panicked : Reason

pub record ValidationError : Type 0 where
  pub value : String
  pub reason : Reason

-- One loop that validates; `errors` is its body.
unfoldable pub collect : {A : Type 0} → (A → List ValidationError) → List A → List ValidationError
collect errors [] = []
collect errors (a ∷ rest) = errors a ++ collect errors rest

unfoldable pub verdict_errors : String → Verdict → List ValidationError
verdict_errors value accepted = []
verdict_errors value (rejected e) = record { value = value; reason = bad_community e } ∷ []
verdict_errors value index_panic = record { value = value; reason = panicked } ∷ []

unfoldable pub community_errors : String → List ValidationError
unfolding verdict_errors
community_errors c = verdict_errors c (validate_community (codes c))

unfoldable pub large_community_errors : String → List ValidationError
unfolding verdict_errors
large_community_errors c = verdict_errors c (validate_large_community (codes c))

unfoldable pub pool_result : String → Option RouterIdError → List ValidationError
pool_result pool none = []
pool_result pool (some e) = record { value = pool; reason = bad_pool e } ∷ []

unfoldable pub pool_errors : (String → Option IpNet) → String → List ValidationError
unfolding pool_result
pool_errors parse_cidr pool =
    if pool != ""
    then pool_result pool (validate_router_id_pool (codes pool) (parse_cidr pool))
    else []

abbrev pub rules_of : Option Crd.NetlinkExport → List Crd.NetlinkExportRule
rules_of none = []
rules_of (some n) = n.rules

unfoldable pub rule_errors : Crd.NetlinkExportRule → List ValidationError
unfolding collect community_errors large_community_errors
rule_errors rule =
    collect community_errors rule.community_list
    ++ collect large_community_errors rule.large_community_list

unfoldable pub export_errors : Option Crd.VrfNetlinkExport → List ValidationError
unfolding collect community_errors large_community_errors
export_errors none = []
export_errors (some e) =
    collect community_errors e.community_list
    ++ collect large_community_errors e.large_community_list

unfoldable pub action_errors : Option Crd.CommunityAction → List ValidationError
unfolding collect community_errors
action_errors none = []
action_errors (some a) = collect community_errors a.communities

unfoldable pub policy_errors : Crd.PolicyDefinition → List ValidationError
unfolding collect action_errors
policy_errors policy =
    collect (λ (stmt : Crd.Statement). action_errors stmt.actions.community) policy.statements

unfoldable pub set_errors : Crd.DefinedSet → List ValidationError
unfolding collect community_errors
set_errors set = if set.defined_type == "community" then collect community_errors set.list else []

unfoldable pub validate_configuration :
    (String → Option IpNet) → Crd.BgpConfigurationSpec → List ValidationError
unfolding pool_errors collect rule_errors export_errors policy_errors set_errors
validate_configuration parse_cidr spec =
    pool_errors parse_cidr spec.global.router_id_pool
    ++ collect rule_errors (rules_of spec.netlink_export)
    ++ collect (λ (vrf : Crd.Vrf). export_errors vrf.netlink_export) spec.vrfs
    ++ collect policy_errors spec.policy_definitions
    ++ collect set_errors spec.defined_sets
