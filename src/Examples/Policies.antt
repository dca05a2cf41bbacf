-- ===== src/Examples/Policies.antt =====
-- Policies, VRFs and defined sets at a resource with one of each.
use k8gobgp.Prelude.{
  ◌==◌, string_eq, if◌then◌else◌, ℕ, ◌≡◌, refl, true, String, Option, none, some, List, [], ◌∷◌,
}
use k8gobgp.Prelude.Text.{codes}
use k8gobgp.Prelude.GoMap.{GoMap, lookup, insert}
use k8gobgp.Crd
use k8gobgp.Api.Policies.{
  Policy, Vrf, DefinedType, type_prefix, type_neighbor, type_as_path, type_community, DefinedSet,
  rd_two_octet_asn,
}
use k8gobgp.Convert.Vrfs.{parse_route_distinguisher, format_route_distinguisher}
use k8gobgp.Convert.RoundTrip.{parse_route_distinguisher_stable}
use k8gobgp.Sync.Table.{run}
use k8gobgp.Sync.Policies.{
  policy_calls, desired_policies, PolicyCall, reconcile_policies, Assigned, VrfCall, vrf_calls,
  desired_vrfs, reconcile_vrfs,
}
use k8gobgp.Sync.PoliciesConverge.{
  policy_key, policy_value, reconcile_policies_settles, vrf_key, vrf_value, vrf_left,
  reconcile_vrfs_settles,
}
use k8gobgp.Examples.Tables.{map_table, in_order, in_order-VisitsAll}
use k8gobgp.Examples.Samples

-- " 65000:100 or so" reads as 65000:100.
abbrev text : List ℕ
text = codes " 65000:100 or so"

sample_parse : parse_route_distinguisher text ≡ some (rd_two_octet_asn 65000 100)
unfolding parse_route_distinguisher
sample_parse = refl

parse_route_distinguisher_stable_example :
    parse_route_distinguisher (format_route_distinguisher (some (rd_two_octet_asn 65000 100)))
    ≡ some (rd_two_octet_asn 65000 100)
parse_route_distinguisher_stable_example =
    parse_route_distinguisher_stable text (rd_two_octet_asn 65000 100) sample_parse

abbrev config : Crd.BgpConfiguration
config = record Samples.config {
  spec = record Samples.config.spec {
    policy_definitions = record { name = "tag"; statements = [] } ∷ [];
    vrfs =
        record {
          name = "red";
          rd = "65000:100";
          import_rt = [];
          export_rt = [];
          netlink_import = none;
          netlink_export = none;
        }
        ∷ [];
    defined_sets =
        record {
          defined_type = "community";
          name = "racks";
          list = "65000:100" ∷ [];
          prefixes = [];
        }
        ∷ [];
  };
}

-- gobgpd has a policy of another name, and the VRF with another distinguisher.
abbrev policies : List Policy
policies = record { name = "old"; statements = [] } ∷ []

abbrev vrfs : List Vrf
vrfs =
    record { name = "red"; rd = some (rd_two_octet_asn 1 1); import_rt = []; export_rt = [] } ∷ []

abbrev policy_map : GoMap Policy
policy_map = ("old", record { name = "old"; statements = [] }) ∷ []

abbrev vrf_map : GoMap Vrf
vrf_map =
    (
      "red",
      record { name = "red"; rd = some (rd_two_octet_asn 1 1); import_rt = []; export_rt = [] },
    )
    ∷ []

abbrev calls : List PolicyCall
calls = policy_calls in_order policy_map (desired_policies [] config.spec.policy_definitions)

abbrev unassigned : Assigned
unassigned = record { assignments = []; ok = true }

sample_policies :
    reconcile_policies in_order (λ a. true) (some policies) config ≡ some (calls, unassigned)
unfolding reconcile_policies insert
sample_policies = refl

reconcile_policies_settles_example :
    (map_table policy_key policy_value).view
      (run (map_table policy_key policy_value) policy_map calls)
      "old"
    ≡ lookup "old" (desired_policies [] config.spec.policy_definitions)
unfolding map_table reconcile_policies insert
reconcile_policies_settles_example =
    reconcile_policies_settles (map_table policy_key policy_value) policy_map in_order (λ a. true)
      policies config calls unassigned in_order-VisitsAll (λ k. refl) sample_policies "old"

abbrev vrf_run : List VrfCall
vrf_run = vrf_calls in_order vrf_map (desired_vrfs [] config.spec.vrfs)

sample_vrfs : reconcile_vrfs in_order (some vrfs) config ≡ some vrf_run
unfolding reconcile_vrfs insert
sample_vrfs = refl

reconcile_vrfs_settles_example :
    (map_table vrf_key vrf_value).view (run (map_table vrf_key vrf_value) vrf_map vrf_run) "red"
    ≡ vrf_left (lookup "red" (desired_vrfs [] config.spec.vrfs)) (lookup "red" vrf_map)
unfolding map_table reconcile_vrfs insert
reconcile_vrfs_settles_example =
    reconcile_vrfs_settles (map_table vrf_key vrf_value) vrf_map in_order vrfs config vrf_run
      in_order-VisitsAll (λ k. refl) sample_vrfs "red"

-- The community listing gives the set that the resource defines, and gobgpd has no other.
abbrev racks : DefinedSet
racks = record {
  defined_type = type_community;
  name = "racks";
  list = "65000:100" ∷ [];
  prefixes = [];
}

abbrev held : String → Option DefinedSet
held k = if "racks" == k then some racks else none

abbrev sets : DefinedType → List (Option DefinedSet)
sets type_prefix = []
sets type_neighbor = none ∷ []
sets type_as_path = []
sets type_community = some racks ∷ []
