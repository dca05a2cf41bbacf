-- ===== src/Examples/Groups.antt =====
-- reconcilePeerGroups and reconcileDynamicNeighbors at a resource with one group and one range of it.
use k8gobgp.Prelude.{◌≡◌, refl, true, false, none, some, List, [], ◌∷◌}
use k8gobgp.Prelude.GoMap.{GoMap, lookup}
use k8gobgp.Crd
use k8gobgp.Api.{PeerGroup, remove_private_unspecified}
use k8gobgp.Sync.Table.{run}
use k8gobgp.Sync.Groups.{
  Cluster, done, failed, by_key, group_name, GroupCall, DynamicCall, desired_peer_groups,
  group_calls, reconcile_peer_groups, and_then, rounds, for_this_node, resolve_auth_password,
  desired_dynamic_neighbors, dynamic_calls, reconcile_dynamic_neighbors,
}
use k8gobgp.Sync.GroupsConverge.{
  group_call_key, group_call_value, GroupSettled, reconcile_peer_groups_settles,
}
use k8gobgp.Sync.RangesConverge.{
  range_call_key, range_call_value, prefix_of, reconcile_dynamic_neighbors_settles,
}
use k8gobgp.Examples.Tables.{map_table, in_order, in_order-VisitsAll}
use k8gobgp.Examples.Samples

abbrev spines : Crd.PeerGroup
spines = record {
  config = record {
    peer_group_name = "spines";
    description = "";
    peer_asn = 65100;
    local_asn = 0;
    auth_password = "";
    auth_password_secret_ref = none;
    allow_own_asn = 0;
    replace_peer_asn = false;
    allow_aspath_loop_local = false;
    send_community = "";
    remove_private = "";
    route_flap_damping = false;
    send_software_version = false;
  };
  node_selector = none;
  afi_safis = [];
  apply_policy = none;
  timers = none;
  transport = none;
  graceful_restart = none;
  bfd = none;
}

abbrev config : Crd.BgpConfiguration
config = record Samples.config { spec = record Samples.config.spec { peer_groups = spines ∷ [] } }

cluster : Cluster
cluster = record {
  node_labels = some [];
  selector_matches = λ selector labels. some true;
  get_secret = λ namespace name. none;
}

-- gobgpd has a group of another name.
abbrev stale : PeerGroup
stale = record {
  conf = some (record {
    peer_group_name = "leaves";
    peer_asn = 0;
    local_asn = 0;
    description = "";
    auth_password = "";
    allow_own_asn = 0;
    replace_peer_asn = false;
    allow_aspath_loop_local = false;
    remove_private = remove_private_unspecified;
    send_software_version = false;
    send_community = none;
  });
  afi_safis = [];
  apply_policy = none;
  timers = none;
  transport = none;
  graceful_restart = none;
  bfd = none;
}

abbrev desired : GoMap PeerGroup
desired = elim (desired_peer_groups cluster config) [ failed e ↦ [] | done m ↦ m ]

abbrev calls : List GroupCall
calls = group_calls in_order (by_key group_name [] (stale ∷ [])) desired

sample_run :
    reconcile_peer_groups cluster in_order (some (stale ∷ [])) config ≡ done (calls, desired)
unfolding reconcile_peer_groups desired_peer_groups and_then rounds for_this_node
    resolve_auth_password
sample_run = refl

reconcile_peer_groups_settles_example : GroupSettled (lookup "leaves" desired) (
    (map_table group_call_key group_call_value).view
      (run (map_table group_call_key group_call_value) (by_key group_name [] (stale ∷ [])) calls)
      "leaves")
unfolding map_table
reconcile_peer_groups_settles_example =
    reconcile_peer_groups_settles (map_table group_call_key group_call_value)
      (by_key group_name [] (stale ∷ [])) cluster in_order (stale ∷ []) config calls desired
      in_order-VisitsAll (λ k. refl) sample_run "leaves"

-- gobgpd has the range with another group.
abbrev old_range : List Crd.DynamicNeighbor
old_range = record { prefix = "10.0.0.9"; peer_group = "leaves" } ∷ []

abbrev desired_ranges : GoMap Crd.DynamicNeighbor
desired_ranges = desired_dynamic_neighbors desired [] config.spec.dynamic_neighbors

abbrev range_calls : List DynamicCall
range_calls = dynamic_calls in_order (by_key prefix_of [] old_range) desired_ranges

range_run :
    reconcile_dynamic_neighbors in_order (some old_range) config desired
    ≡ done (range_calls, desired_ranges)
unfolding reconcile_dynamic_neighbors
range_run = refl

reconcile_dynamic_neighbors_settles_example :
    (map_table range_call_key range_call_value).view
      (run (map_table range_call_key range_call_value) (by_key prefix_of [] old_range) range_calls)
      "10.0.0.9"
    ≡ lookup "10.0.0.9" desired_ranges
unfolding map_table
reconcile_dynamic_neighbors_settles_example =
    reconcile_dynamic_neighbors_settles (map_table range_call_key range_call_value)
      (by_key prefix_of [] old_range) in_order old_range config desired range_calls desired_ranges
      in_order-VisitsAll (λ k. refl) range_run "10.0.0.9"
