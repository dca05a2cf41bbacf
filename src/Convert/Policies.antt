-- ===== src/Convert/Policies.antt =====
-- The conversion helpers of defined sets and policies.
use k8gobgp.Prelude.{
  String, Option, none, some, map, ◌==◌, nat_eq, string_eq, list_eq, if◌then◌else◌,
}
use k8gobgp.Prelude.Text.{codes, lower}
use k8gobgp.Crd
use k8gobgp.Api.Policies
use k8gobgp.Api.Policies.{
  DefinedType, type_prefix, type_neighbor, type_as_path, type_community, DefinedSet, MatchType,
  match_any, match_all, match_invert, MatchSet, Comparison, comparison_eq, comparison_ge,
  comparison_le, ValidationState, validation_none, validation_not_found, validation_valid,
  validation_invalid, RouteType, route_type_unspecified, route_type_internal, route_type_external,
  route_type_local, OriginType, origin_unspecified, origin_igp, origin_egp, origin_incomplete,
  CommunityActionType, community_add, community_remove, community_replace, MedActionType, med_mod,
  med_replace, AsPathLength, CommunityCount, NexthopAction, CommunityAction, MedAction,
  AsPrependAction, Conditions, Actions, Statement, Policy,
}
use k8gobgp.Convert.Families.{crd_to_api_families}
use k8gobgp.Convert.Peers.{crd_to_api_route_action}

unfoldable pub crd_to_api_defined_type : String → DefinedType
crd_to_api_defined_type s =
    if lower s == codes "prefix"
    then type_prefix
    else if lower s == codes "neighbor"
    then type_neighbor
    else if lower s == codes "as-path"
    then type_as_path
    else if lower s == codes "community"
    then type_community
    else type_prefix

prefix_of_crd : Crd.Prefix → Policies.Prefix
prefix_of_crd p = record {
  ip_prefix = p.ip_prefix;
  rtc_prefix = p.rtc_prefix;
  mask_length_min = p.mask_length_min;
  mask_length_max = p.mask_length_max;
}

unfoldable pub crd_to_api_defined_set : Crd.DefinedSet → DefinedSet
unfolding crd_to_api_defined_type prefix_of_crd
crd_to_api_defined_set crd = record {
  defined_type = crd_to_api_defined_type crd.defined_type;
  name = crd.name;
  list = crd.list;
  prefixes = map prefix_of_crd crd.prefixes;
}

unfoldable pub crd_to_api_match_set_type : String → MatchType
crd_to_api_match_set_type s =
    if s == "all" then match_all else if s == "invert" then match_invert else match_any

unfoldable pub crd_to_api_match_set : Option Crd.MatchSet → Option MatchSet
unfolding crd_to_api_match_set_type
crd_to_api_match_set none = none
crd_to_api_match_set (some crd) =
    some (record { name = crd.name; match_type = crd_to_api_match_set_type crd.match })

unfoldable pub crd_to_api_rpki_validation_result : String → ValidationState
crd_to_api_rpki_validation_result s =
    if lower s == codes "valid"
    then validation_valid
    else if lower s == codes "invalid"
    then validation_invalid
    else if lower s == codes "not-found"
    then validation_not_found
    else validation_none

unfoldable pub crd_to_api_community_action_type : String → CommunityActionType
crd_to_api_community_action_type s =
    if s == "remove"
    then community_remove
    else if s == "replace"
    then community_replace
    else community_add

unfoldable pub crd_to_api_med_action_type : String → MedActionType
crd_to_api_med_action_type s = if s == "replace" then med_replace else med_mod

unfoldable pub crd_to_api_comparison : String → Comparison
crd_to_api_comparison s =
    if s == "ge" then comparison_ge else if s == "le" then comparison_le else comparison_eq

unfoldable pub crd_to_api_origin_type : String → OriginType
crd_to_api_origin_type s =
    if s == "igp"
    then origin_igp
    else if s == "egp"
    then origin_egp
    else if s == "incomplete"
    then origin_incomplete
    else origin_unspecified

unfoldable pub crd_to_api_route_type : String → RouteType
crd_to_api_route_type s =
    if s == "internal"
    then route_type_internal
    else if s == "external"
    then route_type_external
    else if s == "local"
    then route_type_local
    else route_type_unspecified

unfoldable pub crd_to_api_as_path_length : Option Crd.AsPathLengthCondition → Option AsPathLength
unfolding crd_to_api_comparison
crd_to_api_as_path_length none = none
crd_to_api_as_path_length (some crd) =
    some (record { comparison = crd_to_api_comparison crd.operator; length = crd.length })

unfoldable pub crd_to_api_community_count :
    Option Crd.CommunityCountCondition → Option CommunityCount
unfolding crd_to_api_comparison
crd_to_api_community_count none = none
crd_to_api_community_count (some crd) =
    some (record { comparison = crd_to_api_comparison crd.operator; count = crd.count })

unfoldable pub crd_to_api_nexthop_action : Option Crd.NexthopAction → Option NexthopAction
crd_to_api_nexthop_action none = none
crd_to_api_nexthop_action (some crd) = some (record {
  address = crd.address;
  self = crd.self;
  unchanged = crd.unchanged;
  peer_address = crd.peer_address;
})

unfoldable pub crd_to_api_community_action : Option Crd.CommunityAction → Option CommunityAction
unfolding crd_to_api_community_action_type
crd_to_api_community_action none = none
crd_to_api_community_action (some crd) = some (record {
  action_type = crd_to_api_community_action_type crd.action_type;
  communities = crd.communities;
})

unfoldable pub crd_to_api_med_action : Option Crd.MedAction → Option MedAction
unfolding crd_to_api_med_action_type
crd_to_api_med_action none = none
crd_to_api_med_action (some crd) =
    some (record { action_type = crd_to_api_med_action_type crd.action_type; value = crd.value })

unfoldable pub crd_to_api_as_prepend_action : Option Crd.AsPrependAction → Option AsPrependAction
crd_to_api_as_prepend_action none = none
crd_to_api_as_prepend_action (some crd) = some (record { asn = crd.asn; repeat = crd.repeat })

unfoldable pub crd_to_api_conditions : Crd.Conditions → Conditions
unfolding crd_to_api_match_set crd_to_api_rpki_validation_result crd_to_api_as_path_length
    crd_to_api_community_count crd_to_api_route_type crd_to_api_origin_type crd_to_api_families
crd_to_api_conditions crd = record {
  prefix_set = crd_to_api_match_set crd.prefix_set;
  neighbor_set = crd_to_api_match_set crd.neighbor_set;
  as_path_set = crd_to_api_match_set crd.as_path_set;
  community_set = crd_to_api_match_set crd.community_set;
  ext_community_set = crd_to_api_match_set crd.ext_community_set;
  large_community_set = crd_to_api_match_set crd.large_community_set;
  rpki_result = crd_to_api_rpki_validation_result crd.rpki_result;
  as_path_length = crd_to_api_as_path_length crd.as_path_length;
  community_count = crd_to_api_community_count crd.community_count;
  route_type = crd_to_api_route_type crd.route_type;
  origin = crd_to_api_origin_type crd.origin;
  next_hop_in_list = crd.next_hop_in_list;
  afi_safi_in = crd_to_api_families crd.afi_safi_in;
  local_pref_eq = crd.local_pref_eq;
  med_eq = crd.med_eq;
}

unfoldable pub crd_to_api_actions : Crd.Actions → Actions
unfolding crd_to_api_route_action crd_to_api_community_action crd_to_api_med_action
    crd_to_api_as_prepend_action crd_to_api_nexthop_action crd_to_api_origin_type
crd_to_api_actions crd = record {
  route_action = crd_to_api_route_action crd.route_action;
  community = crd_to_api_community_action crd.community;
  ext_community = crd_to_api_community_action crd.ext_community;
  large_community = crd_to_api_community_action crd.large_community;
  med = crd_to_api_med_action crd.med;
  as_prepend = crd_to_api_as_prepend_action crd.as_prepend;
  nexthop = crd_to_api_nexthop_action crd.nexthop;
  local_pref = some crd.local_pref;
  origin_action = if crd.origin == "" then none else some (crd_to_api_origin_type crd.origin);
}

unfoldable pub crd_to_api_statement : Crd.Statement → Statement
unfolding crd_to_api_conditions crd_to_api_actions
crd_to_api_statement crd = record {
  name = crd.name;
  conditions = crd_to_api_conditions crd.conditions;
  actions = crd_to_api_actions crd.actions;
}

unfoldable pub crd_to_api_policy : Crd.PolicyDefinition → Policy
unfolding crd_to_api_statement
crd_to_api_policy crd = record {
  name = crd.name;
  statements = map crd_to_api_statement crd.statements;
}
