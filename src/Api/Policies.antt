-- ===== src/Api/Policies.antt =====
-- gobgp's messages for defined sets, policies and VRFs. A Med value is an int64, by sign and magnitude.
use k8gobgp.Prelude.{ℕ, String, Bool, Option, List}
use k8gobgp.Prelude.{Eq, discrete_eq}
use k8gobgp.Crd.{MedValue}
use k8gobgp.Api.Peers.{Family, RouteAction}

pub data DefinedType : Type 0 where
  type_prefix type_neighbor type_as_path type_community : DefinedType

unfoldable pub DefinedType-discrete : Discrete DefinedType
DefinedType-discrete = hlevel

instance abbrev pub defined_type_eq : Eq DefinedType
defined_type_eq = discrete_eq DefinedType-discrete

pub record Prefix : Type 0 where
  pub ip_prefix : String
  pub rtc_prefix : String
  pub mask_length_min : ℕ
  pub mask_length_max : ℕ

pub record DefinedSet : Type 0 where
  pub defined_type : DefinedType
  pub name : String
  pub list : List String
  pub prefixes : List Prefix

pub data MatchType : Type 0 where
  match_any match_all match_invert : MatchType

pub record MatchSet : Type 0 where
  pub name : String
  pub match_type : MatchType

pub data Comparison : Type 0 where
  comparison_eq comparison_ge comparison_le : Comparison

pub data ValidationState : Type 0 where
  validation_none validation_not_found validation_valid validation_invalid : ValidationState

pub data RouteType : Type 0 where
  route_type_unspecified route_type_internal route_type_external route_type_local : RouteType

pub data OriginType : Type 0 where
  origin_unspecified origin_igp origin_egp origin_incomplete : OriginType

pub data CommunityActionType : Type 0 where
  community_add community_remove community_replace : CommunityActionType

pub data MedActionType : Type 0 where
  med_mod med_replace : MedActionType

pub record AsPathLength : Type 0 where
  pub comparison : Comparison
  pub length : ℕ

pub record CommunityCount : Type 0 where
  pub comparison : Comparison
  pub count : ℕ

pub record NexthopAction : Type 0 where
  pub address : String
  pub self : Bool
  pub unchanged : Bool
  pub peer_address : Bool

pub record CommunityAction : Type 0 where
  pub action_type : CommunityActionType
  pub communities : List String

pub record MedAction : Type 0 where
  pub action_type : MedActionType
  pub value : MedValue

pub record AsPrependAction : Type 0 where
  pub asn : ℕ
  pub repeat : ℕ

pub record Conditions : Type 0 where
  pub prefix_set : Option MatchSet
  pub neighbor_set : Option MatchSet
  pub as_path_set : Option MatchSet
  pub community_set : Option MatchSet
  pub ext_community_set : Option MatchSet
  pub large_community_set : Option MatchSet
  pub rpki_result : ValidationState
  pub as_path_length : Option AsPathLength
  pub community_count : Option CommunityCount
  pub route_type : RouteType
  pub origin : OriginType
  pub next_hop_in_list : List String
  pub afi_safi_in : List Family
  pub local_pref_eq : Option ℕ
  pub med_eq : Option ℕ

pub record Actions : Type 0 where
  pub route_action : RouteAction
  pub community : Option CommunityAction
  pub ext_community : Option CommunityAction
  pub large_community : Option CommunityAction
  pub med : Option MedAction
  pub as_prepend : Option AsPrependAction
  pub nexthop : Option NexthopAction
  pub local_pref : Option ℕ
  pub origin_action : Option OriginType

pub record Statement : Type 0 where
  pub name : String
  pub conditions : Conditions
  pub actions : Actions

pub record Policy : Type 0 where
  pub name : String
  pub statements : List Statement

pub data RouteDistinguisher : Type 0 where
  rd_two_octet_asn : ℕ → ℕ → RouteDistinguisher
  rd_ip_address : String → ℕ → RouteDistinguisher
  rd_four_octet_asn : ℕ → ℕ → RouteDistinguisher
  rd_unset : RouteDistinguisher

-- A TwoOctetAsSpecific extended community.
pub record RouteTarget : Type 0 where
  pub is_transitive : Bool
  pub sub_type : ℕ
  pub asn : ℕ
  pub local_admin : ℕ

pub record Vrf : Type 0 where
  pub name : String
  pub rd : Option RouteDistinguisher
  pub import_rt : List (Option RouteTarget)
  pub export_rt : List (Option RouteTarget)
