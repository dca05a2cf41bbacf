-- ===== src/Crd/Policies.antt =====
-- api/v1/types.go: defined sets and policies.
use k8gobgp.Prelude.{ℕ, String, Bool, Option, List}

-- A signed 64-bit number: its sign and magnitude.
pub record MedValue : Type 0 where
  pub negative : Bool
  pub magnitude : ℕ

pub record Prefix : Type 0 where
  pub ip_prefix : String
  pub rtc_prefix : String
  pub mask_length_min : ℕ
  pub mask_length_max : ℕ

pub record DefinedSet : Type 0 where
  pub defined_type : String
  pub name : String
  pub list : List String
  pub prefixes : List Prefix

pub record MatchSet : Type 0 where
  pub name : String
  pub match : String

pub record AsPathLengthCondition : Type 0 where
  pub operator : String
  pub length : ℕ

pub record CommunityCountCondition : Type 0 where
  pub operator : String
  pub count : ℕ

pub record NexthopAction : Type 0 where
  pub address : String
  pub self : Bool
  pub unchanged : Bool
  pub peer_address : Bool

pub record CommunityAction : Type 0 where
  pub action_type : String
  pub communities : List String

pub record MedAction : Type 0 where
  pub action_type : String
  pub value : MedValue

pub record AsPrependAction : Type 0 where
  pub asn : ℕ
  pub repeat : ℕ

pub record Conditions : Type 0 where
  pub prefix_set : Option MatchSet
  pub neighbor_set : Option MatchSet
  pub as_path_set : Option MatchSet
  pub community_set : Option MatchSet
  pub rpki_result : String
  pub ext_community_set : Option MatchSet
  pub large_community_set : Option MatchSet
  pub as_path_length : Option AsPathLengthCondition
  pub community_count : Option CommunityCountCondition
  pub route_type : String
  pub origin : String
  pub next_hop_in_list : List String
  pub afi_safi_in : List String
  pub local_pref_eq : Option ℕ
  pub med_eq : Option ℕ

pub record Actions : Type 0 where
  pub route_action : String
  pub community : Option CommunityAction
  pub ext_community : Option CommunityAction
  pub large_community : Option CommunityAction
  pub nexthop : Option NexthopAction
  pub origin : String
  pub med : Option MedAction
  pub as_prepend : Option AsPrependAction
  pub local_pref : ℕ

pub record Statement : Type 0 where
  pub name : String
  pub conditions : Conditions
  pub actions : Actions

pub record PolicyDefinition : Type 0 where
  pub name : String
  pub statements : List Statement
