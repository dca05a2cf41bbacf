-- ===== src/Crd/Peers.antt =====
-- api/v1/types.go: the peer half of the CRD, a record for each struct. A pointer is an `Option`, an
-- absent string or number its zero value; `uint32` and `uint64` fields are natural numbers.
-- `SecretKeySelector` and `LabelSelector` are Kubernetes types, with the fields that the code passes on.
use k8gobgp.Prelude.{ℕ, String, Bool, Option, List}

pub record SecretKeySelector : Type 0 where
  pub name : String
  pub key : String

pub record SelectorRequirement : Type 0 where
  pub key : String
  pub operator : String
  pub values : List String

pub record LabelSelector : Type 0 where
  pub match_labels : List (String × String)
  pub match_expressions : List SelectorRequirement

pub record Bfd : Type 0 where
  pub enabled : Option Bool
  pub port : ℕ
  pub desired_minimum_tx_interval : ℕ
  pub required_minimum_receive : ℕ
  pub detection_multiplier : ℕ

pub record PrefixLimit : Type 0 where
  pub max_prefixes : ℕ
  pub shutdown_threshold_pct : ℕ

pub record AddPaths : Type 0 where
  pub receive : Bool
  pub send_max : ℕ

pub record AfiSafi : Type 0 where
  pub family : String
  pub enabled : Bool
  pub prefix_limit : Option PrefixLimit
  pub add_paths : Option AddPaths

pub record TimersConfig : Type 0 where
  pub connect_retry : ℕ
  pub hold_time : ℕ
  pub keepalive_interval : ℕ
  pub minimum_advertisement_interval : ℕ

pub record Timers : Type 0 where
  pub config : TimersConfig

pub record Transport : Type 0 where
  pub local_address : String
  pub passive_mode : Bool
  pub bind_interface : String
  pub ip_tos : ℕ

pub record GracefulRestart : Type 0 where
  pub enabled : Bool
  pub restart_time : ℕ
  pub stale_routes_time : ℕ
  pub helper_only : Bool

pub record RouteReflector : Type 0 where
  pub route_reflector_client : Bool
  pub route_reflector_cluster_id : String

pub record EbgpMultihop : Type 0 where
  pub enabled : Bool
  pub multihop_ttl : ℕ

pub record PolicyAssignment : Type 0 where
  pub name : String
  pub policies : List String
  pub default_action : String

pub record ApplyPolicy : Type 0 where
  pub export_policy : Option PolicyAssignment
  pub import_policy : Option PolicyAssignment

pub record NeighborConfig : Type 0 where
  pub auth_password : Option String
  pub auth_password_secret_ref : Option SecretKeySelector
  pub description : Option String
  pub local_asn : ℕ
  pub neighbor_address : String
  pub peer_asn : ℕ
  pub peer_group : String
  pub admin_down : Bool
  pub neighbor_interface : String
  pub vrf : String
  pub allow_own_asn : Option ℕ
  pub replace_peer_asn : Option Bool
  pub allow_aspath_loop_local : Option Bool
  pub send_community : String
  pub remove_private : String
  pub route_flap_damping : Bool
  pub send_software_version : Option Bool

pub record Neighbor : Type 0 where
  pub config : NeighborConfig
  pub node_selector : Option LabelSelector
  pub afi_safis : List AfiSafi
  pub apply_policy : Option ApplyPolicy
  pub timers : Option Timers
  pub transport : Option Transport
  pub graceful_restart : Option GracefulRestart
  pub route_reflector : Option RouteReflector
  pub ebgp_multihop : Option EbgpMultihop
  pub bfd : Option Bfd

pub record PeerGroupConfig : Type 0 where
  pub peer_group_name : String
  pub description : String
  pub peer_asn : ℕ
  pub local_asn : ℕ
  pub auth_password : String
  pub auth_password_secret_ref : Option SecretKeySelector
  pub allow_own_asn : ℕ
  pub replace_peer_asn : Bool
  pub allow_aspath_loop_local : Bool
  pub send_community : String
  pub remove_private : String
  pub route_flap_damping : Bool
  pub send_software_version : Bool

pub record PeerGroup : Type 0 where
  pub config : PeerGroupConfig
  pub node_selector : Option LabelSelector
  pub afi_safis : List AfiSafi
  pub apply_policy : Option ApplyPolicy
  pub timers : Option Timers
  pub transport : Option Transport
  pub graceful_restart : Option GracefulRestart
  pub bfd : Option Bfd
