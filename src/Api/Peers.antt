-- ===== src/Api/Peers.antt =====
-- The protobuf messages of the gobgp API that the controller sends for peers and reads back, with the
-- fields that it reads or sets. A message field and a field with explicit presence are an `Option`.
-- Policies stand in an assignment by their names, the only field of them that is set or read there.
use k8gobgp.Prelude.{ℕ, String, Bool, Option, List, Eq, discrete_eq}

pub data Afi : Type 0 where
  afi_unspecified afi_ip afi_ip6 afi_l2vpn : Afi

unfoldable pub Afi-discrete : Discrete Afi
Afi-discrete = hlevel

instance abbrev pub afi_eq : Eq Afi
afi_eq = discrete_eq Afi-discrete

pub data Safi : Type 0 where
  safi_unspecified safi_unicast safi_mpls_label safi_mpls_vpn safi_vpls safi_evpn
        safi_flow_spec_unicast safi_route_target_constraints :
      Safi

unfoldable pub Safi-discrete : Discrete Safi
Safi-discrete = hlevel

instance abbrev pub safi_eq : Eq Safi
safi_eq = discrete_eq Safi-discrete

pub data RemovePrivate : Type 0 where
  remove_private_unspecified remove_private_all remove_private_replace : RemovePrivate

unfoldable pub RemovePrivate-discrete : Discrete RemovePrivate
RemovePrivate-discrete = hlevel

instance abbrev pub remove_private_eq : Eq RemovePrivate
remove_private_eq = discrete_eq RemovePrivate-discrete

pub data RouteAction : Type 0 where
  route_action_unspecified route_action_accept route_action_reject : RouteAction

unfoldable pub RouteAction-discrete : Discrete RouteAction
RouteAction-discrete = hlevel

instance abbrev pub route_action_eq : Eq RouteAction
route_action_eq = discrete_eq RouteAction-discrete

pub data PolicyDirection : Type 0 where
  policy_direction_unspecified policy_direction_import policy_direction_export : PolicyDirection

unfoldable pub PolicyDirection-discrete : Discrete PolicyDirection
PolicyDirection-discrete = hlevel

instance abbrev pub policy_direction_eq : Eq PolicyDirection
policy_direction_eq = discrete_eq PolicyDirection-discrete

pub record Family : Type 0 where
  pub afi : Afi
  pub safi : Safi

pub record AfiSafiConfig : Type 0 where
  pub family : Option Family
  pub enabled : Bool

pub record PrefixLimit : Type 0 where
  pub family : Option Family
  pub max_prefixes : ℕ
  pub shutdown_threshold_pct : ℕ

pub record AddPathsConfig : Type 0 where
  pub receive : Bool
  pub send_max : ℕ

pub record AddPaths : Type 0 where
  pub config : Option AddPathsConfig

pub record AfiSafi : Type 0 where
  pub config : Option AfiSafiConfig
  pub prefix_limits : Option PrefixLimit
  pub add_paths : Option AddPaths

pub record TimersConfig : Type 0 where
  pub connect_retry : ℕ
  pub hold_time : ℕ
  pub keepalive_interval : ℕ

pub record Timers : Type 0 where
  pub config : Option TimersConfig

pub record Transport : Type 0 where
  pub local_address : String
  pub passive_mode : Bool
  pub bind_interface : String
  pub ip_tos : ℕ

pub record GracefulRestart : Type 0 where
  pub enabled : Bool
  pub restart_time : ℕ
  pub stale_routes_time : ℕ
  pub helper_only : Bool
  pub deferral_time : ℕ

pub record RouteReflector : Type 0 where
  pub route_reflector_client : Bool
  pub route_reflector_cluster_id : String

pub record EbgpMultihop : Type 0 where
  pub enabled : Bool
  pub multihop_ttl : ℕ

pub record BfdPeerConfig : Type 0 where
  pub enabled : Bool
  pub port : ℕ
  pub desired_minimum_tx_interval : ℕ
  pub required_minimum_receive : ℕ
  pub detection_multiplier : ℕ

pub record PolicyAssignment : Type 0 where
  pub name : String
  pub direction : PolicyDirection
  pub policies : List String
  pub default_action : RouteAction

pub record ApplyPolicy : Type 0 where
  pub export_policy : Option PolicyAssignment
  pub import_policy : Option PolicyAssignment

pub record PeerConf : Type 0 where
  pub neighbor_address : String
  pub peer_asn : ℕ
  pub peer_group : String
  pub admin_down : Bool
  pub neighbor_interface : String
  pub vrf : String
  pub local_asn : Option ℕ
  pub description : Option String
  pub auth_password : Option String
  pub allow_own_asn : Option ℕ
  pub replace_peer_asn : Option Bool
  pub allow_aspath_loop_local : Option Bool
  pub remove_private : Option RemovePrivate
  pub send_software_version : Option Bool
  pub send_community : Option ℕ

pub record PeerState : Type 0 where
  pub auth_password_set : Bool

pub record Peer : Type 0 where
  pub conf : Option PeerConf
  pub state : Option PeerState
  pub afi_safis : List AfiSafi
  pub apply_policy : Option ApplyPolicy
  pub timers : Option Timers
  pub transport : Option Transport
  pub graceful_restart : Option GracefulRestart
  pub route_reflector : Option RouteReflector
  pub ebgp_multihop : Option EbgpMultihop
  pub bfd : Option BfdPeerConfig

pub record PeerGroupConf : Type 0 where
  pub peer_group_name : String
  pub peer_asn : ℕ
  pub local_asn : ℕ
  pub description : String
  pub auth_password : String
  pub allow_own_asn : ℕ
  pub replace_peer_asn : Bool
  pub allow_aspath_loop_local : Bool
  pub remove_private : RemovePrivate
  pub send_software_version : Bool
  pub send_community : Option ℕ

pub record PeerGroup : Type 0 where
  pub conf : Option PeerGroupConf
  pub afi_safis : List AfiSafi
  pub apply_policy : Option ApplyPolicy
  pub timers : Option Timers
  pub transport : Option Transport
  pub graceful_restart : Option GracefulRestart
  pub bfd : Option BfdPeerConfig
