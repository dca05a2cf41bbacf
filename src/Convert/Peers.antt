-- ===== src/Convert/Peers.antt =====
-- The conversion helpers of the blocks of a peer or peer group, and the conversions of the two.
use k8gobgp.Prelude.{
  ℕ, String, false, Option, none, some, List, map, ◌==◌, nat_eq, string_eq, list_eq, if◌then◌else◌,
  value_or,
}
use k8gobgp.Prelude.Text.{codes, lower}
use k8gobgp.Crd
use k8gobgp.Api.{
  RemovePrivate, remove_private_unspecified, remove_private_all, remove_private_replace,
  RouteAction, route_action_unspecified, route_action_accept, route_action_reject,
  policy_direction_unspecified, AfiSafi, PrefixLimit, AddPaths, Timers, Transport, GracefulRestart,
  RouteReflector, EbgpMultihop, BfdPeerConfig, PolicyAssignment, ApplyPolicy, Peer, PeerGroup,
}
use k8gobgp.Convert.Families.{crd_to_api_family}

-- Option.map with a conversion, for `if crd == nil { return nil }`.
abbrev on_some : {A B : Type 0} → (A → B) → Option A → Option B
on_some f none = none
on_some f (some a) = some (f a)

unfoldable pub crd_to_api_remove_private : String → RemovePrivate
crd_to_api_remove_private s =
    if s == "all"
    then remove_private_all
    else if s == "replace"
    then remove_private_replace
    else remove_private_unspecified

-- Nil for the unspecified value.
set_remove_private : RemovePrivate → Option RemovePrivate
set_remove_private remove_private_unspecified = none
set_remove_private v = some v

unfoldable pub crd_to_api_remove_private_ptr : String → Option RemovePrivate
unfolding set_remove_private crd_to_api_remove_private
crd_to_api_remove_private_ptr s = set_remove_private (crd_to_api_remove_private s)

-- sendCommunityOrdinals
unfoldable pub crd_to_api_send_community : String → Option ℕ
crd_to_api_send_community s =
    if s == "standard"
    then some 0
    else if s == "extended"
    then some 1
    else if s == "both"
    then some 2
    else if s == "none"
    then some 3
    else none

-- ptrIfSet, at uint32
unfoldable pub ptr_if_set : ℕ → Option ℕ
ptr_if_set v = if v == 0 then none else some v

unfoldable pub crd_to_api_route_action : String → RouteAction
crd_to_api_route_action s =
    if lower s == codes "accept"
    then route_action_accept
    else if lower s == codes "reject"
    then route_action_reject
    else route_action_unspecified

unfoldable pub crd_to_api_policy_assignment : Option Crd.PolicyAssignment → Option PolicyAssignment
unfolding crd_to_api_route_action
crd_to_api_policy_assignment = on_some λ crd. record {
  name = crd.name;
  direction = policy_direction_unspecified;
  policies = crd.policies;
  default_action = crd_to_api_route_action crd.default_action;
}

unfoldable pub crd_to_api_apply_policy : Option Crd.ApplyPolicy → Option ApplyPolicy
unfolding crd_to_api_policy_assignment
crd_to_api_apply_policy = on_some λ crd. record {
  export_policy = crd_to_api_policy_assignment crd.export_policy;
  import_policy = crd_to_api_policy_assignment crd.import_policy;
}

unfoldable pub crd_to_api_timers : Option Crd.Timers → Option Timers
crd_to_api_timers = on_some λ crd. record {
  config = some (record {
    connect_retry = crd.config.connect_retry;
    hold_time = crd.config.hold_time;
    keepalive_interval = crd.config.keepalive_interval;
  });
}

unfoldable pub crd_to_api_transport : Option Crd.Transport → Option Transport
crd_to_api_transport = on_some λ crd. record {
  local_address = crd.local_address;
  passive_mode = crd.passive_mode;
  bind_interface = crd.bind_interface;
  ip_tos = crd.ip_tos;
}

unfoldable pub crd_to_api_graceful_restart : Option Crd.GracefulRestart → Option GracefulRestart
crd_to_api_graceful_restart = on_some λ crd. record {
  enabled = crd.enabled;
  restart_time = crd.restart_time;
  stale_routes_time = crd.stale_routes_time;
  helper_only = crd.helper_only;
  deferral_time = 0;
}

unfoldable pub crd_to_api_route_reflector : Option Crd.RouteReflector → Option RouteReflector
crd_to_api_route_reflector = on_some λ crd. record {
  route_reflector_client = crd.route_reflector_client;
  route_reflector_cluster_id = crd.route_reflector_cluster_id;
}

unfoldable pub crd_to_api_ebgp_multihop : Option Crd.EbgpMultihop → Option EbgpMultihop
crd_to_api_ebgp_multihop =
    on_some λ crd. record { enabled = crd.enabled; multihop_ttl = crd.multihop_ttl }

unfoldable pub crd_to_api_bfd : Option Crd.Bfd → Option BfdPeerConfig
crd_to_api_bfd = on_some λ crd. record {
  enabled = value_or false crd.enabled;
  port = crd.port;
  desired_minimum_tx_interval = crd.desired_minimum_tx_interval;
  required_minimum_receive = crd.required_minimum_receive;
  detection_multiplier = crd.detection_multiplier;
}

crd_to_api_prefix_limit : Option Crd.PrefixLimit → String → Option PrefixLimit
crd_to_api_prefix_limit limit family =
    on_some
      (λ crd. record {
        family = some (crd_to_api_family family);
        max_prefixes = crd.max_prefixes;
        shutdown_threshold_pct = crd.shutdown_threshold_pct;
      })
      limit

crd_to_api_add_paths : Option Crd.AddPaths → Option AddPaths
crd_to_api_add_paths =
    on_some
      λ crd. record { config = some (record { receive = crd.receive; send_max = crd.send_max }) }

-- One round of the loop of crdToAPIAfiSafis.
unfoldable pub crd_to_api_afi_safi : Crd.AfiSafi → AfiSafi
unfolding crd_to_api_prefix_limit crd_to_api_add_paths
crd_to_api_afi_safi crd = record {
  config = some (record { family = some (crd_to_api_family crd.family); enabled = crd.enabled });
  prefix_limits = crd_to_api_prefix_limit crd.prefix_limit crd.family;
  add_paths = crd_to_api_add_paths crd.add_paths;
}

unfoldable pub crd_to_api_afi_safis : List Crd.AfiSafi → List AfiSafi
unfolding crd_to_api_afi_safi
crd_to_api_afi_safis crds = map crd_to_api_afi_safi crds

-- crdToAPINeighborWithPassword
unfoldable pub crd_to_api_neighbor : Crd.Neighbor → Option String → Peer
crd_to_api_neighbor crd auth_password = record {
  conf = some (record {
    neighbor_address = crd.config.neighbor_address;
    peer_asn = crd.config.peer_asn;
    peer_group = crd.config.peer_group;
    admin_down = crd.config.admin_down;
    neighbor_interface = crd.config.neighbor_interface;
    vrf = crd.config.vrf;
    local_asn = ptr_if_set crd.config.local_asn;
    description = crd.config.description;
    auth_password = auth_password;
    allow_own_asn = crd.config.allow_own_asn;
    replace_peer_asn = crd.config.replace_peer_asn;
    allow_aspath_loop_local = crd.config.allow_aspath_loop_local;
    remove_private = crd_to_api_remove_private_ptr crd.config.remove_private;
    send_software_version = crd.config.send_software_version;
    send_community = crd_to_api_send_community crd.config.send_community;
  });
  state = none;
  afi_safis = crd_to_api_afi_safis crd.afi_safis;
  apply_policy = crd_to_api_apply_policy crd.apply_policy;
  timers = crd_to_api_timers crd.timers;
  transport = crd_to_api_transport crd.transport;
  graceful_restart = crd_to_api_graceful_restart crd.graceful_restart;
  route_reflector = crd_to_api_route_reflector crd.route_reflector;
  ebgp_multihop = crd_to_api_ebgp_multihop crd.ebgp_multihop;
  bfd = crd_to_api_bfd crd.bfd;
}

-- crdToAPIPeerGroupWithPassword
unfoldable pub crd_to_api_peer_group : Crd.PeerGroup → String → PeerGroup
crd_to_api_peer_group crd auth_password = record {
  conf = some (record {
    peer_group_name = crd.config.peer_group_name;
    peer_asn = crd.config.peer_asn;
    local_asn = crd.config.local_asn;
    description = crd.config.description;
    auth_password = auth_password;
    allow_own_asn = crd.config.allow_own_asn;
    replace_peer_asn = crd.config.replace_peer_asn;
    allow_aspath_loop_local = crd.config.allow_aspath_loop_local;
    remove_private = crd_to_api_remove_private crd.config.remove_private;
    send_software_version = crd.config.send_software_version;
    send_community = crd_to_api_send_community crd.config.send_community;
  });
  afi_safis = crd_to_api_afi_safis crd.afi_safis;
  apply_policy = crd_to_api_apply_policy crd.apply_policy;
  timers = crd_to_api_timers crd.timers;
  transport = crd_to_api_transport crd.transport;
  graceful_restart = crd_to_api_graceful_restart crd.graceful_restart;
  bfd = crd_to_api_bfd crd.bfd;
}
