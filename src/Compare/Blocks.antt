-- ===== src/Compare/Blocks.antt =====
-- The comparators of the blocks of a peer: afiSafisConfigEqual to ebgpMultihopEqual,
-- sendCommunityEqual and bfdEqual. A nil block reads as its zero value.
use k8gobgp.Prelude.{
  ℕ, Bool, true, false, ◌&&◌, ◌||◌, Option, none, some, List, [], ◌∷◌, ◌==◌, ◌!=◌, nat_eq, bool_eq,
  string_eq, list_eq, if◌then◌else◌, none_of, value_or, length,
}
use k8gobgp.Api.{
  Family, AfiSafiConfig, AfiSafi, Timers, Transport, GracefulRestart, RouteReflector, EbgpMultihop,
  BfdPeerConfig, PolicyAssignment, ApplyPolicy, afi_eq, safi_eq, route_action_eq, timers_config,
  import_policy_of, export_policy_of, zero_transport, zero_graceful_restart, zero_route_reflector,
  zero_ebgp_multihop, zero_bfd,
}

-- One round of the loop of afiSafisConfigEqual, family first: pointers that are nil on one side
-- differ, and where both are nil the rest is not compared.
unfoldable pub family_differs : Option Family → Option Family → Bool → Bool → Bool
family_differs (some f) (some g) d_enabled c_enabled =
    f.afi != g.afi || f.safi != g.safi || d_enabled != c_enabled
family_differs none none d_enabled c_enabled = false
family_differs _ _ d_enabled c_enabled = true

unfoldable pub afi_safi_differs : Option AfiSafiConfig → Option AfiSafiConfig → Bool
unfolding family_differs
afi_safi_differs (some d) (some c) = family_differs d.family c.family d.enabled c.enabled
afi_safi_differs none none = false
afi_safi_differs _ _ = true

-- The loop; the lengths were compared before it.
unfoldable pub afi_safis_loop : List AfiSafi → List AfiSafi → Bool
unfolding afi_safi_differs
afi_safis_loop (d ∷ ds) (c ∷ cs) =
    if afi_safi_differs d.config c.config then false else afi_safis_loop ds cs
afi_safis_loop _ _ = true

unfoldable pub afi_safis_config_equal : List AfiSafi → List AfiSafi → Bool
unfolding afi_safis_loop
afi_safis_config_equal desired current =
    if length desired == 0
    then true
    else if length desired != length current
    then false
    else afi_safis_loop desired current

unfoldable pub timers_config_equal : Option Timers → Option Timers → Bool
timers_config_equal desired current =
    let d = timers_config desired in
    let c = timers_config current in
    none_of (
      (d.connect_retry != 0 && d.connect_retry != c.connect_retry)
      ∷ (d.hold_time != 0 && d.hold_time != c.hold_time)
      ∷ (d.keepalive_interval != 0 && d.keepalive_interval != c.keepalive_interval)
      ∷ [])

unfoldable pub transport_config_equal : Option Transport → Option Transport → Bool
transport_config_equal desired current =
    let d = value_or zero_transport desired in
    let c = value_or zero_transport current in
    if d.local_address != "" && d.local_address != c.local_address
    then false
    else d.passive_mode == c.passive_mode
      && d.bind_interface == c.bind_interface
      && d.ip_tos == c.ip_tos

-- The loop over the policies compares their names, after the lengths.
unfoldable pub policy_assignment_equal : PolicyAssignment → PolicyAssignment → Bool
policy_assignment_equal desired current = none_of (
    (desired.default_action != current.default_action)
    ∷ (length desired.policies != length current.policies)
    ∷ (desired.policies != current.policies)
    ∷ [])

unfoldable pub apply_policy_equal : Option ApplyPolicy → Option ApplyPolicy → Bool
unfolding policy_assignment_equal
apply_policy_equal desired current =
    policy_assignment_equal (import_policy_of desired) (import_policy_of current)
    && policy_assignment_equal (export_policy_of desired) (export_policy_of current)

unfoldable pub graceful_restart_equal : Option GracefulRestart → Option GracefulRestart → Bool
graceful_restart_equal desired current =
    let d = value_or zero_graceful_restart desired in
    let c = value_or zero_graceful_restart current in
    none_of (
      (d.enabled != c.enabled || d.helper_only != c.helper_only)
      ∷ (d.restart_time != 0 && d.restart_time != c.restart_time)
      ∷ (d.stale_routes_time != c.stale_routes_time)
      ∷ [])

unfoldable pub route_reflector_equal : Option RouteReflector → Option RouteReflector → Bool
route_reflector_equal desired current =
    let d = value_or zero_route_reflector desired in
    let c = value_or zero_route_reflector current in
    if d.route_reflector_cluster_id != ""
      && d.route_reflector_cluster_id != c.route_reflector_cluster_id
    then false
    else d.route_reflector_client == c.route_reflector_client

unfoldable pub ebgp_multihop_equal : Option EbgpMultihop → Option EbgpMultihop → Bool
ebgp_multihop_equal desired current =
    let d = value_or zero_ebgp_multihop desired in
    let c = value_or zero_ebgp_multihop current in
    d.enabled == c.enabled && d.multihop_ttl == c.multihop_ttl

unfoldable pub send_community_equal : Option ℕ → Option ℕ → Bool
send_community_equal none current = true
send_community_equal (some d) none = false
send_community_equal (some d) (some c) = d == c

abbrev bfd_default_port : ℕ
bfd_default_port = 3784

abbrev bfd_default_interval : ℕ
bfd_default_interval = 1000000

abbrev bfd_default_detection_multiplier : ℕ
bfd_default_detection_multiplier = 3

abbrev pub default_if_zero : ℕ → ℕ → ℕ
default_if_zero n d = if n == 0 then d else n

unfoldable pub bfd_with_defaults : Option BfdPeerConfig → BfdPeerConfig
bfd_with_defaults cfg =
    let c = value_or zero_bfd cfg in
    record {
      enabled = c.enabled;
      port = default_if_zero c.port bfd_default_port;
      desired_minimum_tx_interval =
          default_if_zero c.desired_minimum_tx_interval bfd_default_interval;
      required_minimum_receive = default_if_zero c.required_minimum_receive bfd_default_interval;
      detection_multiplier =
          default_if_zero c.detection_multiplier bfd_default_detection_multiplier;
    }

-- `defaulted` fills in the defaults on both sides first.
unfoldable pub bfd_equal : Option BfdPeerConfig → Option BfdPeerConfig → Bool → Bool
unfolding bfd_with_defaults
bfd_equal desired current defaulted =
    let d = if defaulted then bfd_with_defaults desired else value_or zero_bfd desired in
    let c = if defaulted then bfd_with_defaults current else value_or zero_bfd current in
    d.enabled == c.enabled
    && d.port == c.port
    && d.desired_minimum_tx_interval == c.desired_minimum_tx_interval
    && d.required_minimum_receive == c.required_minimum_receive
    && d.detection_multiplier == c.detection_multiplier
